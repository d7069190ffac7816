-- ===== src/Lifecycle/Calls.antt =====
-- `postOrderUpdate` of src/order/order-helper.service.ts: the calls behind an update.
use gitrema_backend.Prelude.{
  if◌then◌else◌, Bool, true, false, not, ◌&&◌, ◌||◌, Option, none, some, List, [], ◌∷◌, ◌++◌,
  is_some, is_text,
}
use gitrema_backend.Order.Status.{OrderType, OrderStatus}
use gitrema_backend.Lifecycle.State.{
  OrderDoc, UpdateOrderDto, Call, store_sent_to_kitchen, store_order_ready, calculate_timing,
  recalculate_after_sent, recalculate_after_completed, recalculate_after_update, kitchen_receipts,
  notify_kitchen_queue, ready_flag, table_transfer, cancel_delivery, regenerate_invoice,
  notify_status, set_customer,
}

-- The calls of `postOrderUpdate`, newest first.
abbrev pub when : Bool → List Call → List Call
when b cs = if b then cs else []

abbrev pub is_delivery : OrderType → Bool
is_delivery OrderType.delivery = true
is_delivery _ = false

-- `[New, SentToKitchen].includes(order.status)`
abbrev pub awaits_kitchen : OrderStatus → Bool
awaits_kitchen OrderStatus.new = true
awaits_kitchen OrderStatus.sent_to_kitchen = true
awaits_kitchen _ = false

abbrev pub cancelled_calls : OrderDoc → List Call
cancelled_calls o =
    when o.invoiced (regenerate_invoice o.id true ∷ [])
    ++ (recalculate_after_completed o.id
        ∷ when (is_delivery o.order_type) (cancel_delivery o.id ∷ []))

abbrev pub status_calls : OrderDoc → OrderStatus → List Call
status_calls o OrderStatus.sent_to_kitchen =
    notify_kitchen_queue o.id
      ∷ kitchen_receipts o.id true
      ∷ when (not o.is_scheduled) (recalculate_after_sent o.id ∷ calculate_timing o.id ∷ [])
    ++ (store_sent_to_kitchen o.id o.sent_to_kitchen_time ∷ [])
status_calls o OrderStatus.on_table =
    when (is_some o.table_id) (ready_flag o.id ∷ [])
    ++ (store_order_ready o.id o.order_ready_time ∷ [])
status_calls o OrderStatus.cancelled = cancelled_calls o
status_calls o OrderStatus.cancelled_wih_payment_failed = cancelled_calls o
status_calls o OrderStatus.cancelled_by_merge = cancelled_calls o
status_calls o _ = when (awaits_kitchen o.status) (recalculate_after_update o.id ∷ [])

abbrev pub asked_calls : OrderDoc → Option OrderStatus → List Call
asked_calls o none = []
asked_calls o (some s) = notify_status o.id s ∷ status_calls o s

unfoldable pub post_order_update : OrderDoc → UpdateOrderDto → OrderDoc → List Call
post_order_update o dto before =
    when (is_some dto.items) (kitchen_receipts o.id false ∷ [])
    ++ (when (is_some dto.items || is_text dto.coupon_code) (regenerate_invoice o.id false ∷ [])
        ++ (when (not (is_some o.customer_id) && is_text o.contact_number) (set_customer o.id ∷ [])
            ++ (when (is_some dto.table_id) (table_transfer o.id before.table_id ∷ [])
                ++ asked_calls o dto.status)))

-- ===== src/Table/Helper.antt =====
-- src/table/table-helper.service.ts: the flags of a table's log, and the orders on it.
use gitrema_backend.Prelude.{
  ℕ, ◌==◌, if◌then◌else◌, Bool, true, false, not, ◌&&◌, Option, none, some, List, [], ◌∷◌, ◌++◌,
  filter, length, ltb,
}
use gitrema_backend.Prelude.Int.{ℤ, pos, ◌+ℤ◌, ltb_ℤ}
use gitrema_backend.Prelude.Collection.{find, update_first}
use gitrema_backend.Order.Status.{OrderStatus, PreparationStatus, is_ended}
use gitrema_backend.Order.State.{Order}
use gitrema_backend.Table.State.{in_use, TableLog, TableState, is_table, is_log}
use gitrema_backend.Table.Log.{is_one_of, find_log, find_table, current_log_of, upsert, point_table}

abbrev pub total_of : (Order → ℤ) → List Order → ℤ
total_of f [] = pos 0
total_of f (o ∷ os) = f o +ℤ total_of f os

-- The orders of the log that are neither closed nor cancelled: `$match` of `handlePaymentNeeded`.
abbrev pub billed : TableLog → List Order → List Order
billed l = filter (λ o. is_one_of l.orders o.id && not (is_ended o.status))

-- The `$group` stage returns nothing where no order was matched.
unfoldable pub payment_needed_of : TableLog → List Order → Bool
payment_needed_of l orders = elim (billed l orders) [
  | [] ↦ false
  | o ∷ os ↦
      ltb_ℤ (total_of (λ x. x.summary.total_paid) (o ∷ os))
        (total_of (λ x. x.summary.total_with_tax) (o ∷ os))
]

abbrev pub save_table_log : ℕ → (TableLog → TableLog) → TableState → TableState
save_table_log id f s = record s { logs = update_first (is_log id) f s.logs }

-- `handlePaymentNeeded` with the log at hand, and from the table's identifier.
unfoldable pub refresh_payment_needed : List Order → TableLog → TableState → TableState
unfolding payment_needed_of
refresh_payment_needed orders l =
    save_table_log l.id (λ m. record m { payment_needed = payment_needed_of l orders })

unfoldable pub handle_payment_needed : List Order → ℕ → TableState → TableState
unfolding refresh_payment_needed
handle_payment_needed orders table_id s =
    elim (find_log (current_log_of (find (is_table table_id) s.tables)) s.logs) [
      | none ↦ s
      | some l ↦ refresh_payment_needed orders l s
    ]

abbrev pub push_order : ℕ → TableLog → TableLog
push_order id l = record l { orders = l.orders ++ (id ∷ []) }

-- The log that the upsert of `addOrderToTableLogWithAutoStart` inserts.
abbrev pub started_by : Order → ℕ → ℕ → TableLog
started_by o now id = record {
  id = id;
  supplier_id = o.supplier_id;
  restaurant_id = o.restaurant_id;
  table_id = o.table_id;
  waiter_id = o.waiter_id;
  orders = o.id ∷ [];
  starting_time = now;
  closing_time = none;
  menu_scanned_time = none;
  payment_needed = false;
  help_needed = false;
  item_ready = false;
  order_ready = false;
}

unfoldable pub add_order_to_table_log_with_auto_start :
    Order → ℕ → List Order → TableState → TableState
unfolding refresh_payment_needed
add_order_to_table_log_with_auto_start o now orders s =
    let (l, s') = upsert o.table_id (push_order o.id) (started_by o now) s in
    refresh_payment_needed orders l (point_table o.table_id in_use (some l.id) s')

-- `$pull: { orders: order._id }`
abbrev pub pull_order : ℕ → TableLog → TableLog
pull_order id l = record l { orders = filter (λ x. not (x == id)) l.orders }

-- The first half of `handleTableTransfer`, on the table that the order leaves.
unfoldable pub leave_table : Order → Option ℕ → List Order → TableState → TableState
unfolding refresh_payment_needed
leave_table o source orders s =
    elim (find_log (current_log_of (find_table source s.tables)) s.logs) [
      | none ↦ s
      | some l ↦
          refresh_payment_needed orders (pull_order o.id l)
            (save_table_log l.id (pull_order o.id) s)
    ]

unfoldable pub handle_table_transfer : Order → Option ℕ → ℕ → List Order → TableState → TableState
unfolding leave_table add_order_to_table_log_with_auto_start
handle_table_transfer o source now orders s =
    add_order_to_table_log_with_auto_start o now orders (leave_table o source orders s)

abbrev pub is_status_done : OrderStatus → Bool
is_status_done OrderStatus.done_preparing = true
is_status_done _ = false

abbrev pub is_item_done : PreparationStatus → Bool
is_item_done PreparationStatus.done_preparing = true
is_item_done _ = false

-- `items.find(…)`: some item of the order is done.
abbrev pub has_done_item : List PreparationStatus → Bool
has_done_item [] = false
has_done_item (p ∷ ps) = if is_item_done p then true else has_done_item ps

-- The list of `handleReadyFlag` lacks `CancelledByMerge`.
abbrev pub is_out : OrderStatus → Bool
is_out OrderStatus.cancelled = true
is_out OrderStatus.cancelled_wih_payment_failed = true
is_out OrderStatus.closed = true
is_out _ = false

abbrev pub served : TableLog → List Order → List Order
served l = filter (λ o. is_one_of l.orders o.id && not (is_out o.status))

unfoldable pub handle_ready_flag : Order → List Order → TableState → TableState
handle_ready_flag o orders s =
    elim (find_log (current_log_of (find_table o.table_id s.tables)) s.logs) [
      | none ↦ s
      | some l ↦
          save_table_log l.id
            (λ m. record m {
              order_ready =
                  ltb 0 (length (filter (λ x. is_status_done x.status) (served l orders)));
              item_ready = ltb 0 (length (filter (λ x. has_done_item x.items) (served l orders)));
            })
            s
    ]

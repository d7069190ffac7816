-- ===== src/Lifecycle/Cook.antt =====
-- `kitchenQueueProcess` of src/order/order.service.ts and `postKitchenQueueProcessing` of
-- src/order/order-helper.service.ts.
use gitrema_backend.Prelude.{
  ℕ, ◌==◌, if◌then◌else◌, Bool, true, false, ◌&&◌, Option, none, some, List, [], ◌∷◌, ◌++◌, is_some,
  map,
}
use gitrema_backend.Prelude.Action.{
  record_not_found, type_error, pure, gets, or_throw, modify, ◌>>=◌, ◌>>◌,
}
use gitrema_backend.Prelude.Collection.{update_first}
use gitrema_backend.Order.Status.{OrderStatus, PreparationStatus}
use gitrema_backend.Lifecycle.State.{
  OrderItem, OrderDoc, UpdateOrderDto, Call, ready_flag, recalculate_after_completed,
  emit_order_prepared, emit_item_prepared, Store, LifeAction, has_id, find_order, log_calls,
}
use gitrema_backend.Lifecycle.Calls.{when, post_order_update}
use gitrema_backend.Lifecycle.Update.{}

pub record KitchenQueueProcessDto : Type 0 where
  pub order_id : ℕ
  pub order_item_id : Option ℕ
  pub preparation_status : PreparationStatus

-- The items that a request is about: one item, or those of the user's kitchen queue, or all.
pub data Selection : Type 0 where
  item queue : ℕ → Selection
  every : Selection

-- `user_queue` is the kitchen queue of the user who asks, where there is one.
abbrev pub selection_of : KitchenQueueProcessDto → Option ℕ → Selection
selection_of dto user_queue = elim dto.order_item_id [
  | some id ↦ item id
  | none ↦ elim user_queue [ some q ↦ queue q | none ↦ every ]
]

abbrev pub same_id : ℕ → Option ℕ → Bool
same_id a none = false
same_id a (some b) = b == a

-- The filters `element._id`, `element.kitchenQueueId` and `element._id: { $ne: null }`.
abbrev pub is_selected : Selection → OrderItem → Bool
is_selected (item id) i = same_id id i.id
is_selected (queue q) i = same_id q i.kitchen_queue_id
is_selected every i = is_some i.id

abbrev pub prepare_item : PreparationStatus → Selection → OrderItem → OrderItem
prepare_item p sel i = if is_selected sel i then record i { preparation_status = p } else i

abbrev pub is_started : PreparationStatus → Bool
is_started PreparationStatus.started_preparing = true
is_started _ = false

abbrev pub is_done : PreparationStatus → Bool
is_done PreparationStatus.done_preparing = true
is_done _ = false

-- `actualDateObj`: the start of the preparation of the first item is that of the order. The date
-- is set where the document that was read has none.
unfoldable pub start_order : ℕ → PreparationStatus → OrderDoc → OrderDoc
start_order now p o =
    if is_started p
    then record o {
      status = OrderStatus.started_preparing;
      actual_start_time = elim o.actual_start_time [ none ↦ some now | some t ↦ some t ];
    }
    else o

-- The document behind `updateMany`.
unfoldable pub processed : ℕ → PreparationStatus → Selection → OrderDoc → OrderDoc
unfolding start_order
processed now p sel o = record (start_order now p o) { items = map (prepare_item p sel) o.items }

-- `items.length == items.filter(…).length`
abbrev pub all_done : List OrderItem → Bool
all_done [] = true
all_done (i ∷ is) = is_done i.preparation_status && all_done is

-- What `save` writes of `modifiedOrder`: the time of the end is assigned inside an object of no
-- schema, which Mongoose does not take for a change.
abbrev pub finished : OrderDoc → OrderDoc
finished o = record o { status = OrderStatus.done_preparing }

-- The body `{ status: DonePreparing }` that is handed to `postOrderUpdate`.
abbrev pub done_dto : UpdateOrderDto
done_dto = record {
  status = some OrderStatus.done_preparing;
  order_item_ids = none;
  items = none;
  coupon_code = none;
  table_id = none;
  tip = none;
  group_id = none;
}

-- `order` was read before the change, and is what the calls get.
abbrev pub item_calls : OrderDoc → List Call
item_calls order =
    emit_item_prepared order.id ∷ when (is_some order.table_id) (ready_flag order.id ∷ [])

abbrev pub order_calls : OrderDoc → OrderDoc → List Call
unfolding post_order_update
order_calls order modified =
    emit_order_prepared modified.id ∷ when (is_some order.table_id) (ready_flag order.id ∷ [])
    ++ (recalculate_after_completed modified.id ∷ post_order_update order done_dto modified)

abbrev pub save_order : ℕ → (OrderDoc → OrderDoc) → Store → Store
save_order id f s = record s { orders = update_first (has_id id) f s.orders }

-- The order is read again, and it is done once all its items are.
abbrev pub finish_order : OrderDoc → OrderDoc → LifeAction (Unit {0})
finish_order order modified =
    if all_done modified.items
    then modify (λ s. log_calls (order_calls order modified) (save_order order.id finished s))
    else modify (log_calls (item_calls order))

unfoldable pub post_kitchen_queue_processing : OrderDoc → PreparationStatus → LifeAction (Unit {0})
post_kitchen_queue_processing order p =
    if is_done p
    then (do
      modified ← or_throw (← gets (find_order order.id)) type_error
      finish_order order modified)
    else pure tt

-- The two writes, for the order that was found.
abbrev pub process_found :
    KitchenQueueProcessDto → (OrderDoc → OrderDoc) → OrderDoc → LifeAction Bool
process_found dto change order = do
  modify (save_order dto.order_id change)
  post_kitchen_queue_processing order dto.preparation_status
  pure true

unfoldable pub kitchen_queue_process : ℕ → Option ℕ → KitchenQueueProcessDto → LifeAction Bool
unfolding processed
kitchen_queue_process now user_queue dto = do
  order ← or_throw (← gets (find_order dto.order_id)) record_not_found
  process_found dto (processed now dto.preparation_status (selection_of dto user_queue)) order

-- ===== src/Lifecycle/Finishes.antt =====
-- An order whose items the kitchen reports as done one by one is finished
-- (`kitchenQueueProcess` and `postKitchenQueueProcessing` of src/order).
use gitrema_backend.Prelude.{ℕ, Bool, false, ◌||◌, Option, some, List, [], ◌∷◌}
use gitrema_backend.Order.Status.{PreparationStatus}
use gitrema_backend.Lifecycle.State.{OrderItem, Store}
use gitrema_backend.Lifecycle.Cook.{
  KitchenQueueProcessDto, item, same_id, is_done, prepare_item, kitchen_queue_process,
}

-- A cook reports one item.
pub record Report : Type 0 where
  pub now : ℕ
  pub user_queue : Option ℕ
  pub item_id : ℕ

abbrev pub report_dto : ℕ → Report → KitchenQueueProcessDto
report_dto id r = record {
  order_id = id;
  order_item_id = some r.item_id;
  preparation_status = PreparationStatus.done_preparing;
}

abbrev pub report_all : ℕ → List Report → Store → Store
report_all id [] s = s
report_all id (r ∷ rs) s =
    report_all id rs (kitchen_queue_process r.now r.user_queue (report_dto id r) s).1

abbrev pub is_reported : List Report → Option ℕ → Bool
is_reported [] id = false
is_reported (r ∷ rs) id = same_id r.item_id id || is_reported rs id

-- An item is done already, or one of the reports is about it.
abbrev pub is_covered : List Report → OrderItem → Bool
is_covered rs i = is_done i.preparation_status || is_reported rs i.id

abbrev pub done_by : Report → OrderItem → OrderItem
done_by r = prepare_item PreparationStatus.done_preparing (item r.item_id)

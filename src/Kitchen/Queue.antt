-- ===== src/Kitchen/Queue.antt =====
-- The recalculations of src/order/calculation.service.ts, after an order was sent, completed
-- or scheduled. Each reads the orders, and writes new details to some of them.
use gitrema_backend.Prelude.{
  ℕ, ◌+◌, ◌==◌, ltb, leb, if◌then◌else◌, Bool, ◌&&◌, ◌||◌, not, Option, none, some, List, [], ◌∷◌,
  filter, get_last?,
}
use gitrema_backend.Prelude.Collection.{update_first}
use gitrema_backend.Kitchen.State.{
  PreparationDetails, KitchenOrder, add_minutes, is_status_new, is_status_sent, is_status_waiting,
  same_queue, start_of, end_of, sort_by_start,
}

-- `recalculatePreparationTime`: the details that are written to the order and returned.
abbrev pub recalculated : PreparationDetails → PreparationDetails → PreparationDetails
recalculated before d = record d {
  expected_start_time = before.expected_end_time;
  expected_end_time = add_minutes before.expected_end_time d.preparation_time;
  kitchen_sorting_number = before.kitchen_sorting_number + 1;
}

-- The loop over the orders to recalculate: each behind the one before it.
unfoldable pub recalculate_loop :
    PreparationDetails → List KitchenOrder → List (ℕ × PreparationDetails)
recalculate_loop before [] = []
recalculate_loop before (o ∷ os) =
    let d = recalculated before o.preparation_details in (o.id, d) ∷ recalculate_loop d os

abbrev pub set_details : PreparationDetails → KitchenOrder → KitchenOrder
set_details d o = record o { preparation_details = d }

-- `orderService.generalUpdate(null, id, { preparationDetails })`, one behind the other.
unfoldable pub write_details : List (ℕ × PreparationDetails) → List KitchenOrder → List KitchenOrder
write_details [] orders = orders
write_details ((id, d) ∷ ws) orders =
    write_details ws (update_first (λ o. o.id == id) (set_details d) orders)

-- The orders that wait behind one that was sent to the kitchen.
unfoldable pub new_orders_of : ℕ → List KitchenOrder → List KitchenOrder
unfolding sort_by_start
new_orders_of qid orders =
    sort_by_start
      (filter (λ o. same_queue o.kitchen_queue_id (some qid) && is_status_new o.status) orders)

unfoldable pub identify_orders_to_recalculate_after_sent_to_kitchen :
    KitchenOrder → List KitchenOrder → List KitchenOrder
unfolding new_orders_of recalculate_loop write_details
identify_orders_to_recalculate_after_sent_to_kitchen order orders = elim order.kitchen_queue_id [
  | none ↦ orders
  | some qid ↦
      write_details (recalculate_loop order.preparation_details (new_orders_of qid orders)) orders
]

-- The orders that start behind `order`, and the last that starts before it.
unfoldable pub orders_behind : KitchenOrder → List KitchenOrder → List KitchenOrder
unfolding sort_by_start
orders_behind order orders = sort_by_start (
    filter
      (λ o.
        ltb (start_of order) (start_of o)
        && same_queue o.kitchen_queue_id order.kitchen_queue_id
        && is_status_waiting o.status)
      orders)

unfoldable pub order_before : KitchenOrder → List KitchenOrder → Option KitchenOrder
unfolding sort_by_start
order_before order orders = get_last? (
    sort_by_start (
      filter
        (λ o.
          ltb (start_of o) (start_of order)
          && same_queue o.kitchen_queue_id order.kitchen_queue_id
          && is_status_waiting o.status)
        orders))

abbrev pub details_or : PreparationDetails → Option KitchenOrder → PreparationDetails
details_or d none = d
details_or d (some o) = o.preparation_details

unfoldable pub identify_orders_to_recalculate_after_completed :
    KitchenOrder → List KitchenOrder → List KitchenOrder
unfolding orders_behind order_before recalculate_loop write_details
identify_orders_to_recalculate_after_completed order orders =
    write_details
      (recalculate_loop (details_or order.preparation_details (order_before order orders))
        (orders_behind order orders))
      orders

-- The unscheduled orders that start behind the start of `order`, or overlap it.
unfoldable pub orders_in_the_way : KitchenOrder → Bool → List KitchenOrder → List KitchenOrder
unfolding sort_by_start
orders_in_the_way order sent_only orders = sort_by_start (
    filter
      (λ o.
        (leb (start_of order) (start_of o)
          || (leb (start_of o) (end_of order) && ltb (start_of order) (end_of o)))
        && not o.is_scheduled
        && same_queue o.kitchen_queue_id order.kitchen_queue_id
        && (if sent_only then is_status_sent o.status else is_status_waiting o.status))
      orders)

unfoldable pub identify_orders_to_recalculate_for_scheduled :
    KitchenOrder → Bool → List KitchenOrder → List KitchenOrder
unfolding orders_in_the_way recalculate_loop write_details
identify_orders_to_recalculate_for_scheduled order sent_only orders =
    write_details
      (recalculate_loop order.preparation_details (orders_in_the_way order sent_only orders)) orders

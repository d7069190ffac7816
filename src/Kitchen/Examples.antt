-- ===== src/Kitchen/Examples.antt =====
-- A kitchen queue of three orders, and what is proved of it.
use gitrema_backend.Prelude.{ℕ, ◌≡◌, refl, inl, false, some, List, [], ◌∷◌, arith, All}
use gitrema_backend.Order.Status.{OrderStatus}
use gitrema_backend.Kitchen.State.{KitchenOrder, add_minutes}
use gitrema_backend.Kitchen.Slot.{queue_of, calculate_order_preparation_timing}
use gitrema_backend.Kitchen.Queue.{
  orders_behind, order_before, details_or, identify_orders_to_recalculate_after_completed,
}
use gitrema_backend.Kitchen.Queried.{Distinct}
use gitrema_backend.Kitchen.Disjoint.{IsClear, calculated-IsClear, calculated_overlap}
use gitrema_backend.Kitchen.Chain.{PacksBehind, completed-PacksBehind}

abbrev order_at : ℕ → OrderStatus → ℕ → ℕ → ℕ → KitchenOrder
order_at id status start minutes number = record {
  id = id;
  kitchen_queue_id = some 7;
  status = status;
  is_scheduled = false;
  items = minutes ∷ [];
  preparation_details = record {
    preparation_time = minutes;
    expected_start_time = start;
    expected_end_time = add_minutes start minutes;
    kitchen_sorting_number = number;
  };
}

abbrev burger : KitchenOrder
burger = order_at 1 OrderStatus.sent_to_kitchen 0 5 1

abbrev salad : KitchenOrder
salad = order_at 2 OrderStatus.new 300_000 5 2

abbrev pizza : KitchenOrder
pizza = order_at 3 OrderStatus.new 1_200_000 10 3

abbrev queue : List KitchenOrder
queue = pizza ∷ burger ∷ salad ∷ []

-- An order of ten minutes that has no place yet, and one of half an hour.
abbrev soup : KitchenOrder
soup = order_at 4 OrderStatus.new 0 10 0

abbrev roast : KitchenOrder
roast = order_at 5 OrderStatus.new 0 30 0

queue-Distinct : Distinct queue
queue-Distinct = ((refl, (refl, tt)), ((refl, tt), (tt, tt)))

-- The soup fits between the salad and the pizza.
calculated_soup : calculate_order_preparation_timing soup false 100_000 queue ≡ record {
  preparation_time = 10;
  expected_start_time = 600_000;
  expected_end_time = 1_200_000;
  kitchen_sorting_number = 3;
}
unfolding calculate_order_preparation_timing
calculated_soup = refl

calculated-IsClear_example :
    let d = calculate_order_preparation_timing soup false 100_000 queue in
    All (IsClear d.expected_start_time d.expected_end_time) (queue_of soup false 7 100_000 queue)
    × (d.expected_end_time ≡ add_minutes d.expected_start_time 10)
unfolding queue_of
calculated-IsClear_example =
    calculated-IsClear soup false 7 100_000 queue refl
      (omega arith, omega arith, (omega arith, omega arith, omega arith)) (inl (omega arith))

-- The roast is begun at once where only the pizza waits, though it is not done when that starts.
calculated_overlap_example :
    let d = calculate_order_preparation_timing roast false 1_000_000 (pizza ∷ []) in
    ¬ IsClear d.expected_start_time d.expected_end_time pizza
unfolding queue_of
calculated_overlap_example =
    calculated_overlap roast pizza false 7 1_000_000 (pizza ∷ []) [] refl refl (omega arith)
      (omega arith) (omega arith)

completed-PacksBehind_example :
    PacksBehind
      (details_or salad.preparation_details (order_before salad queue))
      (orders_behind salad queue)
      queue
      (identify_orders_to_recalculate_after_completed salad queue)
completed-PacksBehind_example = completed-PacksBehind salad queue queue-Distinct

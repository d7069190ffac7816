-- ===== src/Kitchen/Slot.antt =====
-- `calculateOrderPreparationTiming`: the slot of an order among the orders of its kitchen queue.
use gitrema_backend.Prelude.{
  ℕ, zero, suc, ◌+◌, ◌==◌, leb, if◌then◌else◌, Bool, ◌&&◌, not, Option, none, some, List, [], ◌∷◌,
  filter, get_last?, get_elem?,
}
use gitrema_backend.Kitchen.State.{
  PreparationDetails, KitchenOrder, add_minutes, total_time, is_status_sent, is_status_waiting,
  same_queue, start_of, end_of, sort_by_start,
}

-- The orders before which, and behind which, a slot is looked for.
unfoldable pub queue_of : KitchenOrder → Bool → ℕ → ℕ → List KitchenOrder → List KitchenOrder
unfolding sort_by_start
queue_of order sent_only qid now orders = sort_by_start (
    filter
      (λ o.
        same_queue o.kitchen_queue_id (some qid)
        && (if sent_only then is_status_sent o.status else is_status_waiting o.status)
        && not (o.id == order.id)
        && leb now (end_of o))
      orders)

-- The test of `findIndex`. `expectedEndTime` is still the present time `now` here. Behind the
-- first place the difference of two times is compared, which is written without a subtraction.
abbrev pub fits : ℕ → ℕ → Option KitchenOrder → KitchenOrder → Bool
fits now time none o = leb now (start_of o)
fits now time (some p) o = leb (add_minutes (end_of p) time) (start_of o)

-- `orderList.findIndex(…)` from place `i`, behind the order `prev`; `none` is -1.
unfoldable pub find_slot : ℕ → ℕ → ℕ → Option KitchenOrder → List KitchenOrder → Option ℕ
find_slot now time i prev [] = none
find_slot now time i prev (o ∷ os) =
    let rest = find_slot now time (suc i) (some o) os in
    if fits now time prev o then some i else rest

-- `lastOrder`: the order behind which the slot starts.
unfoldable pub last_order : Option ℕ → List KitchenOrder → Option KitchenOrder
last_order none os = get_last? os
last_order (some zero) os = none
last_order (some (suc i)) os = get_elem? os i

abbrev pub slot_behind : ℕ → ℕ → Option KitchenOrder → PreparationDetails
slot_behind now time (some o) = record {
  preparation_time = time;
  expected_start_time = end_of o;
  expected_end_time = add_minutes (end_of o) time;
  kitchen_sorting_number = o.preparation_details.kitchen_sorting_number + 1;
}
slot_behind now time none = record {
  preparation_time = time;
  expected_start_time = now;
  expected_end_time = add_minutes now time;
  kitchen_sorting_number = 1;
}

-- The slot among the orders that were found.
unfoldable pub slot_in : ℕ → ℕ → List KitchenOrder → PreparationDetails
unfolding find_slot last_order
slot_in now time os = slot_behind now time (last_order (find_slot now time 0 none os) os)

unfoldable pub calculate_order_preparation_timing :
    KitchenOrder → Bool → ℕ → List KitchenOrder → PreparationDetails
unfolding queue_of slot_in
calculate_order_preparation_timing order sent_only now orders = elim order.kitchen_queue_id [
  | some qid ↦ slot_in now (total_time order.items) (queue_of order sent_only qid now orders)
  | none ↦ slot_behind now (total_time order.items) none
]

-- ===== src/Kitchen/Chain.antt =====
-- The recalculations of a kitchen queue in closed form: where each order ends up.
use mathlib.Core.Path.{subst}
use mathlib.Core.Option.{some-injective}
use gitrema_backend.Prelude.{
  ℕ, zero, suc, ◌+◌, ◌==◌, ◌≡◌, refl, ap, ◌∙◌, Bool, false, ◌&&◌, some, List, [], ◌∷◌, arith, All,
  All-map, get_elem?, filter, ltb,
}
use gitrema_backend.Prelude.Collection.{find}
use gitrema_backend.Kitchen.State.{
  PreparationDetails, KitchenOrder, add_minutes, is_status_waiting, same_queue, sort_by_start,
  start_of,
}
use gitrema_backend.Kitchen.Queue.{
  recalculated, recalculate_loop, set_details, write_details, orders_behind, order_before,
  details_or, identify_orders_to_recalculate_after_completed,
}
use gitrema_backend.Kitchen.Queried.{
  has_id, Distinct, DistinctWrites, queried, write_details_at, write_details_other, All-get_elem?,
}

-- The preparation times of the first `k` orders together.
abbrev pub time_of_first : ℕ → List KitchenOrder → ℕ
time_of_first zero os = 0
time_of_first (suc k) [] = 0
time_of_first (suc k) (o ∷ os) = o.preparation_details.preparation_time + time_of_first k os

-- Place `k` of a queue without gaps that starts when `base` ends.
abbrev pub packed :
    PreparationDetails → ℕ → List KitchenOrder → PreparationDetails → PreparationDetails
packed base k os d = record d {
  expected_start_time = add_minutes base.expected_end_time (time_of_first k os);
  expected_end_time =
      add_minutes (add_minutes base.expected_end_time (time_of_first k os)) d.preparation_time;
  kitchen_sorting_number = base.kitchen_sorting_number + (k + 1);
}

details_ext :
    (d e : PreparationDetails)
    → d.preparation_time ≡ e.preparation_time
    → d.expected_start_time ≡ e.expected_start_time
    → d.expected_end_time ≡ e.expected_end_time
    → d.kitchen_sorting_number ≡ e.kitchen_sorting_number
    → d ≡ e
details_ext d e p q r s i = record {
  preparation_time = p i;
  expected_start_time = q i;
  expected_end_time = r i;
  kitchen_sorting_number = s i;
}

recalculate_loop_at :
    (base : PreparationDetails) (os : List KitchenOrder) (k : ℕ) (o : KitchenOrder)
    → get_elem? os k ≡ some o
    → get_elem? (recalculate_loop base os) k ≡ some (o.id, packed base k os o.preparation_details)
unfolding recalculate_loop
recalculate_loop_at base [] k o at = absurd (ground arith)
recalculate_loop_at base (p ∷ os) zero o at =
    subst
      (λ z.
        get_elem? (recalculate_loop base (p ∷ os)) 0
        ≡ some (z.id, packed base 0 (p ∷ os) z.preparation_details))
      (some-injective p o at)
      (ap (λ d. some (p.id, d))
        (details_ext (recalculated base p.preparation_details)
          (packed base 0 (p ∷ os) p.preparation_details) refl (omega arith) (omega arith)
          (omega arith)))
recalculate_loop_at base (p ∷ os) (suc k) o at =
    recalculate_loop_at (recalculated base p.preparation_details) os k o at
    ∙ ap (λ d. some (o.id, d))
        (details_ext (packed (recalculated base p.preparation_details) k os o.preparation_details)
          (packed base (suc k) (p ∷ os) o.preparation_details) refl (omega arith) (omega arith)
          (omega arith))

loop_names :
    (P : ℕ → Type 0) (base : PreparationDetails) (os : List KitchenOrder)
    → All (λ o. P o.id) os
    → All (λ w. P w.0) (recalculate_loop base os)
unfolding recalculate_loop
loop_names P base [] h = tt
loop_names P base (o ∷ os) h = (h.0, loop_names P (recalculated base o.preparation_details) os h.1)

loop-DistinctWrites :
    (base : PreparationDetails) (os : List KitchenOrder)
    → Distinct os
    → DistinctWrites (recalculate_loop base os)
unfolding recalculate_loop
loop-DistinctWrites base [] h = tt
loop-DistinctWrites base (o ∷ os) h =
    let next = recalculated base o.preparation_details in
    (
      loop_names (λ id. (o.id == id) ≡ false) next os (All-map (λ p e. ground arith) os h.0),
      loop-DistinctWrites next os h.1,
    )

-- A recalculation of the orders that a query found, from the end of `base`: the order at place `k`
-- ends up at place `k` of a queue without gaps, and an order that was not found stays.
abbrev pub PacksBehind :
    PreparationDetails → List KitchenOrder → List KitchenOrder → List KitchenOrder → Type 0
PacksBehind base found orders orders' =
    ((k : ℕ) (o : KitchenOrder)
      → get_elem? found k ≡ some o
      → find (has_id o.id) orders'
        ≡ some (set_details (packed base k found o.preparation_details) o))
    × ((id : ℕ)
        → All (λ o. (id == o.id) ≡ false) found
        → find (has_id id) orders' ≡ find (has_id id) orders)

loop-PacksBehind :
    (base : PreparationDetails) (p : KitchenOrder → Bool) (orders : List KitchenOrder)
    → Distinct orders
    → let found = sort_by_start (filter p orders) in
      PacksBehind base found orders (write_details (recalculate_loop base found) orders)
loop-PacksBehind base p orders h =
    let found = sort_by_start (filter p orders) in
    let (distinct, own) = queried p orders h in
    (
      λ k o at.
          write_details_at (recalculate_loop base found) orders k
            (packed base k found o.preparation_details) o (loop-DistinctWrites base found distinct)
            (recalculate_loop_at base found k o at)
            (All-get_elem? (λ q. find (has_id q.id) orders ≡ some q) found k o own at),
      λ id new.
          write_details_other (recalculate_loop base found) orders id
            (loop_names (λ j. (id == j) ≡ false) base found new),
    )

-- Where no two orders have one identifier, and an order was completed or cancelled, the waiting
-- orders of its queue that start behind it, in the order of their former starts, stand without gaps
-- behind the last waiting order that starts before it, or behind the order itself if there is none.
-- Every other order stays as it was.
pub completed-PacksBehind :
    (order : KitchenOrder) (orders : List KitchenOrder)
    → Distinct orders
    → PacksBehind
        (details_or order.preparation_details (order_before order orders))
        (orders_behind order orders)
        orders
        (identify_orders_to_recalculate_after_completed order orders)
unfolding identify_orders_to_recalculate_after_completed orders_behind
completed-PacksBehind order orders h =
    loop-PacksBehind (details_or order.preparation_details (order_before order orders))
      (λ o.
        ltb (start_of order) (start_of o)
        && same_queue o.kitchen_queue_id order.kitchen_queue_id
        && is_status_waiting o.status)
      orders h

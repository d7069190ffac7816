-- ===== src/Kitchen/Disjoint.antt =====
-- Whether the slot that `calculateOrderPreparationTiming` gives to an order is free.
use mathlib.Core.Path.{subst}
use gitrema_backend.Prelude.{
  ℕ, zero, suc, ◌+◌, ◌≤◌, ◌<◌, ◌≡◌, refl, sym, ap, ◌⊎◌, inl, inr, if◌then◌else◌, Bool, true, false,
  Option, none, some, List, [], ◌∷◌, arith, All, All-map, get_last?, get_elem?, Bool-cases,
}
use gitrema_backend.Kitchen.State.{
  PreparationDetails, KitchenOrder, add_minutes, total_time, start_of, end_of,
}
use gitrema_backend.Kitchen.Slot.{
  queue_of, fits, find_slot, last_order, slot_behind, slot_in, calculate_order_preparation_timing,
}

-- The orders stand behind one another: none starts before the one in front of it has ended.
abbrev pub IsSpaced : List KitchenOrder → Type 0
IsSpaced [] = Unit
IsSpaced (o ∷ []) = start_of o ≤ end_of o
IsSpaced (o ∷ p ∷ os) = (start_of o ≤ end_of o) × (end_of o ≤ start_of p) × IsSpaced (p ∷ os)

-- The order does not overlap the time from `a` to `b`.
abbrev pub IsClear : ℕ → ℕ → KitchenOrder → Type 0
IsClear a b o = (end_of o ≤ a) ⊎ (b ≤ start_of o)

-- The order behind which the search stops, when `p` stands in front of `os`.
stop_at : ℕ → ℕ → KitchenOrder → List KitchenOrder → KitchenOrder
stop_at now time p [] = p
stop_at now time p (o ∷ os) =
    let rest = stop_at now time o os in if fits now time (some p) o then p else rest

-- The place that `findIndex` returned stands for the order `q` of the list `ps`.
abbrev Located : ℕ → List KitchenOrder → KitchenOrder → Option ℕ → Type 0
Located i ps q none = get_last? ps ≡ some q
Located i ps q (some j) = (k : ℕ) × (j ≡ suc (i + k)) × (get_elem? ps k ≡ some q)

Located-next :
    (i : ℕ) (p o q : KitchenOrder) (os : List KitchenOrder) (r : Option ℕ)
    → Located (suc i) (o ∷ os) q r
    → Located i (p ∷ o ∷ os) q r
Located-next i p o q os none h = h
Located-next i p o q os (some j) (k, e, at) = (suc k, omega arith, at)

find_slot-Located :
    (now time i : ℕ) (p : KitchenOrder) (os : List KitchenOrder)
    → Located i (p ∷ os) (stop_at now time p os) (find_slot now time (suc i) (some p) os)
unfolding find_slot stop_at
find_slot-Located now time i p [] = refl
find_slot-Located now time i p (o ∷ os) = elim (Bool-cases (fits now time (some p) o)) [
  | inl gap ↦ rw gap (zero, omega arith, refl)
  | inr tight ↦ rw tight (
      Located-next i p o (stop_at now time o os) os (find_slot now time (suc (suc i)) (some o) os)
        (find_slot-Located now time (suc i) o os))
]

last_order_of_Located :
    (ps : List KitchenOrder) (q : KitchenOrder) (r : Option ℕ)
    → Located 0 ps q r
    → last_order r ps ≡ some q
unfolding last_order
last_order_of_Located ps q none h = h
last_order_of_Located ps q (some zero) (k, e, at) = absurd (omega arith)
last_order_of_Located ps q (some (suc j)) (k, e, at) = let same : j ≡ k = omega arith in rw same at

starts_after :
    (b : ℕ) (o : KitchenOrder) (os : List KitchenOrder)
    → IsSpaced (o ∷ os)
    → b ≤ start_of o
    → All (λ p. b ≤ start_of p) (o ∷ os)
starts_after b o [] h e = (e, tt)
starts_after b o (p ∷ os) h e = (e, starts_after b p os h.2 (omega arith))

module _ (now time : ℕ) (p o : KitchenOrder) (os : List KitchenOrder) where
  stop_at_gap : fits now time (some p) o ≡ true → stop_at now time p (o ∷ os) ≡ p
  unfolding stop_at
  stop_at_gap gap = rw gap

  stop_at_tight :
      fits now time (some p) o ≡ false → stop_at now time p (o ∷ os) ≡ stop_at now time o os
  unfolding stop_at
  stop_at_tight tight = rw tight

end-le-stop_at :
    (now time : ℕ) (p : KitchenOrder) (os : List KitchenOrder)
    → IsSpaced (p ∷ os)
    → end_of p ≤ end_of (stop_at now time p os)
unfolding stop_at
end-le-stop_at now time p [] h = omega arith
end-le-stop_at now time p (o ∷ []) h = ground arith
end-le-stop_at now time p (o ∷ q ∷ os) h = ground (arith, end-le-stop_at now time o (q ∷ os) h.2)

start-le-end :
    (o : KitchenOrder) (os : List KitchenOrder) → IsSpaced (o ∷ os) → start_of o ≤ end_of o
start-le-end o [] h = h
start-le-end o (p ∷ os) h = h.0

-- No order of a spaced queue overlaps the slot behind the order at which the search stops.
stop_at-IsClear :
    (now time : ℕ) (p : KitchenOrder) (os : List KitchenOrder)
    → IsSpaced (p ∷ os)
    → let a = end_of (stop_at now time p os) in All (IsClear a (add_minutes a time)) (p ∷ os)
unfolding stop_at
stop_at-IsClear now time p [] h = (inl (omega arith), tt)
stop_at-IsClear now time p (o ∷ os) h = elim (Bool-cases (fits now time (some p) o)) [
  | inl gap ↦
      subst (λ q. All (IsClear (end_of q) (add_minutes (end_of q) time)) (p ∷ o ∷ os))
        (sym (stop_at_gap now time p o os gap))
        (
          inl (omega arith),
          All-map (λ x e. inr e) (o ∷ os)
              (starts_after (add_minutes (end_of p) time) o os h.2 (ground arith)),
        )
  | inr tight ↦
      subst (λ q. All (IsClear (end_of q) (add_minutes (end_of q) time)) (p ∷ o ∷ os))
        (sym (stop_at_tight now time p o os tight))
        (
          inl (omega (arith, h.1, start-le-end o os h.2, end-le-stop_at now time o os h.2)),
          stop_at-IsClear now time o os h.2,
        )
]

module _ (now time : ℕ) (o : KitchenOrder) (os : List KitchenOrder) where
  slot_in_first :
      fits now time none o ≡ true → slot_in now time (o ∷ os) ≡ slot_behind now time none
  unfolding slot_in
  slot_in_first at_once = rw at_once

  slot_in_behind :
      fits now time none o ≡ false
      → slot_in now time (o ∷ os) ≡ slot_behind now time (some (stop_at now time o os))
  unfolding slot_in
  slot_in_behind busy = rw busy (
      ap (slot_behind now time) (
        last_order_of_Located (o ∷ os) (stop_at now time o os) (find_slot now time 1 (some o) os)
          (find_slot-Located now time 0 o os)))

slot_behind-length :
    (now time : ℕ) (o : Option KitchenOrder)
    → let d = slot_behind now time o in d.expected_end_time ≡ add_minutes d.expected_start_time time
slot_behind-length now time none = refl
slot_behind-length now time (some o) = refl

slot_in-length :
    (now time : ℕ) (os : List KitchenOrder)
    → let d = slot_in now time os in d.expected_end_time ≡ add_minutes d.expected_start_time time
unfolding slot_in
slot_in-length now time os =
    slot_behind-length now time (last_order (find_slot now time 0 none os) os)

-- The first order of the queue starts before now, or only after an order that takes `time` minutes
-- from now on has ended.
abbrev pub FirstIsClear : ℕ → ℕ → List KitchenOrder → Type 0
FirstIsClear now time [] = Unit
FirstIsClear now time (o ∷ os) = (start_of o < now) ⊎ (add_minutes now time ≤ start_of o)

abbrev SlotIsClear : PreparationDetails → List KitchenOrder → Type 0
SlotIsClear d = All (IsClear d.expected_start_time d.expected_end_time)

slot_in-IsClear :
    (now time : ℕ) (os : List KitchenOrder)
    → IsSpaced os
    → FirstIsClear now time os
    → SlotIsClear (slot_in now time os) os
unfolding slot_in find_slot
slot_in-IsClear now time [] h first = tt
slot_in-IsClear now time (o ∷ os) h first = elim (Bool-cases (fits now time none o)) [
  | inl at_once ↦
      subst (λ d. SlotIsClear d (o ∷ os)) (sym (slot_in_first now time o os at_once))
        (All-map (λ x e. inr e) (o ∷ os)
          (starts_after (add_minutes now time) o os h (ground arith)))
  | inr busy ↦
      subst (λ d. SlotIsClear d (o ∷ os)) (sym (slot_in_behind now time o os busy))
        (stop_at-IsClear now time o os h)
]

-- Where the orders found in the kitchen queue of an order stand behind one another without an
-- overlap, and the first of them starts before now or leaves time enough before it, none of them overlaps the slot that
-- the order gets, and the slot is as long as the items of the order take.
pub calculated-IsClear :
    (order : KitchenOrder) (sent_only : Bool) (qid now : ℕ) (orders : List KitchenOrder)
    → order.kitchen_queue_id ≡ some qid
    → let queue = queue_of order sent_only qid now orders in
      IsSpaced queue
      → FirstIsClear now (total_time order.items) queue
      → let d = calculate_order_preparation_timing order sent_only now orders in
        All (IsClear d.expected_start_time d.expected_end_time) queue
        × (d.expected_end_time ≡ add_minutes d.expected_start_time (total_time order.items))
unfolding calculate_order_preparation_timing
calculated-IsClear order sent_only qid now orders own spaced first =
    let queue = queue_of order sent_only qid now orders in
    rw own (
      slot_in-IsClear now (total_time order.items) queue spaced first,
      slot_in-length now (total_time order.items) queue,
    )

-- Where the first order of the queue lasts some time, and starts not before now but before the time
-- that the new order takes is over, the slot of the new order overlaps it.
pub calculated_overlap :
    (order o : KitchenOrder) (sent_only : Bool) (qid now : ℕ) (orders rest : List KitchenOrder)
    → order.kitchen_queue_id ≡ some qid
    → queue_of order sent_only qid now orders ≡ o ∷ rest
    → now ≤ start_of o
    → start_of o < add_minutes now (total_time order.items)
    → start_of o < end_of o
    → let d = calculate_order_preparation_timing order sent_only now orders in
      ¬ IsClear d.expected_start_time d.expected_end_time o
unfolding calculate_order_preparation_timing
calculated_overlap order o sent_only qid now orders rest own queue waits short lasts =
    rw (own, queue, slot_in_first now (total_time order.items) o rest (ground arith))
      (λ clear. ground arith)

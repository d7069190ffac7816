-- ===== src/Lifecycle/Grouped.antt =====
-- The payments and the merged orders behind `groupOrders` of src/order/order.service.ts.
use gitrema_backend.Prelude.{
  ℕ, ◌==◌, ◌≡◌, refl, sym, ◌∙◌, inl, inr, Bool, true, false, List, [], ◌∷◌, All, arith, map, filter,
  All-map, Bool-cases, ==-refl,
}
use gitrema_backend.Prelude.Collection.{update_all}
use gitrema_backend.Lifecycle.State.{OrderDoc, UpdateOrderDto, Paid, Store, Env, find_order}
use gitrema_backend.Lifecycle.Update.{includes, update}
use gitrema_backend.Lifecycle.Group.{transaction_ids, move_payments, merge_dto, cancel_merged}
use gitrema_backend.Lifecycle.Closed.{Ran, kept, wrote, update-Ran}
use gitrema_backend.Lifecycle.Runs.{find-write_order}
use gitrema_backend.Lifecycle.Transitions.{updated-Passes}

-- A payment that is picked has its identifier in the list.
abbrev Picked : (Paid → Bool) → List Paid → Paid → Type 0
Picked p ps t =
    p t ≡ true → includes (map (λ x. x.transaction_id) (filter p ps)) t.transaction_id ≡ true

Picked-later :
    (p : Paid → Bool) (t : Paid) (ps : List Paid) (x : Paid) → Picked p ps x → Picked p (t ∷ ps) x
Picked-later p t ps x h k = elim (Bool-cases (p t)) [
  | inl yes_ ↦ rw yes_ (elim (Bool-cases (t.transaction_id == x.transaction_id)) [
    | inl same ↦ rw same refl
    | inr other ↦ rw other (h k)
  ])
  | inr no_ ↦ rw no_ (h k)
]

All-Picked : (p : Paid → Bool) (ps : List Paid) → All (Picked p ps) ps
All-Picked p [] = tt
All-Picked p (t ∷ ps) = (first, All-map (Picked-later p t ps) ps (All-Picked p ps))
  where
    first : Picked p (t ∷ ps) t
    first h = rw h (rw (==-refl t.transaction_id) refl)

moved-All :
    (ids : List ℕ) (q : Paid → Bool) (group : ℕ) (ps : List Paid)
    → includes ids group ≡ false
    → All (λ t. includes ids t.order_id ≡ true → q t ≡ true) ps
    → All
        (λ t. includes ids t.order_id ≡ false)
        (update_all q (λ t. record t { order_id = group }) ps)
moved-All ids q group [] fresh h = tt
moved-All ids q group (t ∷ ps) fresh h =
    let rest = moved-All ids q group ps fresh h.1 in
    elim (Bool-cases (q t)) [
      | inl yes_ ↦ rw yes_ (fresh, rest)
      | inr no_ ↦ rw no_ (elim (Bool-cases (includes ids t.order_id)) [
        | inl in_ ↦ absurd (true-not_false (sym (h.0 in_) ∙ no_))
        | inr out ↦ (out, rest)
      ])
    ]
  where
    true-not_false : true ≡ false → ⊥
    true-not_false e = ground arith

-- Once the payments of some orders are moved to an order that is none of them, no payment is
-- left on any of these orders.
pub move_payments-All :
    (ids : List ℕ) (group : ℕ) (s : Store)
    → includes ids group ≡ false
    → All
        (λ t. includes ids t.order_id ≡ false)
        (move_payments (transaction_ids ids s) group s).payments
move_payments-All ids group s fresh =
    moved-All ids (λ t. includes (transaction_ids ids s) t.transaction_id) group s.payments fresh
      (All-Picked (λ t. includes ids t.order_id) s.payments)

-- The identifiers that the loop reads: as many as there are orders, from the first one on.
abbrev pub read_ids : List OrderDoc → List ℕ → List ℕ
read_ids [] ids = []
read_ids (o ∷ os) [] = []
read_ids (o ∷ os) (id ∷ ids) = id ∷ read_ids os ids

-- An update of one order leaves another.
pub update_other :
    (env : Env) (id other : ℕ) (dto : UpdateOrderDto) (s s' : Store)
    → Ran env id dto s s'
    → (id == other) ≡ false
    → find_order other s' ≡ find_order other s
update_other env id other dto s _ kept differs = refl
update_other env id other dto s _ (wrote o d found new) differs =
    let (_, same) = updated-Passes env dto o d new in
    (find-write_order id s o d found same).1 other differs

-- An order is left as it is, neither cancelled nor given to the group, where its identifier is
-- not among the first ones of the body, as many as orders were grouped: it may have been grouped.
pub cancel_merged_keeps :
    (env : Env) (group other : ℕ) (os : List OrderDoc) (ids : List ℕ) (s : Store)
    → includes (read_ids os ids) other ≡ false
    → find_order other (cancel_merged env group os ids s).1 ≡ find_order other s
unfolding cancel_merged
cancel_merged_keeps env group other [] ids s h = refl
cancel_merged_keeps env group other (o ∷ os) [] s h = refl
cancel_merged_keeps env group other (o ∷ os) (id ∷ ids) s h = elim (Bool-cases (id == other)) [
  | inl same ↦ absurd (ground arith)
  | inr differs ↦
      let s' = (update env id (merge_dto group) s).1 in
      cancel_merged_keeps env group other os ids s' (rw differs at h)
      ∙ update_other env id other (merge_dto group) s s' (update-Ran env id (merge_dto group) s)
          differs
]

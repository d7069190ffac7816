-- ===== src/Lifecycle/Conserved.antt =====
-- `moveItems` of src/order/order.service.ts neither makes nor loses items.
use mathlib.Core.Path.{subst}
use gitrema_backend.Prelude.{
  ℕ, ◌+◌, ◌-◌, ◌==◌, ◌≡◌, refl, ap, ◌∙◌, inl, inr, Bool, false, List, [], ◌∷◌, ◌++◌, arith,
  Bool-cases, eq_of_==, ltb, if◌then◌else◌,
}
use gitrema_backend.Prelude.Action.{Outcome, done, failed, Failure, and_then-done, done-injective}
use gitrema_backend.Lifecycle.State.{OrderItem, number_items}
use gitrema_backend.Lifecycle.Cook.{same_id}
use gitrema_backend.Lifecycle.Move.{
  MoveItemDto, moved, left_over, split_item, keep_before, take_item, take_items,
}

-- How much of a menu item some items are.
abbrev pub quantity_in : ℕ → OrderItem → ℕ
quantity_in m i = if i.menu_item_id == m then i.quantity else 0

abbrev pub quantity_of : ℕ → List OrderItem → ℕ
quantity_of m [] = 0
quantity_of m (i ∷ is) = quantity_in m i + quantity_of m is

pub quantity_of-append :
    (m : ℕ) (xs ys : List OrderItem)
    → quantity_of m (xs ++ ys) ≡ quantity_of m xs + quantity_of m ys
quantity_of-append m [] ys = omega arith
quantity_of-append m (x ∷ xs) ys = omega (arith, quantity_of-append m xs ys)

pub quantity_of-number_items :
    (m n : ℕ) (is : List OrderItem) → quantity_of m (number_items n is) ≡ quantity_of m is
quantity_of-number_items m n [] = refl
quantity_of-number_items m n (i ∷ is) =
    ap (λ q. quantity_in m i + q) (quantity_of-number_items m _ is)

left_over-quantity :
    (m q : ℕ) (i : OrderItem) (rest : List OrderItem)
    → quantity_of m (left_over q i rest)
      ≡ (if i.menu_item_id == m then q else 0) + quantity_of m rest
left_over-quantity m q i rest = elim (Bool-cases (q == 0)) [
  | inl t ↦ rw t (ground (arith, eq_of_== q 0 t))
  | inr f ↦ rw f refl
]

parts_of :
    (c : Bool) (q n k : ℕ)
    → ltb n q ≡ false
    → (if c then q else 0) + ((if c then n - q else 0) + k) ≡ (if c then n else 0) + k
parts_of c q n k h = ground arith

pub failed-not_done : {A : Type 0} {x : Failure} {a : A} → failed x ≡ done a → ⊥
failed-not_done e = ground arith

split_item-conserves :
    (m q : ℕ) (i : OrderItem) (rest : List OrderItem) (r : OrderItem × List OrderItem)
    → split_item q i rest ≡ done r
    → quantity_in m r.0 + quantity_of m r.1 ≡ quantity_in m i + quantity_of m rest
split_item-conserves m q i rest r e = elim (Bool-cases (ltb 0 q)) [
  | inr whole ↦
      subst (λ x. quantity_in m x.0 + quantity_of m x.1 ≡ quantity_in m i + quantity_of m rest)
        (done-injective (rw whole at e)) refl
  | inl part ↦ elim (Bool-cases (ltb i.quantity q)) [
    | inl over ↦ absurd (failed-not_done (rw (part, over) at e))
    | inr fits ↦
        subst (λ x. quantity_in m x.0 + quantity_of m x.1 ≡ quantity_in m i + quantity_of m rest)
          (done-injective (rw (part, fits) at e))
          (ap (λ k. quantity_in m (moved q i) + k) (left_over-quantity m (i.quantity - q) i rest)
            ∙ parts_of (i.menu_item_id == m) q i.quantity (quantity_of m rest) fits)
  ]
]

take_item-conserves :
    (m : ℕ) (d : MoveItemDto) (is : List OrderItem) (r : OrderItem × List OrderItem)
    → take_item d is ≡ done r
    → quantity_in m r.0 + quantity_of m r.1 ≡ quantity_of m is
unfolding take_item
take_item-conserves m d [] r e = absurd (ground arith)
take_item-conserves m d (i ∷ is) r e = elim (Bool-cases (same_id d.item_id i.id)) [
  | inl here_ ↦ split_item-conserves m d.quantity i is r (rw here_ at e)
  | inr later ↦ kept (take_item d is) (take_item-conserves m d is) (rw later at e)
]
  where
    kept :
        (x : Outcome (OrderItem × List OrderItem))
        → ((y : OrderItem × List OrderItem)
            → x ≡ done y
            → quantity_in m y.0 + quantity_of m y.1 ≡ quantity_of m is)
        → keep_before i x ≡ done r
        → quantity_in m r.0 + quantity_of m r.1 ≡ quantity_of m (i ∷ is)
    kept (failed x) h e' = absurd (failed-not_done e')
    kept (done y) h e' =
        subst (λ z. quantity_in m z.0 + quantity_of m z.1 ≡ quantity_of m (i ∷ is))
          (done-injective e') (omega (arith, h y refl))

-- Where the loop over the items of the body returns, the items that move and those that stay are
-- together as much of each menu item as there was.
pub take_items-conserves :
    (m : ℕ) (ds : List MoveItemDto) (is : List OrderItem) (r : List OrderItem × List OrderItem)
    → take_items ds is ≡ done r
    → quantity_of m r.0 + quantity_of m r.1 ≡ quantity_of m is
unfolding take_items
take_items-conserves m [] is r e =
    subst (λ z. quantity_of m z.0 + quantity_of m z.1 ≡ quantity_of m is) (done-injective e)
      (omega arith)
take_items-conserves m (d ∷ ds) is r e =
    let (taken, t, e₁) = and_then-done (take_item d is) _ r e in
    let (rs, ts, e₂) = and_then-done (take_items ds taken.1) _ r e₁ in
    let one = take_item-conserves m d is taken t in
    let more = take_items-conserves m ds taken.1 rs ts in
    subst (λ z. quantity_of m z.0 + quantity_of m z.1 ≡ quantity_of m is) (done-injective e₂)
      (omega (arith, one, more))

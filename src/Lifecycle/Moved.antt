-- ===== src/Lifecycle/Moved.antt =====
-- The two orders behind `moveItems` of src/order/order.service.ts.
use mathlib.Core.Path.{subst}
use gitrema_backend.Prelude.{
  ℕ, suc, ◌+◌, ◌<◌, ◌==◌, ◌≡◌, refl, sym, ap, ◌∙◌, true, false, some, List, ◌++◌, All, arith,
  ==-refl, eq_of_==,
}
use gitrema_backend.Prelude.Action.{done, and_then-done, done-injective, >>=-run, ◌>>=◌}
use gitrema_backend.Prelude.Collection.{find-All, find_sound}
use gitrema_backend.Lifecycle.State.{
  OrderItem, OrderDoc, Store, Env, has_id, find_order, numbered, write_order,
}
use gitrema_backend.Lifecycle.Update.{prepare_order}
use gitrema_backend.Lifecycle.Move.{
  split_off, with_items, create_order, reprepared, store_new, store_target, move_to_new, move_to,
}
use gitrema_backend.Lifecycle.Transitions.{prepare_order-keeps}
use gitrema_backend.Lifecycle.Runs.{find-write_order}
use gitrema_backend.Lifecycle.Conserved.{quantity_of, quantity_of-append, quantity_of-number_items}

-- `prepareOrderItems` prices items, and makes and drops none.
abbrev pub KeepsQuantities : Env → ℕ → Type 0
KeepsQuantities env m =
    (o : OrderDoc) (is : List OrderItem)
    → env.prepare o ≡ done is
    → quantity_of m is ≡ quantity_of m o.items

pub prepare_order-quantity :
    (env : Env) (m : ℕ) (o d : OrderDoc)
    → KeepsQuantities env m
    → prepare_order env o ≡ done d
    → quantity_of m d.items ≡ quantity_of m o.items
unfolding prepare_order
prepare_order-quantity env m o d law e =
    let (is, p, e') = and_then-done (env.prepare o) _ d e in
    ap (λ x. quantity_of m x.items) (sym (done-injective e')) ∙ law o is p

-- The target `t` was written into the store `s₁`, and the source is as it was.
abbrev pub Targeted : ℕ → ℕ → ℕ → Store → OrderDoc → Store → Type 0
Targeted m total source s t s₁ =
    (find_order t.id s₁ ≡ some t)
    × (find_order source s₁ ≡ find_order source s)
    × (quantity_of m t.items ≡ total)
    × ((source == t.id) ≡ false)

-- The orders have identifiers that were given out.
abbrev pub IdsBelow : Store → Type 0
IdsBelow s = All (λ o. o.id < s.next_id) s.orders

differs_below : (a b n : ℕ) → (a == b) ≡ true → a < n → (b == n) ≡ false
differs_below a b n e h = ground arith

pub flip_differs : (b n : ℕ) → (b == n) ≡ false → (n == b) ≡ false
flip_differs b n h = ground arith

create_order-Targeted :
    (m id : ℕ) (o d : OrderDoc) (s : Store)
    → IdsBelow s
    → find_order id s ≡ some o
    → Targeted m
        (quantity_of m d.items)
        id
        s
        (numbered (suc s.next_id) (record d { id = s.next_id }))
        (create_order d s).1
create_order-Targeted m id o d s below e =
    let fresh =
      differs_below o.id id s.next_id (find_sound (has_id id) s.orders o e)
        (find-All (λ x. x.id < s.next_id) (has_id id) s.orders o below e) in
    (
      rw (==-refl s.next_id) refl,
      rw (flip_differs id s.next_id fresh) refl,
      quantity_of-number_items m (suc s.next_id) d.items,
      fresh,
    )

split_off-items :
    (number : ℕ) (ms : List OrderItem) (o : OrderDoc) → (split_off number ms o).items ≡ ms
unfolding split_off
split_off-items number ms o = refl

pub move_to_new-Targeted :
    (env : Env) (m number : ℕ) (ms : List OrderItem) (o t : OrderDoc) (s : Store) (id : ℕ)
    → KeepsQuantities env m
    → IdsBelow s
    → find_order id s ≡ some o
    → (move_to_new env number ms o s).0 ≡ done t
    → Targeted m (quantity_of m ms) id s t (move_to_new env number ms o s).1
unfolding move_to_new
move_to_new-Targeted env m number ms o t s id law below e h =
    let (d, ready, runs) = >>=-run (reprepared env (split_off number ms o)) store_new s t h in
    let (stored, others, kept, fresh) = create_order-Targeted m id o d s below e in
    let same = done-injective (sym (ap (λ r. r.0) runs) ∙ h) in
    let amount =
      kept
      ∙ prepare_order-quantity env m (split_off number ms o) d law ready
      ∙ ap (quantity_of m) (split_off-items number ms o) in
    subst (λ r. Targeted m (quantity_of m ms) id s t r.1) (sym runs)
      (subst (λ x. Targeted m (quantity_of m ms) id s x (create_order d s).1) same
        (stored, others, amount, fresh))

found_target :
    (env : Env) (tid : ℕ) (ms : List OrderItem) (p : OrderDoc) (s : Store)
    → find_order tid s ≡ some p
    → move_to env tid ms s ≡ (reprepared env (with_items (p.items ++ ms) p) >>= store_target) s
unfolding move_to
found_target env tid ms p s e = rw e refl

pub move_to-Targeted :
    (env : Env) (m tid : ℕ) (ms : List OrderItem) (p t : OrderDoc) (s : Store) (id : ℕ)
    → KeepsQuantities env m
    → (id == tid) ≡ false
    → find_order tid s ≡ some p
    → (move_to env tid ms s).0 ≡ done t
    → Targeted m (quantity_of m p.items + quantity_of m ms) id s t (move_to env tid ms s).1
unfolding move_to
move_to-Targeted env m tid ms p t s id law differs e h =
    let target = with_items (p.items ++ ms) p in
    let finds = found_target env tid ms p s e in
    let (d, ready, runs) =
      >>=-run (reprepared env target) store_target s t (sym (ap (λ r. r.0) finds) ∙ h) in
    let (_, same_id_) = prepare_order-keeps env target d ready in
    let (stored, others) = find-write_order tid s p d e same_id_ in
    let target_id = same_id_ ∙ eq_of_== p.id tid (find_sound (has_id tid) s.orders p e) in
    let same = done-injective (sym (ap (λ r. r.0) (finds ∙ runs)) ∙ h) in
    let amount =
      quantity_of-number_items m s.next_id d.items
      ∙ prepare_order-quantity env m target d law ready
      ∙ quantity_of-append m p.items ms in
    subst (λ r. Targeted m (quantity_of m p.items + quantity_of m ms) id s t r.1)
      (sym (finds ∙ runs))
      (subst (λ x. Targeted m (quantity_of m p.items + quantity_of m ms) id s x (write_order d s))
        same
        (
          subst (λ i. find_order i (write_order d s) ≡ some (numbered s.next_id d)) (sym target_id)
              stored,
          others id (flip_differs id tid differs),
          amount,
          subst (λ i. (id == i) ≡ false) (sym target_id) differs,
        ))

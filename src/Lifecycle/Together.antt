-- ===== src/Lifecycle/Together.antt =====
-- `moveItems` of src/order/order.service.ts as a whole: what the two orders have together.
use mathlib.Core.Path.{subst}
use gitrema_backend.Prelude.{
  ℕ, ◌+◌, ◌≡◌, refl, sym, ap, ◌∙◌, inl, inr, false, Option, none, some, List, [], ◌∷◌, arith,
  Option-cases,
}
use gitrema_backend.Prelude.Action.{
  done, failed, and_then-done, done-injective, type_error, order_closed, >>=-run, throw_if, modify,
  pure, ◌>>=◌, ◌>>◌,
}
use gitrema_backend.Lifecycle.State.{
  OrderItem, OrderDoc, Store, Env, find_order, numbered, write_order,
}
use gitrema_backend.Lifecycle.Update.{is_closed}
use gitrema_backend.Lifecycle.Cook.{same_id}
use gitrema_backend.Lifecycle.Move.{
  MoveOrderItemDto, take_items, require_items, with_items, reprepared, store_left, move_to_new,
  move_to, move_target, move_split, split_of, move_items,
}
use gitrema_backend.Lifecycle.Transitions.{prepare_order-keeps}
use gitrema_backend.Lifecycle.Runs.{find-write_order}
use gitrema_backend.Lifecycle.Conserved.{
  quantity_of, quantity_of-number_items, take_items-conserves, failed-not_done,
}
use gitrema_backend.Lifecycle.Moved.{
  KeepsQuantities, IdsBelow, Targeted, flip_differs, prepare_order-quantity, move_to_new-Targeted,
  move_to-Targeted,
}

-- How much of a menu item the target has before the call: nothing where it is made by it.
abbrev pub found_quantity : ℕ → Option OrderDoc → ℕ
found_quantity m none = 0
found_quantity m (some p) = quantity_of m p.items

abbrev pub target_quantity : ℕ → Option ℕ → Store → ℕ
target_quantity m none s = 0
target_quantity m (some tid) s = found_quantity m (find_order tid s)

move_to-missing :
    (env : Env) (tid : ℕ) (ms : List OrderItem) (s : Store)
    → find_order tid s ≡ none
    → (move_to env tid ms s).0 ≡ failed type_error
unfolding move_to
move_to-missing env tid ms s e = rw e refl

require_items-same : (r q : List OrderItem × List OrderItem) → require_items r ≡ done q → r ≡ q
require_items-same (ms, []) q e = absurd (failed-not_done e)
require_items-same (ms, x ∷ xs) q e = done-injective e

pub move_target-Targeted :
    (env : Env) (m number : ℕ) (target : Option ℕ) (ms : List OrderItem) (o t : OrderDoc)
    (s : Store) (id : ℕ)
    → KeepsQuantities env m
    → IdsBelow s
    → same_id id target ≡ false
    → find_order id s ≡ some o
    → (move_target env number target ms o s).0 ≡ done t
    → Targeted m
        (target_quantity m target s + quantity_of m ms)
        id
        s
        t
        (move_target env number target ms o s).1
move_target-Targeted env m number none ms o t s id law below differs e h =
    subst (λ n. Targeted m n id s t (move_to_new env number ms o s).1) (omega arith)
      (move_to_new-Targeted env m number ms o t s id law below e h)
move_target-Targeted env m number (some tid) ms o t s id law below differs e h =
    elim (Option-cases (find_order tid s)) [
      | inl missing ↦ absurd (failed-not_done (sym (move_to-missing env tid ms s missing) ∙ h))
      | inr (p, found) ↦
          subst (λ n. Targeted m (n + quantity_of m ms) id s t (move_to env tid ms s).1)
            (ap (found_quantity m) (sym found))
            (move_to-Targeted env m tid ms p t s id law (flip_differs tid id differs) found h)
    ]

-- The two orders behind the call.
abbrev pub Together : ℕ → ℕ → ℕ → OrderDoc → Store → Type 0
Together m source total t s =
    (o : OrderDoc) × (find_order source s ≡ some o)
    × (find_order t.id s ≡ some t)
    × (quantity_of m o.items + quantity_of m t.items ≡ total)

store_left-Together :
    (env : Env) (m total id : ℕ) (rest : List OrderItem) (o t t' : OrderDoc) (s s₁ : Store)
    → KeepsQuantities env m
    → find_order id s ≡ some o
    → Targeted m total id s t s₁
    → (store_left env t (with_items rest o) s₁).0 ≡ done t'
    → Together m id (quantity_of m rest + total) t' (store_left env t (with_items rest o) s₁).1
store_left-Together env m total id rest o t t' s s₁ law e (stored, kept, amount, differs) h =
    let source = with_items rest o in
    let (d, ready, runs) =
      >>=-run (reprepared env source) (λ left. modify (write_order left) >> pure t) s₁ t' h in
    let (_, same_id_) = prepare_order-keeps env source d ready in
    let (own, others) = find-write_order id s₁ o d (kept ∙ e) same_id_ in
    let same = done-injective (sym (ap (λ r. r.0) runs) ∙ h) in
    let left =
      quantity_of-number_items m s₁.next_id d.items
      ∙ prepare_order-quantity env m source d law ready in
    subst (λ r. Together m id (quantity_of m rest + total) t' r.1) (sym runs)
      (subst (λ x. Together m id (quantity_of m rest + total) x (write_order d s₁)) same
        (
          numbered s₁.next_id d,
          own,
          others t.id differs ∙ stored,
          ap (λ n. n + quantity_of m t.items) left ∙ ap (λ n. quantity_of m rest + n) amount,
        ))

pub found_source :
    (env : Env) (number : ℕ) (dto : MoveOrderItemDto) (o : OrderDoc) (s : Store)
    → find_order dto.source_order_id s ≡ some o
    → move_items env number dto s
      ≡ (throw_if (is_closed o.status) order_closed
            >> ((λ s'. (split_of dto o, s')) >>= move_split env number dto.target_order_id o))
          s
unfolding move_items
found_source env number dto o s e = rw e refl

-- The call as a whole, for any preparation of items that keeps their quantities.
pub move_items-conserves :
    (env : Env) (m number : ℕ) (dto : MoveOrderItemDto) (o t : OrderDoc) (s : Store)
    → KeepsQuantities env m
    → IdsBelow s
    → same_id dto.source_order_id dto.target_order_id ≡ false
    → find_order dto.source_order_id s ≡ some o
    → (move_items env number dto s).0 ≡ done t
    → Together m dto.source_order_id
        (quantity_of m o.items + target_quantity m dto.target_order_id s)
        t
        (move_items env number dto s).1
move_items-conserves env m number dto o t s law below differs e h =
    let id = dto.source_order_id in
    let target = dto.target_order_id in
    let found = found_source env number dto o s e in
    let rest = (λ s'. (split_of dto o, s')) >>= move_split env number target o in
    let (_, _, opened) =
      >>=-run (throw_if (is_closed o.status) order_closed) (λ _. rest) s t
        (sym (ap (λ r. r.0) found) ∙ h) in
    let (split, divided, splits) =
      >>=-run (λ s'. (split_of dto o, s')) (move_split env number target o) s t
        (sym (ap (λ r. r.0) (found ∙ opened)) ∙ h) in
    let run = found ∙ opened ∙ splits in
    let (taken, takes, passed) =
      and_then-done (take_items dto.items o.items) require_items split divided in
    let all =
      take_items-conserves m dto.items o.items split
        (takes ∙ ap done (require_items-same taken split passed)) in
    let left = with_items split.1 o in
    let (t₁, made, moves) =
      >>=-run (move_target env number target split.0 o) (λ x. store_left env x left) s t
        (sym (ap (λ r. r.0) run) ∙ h) in
    let targeted =
      move_target-Targeted env m number target split.0 o t₁ s id law below differs e made in
    let s₁ = (move_target env number target split.0 o s).1 in
    let together =
      store_left-Together env m (target_quantity m target s + quantity_of m split.0) id split.1 o t₁
        t s s₁ law e targeted (sym (ap (λ r. r.0) (run ∙ moves)) ∙ h) in
    subst (λ r. Together m id (quantity_of m o.items + target_quantity m target s) t r.1)
      (sym (run ∙ moves))
      (subst (λ n. Together m id n t (store_left env t₁ left s₁).1) (omega (arith, all)) together)

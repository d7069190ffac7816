-- ===== src/Lifecycle/Cooked.antt =====
-- What `kitchenQueueProcess` of src/order/order.service.ts leaves of an order.
use mathlib.Core.Path.{subst}
use gitrema_backend.Prelude.{
  ℕ, ◌==◌, ◌≡◌, refl, sym, ◌∙◌, inl, inr, true, false, ◌&&◌, if◌then◌else◌, Option, some, arith,
  Bool-cases, eq_of_==,
}
use gitrema_backend.Prelude.Action.{
  Outcome, done, or_throw, record_not_found, pure, ◌>>=◌, ◌>>◌, >>=-at_done,
}
use gitrema_backend.Prelude.Collection.{find_sound, find-update_first, find-update_first_other}
use gitrema_backend.Order.Status.{PreparationStatus}
use gitrema_backend.Lifecycle.State.{OrderDoc, Store, LifeAction, has_id, find_order}
use gitrema_backend.Lifecycle.Cook.{
  KitchenQueueProcessDto, Selection, selection_of, is_started, is_done, start_order, processed,
  all_done, finished, save_order, finish_order, post_kitchen_queue_processing, process_found,
  kitchen_queue_process,
}

-- A call returned, it left `x` as the order `id`, and every other order as it was.
abbrev pub Leaves : {A : Type 0} → ℕ → OrderDoc → A → Store → Outcome A × Store → Type 0
Leaves id x a s result =
    (result.0 ≡ done a)
    × (find_order id result.1 ≡ some x)
    × ((other : ℕ) → (id == other) ≡ false → find_order other result.1 ≡ find_order other s)

other_id : (a b c : ℕ) → (a == b) ≡ true → (b == c) ≡ false → (a == c) ≡ false
other_id a b c e h = ground arith

find-save_order :
    (id : ℕ) (g : OrderDoc → OrderDoc) (s : Store) (o : OrderDoc)
    → find_order id s ≡ some o
    → (g o).id ≡ o.id
    → Leaves id (g o) tt s (done tt, save_order id g s)
find-save_order id g s o e same =
    let own = find_sound (has_id id) s.orders o e in
    let own' = subst (λ x. (x == id) ≡ true) (sym same) own in
    (
      refl,
      find-update_first (has_id id) g s.orders o e own',
      λ other differs.
          find-update_first_other (has_id id) (has_id other) g s.orders o e
            (other_id o.id id other own differs) (other_id (g o).id id other own' differs),
    )

finish_order-Leaves :
    (o x : OrderDoc) (s : Store)
    → find_order o.id s ≡ some x
    → Leaves o.id (if all_done x.items then finished x else x) tt s (finish_order o x s)
finish_order-Leaves o x s e = elim (Bool-cases (all_done x.items)) [
  | inl all ↦ rw all (find-save_order o.id finished s x e refl)
  | inr some_ ↦ rw some_ (refl, e, λ other differs. refl)
]

-- The order behind a request for the status `p`.
abbrev pub settled : PreparationStatus → OrderDoc → OrderDoc
settled p x = if is_done p && all_done x.items then finished x else x

post_kitchen-Leaves :
    (o x : OrderDoc) (p : PreparationStatus) (s : Store)
    → find_order o.id s ≡ some x
    → Leaves o.id (settled p x) tt s (post_kitchen_queue_processing o p s)
unfolding post_kitchen_queue_processing
post_kitchen-Leaves o x p s e = elim (Bool-cases (is_done p)) [
  | inl d ↦ rw d (rw e (finish_order-Leaves o x s e))
  | inr n ↦ rw n (refl, e, λ other differs. refl)
]

processed-id :
    (now : ℕ) (p : PreparationStatus) (sel : Selection) (o : OrderDoc)
    → (processed now p sel o).id ≡ o.id
unfolding processed start_order
processed-id now p sel o = elim (Bool-cases (is_started p)) [
  | inl t ↦ rw t refl
  | inr f ↦ rw f refl
]

returning :
    (id : ℕ) (x : OrderDoc) (s s₁ : Store) (m : LifeAction (Unit {0}))
    → Leaves id x tt s₁ (m s₁)
    → ((other : ℕ) → (id == other) ≡ false → find_order other s₁ ≡ find_order other s)
    → Leaves id x true s ((m >> pure true) s₁)
returning id x s s₁ m (returned, found, others) before =
    subst (Leaves id x true s) (sym (>>=-at_done m (λ _. pure true) s₁ tt returned))
      (refl, found, λ other differs. others other differs ∙ before other differs)

-- A request of the kitchen, for an order that is there.
pub kitchen_queue_process-Leaves :
    (now : ℕ) (user_queue : Option ℕ) (dto : KitchenQueueProcessDto) (s : Store) (o : OrderDoc)
    → find_order dto.order_id s ≡ some o
    → let x = processed now dto.preparation_status (selection_of dto user_queue) o in
      Leaves dto.order_id
        (settled dto.preparation_status x)
        true
        s
        (kitchen_queue_process now user_queue dto s)
unfolding kitchen_queue_process
kitchen_queue_process-Leaves now user_queue dto s o e =
    let id = dto.order_id in
    let p = dto.preparation_status in
    let sel = selection_of dto user_queue in
    let g = processed now p sel in
    let own = eq_of_== o.id id (find_sound (has_id id) s.orders o e) in
    let (_, found, others) = find-save_order id g s o e (processed-id now p sel o) in
    let after =
      post_kitchen-Leaves o (g o) p (save_order id g s)
        (subst (λ i. find_order i (save_order id g s) ≡ some (g o)) (sym own) found) in
    subst
      (λ r.
        Leaves id (settled p (g o)) true s
          ((or_throw r record_not_found >>= process_found dto g) s))
      (sym e)
      (returning id (settled p (g o)) s (save_order id g s) (post_kitchen_queue_processing o p)
        (subst
          (λ i.
            Leaves i (settled p (g o)) tt (save_order id g s)
              (post_kitchen_queue_processing o p (save_order id g s)))
          own after)
        others)

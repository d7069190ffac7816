-- ===== src/Lifecycle/Runs.antt =====
-- How a run of `update` of src/order/order.service.ts goes: without the order, refused, or written.
use mathlib.Core.Path.{subst}
use gitrema_backend.Prelude.{
  ℕ, ◌==◌, ◌≡◌, refl, sym, ap, ◌∙◌, inl, inr, true, false, none, some, arith, Option-cases,
  eq_of_==,
}
use gitrema_backend.Prelude.Action.{
  done, failed, Failure, done-injective, Outcome-cases, record_not_found,
}
use gitrema_backend.Prelude.Collection.{
  find, update_first, find_sound, find-update_first, find-update_first_other,
}
use gitrema_backend.Lifecycle.State.{
  OrderDoc, UpdateOrderDto, Store, Env, has_id, find_order, numbered, write_order, log_calls,
}
use gitrema_backend.Lifecycle.Calls.{post_order_update}
use gitrema_backend.Lifecycle.Update.{updated, update}

-- The store behind an update of `o` to `d`.
abbrev pub written : UpdateOrderDto → OrderDoc → OrderDoc → Store → Store
written dto o d s = log_calls (post_order_update (numbered s.next_id d) dto o) (write_order d s)

pub update_missing :
    (env : Env) (id : ℕ) (dto : UpdateOrderDto) (s : Store)
    → find_order id s ≡ none
    → update env id dto s ≡ (failed record_not_found, s)
unfolding update
update_missing env id dto s e = rw e refl

pub update_refused :
    (env : Env) (id : ℕ) (dto : UpdateOrderDto) (s : Store) (o : OrderDoc) (x : Failure)
    → find_order id s ≡ some o
    → updated env dto o ≡ failed x
    → update env id dto s ≡ (failed x, s)
unfolding update
update_refused env id dto s o x e h = rw e (rw h refl)

pub update-written :
    (env : Env) (id : ℕ) (dto : UpdateOrderDto) (s : Store) (o d : OrderDoc)
    → find_order id s ≡ some o
    → updated env dto o ≡ done d
    → update env id dto s ≡ (done (numbered s.next_id d), written dto o d s)
unfolding update
update-written env id dto s o d e h = rw e (rw h refl)

has_id-eq : (a b c : ℕ) → b ≡ a → (a == c) ≡ true → (b == c) ≡ true
has_id-eq a b c e h = ground arith

has_other_id : (a b c : ℕ) → (a == b) ≡ true → (b == c) ≡ false → (a == c) ≡ false
has_other_id a b c e h = ground arith

-- Of the document that is found, the one that is written takes the place, and every other order
-- is found as before.
pub find-write_order :
    (id : ℕ) (s : Store) (o d : OrderDoc)
    → find_order id s ≡ some o
    → d.id ≡ o.id
    → (find_order id (write_order d s) ≡ some (numbered s.next_id d))
      × ((other : ℕ)
          → (id == other) ≡ false
          → find_order other (write_order d s) ≡ find_order other s)
find-write_order id s o d e same =
    let own = find_sound (has_id id) s.orders o e in
    let own' = has_id-eq o.id d.id id same own in
    subst
      (λ x.
        (find (has_id id) (update_first (has_id x) (λ _. numbered s.next_id d) s.orders)
          ≡ some (numbered s.next_id d))
        × ((other : ℕ)
            → (id == other) ≡ false
            → find (has_id other) (update_first (has_id x) (λ _. numbered s.next_id d) s.orders)
              ≡ find_order other s))
      (sym (eq_of_== d.id id own'))
      (
        find-update_first (has_id id) (λ _. numbered s.next_id d) s.orders o e own',
        λ other differs.
            find-update_first_other (has_id id) (has_id other) (λ _. numbered s.next_id d) s.orders
              o e (has_other_id o.id id other own differs)
              (has_other_id d.id id other own' differs),
      )

failed-not_done : {A : Type 0} {x : Failure} {a : A} → failed x ≡ done a → ⊥
failed-not_done e = ground arith

-- An update that returns found an order, and wrote what it returns.
pub update-done :
    (env : Env) (id : ℕ) (dto : UpdateOrderDto) (s : Store) (m : OrderDoc)
    → (update env id dto s).0 ≡ done m
    → (o : OrderDoc) × (d : OrderDoc) × (find_order id s ≡ some o)
      × (updated env dto o ≡ done d)
      × (m ≡ numbered s.next_id d)
update-done env id dto s m e = elim (Option-cases (find_order id s)) [
  | inl missing ↦
      absurd (failed-not_done (sym (ap (λ r. r.0) (update_missing env id dto s missing)) ∙ e))
  | inr (o, found) ↦ elim (Outcome-cases (updated env dto o)) [
    | inl (x, refused) ↦
        absurd (
          failed-not_done (sym (ap (λ r. r.0) (update_refused env id dto s o x found refused)) ∙ e))
    | inr (d, new) ↦
        let same =
          done-injective (sym (ap (λ r. r.0) (update-written env id dto s o d found new)) ∙ e) in
        (o, d, found, new, sym same)
  ]
]

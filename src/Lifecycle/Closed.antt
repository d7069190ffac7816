-- ===== src/Lifecycle/Closed.antt =====
-- Sequences of updates of src/order/order.service.ts, and the orders that are closed.
use mathlib.Core.Path.{subst}
use gitrema_backend.Prelude.{
  ℕ, ◌==◌, ◌≡◌, refl, sym, ap, ◌∙◌, inl, inr, true, false, some, List, [], ◌∷◌, All, arith,
  Option-cases, Bool-cases, eq_of_==,
}
use gitrema_backend.Prelude.Action.{done, failed, Outcome-cases, order_closed}
use gitrema_backend.Order.Status.{OrderStatus}
use gitrema_backend.Lifecycle.State.{OrderDoc, UpdateOrderDto, Store, Env, find_order}
use gitrema_backend.Lifecycle.Update.{asks, is_closed, check_update, updated, update}
use gitrema_backend.Lifecycle.Runs.{
  written, update_missing, update_refused, update-written, find-write_order,
}
use gitrema_backend.Lifecycle.Transitions.{updated-Passes}

-- What a run of `update` does to the store, in its three cases.
pub data Ran (env : Env) (id : ℕ) (dto : UpdateOrderDto) (s : Store) : Store → Type 0 where
  kept : Ran env id dto s s
  wrote :
      (o d : OrderDoc)
      → find_order id s ≡ some o
      → updated env dto o ≡ done d
      → Ran env id dto s (written dto o d s)

pub update-Ran :
    (env : Env) (id : ℕ) (dto : UpdateOrderDto) (s : Store)
    → Ran env id dto s (update env id dto s).1
update-Ran env id dto s = elim (Option-cases (find_order id s)) [
  | inl missing ↦ subst (λ r. Ran env id dto s r.1) (sym (update_missing env id dto s missing)) kept
  | inr (o, found) ↦ elim (Outcome-cases (updated env dto o)) [
    | inl (x, refused) ↦
        subst (λ r. Ran env id dto s r.1) (sym (update_refused env id dto s o x found refused)) kept
    | inr (d, new) ↦
        subst (λ r. Ran env id dto s r.1) (sym (update-written env id dto s o d found new))
          (wrote o d found new)
  ]
]

pub record Request : Type 0 where
  pub env : Env
  pub id : ℕ
  pub dto : UpdateOrderDto

-- Updates one after another; one that throws does not end the sequence.
abbrev pub update_all_requests : List Request → Store → Store
update_all_requests [] s = s
update_all_requests (r ∷ rs) s = update_all_requests rs (update r.env r.id r.dto s).1

some-injective : {A : Type 0} {a b : A} → some a ≡ some b → a ≡ b
some-injective e = ground arith

updated-closed :
    (env : Env) (dto : UpdateOrderDto) (o : OrderDoc)
    → is_closed o.status ≡ true
    → asks dto.status OrderStatus.reset ≡ false
    → updated env dto o ≡ failed order_closed
unfolding updated check_update
updated-closed env dto o closed none_ = rw closed (rw none_ refl)

closed_step :
    (id : ℕ) (r : Request) (s s' : Store) (o : OrderDoc)
    → Ran r.env r.id r.dto s s'
    → find_order id s ≡ some o
    → is_closed o.status ≡ true
    → asks r.dto.status OrderStatus.reset ≡ false
    → find_order id s' ≡ some o
closed_step id r s _ o kept e closed n = e
closed_step id r s _ o (wrote p d found new) e closed n =
    let (_, same) = updated-Passes r.env r.dto p d new in
    let (_, others) = find-write_order r.id s p d found same in
    elim (Bool-cases (r.id == id)) [
      | inl mine ↦
          let same_order =
            some-injective (sym found ∙ ap (λ i. find_order i s) (eq_of_== r.id id mine) ∙ e) in
          let refused =
            updated-closed r.env r.dto p
              (subst (λ x. is_closed x.status ≡ true) (sym same_order) closed) n in
          absurd (ground arith)
      | inr other ↦ others id other ∙ e
    ]

-- An order that is closed is found unchanged, in every field, behind any sequence of updates none
-- of which asks for `Reset`.
pub closed_until_reset :
    (id : ℕ) (rs : List Request) (s : Store) (o : OrderDoc)
    → find_order id s ≡ some o
    → is_closed o.status ≡ true
    → All (λ r. asks r.dto.status OrderStatus.reset ≡ false) rs
    → find_order id (update_all_requests rs s) ≡ some o
closed_until_reset id [] s o e closed n = e
closed_until_reset id (r ∷ rs) s o e closed n =
    let s' = (update r.env r.id r.dto s).1 in
    closed_until_reset id rs s' o
      (closed_step id r s s' o (update-Ran r.env r.id r.dto s) e closed n.0) closed n.1

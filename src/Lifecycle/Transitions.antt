-- ===== src/Lifecycle/Transitions.antt =====
-- The changes of status that `update` of src/order/order.service.ts makes.
use gitrema_backend.Prelude.{
  ℕ, ◌≡◌, refl, sym, ap, ◌∙◌, ◌⊎◌, inl, inr, Bool, true, false, Option, none, some, List, arith,
  Bool-cases, is_some, is_text, if◌then◌else◌, not, ◌&&◌, ◌||◌,
}
use gitrema_backend.Prelude.Int.{pos, ltb_ℤ}
use gitrema_backend.Prelude.Action.{
  Outcome, done, failed, and_then-done, done-injective, order_closed, not_allowed,
}
use gitrema_backend.Prelude.Action.{same_status as same_status_failure}
use gitrema_backend.Order.Status.{OrderStatus}
use gitrema_backend.Lifecycle.State.{OrderDoc, UpdateOrderDto, Env}
use gitrema_backend.Lifecycle.Update.{
  asks, is_closed, check_update, override, merge, ids_of, serve_items, mark_status, prepare_order,
  reprice, set_payment_status, updated,
}

-- What passes the guards: `Reset` of a closed order, or another status for one that is not closed.
abbrev pub Passes : OrderStatus → Option OrderStatus → Type 0
Passes a asked =
    ((is_closed a ≡ true) × (asks asked OrderStatus.reset ≡ true))
    ⊎ ((is_closed a ≡ false) × (asks asked OrderStatus.reset ≡ false) × (asks asked a ≡ false))

pub check_update-done :
    (a : OrderStatus) (asked : Option OrderStatus) (u : Unit {0})
    → check_update a asked ≡ done u
    → Passes a asked
unfolding check_update
check_update-done a asked u e =
    passes (is_closed a) (asks asked OrderStatus.reset) (asks asked a) u e
  where
    passes :
        (c r m : Bool) (u : Unit {0})
        → (if c && not r
            then failed order_closed
            else if r && not c
            then failed not_allowed
            else if m
            then failed same_status_failure
            else done tt)
          ≡ done u
        → ((c ≡ true) × (r ≡ true)) ⊎ ((c ≡ false) × (r ≡ false) × (m ≡ false))
    passes c r m u e = ground arith

pub prepare_order-keeps :
    (env : Env) (o d : OrderDoc)
    → prepare_order env o ≡ done d
    → (d.status ≡ o.status) × (d.id ≡ o.id)
unfolding prepare_order
prepare_order-keeps env o d e =
    let (items, _, e') = and_then-done (env.prepare o) _ d e in
    let same = done-injective e' in (ap (λ x. x.status) (sym same), ap (λ x. x.id) (sym same))

reprice-keeps :
    (env : Env) (dto : UpdateOrderDto) (old o d : OrderDoc)
    → reprice env dto old o ≡ done d
    → (d.status ≡ o.status) × (d.id ≡ o.id)
unfolding reprice
reprice-keeps env dto old o d e =
    split (is_some dto.items || is_text dto.coupon_code) (is_text dto.coupon_code) e
  where
    split :
        (b c : Bool)
        → (if b
            then prepare_order env (if c then o else record o { coupon_code = old.coupon_code })
            else done o)
          ≡ done d
        → (d.status ≡ o.status) × (d.id ≡ o.id)
    split true true e = prepare_order-keeps env o d e
    split true false e = prepare_order-keeps env (record o { coupon_code = old.coupon_code }) d e
    split false c e =
        let same = done-injective e in (ap (λ x. x.status) (sym same), ap (λ x. x.id) (sym same))

pub set_payment_status-keeps :
    (o : OrderDoc) → ((set_payment_status o).status ≡ o.status) × ((set_payment_status o).id ≡ o.id)
unfolding set_payment_status
set_payment_status-keeps o = elim (Bool-cases (ltb_ℤ (pos 0) o.summary.total_paid)) [
  | inl t ↦ rw t (refl, refl)
  | inr f ↦ rw f (refl, refl)
]

unchanged :
    {old : OrderStatus} {asked : Option OrderStatus} (o d : OrderDoc)
    → done o ≡ done d
    → (((d.status ≡ old) × (asked ≡ some OrderStatus.on_table)) ⊎ (d.status ≡ o.status))
      × (d.id ≡ o.id)
unchanged o d e =
    let same = done-injective e in (inr (ap (λ x. x.status) (sym same)), ap (λ x. x.id) (sym same))

mark_status-keeps :
    (now : ℕ) (ids : Option (List ℕ)) (old : OrderStatus) (o d : OrderDoc)
    (asked : Option OrderStatus)
    → mark_status now ids old o asked ≡ done d
    → (((d.status ≡ old) × (asked ≡ some OrderStatus.on_table)) ⊎ (d.status ≡ o.status))
      × (d.id ≡ o.id)
mark_status-keeps now ids old o d none e = unchanged o d e
mark_status-keeps now ids old o d (some OrderStatus.new) e = unchanged o d e
mark_status-keeps now ids old o d (some OrderStatus.sent_to_kitchen) e =
    let same = done-injective e in (inr (ap (λ x. x.status) (sym same)), ap (λ x. x.id) (sym same))
mark_status-keeps now ids old o d (some OrderStatus.started_preparing) e = unchanged o d e
mark_status-keeps now ids old o d (some OrderStatus.done_preparing) e = unchanged o d e
mark_status-keeps now ids old o d (some OrderStatus.on_table) e = served (ids_of o.items) ids e
  where
    served :
        (r : Outcome (List ℕ)) (ids : Option (List ℕ))
        → (elim r as (λ _. Outcome OrderDoc) [
          | failed x ↦ failed x
          | done all ↦ done (serve_items now ids old o all)
        ])
          ≡ done d
        → (((d.status ≡ old) × (some OrderStatus.on_table ≡ some OrderStatus.on_table))
            ⊎ (d.status ≡ o.status))
          × (d.id ≡ o.id)
    served (failed x) ids e = absurd (ground arith)
    served (done all) none e =
        let same = done-injective e in
        (inr (ap (λ x. x.status) (sym same)), ap (λ x. x.id) (sym same))
    served (done all) (some listed) e =
        let same = done-injective e in
        (inl (ap (λ x. x.status) (sym same), refl), ap (λ x. x.id) (sym same))
mark_status-keeps now ids old o d (some OrderStatus.closed) e = unchanged o d e
mark_status-keeps now ids old o d (some OrderStatus.cancelled) e = unchanged o d e
mark_status-keeps now ids old o d (some OrderStatus.cancelled_by_merge) e = unchanged o d e
mark_status-keeps now ids old o d (some OrderStatus.cancelled_wih_payment_failed) e =
    unchanged o d e
mark_status-keeps now ids old o d (some OrderStatus.reset) e = unchanged o d e

follow_status :
    {a b c x : OrderStatus} {P : Type 0} → c ≡ b → ((b ≡ a) × P) ⊎ (b ≡ x) → ((c ≡ a) × P) ⊎ (c ≡ x)
follow_status e (inl (h, p)) = inl (e ∙ h, p)
follow_status e (inr h) = inr (e ∙ h)

-- The document that `update` writes passed the guards and keeps the identifier. Its status is the
-- one that was asked for, if any, or, where items were served, the old one.
pub updated-Passes :
    (env : Env) (dto : UpdateOrderDto) (o d : OrderDoc)
    → updated env dto o ≡ done d
    → (Passes o.status dto.status
        × (((d.status ≡ o.status) × (dto.status ≡ some OrderStatus.on_table))
            ⊎ (d.status ≡ override dto.status o.status)))
      × (d.id ≡ o.id)
unfolding updated merge
updated-Passes env dto o d e =
    let (u, passed, e₁) = and_then-done (check_update o.status dto.status) _ d e in
    let (marked, m, e₂) =
      and_then-done (mark_status env.now dto.order_item_ids o.status (merge dto o) dto.status) _ d
        e₁ in
    let (priced, p, e₃) = and_then-done (reprice env dto o marked) _ d e₂ in
    let (s₁, i₁) =
      mark_status-keeps env.now dto.order_item_ids o.status (merge dto o) marked dto.status m in
    let (s₂, i₂) = reprice-keeps env dto o marked priced p in
    let (s₃, i₃) = set_payment_status-keeps priced in
    let same = done-injective e₃ in
    (
      (
        check_update-done o.status dto.status u passed,
        follow_status (ap (λ x. x.status) (sym same) ∙ s₃ ∙ s₂) s₁,
      ),
      ap (λ x. x.id) (sym same) ∙ i₃ ∙ i₂ ∙ i₁,
    )

-- ===== src/Lifecycle/PaymentStatus.antt =====
-- The payment status and the summary of an order behind `update` of src/order/order.service.ts.
use mathlib.Core.Path.{subst}
use gitrema_backend.Prelude.{
  ℕ, ◌≡◌, refl, sym, ap, ◌∙◌, ◌⊎◌, inl, inr, true, false, ◌||◌, List, [], ◌∷◌, arith, Bool-cases,
  map, is_some, is_text,
}
use gitrema_backend.Prelude.Int.{ℤ, pos, ◌<ℤ◌, ltb_ℤ, eqb_ℤ, eqb_ℤ→eq, ltb_ℤ→lt, ltb_ℤ→lt}
use gitrema_backend.Prelude.Action.{done, and_then-done, done-injective}
use gitrema_backend.Order.Status.{OrderPaymentStatus}
use gitrema_backend.Pricing.{calculate_summery, summary_with}
use gitrema_backend.Lifecycle.State.{
  OrderItem, OrderDoc, UpdateOrderDto, Store, Env, numbered, number_items,
}
use gitrema_backend.Lifecycle.Update.{
  merge, mark_status, check_update, order_data, with_summary, prepare_order, reprice, due_of,
  paid_status, set_payment_status, updated, update,
}
use gitrema_backend.Lifecycle.Runs.{update-done}

-- What the payment status says of what was paid and what is due.
abbrev pub Compared : OrderPaymentStatus → ℤ → ℤ → Type 0
Compared status paid due =
    ((status ≡ OrderPaymentStatus.over_paid) × (due <ℤ paid))
    ⊎ (((status ≡ OrderPaymentStatus.paid) × (paid ≡ due))
        ⊎ ((status ≡ OrderPaymentStatus.not_paid) × (paid <ℤ due)))

lt_of_not : (a b : ℤ) → ltb_ℤ a b ≡ false → eqb_ℤ b a ≡ false → b <ℤ a
lt_of_not a b h k = ground arith

paid_status-Compared : (paid due : ℤ) → Compared (paid_status paid due) paid due
paid_status-Compared paid due = elim (Bool-cases (ltb_ℤ due paid)) [
  | inl over ↦ rw over (inl (refl, ltb_ℤ→lt due paid over))
  | inr within ↦ rw within (elim (Bool-cases (eqb_ℤ paid due)) [
    | inl same ↦ rw same (inr (inl (refl, eqb_ℤ→eq paid due same)))
    | inr less ↦ rw less (inr (inr (refl, lt_of_not due paid within less)))
  ])
]

set_payment_status-summary : (o : OrderDoc) → (set_payment_status o).summary ≡ o.summary
unfolding set_payment_status
set_payment_status-summary o = elim (Bool-cases (ltb_ℤ (pos 0) o.summary.total_paid)) [
  | inl t ↦ rw t refl
  | inr f ↦ rw f refl
]

positive : (a : ℤ) → pos 0 <ℤ a → ltb_ℤ (pos 0) a ≡ true
positive a h = ground arith

set_payment_status-Compared :
    (o : OrderDoc)
    → pos 0 <ℤ o.summary.total_paid
    → let d = set_payment_status o in Compared d.payment_status d.summary.total_paid (due_of d)
unfolding set_payment_status
set_payment_status-Compared o h =
    rw (positive o.summary.total_paid h) (paid_status-Compared o.summary.total_paid (due_of o))

-- An updated order ends with the comparison.
updated-ends :
    (env : Env) (dto : UpdateOrderDto) (o d : OrderDoc)
    → updated env dto o ≡ done d
    → (marked : OrderDoc) × (priced : OrderDoc) × (reprice env dto o marked ≡ done priced)
      × (set_payment_status priced ≡ d)
unfolding updated
updated-ends env dto o d e =
    let (u, _, e₁) = and_then-done (check_update o.status dto.status) _ d e in
    let (marked, _, e₂) =
      and_then-done (mark_status env.now dto.order_item_ids o.status (merge dto o) dto.status) _ d
        e₁ in
    let (priced, p, e₃) = and_then-done (reprice env dto o marked) _ d e₂ in
    (marked, priced, p, done-injective e₃)

-- An update that returns an order on which something was paid returns it with the status that the
-- comparison of the amount paid with the amount due, tip included, gives.
pub update-Compared :
    (env : Env) (id : ℕ) (dto : UpdateOrderDto) (s : Store) (m : OrderDoc)
    → (update env id dto s).0 ≡ done m
    → pos 0 <ℤ m.summary.total_paid
    → Compared m.payment_status m.summary.total_paid (due_of m)
update-Compared env id dto s m e h =
    let (o, d, _, new, same) = update-done env id dto s m e in
    let (_, priced, _, ends) = updated-ends env dto o d new in
    let paid_ = subst (λ x. pos 0 <ℤ x.summary.total_paid) same h in
    subst (λ x. Compared x.payment_status x.summary.total_paid (due_of x)) (sym same)
      (subst (λ x. Compared x.payment_status x.summary.total_paid (due_of x)) ends
        (set_payment_status-Compared priced (
          subst (λ x. pos 0 <ℤ x.total_paid)
            (ap (λ x. x.summary) (sym ends) ∙ set_payment_status-summary priced) paid_)))

number_items-amounts :
    (n : ℕ) (is : List OrderItem)
    → map (λ i. i.amounts) (number_items n is) ≡ map (λ i. i.amounts) is
number_items-amounts n [] = refl
number_items-amounts n (i ∷ is) = ap (λ x. i.amounts ∷ x) (number_items-amounts _ is)

order_data-numbered : (n : ℕ) (o : OrderDoc) → order_data (numbered n o) ≡ order_data o
order_data-numbered n o =
    ap (λ x. record (order_data o) { items = x }) (number_items-amounts n o.items)

-- The summary is the one that `calculateSummery` gives for the order that has it.
abbrev pub IsSummedUp : Env → OrderDoc → Type 0
IsSummedUp env o = o.summary ≡ calculate_summery (order_data o) env.now env.offers

with_summary-IsSummedUp : (env : Env) (o : OrderDoc) → IsSummedUp env (with_summary env o)
unfolding calculate_summery summary_with
with_summary-IsSummedUp env o = refl

prepare_order-IsSummedUp :
    (env : Env) (o d : OrderDoc) → prepare_order env o ≡ done d → IsSummedUp env d
unfolding prepare_order
prepare_order-IsSummedUp env o d e =
    let (items, _, e') = and_then-done (env.prepare o) _ d e in
    subst (IsSummedUp env) (done-injective e')
      (with_summary-IsSummedUp env (record o { items = items }))

reprice-IsSummedUp :
    (env : Env) (dto : UpdateOrderDto) (old o d : OrderDoc)
    → (is_some dto.items || is_text dto.coupon_code) ≡ true
    → reprice env dto old o ≡ done d
    → IsSummedUp env d
unfolding reprice
reprice-IsSummedUp env dto old o d asked = rw asked (λ e. prepare_order-IsSummedUp env _ d e)

set_payment_status-IsSummedUp :
    (env : Env) (o : OrderDoc) → IsSummedUp env o → IsSummedUp env (set_payment_status o)
unfolding set_payment_status
set_payment_status-IsSummedUp env o h = elim (Bool-cases (ltb_ℤ (pos 0) o.summary.total_paid)) [
  | inl t ↦ rw t h
  | inr f ↦ rw f h
]

-- Where the body has items or a code, the summary of the order that is returned is the one that
-- `calculateSummery` gives for this very order: summing it up again changes nothing.
pub update-IsSummedUp :
    (env : Env) (id : ℕ) (dto : UpdateOrderDto) (s : Store) (m : OrderDoc)
    → (update env id dto s).0 ≡ done m
    → (is_some dto.items || is_text dto.coupon_code) ≡ true
    → IsSummedUp env m
update-IsSummedUp env id dto s m e asked =
    let (o, d, _, new, same) = update-done env id dto s m e in
    let (marked, priced, p, ends) = updated-ends env dto o d new in
    let fixed =
      set_payment_status-IsSummedUp env priced
        (reprice-IsSummedUp env dto o marked priced asked p) in
    subst (IsSummedUp env) (sym same) (
      subst (λ x. d.summary ≡ calculate_summery x env.now env.offers)
        (sym (order_data-numbered s.next_id d)) (subst (IsSummedUp env) ends fixed))

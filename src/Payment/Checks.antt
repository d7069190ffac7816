-- ===== src/Payment/Checks.antt =====
-- What the guards of `create` (src/payment/payment.service.ts) let through.
use mathlib.Core.Path.{subst}
use gitrema_backend.Prelude.{
  ℕ, ◌≡◌, sym, ap, ◌∙◌, inl, inr, false, Option, none, some, List, arith, Bool-cases, Option-cases,
  eq_of_==,
}
use gitrema_backend.Prelude.Int.{◌+ℤ◌, ltb_ℤ}
use gitrema_backend.Prelude.Action.{Outcome, done, failed, done-injective}
use gitrema_backend.Prelude.Collection.{find, find_sound}
use gitrema_backend.Order.Status.{is_success, is_ended}
use gitrema_backend.Order.State.{Order, has_id}
use gitrema_backend.Payment.State.{Transaction, Db, PaymentInitiateDto}
use gitrema_backend.Payment.Process.{due}
use gitrema_backend.Payment.Service.{
  amount_to_collect, is_transaction, named_transaction, payment_check, check_amount,
}

pub named_transaction_sound :
    (id : Option ℕ) (ts : List Transaction) (t : Transaction)
    → named_transaction id ts ≡ done (some t)
    → (find (is_transaction t.id) ts ≡ some t) × (is_success t.status ≡ false)
unfolding named_transaction
named_transaction_sound none ts t e = absurd (ground arith)
named_transaction_sound (some id) ts t e = elim (Option-cases (find (is_transaction id) ts)) [
  | inl missing ↦ absurd (ground arith)
  | inr (x, found) ↦ elim (Bool-cases (is_success x.status)) [
    | inl paid ↦ absurd (ground arith)
    | inr unpaid ↦
        let same : x ≡ t = ground arith in
        let key = eq_of_== x.id id (find_sound (is_transaction id) ts x found) in
        subst (λ z. (find (is_transaction z.id) ts ≡ some z) × (is_success z.status ≡ false)) same
          (subst (λ i. find (is_transaction i) ts ≡ some x) (sym key) found, unpaid)
  ]
]

pub check_amount_sound :
    (dto : PaymentInitiateDto) (o o' : Order) (r : Outcome (Option Transaction))
    (t : Option Transaction)
    → check_amount dto o r ≡ done (o', t)
    → (o ≡ o')
      × (r ≡ done t)
      × (ltb_ℤ (due o) (o.summary.total_paid +ℤ amount_to_collect dto o t) ≡ false)
unfolding check_amount
check_amount_sound dto o o' (failed f) t e = absurd (ground arith)
check_amount_sound dto o o' (done u) t e =
    elim (Bool-cases (ltb_ℤ (due o) (o.summary.total_paid +ℤ amount_to_collect dto o u))) [
      | inl more ↦ absurd (ground arith)
      | inr fits ↦
          let pair : (o, u) ≡ (o', t) = done-injective (rw fits at e) in
          let same : u ≡ t = ap (λ z. z.1) pair in
          (
            ap (λ z. z.0) pair,
            ap done same,
            subst (λ z. ltb_ℤ (due o) (o.summary.total_paid +ℤ amount_to_collect dto o z) ≡ false)
                same fits,
          )
    ]

pub payment_check_sound :
    (dto : PaymentInitiateDto) (db : Db) (o : Order) (t : Option Transaction)
    → payment_check dto db ≡ done (o, t)
    → (find (has_id dto.order_id) db.orders ≡ some o)
      × (named_transaction dto.transaction_id db.transactions ≡ done t)
      × (ltb_ℤ (due o) (o.summary.total_paid +ℤ amount_to_collect dto o t) ≡ false)
unfolding payment_check
payment_check_sound dto db o t e = elim (Option-cases (find (has_id dto.order_id) db.orders)) [
  | inl missing ↦ absurd (ground arith)
  | inr (x, found) ↦ elim (Bool-cases (is_ended x.status)) [
    | inl ended ↦ absurd (ground arith)
    | inr open_ ↦
        let checked : check_amount dto x (named_transaction dto.transaction_id db.transactions)
            ≡ done (o, t) =
          ground arith in
        let (same, named, fits) =
          check_amount_sound dto x o (named_transaction dto.transaction_id db.transactions) t
            checked in
        (
          found ∙ ap some same,
          named,
          subst (λ z. ltb_ℤ (due z) (z.summary.total_paid +ℤ amount_to_collect dto z t) ≡ false)
              same fits,
        )
  ]
]

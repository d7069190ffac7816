-- ===== src/Payment/Refunds.antt =====
-- What `refund` of src/payment/payment.service.ts does to its order.
use mathlib.Core.Path.{subst}
use gitrema_backend.Prelude.{
  ℕ, ◌≡◌, refl, sym, ap, ◌∙◌, inl, inr, if◌then◌else◌, true, some, arith, Bool-cases, Option-cases,
  ==-refl, eq_of_==,
}
use gitrema_backend.Prelude.Int.{◌+ℤ◌, ◌-ℤ◌, ◌≤ℤ◌, ltb_ℤ, eqb_ℤ, ltb_ℤ→le, int_laws}
use gitrema_backend.Prelude.Action.{done, ◌>>=◌, >>=-done, >>=-at_done}
use gitrema_backend.Prelude.Collection.{find, find_sound, find-update_all}
use gitrema_backend.Order.Status.{OrderPaymentStatus}
use gitrema_backend.Order.State.{Order, has_id}
use gitrema_backend.Cashier.{Request, CashierAction, resolve_cashier_id}
use gitrema_backend.Payment.State.{Transaction, Db, on_cashier, RefundDto}
use gitrema_backend.Payment.Process.{
  refunded, post_transaction_process, process_success, process_order, process_order,
}
use gitrema_backend.Payment.Service.{refund_check, new_refund, pay_back, refund}

refund_check_sound :
    (dto : RefundDto) (db : Db) (o : Order)
    → refund_check dto db ≡ done o
    → (find (has_id dto.order_id) db.orders ≡ some o)
      × (o.summary.total_refunded +ℤ dto.amount ≤ℤ o.summary.total_paid)
unfolding refund_check
refund_check_sound dto db o e = elim (Option-cases (find (has_id dto.order_id) db.orders)) [
  | inl missing ↦ absurd (ground arith)
  | inr (x, found) ↦
      elim (Bool-cases (ltb_ℤ (x.summary.total_paid -ℤ x.summary.total_refunded) dto.amount)) [
        | inl more ↦ absurd (ground arith)
        | inr fits ↦
            let same : x ≡ o = ground arith in
            let le = ltb_ℤ→le (x.summary.total_paid -ℤ x.summary.total_refunded) dto.amount fits in
            (
              found ∙ ap some same,
              subst (λ z. z.summary.total_refunded +ℤ dto.amount ≤ℤ z.summary.total_paid) same
                  (omega int_laws),
            )
      ]
]

-- The order that is found is replaced by the refunded one.
pay_back-order :
    (req : Request) (dto : RefundDto) (now : ℕ) (o : Order) (cid : ℕ) (db : Db)
    → find (has_id o.id) db.orders ≡ some o
    → find (has_id o.id) (pay_back req dto now o cid db).1.orders
      ≡ some (refunded (new_refund req dto o cid db.next_id) o o)
unfolding pay_back process_success process_order post_transaction_process refunded
pay_back-order req dto now o cid db found =
    let t = new_refund req dto o cid db.next_id in
    rw found (find-update_all (has_id o.id) (refunded t o) db.orders o found (==-refl o.id))

-- A refund that returns found the order. It does not refund more than was paid and not refunded
-- before. Afterwards the order is found with the amount added to what is refunded, with the same
-- total paid, and as refunded if all of that is refunded, else as partially refunded.
pub refund_lem :
    (req : Request) (dto : RefundDto) (now : ℕ) (db : Db) (t : Transaction)
    → (refund req dto now db).0 ≡ done t
    → (o o' : Order) × (find (has_id dto.order_id) db.orders ≡ some o)
      × (find (has_id dto.order_id) (refund req dto now db).1.orders ≡ some o')
      × (o'.summary.total_refunded ≡ o.summary.total_refunded +ℤ dto.amount)
      × (o'.summary.total_paid ≡ o.summary.total_paid)
      × (o'.summary.total_refunded ≤ℤ o'.summary.total_paid)
      × (o'.payment_status ≡ (
          if eqb_ℤ o'.summary.total_refunded o'.summary.total_paid
          then OrderPaymentStatus.refunded
          else OrderPaymentStatus.partially_refunded))
unfolding refund refunded
refund_lem req dto now db t e =
    let resolved : Order → CashierAction ℕ =
      λ o. resolve_cashier_id req dto.cashier_id true (some o.restaurant_id) now in
    let (o, checked, e1) =
      >>=-done (λ s. (refund_check dto s, s))
        (λ o. on_cashier (resolved o) >>= pay_back req dto now o) db t e in
    let (cid, known, e2) = >>=-done (on_cashier (resolved o)) (pay_back req dto now o) db t e1 in
    let (found, fits) = refund_check_sound dto db o checked in
    let db1 = (on_cashier (resolved o) db).1 in
    let same = eq_of_== o.id dto.order_id (find_sound (has_id dto.order_id) db.orders o found) in
    let after : refund req dto now db ≡ pay_back req dto now o cid db1 =
      >>=-at_done (λ s. (refund_check dto s, s))
        (λ o'. on_cashier (resolved o') >>= pay_back req dto now o') db o checked
      ∙ >>=-at_done (on_cashier (resolved o)) (pay_back req dto now o) db cid known in
    let o' = refunded (new_refund req dto o cid db.next_id) o o in
    let changed =
      pay_back-order req dto now o cid db1
        (subst (λ i. find (has_id i) db.orders ≡ some o) (sym same) found) in
    (
      o,
      o',
      found,
      subst (λ r. find (has_id dto.order_id) r.1.orders ≡ some o') (sym after)
          (subst (λ i. find (has_id i) (pay_back req dto now o cid db1).1.orders ≡ some o') same
            changed),
      refl,
      refl,
      fits,
      refl,
    )

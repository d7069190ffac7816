-- ===== src/Payment/Bounds.antt =====
-- What payments and refunds may come to: the guards of src/payment/payment.service.ts, and the
-- order's status in `postTransactionProcess` of src/transaction/transaction.service.ts.
use mathlib.Core.Path.{subst}
use gitrema_backend.Prelude.{ℕ, ◌+◌, ◌≡◌, refl, sym, ap, ◌∙◌, true, Option, none, some, arith}
use gitrema_backend.Prelude.Int.{ℤ, ◌+ℤ◌, ◌≤ℤ◌, ◌<ℤ◌, ltb_ℤ, ltb_ℤ→le, pos_part, neg_part}
use gitrema_backend.Prelude.Action.{done, done-injective, ◌>>=◌, pure, >>=-done, >>=-at_done}
use gitrema_backend.Prelude.Collection.{find, find-All}
use gitrema_backend.Order.Status.{PaymentMethod}
use gitrema_backend.Order.State.{Order, has_id}
use gitrema_backend.Cashier.{Request, CashierAction, resolve_cashier_id, log_transaction_async}
use gitrema_backend.Payment.State.{Transaction, Db, on_cashier, PaymentInitiateDto}
use gitrema_backend.Payment.Process.{due, paid_in, set_order}
use gitrema_backend.Payment.Service.{
  new_payment, retried, push_payment, add_transaction, set_transaction, amount_to_collect,
  payment_check, place_transaction, finish_payment, collect, create,
}
use gitrema_backend.Payment.Totals.{TotalMatches, PaidMatches}
use gitrema_backend.Payment.Checks.{payment_check_sound}

lt→ltb_ℤ : (a b : ℤ) → a <ℤ b → ltb_ℤ a b ≡ true
lt→ltb_ℤ a b h = ground arith

eq→parts : (a b : ℤ) → a ≡ b → pos_part a + neg_part b ≡ pos_part b + neg_part a
eq→parts a b h = ground arith

finish-done :
    (m : PaymentMethod) (t : Transaction) (now : ℕ) (db : Db)
    → (finish_payment m t now db).0 ≡ done tt
unfolding finish_payment
finish-done PaymentMethod.cash t now db = refl
finish-done PaymentMethod.card t now db = refl
finish-done PaymentMethod.online t now db = refl
finish-done PaymentMethod.pos t now db = refl
finish-done _ t now db = refl

-- The transaction that is returned is for the amount that was checked.
collect-amount :
    (req : Request) (dto : PaymentInitiateDto) (now : ℕ) (o : Order) (named : Option Transaction)
    (cid : ℕ) (db : Db) (t : Transaction)
    → (collect req dto now (o, named) cid db).0 ≡ done t
    → t.amount ≡ amount_to_collect dto o named
unfolding collect place_transaction
collect-amount req dto now o none cid db t e =
    let placed = new_payment req dto o cid db.next_id in
    let db1 =
      set_order o.id (push_payment dto.payment_method placed.id o) (add_transaction placed db) in
    let db2 = (on_cashier (log_transaction_async cid placed.id) db1).1 in
    let finish = finish_payment dto.payment_method placed now in
    ap (λ x. x.amount)
      (sym (
        done-injective (
          sym (
            ap (λ z. z.0)
              (>>=-at_done finish (λ _. pure placed) db2 tt
                (finish-done dto.payment_method placed now db2)))
          ∙ e)))
collect-amount req dto now o (some u) cid db t e =
    let placed = retried dto.payment_method u in
    let db2 =
      (on_cashier (log_transaction_async cid placed.id)
        (set_transaction u.id (retried dto.payment_method) db)).1 in
    let finish = finish_payment dto.payment_method placed now in
    ap (λ x. x.amount)
      (sym (
        done-injective (
          sym (
            ap (λ z. z.0)
              (>>=-at_done finish (λ _. pure placed) db2 tt
                (finish-done dto.payment_method placed now db2)))
          ∙ e)))

-- Where every order's total paid is the sum of its successful payments, a payment request that
-- returns a transaction found the order, and the order's payments and that transaction do not come
-- to more than the order costs.
pub create_within_due :
    (req : Request) (dto : PaymentInitiateDto) (now : ℕ) (db : Db) (t : Transaction)
    → PaidMatches db
    → (create req dto now db).0 ≡ done t
    → (o : Order) × (find (has_id dto.order_id) db.orders ≡ some o)
      × (paid_in o.id db.transactions +ℤ t.amount ≤ℤ due o)
unfolding create
create_within_due req dto now db t h e =
    let resolved : Order × Option Transaction → CashierAction ℕ =
      λ found. resolve_cashier_id req dto.cashier_id true (some (found.0).restaurant_id) now in
    let (found, checked, e1) =
      >>=-done (λ s. (payment_check dto s, s))
        (λ f. on_cashier (resolved f) >>= collect req dto now f) db t e in
    let (cid, _, e2) = >>=-done (on_cashier (resolved found)) (collect req dto now found) db t e1 in
    let (there, _, fits) = payment_check_sound dto db found.0 found.1 checked in
    let amount =
      collect-amount req dto now found.0 found.1 cid (on_cashier (resolved found) db).1 t e2 in
    let paid =
      find-All (TotalMatches db.transactions) (has_id dto.order_id) db.orders found.0 h there in
    let le =
      ltb_ℤ→le (due found.0) ((found.0).summary.total_paid +ℤ amount_to_collect dto found.0 found.1)
        fits in
    (
      found.0,
      there,
      subst (λ a. paid_in (found.0).id db.transactions +ℤ a ≤ℤ due found.0) (sym amount)
          (subst (λ p. p +ℤ amount_to_collect dto found.0 found.1 ≤ℤ due found.0) paid le),
    )

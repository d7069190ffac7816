-- ===== src/Payment/Requests.antt =====
-- What `create` and `refund` of src/payment/payment.service.ts keep: the totals of the orders.
use mathlib.Core.Path.{subst}
use gitrema_backend.Prelude.{
  ℕ, ◌==◌, ◌≡◌, refl, sym, inl, inr, true, false, Option, none, some, ◌∷◌, Bool-cases,
}
use gitrema_backend.Prelude.Action.{Outcome, done, failed, ◌>>=◌, >>-pure_state}
use gitrema_backend.Prelude.Collection.{find, update_first, update_all-All}
use gitrema_backend.Order.Status.{PaymentMethod, is_success, is_immediate}
use gitrema_backend.Order.State.{Order, has_id}
use gitrema_backend.Cashier.{
  Request, CashierState, CashierAction, resolve_cashier_id, log_transaction_async,
}
use gitrema_backend.Payment.State.{
  Transaction, Db, DbAction, on_cashier, PaymentInitiateDto, RefundDto,
}
use gitrema_backend.Payment.Process.{is_payment_of, paid_in, set_order}
use gitrema_backend.Payment.Service.{
  new_payment, add_transaction, push_payment, retried, set_transaction, is_transaction,
  place_transaction, finish_payment, collect, create, pay_back, refund, named_transaction,
  payment_check, refund_check, new_refund,
}
use gitrema_backend.Payment.Totals.{
  TotalMatches, PaidMatches, Ready, post_transaction_process-PaidMatches,
}
use gitrema_backend.Payment.Sums.{
  not_payment-other, not_payment-status, not_payment-refund, payment-own, paid_in-skip,
  paid_in-retried, has_payment-retried, first_status-success, first_status-pending, same_sums,
  All-sums,
}
use gitrema_backend.Payment.Checks.{named_transaction_sound, payment_check_sound}

-- What the end of `create` needs of the transaction and of what is stored.
abbrev Placed : PaymentMethod → Transaction → Db → Type 0
Placed m t db =
    (is_immediate m ≡ true → (is_success t.status ≡ true) × Ready t db)
    × (is_immediate m ≡ false → PaidMatches db)

finish-PaidMatches :
    (m : PaymentMethod) (t : Transaction) (now : ℕ) (db : Db)
    → Placed m t db
    → PaidMatches (finish_payment m t now db).1
unfolding finish_payment
finish-PaidMatches PaymentMethod.cash t now db (h, _) =
    post_transaction_process-PaidMatches t now db (h refl).0 (h refl).1
finish-PaidMatches PaymentMethod.card t now db (h, _) =
    post_transaction_process-PaidMatches t now db (h refl).0 (h refl).1
finish-PaidMatches PaymentMethod.online t now db (_, h) = h refl
finish-PaidMatches PaymentMethod.pos t now db (_, h) = h refl
finish-PaidMatches _ t now db (_, h) = h refl

-- A new transaction, pushed to its order.
Placed-new :
    (req : Request) (dto : PaymentInitiateDto) (cid : ℕ) (o : Order) (db : Db)
    → PaidMatches db
    → let t = new_payment req dto o cid db.next_id in
      Placed dto.payment_method t
        (set_order o.id (push_payment dto.payment_method t.id o) (add_transaction t db))
Placed-new req dto cid o db h =
    let t = new_payment req dto o cid db.next_id in
    let ts = db.transactions in
    (
      λ now_paid.
          let ok = first_status-success dto.payment_method now_paid in
          let own = payment-own t ok refl in
          let others =
            same_sums o.id ts (t ∷ ts) db.orders
              (λ i other. paid_in-skip i t ts (not_payment-other i t other)) h in
          (
            ok,
            inr (
              refl,
              rw own refl,
              update_all-All (λ x. (x.id == o.id) ≡ false → TotalMatches (t ∷ ts) x) (has_id o.id)
                  (push_payment dto.payment_method t.id o) db.orders (λ x _ hx. hx) others,
            ),
          ),
      λ later.
          let waits = first_status-pending dto.payment_method later in
          update_all-All (TotalMatches (t ∷ ts)) (has_id o.id)
            (push_payment dto.payment_method t.id o) db.orders (λ x _ hx. hx)
            (All-sums ts (t ∷ ts) db.orders
              (λ i. paid_in-skip i t ts (not_payment-status i t waits)) h),
    )

-- A transaction that was found and is not paid, with its new method.
Placed-named :
    (m : PaymentMethod) (t : Transaction) (db : Db)
    → find (is_transaction t.id) db.transactions ≡ some t
    → is_success t.status ≡ false
    → PaidMatches db
    → Placed m (retried m t) (set_transaction t.id (retried m) db)
Placed-named m t db e unpaid h =
    let ts = db.transactions in
    let ts' = update_first (is_transaction t.id) (retried m) ts in
    let sums : (i : ℕ) → is_payment_of i (retried m t) ≡ false → paid_in i ts' ≡ paid_in i ts =
      λ i. paid_in-retried i m (is_transaction t.id) ts t e (not_payment-status i t unpaid) in
    (
      λ now_paid.
          let ok = first_status-success m now_paid in
          (
            ok,
            elim (Bool-cases t.is_refund) [
              | inl r ↦ inl (
                r,
                All-sums ts ts' db.orders (λ i. sums i (not_payment-refund i (retried m t) r)) h,
              )
              | inr r ↦ inr (
                r,
                has_payment-retried t.order_id m (is_transaction t.id) ts t e
                    (payment-own (retried m t) ok r),
                same_sums t.order_id ts ts' db.orders
                    (λ i other. sums i (not_payment-other i (retried m t) other)) h,
              )
            ],
          ),
      λ later.
          All-sums ts ts' db.orders
            (λ i. sums i (not_payment-status i (retried m t) (first_status-pending m later))) h,
    )

-- A call of the cashier services touches neither orders nor transactions.
on_cashier-PaidMatches :
    {A B : Type 0} (m : CashierAction A) (k : A → DbAction B) (db : Db)
    → PaidMatches db
    → ((a : A) (c : CashierState) → PaidMatches (k a (record db { cashier = c })).1)
    → PaidMatches ((on_cashier m >>= k) db).1
on_cashier-PaidMatches {A} {B} m k db h hk = go (m db.cashier).0 (m db.cashier).1
  where
    go :
        (r : Outcome A) (c : CashierState)
        → PaidMatches
            (elim r as (λ _. Outcome B × Db) [
              | done a ↦ k a (record db { cashier = c })
              | failed e ↦ (failed e, record db { cashier = c })
            ]).1
    go (done a) c = hk a c
    go (failed e) c = h

check-PaidMatches :
    {A B : Type 0} (check : Db → Outcome A) (k : A → DbAction B) (db : Db)
    → PaidMatches db
    → ((a : A) → check db ≡ done a → PaidMatches (k a db).1)
    → PaidMatches (((λ s. (check s, s)) >>= k) db).1
check-PaidMatches {A} {B} check k db h hk = go (check db) hk
  where
    go :
        (r : Outcome A)
        → ((a : A) → r ≡ done a → PaidMatches (k a db).1)
        → PaidMatches
            (elim r as (λ _. Outcome B × Db) [ done a ↦ k a db | failed e ↦ (failed e, db) ]).1
    go (done a) f = f a refl
    go (failed e) f = h

collect-PaidMatches :
    (req : Request) (dto : PaymentInitiateDto) (now : ℕ) (o : Order) (t : Option Transaction)
    (cid : ℕ) (db : Db)
    → named_transaction dto.transaction_id db.transactions ≡ done t
    → PaidMatches db
    → PaidMatches (collect req dto now (o, t) cid db).1
unfolding collect place_transaction
collect-PaidMatches req dto now o none cid db named h =
    let t = new_payment req dto o cid db.next_id in
    let db1 = set_order o.id (push_payment dto.payment_method t.id o) (add_transaction t db) in
    let db2 = (on_cashier (log_transaction_async cid t.id) db1).1 in
    let placed = Placed-new req dto cid o db h in
    let ends = finish-PaidMatches dto.payment_method t now db2 placed in
    subst PaidMatches (sym (>>-pure_state (finish_payment dto.payment_method t now) t db2)) ends
collect-PaidMatches req dto now o (some t) cid db named h =
    let again = retried dto.payment_method t in
    let db1 = set_transaction t.id (retried dto.payment_method) db in
    let db2 = (on_cashier (log_transaction_async cid t.id) db1).1 in
    let (found, unpaid) = named_transaction_sound dto.transaction_id db.transactions t named in
    let placed = Placed-named dto.payment_method t db found unpaid h in
    let ends = finish-PaidMatches dto.payment_method again now db2 placed in
    subst PaidMatches (sym (>>-pure_state (finish_payment dto.payment_method again now) again db2))
      ends

-- A payment request, whether it returns or throws.
pub create-PaidMatches :
    (req : Request) (dto : PaymentInitiateDto) (now : ℕ) (db : Db)
    → PaidMatches db
    → PaidMatches (create req dto now db).1
unfolding create
create-PaidMatches req dto now db h =
    let resolved : Order × Option Transaction → CashierAction ℕ =
      λ found. resolve_cashier_id req dto.cashier_id true (some (found.0).restaurant_id) now in
    check-PaidMatches (payment_check dto)
      (λ found. on_cashier (resolved found) >>= collect req dto now found) db h
      (λ found e. on_cashier-PaidMatches (resolved found) (collect req dto now found) db h (λ cid c.
        collect-PaidMatches req dto now found.0 found.1 cid (record db { cashier = c })
          (payment_check_sound dto db found.0 found.1 e).1 h))

pay_back-PaidMatches :
    (req : Request) (dto : RefundDto) (now : ℕ) (o : Order) (cid : ℕ) (db : Db)
    → PaidMatches db
    → PaidMatches (pay_back req dto now o cid db).1
unfolding pay_back
pay_back-PaidMatches req dto now o cid db h =
    let t = new_refund req dto o cid db.next_id in
    let db1 = (on_cashier (log_transaction_async cid t.id) (add_transaction t db)).1 in
    let sums =
      All-sums db.transactions (t ∷ db.transactions) db.orders
        (λ i. paid_in-skip i t db.transactions (not_payment-refund i t refl)) h in
    post_transaction_process-PaidMatches t now db1 refl (inl (refl, sums))

-- A refund request.
pub refund-PaidMatches :
    (req : Request) (dto : RefundDto) (now : ℕ) (db : Db)
    → PaidMatches db
    → PaidMatches (refund req dto now db).1
unfolding refund
refund-PaidMatches req dto now db h =
    let resolved : Order → CashierAction ℕ =
      λ o. resolve_cashier_id req dto.cashier_id true (some o.restaurant_id) now in
    check-PaidMatches (refund_check dto) (λ o. on_cashier (resolved o) >>= pay_back req dto now o)
      db h
      (λ o e.
        on_cashier-PaidMatches (resolved o) (pay_back req dto now o) db h
          (λ cid c. pay_back-PaidMatches req dto now o cid (record db { cashier = c }) h))

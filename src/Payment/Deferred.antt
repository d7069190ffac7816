-- ===== src/Payment/Deferred.antt =====
-- What `deferOrder` (src/order/order.service.ts) does to what was paid.
use mathlib.Core.Path.{subst}
use gitrema_backend.Prelude.{
  ℕ, ◌==◌, ◌≡◌, refl, sym, ap, ◌∙◌, inl, inr, true, false, Option, none, some, List, [], ◌∷◌, arith,
  All-map, Bool-cases, Option-cases, Option, eq_of_==,
}
use gitrema_backend.Prelude.Int.{pos}
use gitrema_backend.Prelude.Action.{
  Failure, done, failed, ◌>>=◌, >>=-done, >>=-at_done, >>=-at_failed,
}
use gitrema_backend.Prelude.Collection.{find, update_all}
use gitrema_backend.Order.State.{Order, has_id}
use gitrema_backend.Cashier.{Request, resolve_cashier_id}
use gitrema_backend.Cashier.Dashboard.{DeferredTransaction}
use gitrema_backend.Payment.State.{Transaction, Db, on_cashier}
use gitrema_backend.Payment.Process.{paid_in}
use gitrema_backend.Payment.Defer.{
  is_of_order, with_failure, fail_transactions, deferred_transaction, closed_unpaid, close_unpaid,
  defer_order,
}
use gitrema_backend.Payment.Totals.{PaidMatches, MatchesExcept, update_all-All_to}
use gitrema_backend.Payment.Sums.{paid_in-cons, paid_in-skip, not_payment-other, not_payment-status}

-- No payment of the order is left, and those of the others stay.
paid_in-failed_own :
    (oid : ℕ) (ts : List Transaction)
    → paid_in oid (update_all (is_of_order oid) with_failure ts) ≡ pos 0
paid_in-failed_own oid [] = refl
paid_in-failed_own oid (t ∷ ts) =
    let rest = paid_in-failed_own oid ts in
    let after = update_all (is_of_order oid) with_failure ts in
    elim (Bool-cases (t.order_id == oid)) [
      | inl own ↦ rw own (
          paid_in-skip oid (with_failure t) after (not_payment-status oid (with_failure t) refl)
          ∙ rest)
      | inr other ↦ rw other (paid_in-skip oid t after (ground arith) ∙ rest)
    ]

paid_in-failed_other :
    (i oid : ℕ) (ts : List Transaction)
    → (i == oid) ≡ false
    → paid_in i (update_all (is_of_order oid) with_failure ts) ≡ paid_in i ts
paid_in-failed_other i oid [] h = refl
paid_in-failed_other i oid (t ∷ ts) h =
    let rest = paid_in-failed_other i oid ts h in
    let after = update_all (is_of_order oid) with_failure ts in
    elim (Bool-cases (t.order_id == oid)) [
      | inl own ↦
          let not_own : (i == t.order_id) ≡ false = ground arith in
          rw own (
            paid_in-skip i (with_failure t) after (not_payment-other i (with_failure t) not_own)
            ∙ rest
            ∙ sym (paid_in-skip i t ts (not_payment-other i t not_own)))
      | inr other ↦ rw other (paid_in-cons i t after ts rest)
    ]

-- The transactions have failed; the order's total is not yet changed.
fail_transactions-MatchesExcept :
    (oid : ℕ) (db : Db) → PaidMatches db → MatchesExcept oid (fail_transactions oid db)
fail_transactions-MatchesExcept oid db h =
    All-map (λ o m other. m ∙ sym (paid_in-failed_other o.id oid db.transactions other)) db.orders h

close_unpaid-PaidMatches :
    (req : Request) (oid now : ℕ) (o : Order) (cid : ℕ) (db : Db)
    → paid_in oid db.transactions ≡ pos 0
    → MatchesExcept oid db
    → PaidMatches (close_unpaid req oid now o cid db).1
unfolding close_unpaid
close_unpaid-PaidMatches req oid now o cid db none_left h =
    update_all-All_to (has_id oid) (closed_unpaid o) db.orders
      (λ x own _.
        sym
          (subst (λ i. paid_in i db.transactions ≡ pos 0) (sym (eq_of_== x.id oid own)) none_left))
      (λ x other m. m other) h

-- What follows once the order was found.
defer_order_found :
    (req : Request) (order_id now : ℕ) (db : Db) (o : Order)
    → find (has_id order_id) db.orders ≡ some o
    → defer_order req order_id now db
      ≡ (on_cashier (resolve_cashier_id req none true (some o.restaurant_id) now)
            >>= close_unpaid req order_id now o)
          (fail_transactions order_id db)
unfolding defer_order
defer_order_found req order_id now db o found = rw found refl

-- Where every order's total paid is the sum of its successful payments, this still holds after an
-- order was deferred. The order then has no successful payment, and what remained to collect for it
-- is recorded as deferred.
pub defer_order-PaidMatches :
    (req : Request) (order_id now : ℕ) (db : Db) (r : Option Order)
    → PaidMatches db
    → (defer_order req order_id now db).0 ≡ done r
    → let db' = (defer_order req order_id now db).1 in
      PaidMatches db'
      × (paid_in order_id db'.transactions ≡ pos 0)
      × ((o : Order) × (d : DeferredTransaction) × (find (has_id order_id) db.orders ≡ some o)
          × (db'.deferred ≡ d ∷ db.deferred)
          × (d.amount ≡ o.summary.remaining_amount_to_collect))
unfolding close_unpaid
defer_order-PaidMatches req order_id now db r h e =
    elim (Option-cases (find (has_id order_id) db.orders)) [
      | inl missing ↦ absurd (unfold defer_order in ground arith)
      | inr (o, found) ↦
          let m = resolve_cashier_id req none true (some o.restaurant_id) now in
          let db0 = fail_transactions order_id db in
          let rest = close_unpaid req order_id now o in
          let steps = defer_order_found req order_id now db o found in
          let (cid, known, _) =
            >>=-done (on_cashier m) rest db0 r (sym (ap (λ z. z.0) steps) ∙ e) in
          let db1 = (on_cashier m db0).1 in
          let none_left = paid_in-failed_own order_id db.transactions in
          rw (steps, >>=-at_done (on_cashier m) rest db0 cid known)
            (
              close_unpaid-PaidMatches req order_id now o cid db1 none_left
                  (fail_transactions-MatchesExcept order_id db h),
              none_left,
              (o, deferred_transaction req o cid now, found, refl, refl),
            )
    ]

-- If no cashier can be resolved for an order that is to be deferred, the request fails, but the
-- order's transactions have failed before: it has no successful payment any more, and is otherwise
-- as it was.
pub defer_order_stranded :
    (req : Request) (order_id now : ℕ) (db : Db) (o : Order) (e : Failure)
    → find (has_id order_id) db.orders ≡ some o
    → (resolve_cashier_id req none true (some o.restaurant_id) now db.cashier).0 ≡ failed e
    → let r = defer_order req order_id now db in
      (r.0 ≡ failed e) × (r.1.orders ≡ db.orders) × (paid_in order_id r.1.transactions ≡ pos 0)
defer_order_stranded req order_id now db o e found refused =
    let m = resolve_cashier_id req none true (some o.restaurant_id) now in
    let db0 = fail_transactions order_id db in
    let steps =
      defer_order_found req order_id now db o found
      ∙ >>=-at_failed (on_cashier m) (close_unpaid req order_id now o) db0 e refused in
    rw steps (refl, refl, paid_in-failed_own order_id db.transactions)

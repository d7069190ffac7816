-- ===== src/Payment/Split.antt =====
-- `split` of src/payment/payment.service.ts: an order's amount in equal parts, one pending
-- transaction for each.
use gitrema_backend.Prelude.{
  ℕ, zero, suc, ◌==◌, if◌then◌else◌, Bool, true, false, ◌&&◌, none, some, List, [], ◌∷◌, ◌++◌, map,
  filter,
}
use gitrema_backend.Prelude.Int.{ℤ, pos, negsuc, ◌+ℤ◌, ◌-ℤ◌, ltb_ℤ, nearest}
use gitrema_backend.Prelude.Action.{
  Outcome, done, failed, record_not_found, order_already_paid, pure, gets, or_throw, modify, ◌>>=◌,
  ◌>>◌,
}
use gitrema_backend.Prelude.Collection.{find}
use gitrema_backend.Order.Status.{PaymentStatus}
use gitrema_backend.Order.State.{Order, has_id, tip_or_zero}
use gitrema_backend.Cashier.{Request}
use gitrema_backend.Payment.State.{Transaction, Db, DbAction}
use gitrema_backend.Payment.Process.{set_order}
use gitrema_backend.Payment.Service.{add_transaction}

-- `roundOffNumber(amount / parts)`. `parts` is not 0.
abbrev pub nearest_share : ℕ → ℕ → ℕ
nearest_share amount parts = nearest amount parts

-- The loop with `left` rounds to go: `share` is `splittedAmount`, and the last round adds what
-- is left of the amount, if that is positive.
unfoldable pub split_loop : ℕ → ℕ → ℤ → List ℤ
split_loop zero share amount = []
split_loop (suc left) share amount =
    let rest = amount -ℤ pos share in
    (if (left == 0) && ltb_ℤ (pos 0) rest then pos share +ℤ rest else pos share)
    ∷ split_loop left share rest

-- The amounts of the parts. A negative amount has no positive share. With 0 parts the share of
-- the source is infinite or not a number, which passes the test, and the loop makes no round.
unfoldable pub split_amounts : ℤ → ℕ → Outcome (List ℤ)
unfolding split_loop
split_amounts (negsuc a) parts = failed order_already_paid
split_amounts (pos a) zero = done []
split_amounts (pos a) (suc n) =
    let share = nearest_share a (suc n) in
    if share == 0 then failed order_already_paid else done (split_loop (suc n) share (pos a))

abbrev pub is_pending_of : ℕ → Transaction → Bool
is_pending_of oid t =
    (t.order_id == oid) && elim t.status [ PaymentStatus.pending ↦ true | _ ↦ false ]

abbrev pub part : Request → Order → ℤ → ℕ → Transaction
part req o amount id = record {
  id = id;
  supplier_id = o.supplier_id;
  order_id = o.id;
  cashier_id = none;
  amount = amount;
  status = PaymentStatus.pending;
  payment_method = none;
  is_refund = false;
  added_by = some req.user_id;
}

-- `insertMany`
unfoldable pub insert_parts : Request → Order → List ℤ → Db → Db
insert_parts req o [] db = db
insert_parts req o (a ∷ as_) db =
    insert_parts req o as_ (add_transaction (part req o a db.next_id) db)

abbrev pub push_transactions : List ℕ → Order → Order
push_transactions ids o = record o { transactions = o.transactions ++ ids }

-- The branch without pending transactions, for the order as it was read.
unfoldable pub split_order : Request → ℕ → Order → DbAction (List Transaction)
unfolding split_amounts insert_parts
split_order req parts o = do
  amounts ← (λ db. (
    split_amounts (o.summary.total_with_tax -ℤ o.summary.total_paid +ℤ tip_or_zero o.tip) parts,
    db,
  ))
  modify (insert_parts req o amounts)
  ts ← gets (λ db. filter (λ t. t.order_id == o.id) db.transactions)
  modify (set_order o.id (push_transactions (map (λ t. t.id) ts)))
  pure ts

abbrev pub or_split : DbAction (List Transaction) → List Transaction → DbAction (List Transaction)
or_split m [] = m
or_split m (t ∷ ts) = pure (t ∷ ts)

unfoldable pub split : Request → ℕ → ℕ → DbAction (List Transaction)
unfolding split_order
split req order_id parts = do
  o ← or_throw (← gets (λ db. find (has_id order_id) db.orders)) record_not_found
  pending ← gets (λ db. filter (is_pending_of o.id) db.transactions)
  or_split (split_order req parts o) pending

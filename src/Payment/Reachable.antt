-- ===== src/Payment/Reachable.antt =====
-- What holds after any sequence of payments, refunds and splits (src/payment/payment.service.ts).
use gitrema_backend.Prelude.{ℕ, ◌==◌, refl, List, [], ◌∷◌, map, filter, Option-cases, inl, inr}
use gitrema_backend.Prelude.Int.{ℤ, ◌+ℤ◌, ◌-ℤ◌}
use gitrema_backend.Prelude.Action.{Keeps, Outcome-cases}
use gitrema_backend.Prelude.Collection.{find, update_all-All}
use gitrema_backend.Order.State.{Order, has_id, tip_or_zero}
use gitrema_backend.Cashier.{Request}
use gitrema_backend.Payment.State.{Transaction, Db, DbAction, PaymentInitiateDto, RefundDto}
use gitrema_backend.Payment.Service.{create, refund, add_transaction}
use gitrema_backend.Payment.Split.{
  split_amounts, is_pending_of, part, insert_parts, push_transactions, split_order, or_split, split,
}
use gitrema_backend.Payment.Totals.{TotalMatches, PaidMatches}
use gitrema_backend.Payment.Sums.{All-sums, paid_in-skip, not_payment-status}
use gitrema_backend.Payment.Requests.{create-PaidMatches, refund-PaidMatches}

insert_parts-PaidMatches :
    (req : Request) (o : Order) (amounts : List ℤ) (db : Db)
    → PaidMatches db
    → PaidMatches (insert_parts req o amounts db)
unfolding insert_parts
insert_parts-PaidMatches req o [] db h = h
insert_parts-PaidMatches req o (a ∷ as_) db h =
    let t = part req o a db.next_id in
    insert_parts-PaidMatches req o as_ (add_transaction t db) (
      All-sums db.transactions (t ∷ db.transactions) db.orders
        (λ i. paid_in-skip i t db.transactions (not_payment-status i t refl)) h)

split_order-PaidMatches :
    (req : Request) (parts : ℕ) (o : Order) → Keeps PaidMatches (split_order req parts o)
unfolding split_order
split_order-PaidMatches req parts o db h =
    elim (Outcome-cases (
      split_amounts (o.summary.total_with_tax -ℤ o.summary.total_paid +ℤ tip_or_zero o.tip)
        parts)) [
          | inl (_, e) ↦ rw e h
          | inr (amounts, e) ↦
              let db1 = insert_parts req o amounts db in
              let ids = map (λ t. t.id) (filter (λ t. t.order_id == o.id) db1.transactions) in
              rw e (
                update_all-All (TotalMatches db1.transactions) (has_id o.id) (push_transactions ids)
                  db1.orders (λ x _ hx. hx) (insert_parts-PaidMatches req o amounts db h))
        ]

or_split-PaidMatches :
    (m : DbAction (List Transaction)) (ts : List Transaction)
    → Keeps PaidMatches m
    → Keeps PaidMatches (or_split m ts)
or_split-PaidMatches m [] h = h
or_split-PaidMatches m (t ∷ ts) h = λ db k. k

split-PaidMatches :
    (req : Request) (order_id parts : ℕ) → Keeps PaidMatches (split req order_id parts)
unfolding split
split-PaidMatches req order_id parts db h = elim (Option-cases (find (has_id order_id) db.orders)) [
  | inl e ↦ rw e h
  | inr (o, e) ↦ rw e (
      or_split-PaidMatches (split_order req parts o) (filter (is_pending_of o.id) db.transactions)
        (split_order-PaidMatches req parts o) db h)
]

-- A request to the payment service.
pub data PaymentCall : Type 0 where
  create_call : Request → PaymentInitiateDto → PaymentCall
  refund_call : Request → RefundDto → PaymentCall
  split_call : Request → ℕ → ℕ → PaymentCall

abbrev pub handle : PaymentCall → ℕ → Db → Db
handle (PaymentCall.create_call req dto) now db = (create req dto now db).1
handle (PaymentCall.refund_call req dto) now db = (refund req dto now db).1
handle (PaymentCall.split_call req order_id parts) now db = (split req order_id parts db).1

abbrev pub handle_all : List (PaymentCall × ℕ) → Db → Db
handle_all [] db = db
handle_all ((c, now) ∷ cs) db = handle_all cs (handle c now db)

handle-PaidMatches :
    (c : PaymentCall) (now : ℕ) (db : Db) → PaidMatches db → PaidMatches (handle c now db)
handle-PaidMatches (PaymentCall.create_call req dto) now db h = create-PaidMatches req dto now db h
handle-PaidMatches (PaymentCall.refund_call req dto) now db h = refund-PaidMatches req dto now db h
handle-PaidMatches (PaymentCall.split_call req order_id parts) now db h =
    split-PaidMatches req order_id parts db h

-- Where the total paid of every order is the sum of the order's successful payments, this still
-- holds after any sequence of payment, refund and split requests, those that throw included.
pub handle_all-PaidMatches :
    (cs : List (PaymentCall × ℕ)) (db : Db) → PaidMatches db → PaidMatches (handle_all cs db)
handle_all-PaidMatches [] db h = h
handle_all-PaidMatches ((c, now) ∷ cs) db h =
    handle_all-PaidMatches cs (handle c now db) (handle-PaidMatches c now db h)

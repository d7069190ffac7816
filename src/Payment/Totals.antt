-- ===== src/Payment/Totals.antt =====
-- `summary.totalPaid` against the transactions: the invariant that payments keep.
use mathlib.Core.Path.{subst}
use gitrema_backend.Prelude.{
  ℕ, ◌==◌, ◌≡◌, refl, sym, ap, ◌∙◌, inl, inr, ◌⊎◌, if◌then◌else◌, Bool, true, false, Option, none,
  some, List, [], ◌∷◌, arith, All, All-zip, Bool-cases, eq_of_==,
}
use gitrema_backend.Prelude.Int.{ℤ}
use gitrema_backend.Prelude.Action.{◌>>◌}
use gitrema_backend.Prelude.Collection.{find, find_sound, find-none-All, update_all, update_all-All}
use gitrema_backend.Order.Status.{is_success}
use gitrema_backend.Order.State.{Order, has_id}
use gitrema_backend.Cashier.{CashierState, store_current_balance}
use gitrema_backend.Payment.State.{DbAction, Transaction, Call, Db}
use gitrema_backend.Payment.Process.{
  paid_in, has_payment, settle, keep_cashier, set_order, call, announce, refresh_table, new_status,
  settled_order, record_payment, process_payment, refunded, store_balance, process_success,
  process_order, record_activity, post_transaction_process,
}

abbrev pub TotalMatches : List Transaction → Order → Type 0
TotalMatches ts o = o.summary.total_paid ≡ paid_in o.id ts

-- Of every order the total paid is the sum of its successful payments.
abbrev pub PaidMatches : Db → Type 0
PaidMatches db = All (TotalMatches db.transactions) db.orders

-- The same of the orders but for one, which is about to be settled.
abbrev pub MatchesExcept : ℕ → Db → Type 0
MatchesExcept oid db = All (λ o. (o.id == oid) ≡ false → TotalMatches db.transactions o) db.orders

total-settle :
    (total : ℤ) (now : ℕ) (c : Option ℕ) (o : Order)
    → (keep_cashier c (settle total now o)).summary.total_paid ≡ total
unfolding settle
total-settle total now c o = ground arith

id-settle :
    (total : ℤ) (now : ℕ) (c : Option ℕ) (o : Order)
    → (keep_cashier c (settle total now o)).id ≡ o.id
unfolding settle
id-settle total now c o = ground arith

-- What the calls of other services leave alone.
announce_orders :
    (o : Order) (db : Db)
    → ((announce o db).orders ≡ db.orders) × ((announce o db).transactions ≡ db.transactions)
announce_orders o db = ground arith

refresh_table_orders :
    (t : Option ℕ) (db : Db)
    → ((refresh_table t db).orders ≡ db.orders)
      × ((refresh_table t db).transactions ≡ db.transactions)
refresh_table_orders none db = (refl, refl)
refresh_table_orders (some t) db = (refl, refl)

record_payment_orders :
    (t : Transaction) (now : ℕ) (o : Order) (db : Db)
    → ((record_payment t now o db).orders
        ≡ update_all (has_id o.id) (λ _. settled_order t now o db.transactions) db.orders)
      × ((record_payment t now o db).transactions ≡ db.transactions)
unfolding record_payment
record_payment_orders t now o db =
    let saved = settled_order t now o db.transactions in
    let base = set_order o.id (λ _. saved) db in
    let told =
      call (Call.post_order_update o.id (new_status (paid_in t.order_id db.transactions) o))
        (announce saved base) in
    (
      (refresh_table_orders o.table_id told).0 ∙ (announce_orders saved base).0,
      (refresh_table_orders o.table_id told).1 ∙ (announce_orders saved base).1,
    )

-- A settled order's total is that of its payments, where the transaction is one of that order.
settled_matches :
    (t : Transaction) (now : ℕ) (o : Order) (ts : List Transaction)
    → o.id ≡ t.order_id
    → TotalMatches ts (settled_order t now o ts)
settled_matches t now o ts same =
    let total = paid_in t.order_id ts in
    total-settle total now t.cashier_id o
    ∙ ap (λ i. paid_in i ts) (sym (id-settle total now t.cashier_id o ∙ same))

-- A change of some documents, where the property that holds of them changes.
pub update_all-All_to :
    {A : Type 0} {P Q : A → Type 0} (p : A → Bool) (f : A → A) (xs : List A)
    → ((x : A) → p x ≡ true → P x → Q (f x))
    → ((x : A) → p x ≡ false → P x → Q x)
    → All P xs
    → All Q (update_all p f xs)
update_all-All_to p f [] h k a = tt
update_all-All_to p f (x ∷ xs) h k a = elim (Bool-cases (p x)) [
  | inl t ↦ rw t (h x t a.0, update_all-All_to p f xs h k a.1)
  | inr e ↦ rw e (k x e a.0, update_all-All_to p f xs h k a.1)
]

record_payment-PaidMatches :
    (t : Transaction) (now : ℕ) (o : Order) (db : Db)
    → o.id ≡ t.order_id
    → MatchesExcept t.order_id db
    → PaidMatches (record_payment t now o db)
record_payment-PaidMatches t now o db same h =
    let ts = db.transactions in
    let saved = settled_order t now o ts in
    let eqs = record_payment_orders t now o db in
    let all : All (TotalMatches ts) (update_all (has_id o.id) (λ _. saved) db.orders) =
      update_all-All_to (has_id o.id) (λ _. saved) db.orders
        (λ x _ _. settled_matches t now o ts same)
        (λ x other hx. hx (subst (λ i. (x.id == i) ≡ false) same other)) h in
    subst (λ ts'. All (TotalMatches ts') (record_payment t now o db).orders) (sym eqs.1)
      (subst (All (TotalMatches ts)) (sym eqs.0) all)

-- A successful transaction that is about to be processed: a refund of orders that match, or a
-- payment that is stored already, where all orders but its own match.
abbrev pub Ready : Transaction → Db → Type 0
Ready t db =
    (t.is_refund ≡ true) × PaidMatches db
    ⊎ (t.is_refund ≡ false)
      × (has_payment t.order_id db.transactions ≡ true)
      × MatchesExcept t.order_id db

-- A refund of an order leaves what was paid.
refunded-PaidMatches :
    (t : Transaction) (o : Order) (db : Db)
    → PaidMatches db
    → PaidMatches (set_order o.id (refunded t o) db)
unfolding refunded
refunded-PaidMatches t o db h =
    update_all-All (TotalMatches db.transactions) (has_id o.id) (refunded t o) db.orders
      (λ x _ hx. hx) h

-- The last step, for the order of the transaction.
if-PaidMatches :
    (b : Bool) (f g : Db → Db) (db : Db)
    → (b ≡ true → PaidMatches (f db))
    → (b ≡ false → PaidMatches (g db))
    → PaidMatches ((if b then f else g) db)
if-PaidMatches true f g db h k = h refl
if-PaidMatches false f g db h k = k refl

process_payment-PaidMatches :
    (t : Transaction) (now : ℕ) (o : Order) (db : Db)
    → o.id ≡ t.order_id
    → has_payment t.order_id db.transactions ≡ true
    → MatchesExcept t.order_id db
    → PaidMatches (process_payment t now o db)
unfolding process_payment
process_payment-PaidMatches t now o db same stored h =
    rw stored (record_payment-PaidMatches t now o db same h)

process-PaidMatches :
    (t : Transaction) (now : ℕ) (o : Order) (db : Db)
    → o.id ≡ t.order_id
    → Ready t db
    → PaidMatches
        ((if t.is_refund then set_order o.id (refunded t o) else process_payment t now o) db)
process-PaidMatches t now o db same ready =
    if-PaidMatches t.is_refund (set_order o.id (refunded t o)) (process_payment t now o) db
      (λ r. refund_case r ready) (λ r. payment_case r ready)
  where
    refund_case : t.is_refund ≡ true → Ready t db → PaidMatches (set_order o.id (refunded t o) db)
    refund_case r (inl (_, h)) = refunded-PaidMatches t o db h
    refund_case r (inr (other, _, _)) = absurd (ground arith)

    payment_case : t.is_refund ≡ false → Ready t db → PaidMatches (process_payment t now o db)
    payment_case r (inl (other, _)) = absurd (ground arith)
    payment_case r (inr (_, stored, h)) = process_payment-PaidMatches t now o db same stored h

process_order-PaidMatches :
    (t : Transaction) (now : ℕ) (read : Option Order) (db : Db)
    → find (has_id t.order_id) db.orders ≡ read
    → Ready t db
    → PaidMatches (process_order t now read db).1
unfolding process_order
process_order-PaidMatches t now (some o) db e ready =
    process-PaidMatches t now o db
      (eq_of_== o.id t.order_id (find_sound (has_id t.order_id) db.orders o e)) ready
process_order-PaidMatches t now none db e (inl (_, h)) = h
process_order-PaidMatches t now none db e (inr (_, _, h)) =
    All-zip (λ x other hx. hx other) db.orders (find-none-All (has_id t.order_id) db.orders e) h

-- The balance of a cashier touches neither orders nor transactions.
store_balance-PaidMatches :
    (c : Option ℕ) (t : Transaction) (k : DbAction (Unit {0})) (db : Db)
    → ((s : CashierState) → PaidMatches (k (record db { cashier = s })).1)
    → PaidMatches ((store_balance c t >> k) db).1
store_balance-PaidMatches none t k db h = h db.cashier
store_balance-PaidMatches (some c) t k db h =
    h (store_current_balance c t.is_refund t.amount db.cashier).1

-- What is written by the way touches neither.
activity-PaidMatches :
    (t : Transaction) (now : ℕ) (read : Option Order) (db : Db)
    → find (has_id t.order_id) db.orders ≡ read
    → Ready t db
    → PaidMatches
        ((store_balance t.cashier_id t >> process_order t now read)
          (record_activity t.is_refund read db)).1
activity-PaidMatches t now none db e h =
    store_balance-PaidMatches t.cashier_id t (process_order t now none) db
      (λ s. process_order-PaidMatches t now none (record db { cashier = s }) e h)
activity-PaidMatches t now (some o) db e h =
    let told = call (Call.store_activity o.id t.is_refund) db in
    store_balance-PaidMatches t.cashier_id t (process_order t now (some o)) told
      (λ s. process_order-PaidMatches t now (some o) (record told { cashier = s }) e h)

process_success-PaidMatches :
    (t : Transaction) (now : ℕ) (db : Db) → Ready t db → PaidMatches (process_success t now db).1
unfolding process_success
process_success-PaidMatches t now db h =
    activity-PaidMatches t now (find (has_id t.order_id) db.orders) db refl h

pub post_transaction_process-PaidMatches :
    (t : Transaction) (now : ℕ) (db : Db)
    → is_success t.status ≡ true
    → Ready t db
    → PaidMatches (post_transaction_process t now db).1
unfolding post_transaction_process
post_transaction_process-PaidMatches t now db ok h = rw ok (process_success-PaidMatches t now db h)

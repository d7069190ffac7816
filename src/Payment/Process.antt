-- ===== src/Payment/Process.antt =====
-- `postTransactionProcess` of src/transaction/transaction.service.ts. The calls that it does not
-- wait for are made to the end before it goes on.
use gitrema_backend.Prelude.{
  ℕ, ◌==◌, if◌then◌else◌, Bool, true, false, not, ◌&&◌, ◌||◌, Option, none, some, List, [], ◌∷◌,
  ◌++◌, filter, is_some,
}
use gitrema_backend.Prelude.Int.{ℤ, pos, ◌+ℤ◌, ◌-ℤ◌, ltb_ℤ, eqb_ℤ}
use gitrema_backend.Prelude.Action.{
  done, failed, type_error, pure, gets, modify, detached, ◌>>=◌, ◌>>◌,
}
use gitrema_backend.Prelude.Collection.{find, update_all}
use gitrema_backend.Order.Status.{OrderStatus, OrderPaymentStatus, is_new, is_success}
use gitrema_backend.Order.State.{Order, tip_or_zero, has_id}
use gitrema_backend.Cashier.{store_current_balance}
use gitrema_backend.Table.{handle_payment_needed}
use gitrema_backend.Payment.State.{Transaction, Call, Db, DbAction, on_cashier}

-- What the order costs: `summary.totalWithTax + (tip ?? 0)`.
abbrev pub due : Order → ℤ
due o = o.summary.total_with_tax +ℤ tip_or_zero o.tip

-- A successful payment of the order: `{ orderId, status: Success, isRefund: false }`.
abbrev pub is_payment_of : ℕ → Transaction → Bool
is_payment_of oid t = (t.order_id == oid) && is_success t.status && not t.is_refund

-- `$group: { total: { $sum: '$amount' } }`, which returns nothing where nothing is matched.
abbrev pub sum_amounts : List Transaction → ℤ
sum_amounts [] = pos 0
sum_amounts (t ∷ ts) = t.amount +ℤ sum_amounts ts

abbrev pub paid_in : ℕ → List Transaction → ℤ
paid_in oid ts = sum_amounts (filter (is_payment_of oid) ts)

abbrev pub has_payment : ℕ → List Transaction → Bool
has_payment oid [] = false
has_payment oid (t ∷ ts) = if is_payment_of oid t then true else has_payment oid ts

-- `remainingAmount`, which does not fall below 0.
abbrev pub clipped : ℤ → ℤ
clipped a = if ltb_ℤ a (pos 0) then pos 0 else a

-- `order.status == New ? SentToKitchen : Closed`
abbrev pub advanced : OrderStatus → OrderStatus
advanced s = if is_new s then OrderStatus.sent_to_kitchen else OrderStatus.closed

abbrev pub with_total : ℤ → Order → Order
with_total total o = record o {
  summary = record o.summary {
    total_paid = total;
    remaining_amount_to_collect = clipped (due o -ℤ total);
  };
}

-- `order.set(dataToUpdate)`: more than, exactly, or less than what the order costs is paid.
unfoldable pub settle : ℤ → ℕ → Order → Order
settle total now o =
    let p = with_total total o in
    if ltb_ℤ (due o) total
    then record p {
      status = advanced o.status;
      payment_status = OrderPaymentStatus.over_paid;
      payment_time = some now;
    }
    else if eqb_ℤ total (due o)
    then record p {
      status = advanced o.status;
      payment_status = OrderPaymentStatus.paid;
      payment_time = some now;
    }
    else record p { payment_status = OrderPaymentStatus.not_paid }

-- `if (!order.cashierId) order.cashierId = transaction.cashierId`
abbrev pub keep_cashier : Option ℕ → Order → Order
keep_cashier c o = if is_some o.cashier_id then o else record o { cashier_id = c }

-- An identifier is unique, so at most one order is changed.
abbrev pub set_order : ℕ → (Order → Order) → Db → Db
set_order oid f db = record db { orders = update_all (has_id oid) f db.orders }

abbrev pub call : Call → Db → Db
call c db = record db { calls = db.calls ++ (c ∷ []) }

-- `Paid` or `OverPaid`
abbrev pub is_settled : OrderPaymentStatus → Bool
is_settled OrderPaymentStatus.paid = true
is_settled OrderPaymentStatus.over_paid = true
is_settled _ = false

-- `dataToUpdate.status`: the new status, if there is one.
abbrev pub new_status : ℤ → Order → Option OrderStatus
new_status total o = if ltb_ℤ total (due o) then none else some (advanced o.status)

-- The calls that announce a paid order.
abbrev pub announce : Order → Db → Db
announce o db =
    if is_settled o.payment_status
    then call (Call.update_profit o.id o.payment_status)
        (call (Call.notify_order_paid o.id) (call (Call.create_invoice o.id) db))
    else db

abbrev pub refresh_table : Option ℕ → Db → Db
refresh_table none db = db
refresh_table (some t) db = record db { table = handle_payment_needed db.orders t db.table }

-- The order as it is saved, with the total that was summed up.
abbrev pub settled_order : Transaction → ℕ → Order → List Transaction → Order
settled_order t now o ts = keep_cashier t.cashier_id (settle (paid_in t.order_id ts) now o)

unfoldable pub record_payment : Transaction → ℕ → Order → Db → Db
unfolding settle
record_payment t now o db = refresh_table o.table_id (
    call (Call.post_order_update o.id (new_status (paid_in t.order_id db.transactions) o)) (
      announce (settled_order t now o db.transactions)
        (set_order o.id (λ _. settled_order t now o db.transactions) db)))

-- The branch of a payment, for the order as it was read.
unfoldable pub process_payment : Transaction → ℕ → Order → Db → Db
unfolding record_payment
process_payment t now o db =
    if has_payment t.order_id db.transactions then record_payment t now o db else db

-- `generalUpdate` of the branch of a refund: `$inc`, the new payment status, and `$push`.
unfoldable pub refunded : Transaction → Order → Order → Order
refunded t read o = record o {
  summary = record o.summary { total_refunded = o.summary.total_refunded +ℤ t.amount };
  payment_status =
      if eqb_ℤ (read.summary.total_refunded +ℤ t.amount) read.summary.total_paid
      then OrderPaymentStatus.refunded
      else OrderPaymentStatus.partially_refunded;
  transactions = o.transactions ++ (t.id ∷ []);
}

-- `storeCurrentBalance(cashierId, transaction)`; without a cashier it finds no log.
abbrev pub store_balance : Option ℕ → Transaction → DbAction (Unit {0})
store_balance none t = pure tt
store_balance (some c) t = detached (on_cashier (store_current_balance c t.is_refund t.amount))

-- `storeOrderStateActivity`, which fails on its own for an order that is missing.
abbrev pub record_activity : Bool → Option Order → Db → Db
record_activity refund none db = db
record_activity refund (some o) db = call (Call.store_activity o.id refund) db

-- The branches of a refund and of a payment. An order that is missing is read in the first, and in
-- the second if there is a payment.
unfoldable pub process_order : Transaction → ℕ → Option Order → DbAction (Unit {0})
unfolding process_payment refunded
process_order t now none db = (
  if t.is_refund || has_payment t.order_id db.transactions then failed type_error else done tt,
  db,
)
process_order t now (some o) db =
    (done tt, (if t.is_refund then set_order o.id (refunded t o) else process_payment t now o) db)

-- The processing of a successful transaction.
unfoldable pub process_success : Transaction → ℕ → DbAction (Unit {0})
unfolding process_order
process_success t now = do
  o ← gets (λ db. find (has_id t.order_id) db.orders)
  modify (record_activity t.is_refund o)
  store_balance t.cashier_id t
  process_order t now o

unfoldable pub post_transaction_process : Transaction → ℕ → DbAction (Unit {0})
unfolding process_success
post_transaction_process t now = if is_success t.status then process_success t now else pure tt

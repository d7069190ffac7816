-- ===== src/Payment/Service.antt =====
-- `create` and `refund` of src/payment/payment.service.ts.
use gitrema_backend.Prelude.{
  ℕ, suc, ◌==◌, if◌then◌else◌, Bool, true, false, ◌&&◌, Option, none, some, List, [], ◌∷◌, ◌++◌,
}
use gitrema_backend.Prelude.Int.{ℤ, ◌+ℤ◌, ◌-ℤ◌, ltb_ℤ}
use gitrema_backend.Prelude.Action.{
  Outcome, done, failed, record_not_found, payments_not_allowed, transaction_not_found,
  transaction_already_paid, over_payment, refund_too_large, pure, modify, detached, ◌>>=◌, ◌>>◌,
}
use gitrema_backend.Prelude.Collection.{find, update_first}
use gitrema_backend.Order.Status.{
  OrderPaymentStatus, PaymentMethod, PaymentStatus, is_ended, is_not_paid, is_success, is_immediate,
  is_online,
}
use gitrema_backend.Order.State.{Order, has_id}
use gitrema_backend.Cashier.{Request, resolve_cashier_id, log_transaction_async}
use gitrema_backend.Payment.State.{
  Transaction, Call, Db, DbAction, on_cashier, PaymentInitiateDto, RefundDto,
}
use gitrema_backend.Payment.Process.{due, set_order, call, post_transaction_process}

abbrev pub is_transaction : ℕ → Transaction → Bool
is_transaction id t = t.id == id

-- The transaction that the request names, which must be there and not paid.
unfoldable pub named_transaction : Option ℕ → List Transaction → Outcome (Option Transaction)
named_transaction none ts = done none
named_transaction (some id) ts = elim (find (is_transaction id) ts) [
  | none ↦ failed transaction_not_found
  | some t ↦ if is_success t.status then failed transaction_already_paid else done (some t)
]

-- `amountToCollect`: that of the named transaction, or the one asked for, or all that is left.
abbrev pub amount_to_collect : PaymentInitiateDto → Order → Option Transaction → ℤ
amount_to_collect dto o (some t) = t.amount
amount_to_collect dto o none = elim dto.amount [ some a ↦ a | none ↦ due o -ℤ o.summary.total_paid ]

-- Behind the named transaction: more than the order costs is refused.
unfoldable pub check_amount :
    PaymentInitiateDto → Order → Outcome (Option Transaction) → Outcome (Order × Option Transaction)
check_amount dto o (failed e) = failed e
check_amount dto o (done t) =
    if ltb_ℤ (due o) (o.summary.total_paid +ℤ amount_to_collect dto o t)
    then failed over_payment
    else done (o, t)

-- The guards of `create`, in their order.
unfoldable pub payment_check : PaymentInitiateDto → Db → Outcome (Order × Option Transaction)
unfolding named_transaction check_amount
payment_check dto db = elim (find (has_id dto.order_id) db.orders) [
  | none ↦ failed record_not_found
  | some o ↦
      if is_ended o.status
      then failed payments_not_allowed
      else check_amount dto o (named_transaction dto.transaction_id db.transactions)
]

-- `[Cash, Card].includes(paymentMethod) ? Success : Pending`
abbrev pub first_status : PaymentMethod → PaymentStatus
first_status m = if is_immediate m then PaymentStatus.success else PaymentStatus.pending

abbrev pub new_payment : Request → PaymentInitiateDto → Order → ℕ → ℕ → Transaction
new_payment req dto o cid id = record {
  id = id;
  supplier_id = o.supplier_id;
  order_id = o.id;
  cashier_id = some cid;
  amount = amount_to_collect dto o none;
  status = first_status dto.payment_method;
  payment_method = some dto.payment_method;
  is_refund = false;
  added_by = some req.user_id;
}

abbrev pub add_transaction : Transaction → Db → Db
add_transaction t db = record db { transactions = t ∷ db.transactions; next_id = suc db.next_id }

-- `$push` of the transaction, and `Pending` for an online payment of an order that is not paid.
-- `read` is the order as it was read.
abbrev pub push_payment : PaymentMethod → ℕ → Order → Order → Order
push_payment m id read o = record o {
  transactions = o.transactions ++ (id ∷ []);
  payment_status =
      if is_not_paid read.payment_status && is_online m
      then OrderPaymentStatus.pending
      else o.payment_status;
}

-- `transaction.set({ status, paymentMethod })`
abbrev pub retried : PaymentMethod → Transaction → Transaction
retried m t = record t { status = first_status m; payment_method = some m }

abbrev pub set_transaction : ℕ → (Transaction → Transaction) → Db → Db
set_transaction id f db = record db {
  transactions = update_first (is_transaction id) f db.transactions;
}

-- A new transaction, pushed to the order, or the named one with its new method.
unfoldable pub place_transaction :
    Request → PaymentInitiateDto → ℕ → Order × Option Transaction → DbAction Transaction
place_transaction req dto cid (o, none) db =
    let t = new_payment req dto o cid db.next_id in
    (done t, set_order o.id (push_payment dto.payment_method t.id o) (add_transaction t db))
place_transaction req dto cid (o, some t) db =
    (done (retried dto.payment_method t), set_transaction t.id (retried dto.payment_method) db)

-- What follows: the gateway, the processing of the payment, or the terminal.
unfoldable pub finish_payment : PaymentMethod → Transaction → ℕ → DbAction (Unit {0})
unfolding post_transaction_process
finish_payment PaymentMethod.online t now = modify (call (Call.request_payment_token t.id))
finish_payment PaymentMethod.cash t now = detached (post_transaction_process t now)
finish_payment PaymentMethod.card t now = detached (post_transaction_process t now)
finish_payment PaymentMethod.pos t now = modify (call (Call.launch_pos t.id))
finish_payment _ t now = pure tt

-- The rest of `create`, once the order was checked and the cashier is known.
unfoldable pub collect :
    Request → PaymentInitiateDto → ℕ → Order × Option Transaction → ℕ → DbAction Transaction
unfolding place_transaction finish_payment
collect req dto now found cid = do
  t ← place_transaction req dto cid found
  detached (on_cashier (log_transaction_async cid t.id))
  finish_payment dto.payment_method t now
  pure t

-- `create`. The transaction is returned; the gateway's answer to an online payment is not modelled.
unfoldable pub create : Request → PaymentInitiateDto → ℕ → DbAction Transaction
unfolding payment_check collect
create req dto now = do
  found ← (λ db. (payment_check dto db, db))
  cid ← on_cashier (resolve_cashier_id req dto.cashier_id true (some (found.0).restaurant_id) now)
  collect req dto now found cid

-- The guards of `refund`.
unfoldable pub refund_check : RefundDto → Db → Outcome Order
refund_check dto db = elim (find (has_id dto.order_id) db.orders) [
  | none ↦ failed record_not_found
  | some o ↦
      if ltb_ℤ (o.summary.total_paid -ℤ o.summary.total_refunded) dto.amount
      then failed refund_too_large
      else done o
]

abbrev pub new_refund : Request → RefundDto → Order → ℕ → ℕ → Transaction
new_refund req dto o cid id = record {
  id = id;
  supplier_id = o.supplier_id;
  order_id = o.id;
  cashier_id = some cid;
  amount = dto.amount;
  status = PaymentStatus.success;
  payment_method = some PaymentMethod.cash;
  is_refund = true;
  added_by = some req.user_id;
}

-- The rest of `refund`.
unfoldable pub pay_back : Request → RefundDto → ℕ → Order → ℕ → DbAction Transaction
unfolding post_transaction_process
pay_back req dto now o cid = do
  t ← (λ db. let t = new_refund req dto o cid db.next_id in (done t, add_transaction t db))
  detached (on_cashier (log_transaction_async cid t.id))
  detached (post_transaction_process t now)
  pure t

unfoldable pub refund : Request → RefundDto → ℕ → DbAction Transaction
unfolding refund_check pay_back
refund req dto now = do
  o ← (λ db. (refund_check dto db, db))
  cid ← on_cashier (resolve_cashier_id req dto.cashier_id true (some o.restaurant_id) now)
  pay_back req dto now o cid

-- ===== src/Lifecycle/Group.antt =====
-- `groupOrders` of src/order/order.service.ts.
use gitrema_backend.Prelude.{
  ℕ, ltb, if◌then◌else◌, Bool, true, false, not, ◌&&◌, none, some, List, [], ◌∷◌, ◌++◌, map, filter,
  length,
}
use gitrema_backend.Prelude.Int.{ℤ, pos, ◌+ℤ◌}
use gitrema_backend.Prelude.Action.{
  Outcome, done, failed, all_order_closed, same_table_merge_not_allowed, pure, gets, modify,
  detached, ◌>>=◌, ◌>>◌,
}
use gitrema_backend.Prelude.Collection.{update_all}
use gitrema_backend.Order.Status.{OrderStatus, OrderPaymentStatus, is_ended}
use gitrema_backend.Lifecycle.State.{
  OrderItem, OrderDoc, UpdateOrderDto, kitchen_receipts, post_order_create, Paid, Store, LifeAction,
  Env, log_calls,
}
use gitrema_backend.Lifecycle.Update.{includes, set_payment_status, update}
use gitrema_backend.Lifecycle.Move.{reprepared, create_order}

-- The query `{ _id: { $in: orderIds }, status: { $nin: […] } }`.
abbrev pub is_groupable : List ℕ → OrderDoc → Bool
is_groupable ids o = includes ids o.id && not (is_ended o.status)

-- The index on `_id` gives the oldest document first.
abbrev pub oldest_first : {A : Type 0} → List A → List A
oldest_first [] = []
oldest_first (x ∷ xs) = oldest_first xs ++ (x ∷ [])

abbrev pub groupable : List ℕ → Store → List OrderDoc
groupable ids s = oldest_first (filter (is_groupable ids) s.orders)

abbrev pub has_no_table : OrderDoc → Bool
has_no_table o = elim o.table_id [ none ↦ true | some _ ↦ false ]

-- `new Set(tableIds)` compares identifiers, which are objects, by their identity: of two orders,
-- only `null` and `null` are one element.
abbrev pub repeats_table : List OrderDoc → Bool
repeats_table os = ltb 1 (length (filter has_no_table os))

abbrev pub all_items : List OrderDoc → List OrderItem
all_items [] = []
all_items (o ∷ os) = o.items ++ all_items os

abbrev pub total_over : (OrderDoc → ℤ) → List OrderDoc → ℤ
total_over f [] = pos 0
total_over f (o ∷ os) = f o +ℤ total_over f os

abbrev pub is_sent : OrderStatus → Bool
is_sent OrderStatus.sent_to_kitchen = true
is_sent _ = false

abbrev pub some_sent : List OrderDoc → Bool
some_sent [] = false
some_sent (o ∷ os) = if is_sent o.status then true else some_sent os

-- The guards, and the first order with all of them.
unfoldable pub check_group : List OrderDoc → Outcome (OrderDoc × List OrderDoc)
check_group [] = failed all_order_closed
check_group (o ∷ []) = failed all_order_closed
check_group (o ∷ p ∷ os) =
    if repeats_table (o ∷ p ∷ os) then failed same_table_merge_not_allowed else done (o, o ∷ p ∷ os)

-- The grouped order before it is priced: the first order with the items of all. The invoice and
-- payment status are deleted, and `NotPaid` is the default of the schema.
unfoldable pub group_of : ℕ → OrderDoc → List OrderDoc → OrderDoc
group_of number first os = record first {
  items = all_items os;
  invoiced = false;
  payment_status = OrderPaymentStatus.not_paid;
  is_grouped = true;
  transactions = [];
  status = if some_sent os then OrderStatus.sent_to_kitchen else first.status;
  order_number = number;
  summary = record first.summary {
    total_paid = total_over (λ o. o.summary.total_paid) os;
    total_refunded = total_over (λ o. o.summary.total_refunded) os;
  };
}

-- `find({ orderId: { $in: orderIds }, status: Success })`
abbrev pub payments_of : List ℕ → Store → List Paid
payments_of ids s = filter (λ t. includes ids t.order_id) s.payments

abbrev pub transaction_ids : List ℕ → Store → List ℕ
transaction_ids ids s = map (λ t. t.transaction_id) (payments_of ids s)

-- `updateMany({ _id: { $in: transactionIds } }, { orderId })`
abbrev pub move_payments : List ℕ → ℕ → Store → Store
move_payments tids id s = record s {
  payments =
      update_all (λ t. includes tids t.transaction_id) (λ t. record t { order_id = id }) s.payments;
}

abbrev pub merge_dto : ℕ → UpdateOrderDto
merge_dto group_id = record {
  status = some OrderStatus.cancelled_by_merge;
  order_item_ids = none;
  items = none;
  coupon_code = none;
  table_id = none;
  tip = none;
  group_id = some group_id;
}

-- `for (const i in orderIds) this.update(req, dto.orderIds[i], …)`: as many of the identifiers in
-- the body as there are orders, from the first one on. An update that throws is not noticed.
unfoldable pub cancel_merged : Env → ℕ → List OrderDoc → List ℕ → LifeAction (Unit {0})
unfolding update
cancel_merged env group_id [] ids = pure tt
cancel_merged env group_id (o ∷ os) [] = pure tt
cancel_merged env group_id (o ∷ os) (id ∷ ids) = do
  detached (update env id (merge_dto group_id))
  cancel_merged env group_id os ids

unfoldable pub group_orders : Env → ℕ → List ℕ → LifeAction OrderDoc
unfolding check_group group_of cancel_merged set_payment_status
group_orders env number ids = do
  found ← gets (groupable ids)
  (first, os) ← (λ s. (check_group found, s))
  priced ← reprepared env (group_of number first os)
  let order_ids = map (λ o. o.id) os
  tids ← gets (transaction_ids order_ids)
  group ← create_order (record (set_payment_status priced) { transactions = tids })
  modify (log_calls (kitchen_receipts group.id false ∷ post_order_create group.id ∷ []))
  cancel_merged env group.id os ids
  modify (move_payments tids group.id)
  pure group

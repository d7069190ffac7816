-- ===== src/Lifecycle/Update.antt =====
-- `update` and `restrictedUpdate` of src/order/order.service.ts, and `postOrderUpdate` of
-- src/order/order-helper.service.ts, which `update` calls without waiting for it.
use gitrema_backend.Prelude.{
  ℕ, ◌==◌, if◌then◌else◌, Bool, true, false, not, ◌&&◌, ◌||◌, Option, none, some, List, [], ◌∷◌,
  is_some, is_text, map,
}
use gitrema_backend.Prelude.Int.{ℤ, pos, ◌+ℤ◌, ltb_ℤ, eqb_ℤ}
use gitrema_backend.Prelude.Action.{
  Outcome, done, failed, and_then, record_not_found, order_closed, not_allowed, same_status,
  no_permission, type_error, pure, gets, or_throw, modify, ◌>>=◌, ◌>>◌,
}
use gitrema_backend.Prelude.Collection.{find}
use gitrema_backend.Order.Status.{
  OrderStatus, OrderPaymentStatus, PreparationStatus, is_new, is_not_paid,
}
use gitrema_backend.Order.Status.{same_status as same_order_status}
use gitrema_backend.Order.State.{tip_or_zero}
use gitrema_backend.Pricing.{OrderData, calculate_summery}
use gitrema_backend.Lifecycle.State.{
  OrderItem, OrderDoc, UpdateOrderDto, LifeAction, Env, has_id, find_order, numbered, write_order,
  log_calls,
}
use gitrema_backend.Lifecycle.Calls.{post_order_update}

-- `==` of the status in the body, which may be absent, with a status.
abbrev pub asks : Option OrderStatus → OrderStatus → Bool
asks none b = false
asks (some a) b = same_order_status a b

abbrev pub is_closed : OrderStatus → Bool
is_closed OrderStatus.closed = true
is_closed _ = false

-- The guards of `update`, in their order.
unfoldable pub check_update : OrderStatus → Option OrderStatus → Outcome (Unit {0})
check_update current asked =
    if is_closed current && not (asks asked OrderStatus.reset)
    then failed order_closed
    else if asks asked OrderStatus.reset && not (is_closed current)
    then failed not_allowed
    else if asks asked current
    then failed same_status
    else done tt

-- `asked ?? old`, for the fields of `{ ...order.toObject(), ...dto }`.
abbrev pub override : {A : Type 0} → Option A → A → A
override none old = old
override (some x) old = x

abbrev pub override_some : {A : Type 0} → Option A → Option A → Option A
override_some none old = old
override_some (some x) old = some x

unfoldable pub merge : UpdateOrderDto → OrderDoc → OrderDoc
merge dto o = record o {
  status = override dto.status o.status;
  items = override dto.items o.items;
  coupon_code = override_some dto.coupon_code o.coupon_code;
  table_id = override_some dto.table_id o.table_id;
  tip = override_some dto.tip o.tip;
  group_id = override_some dto.group_id o.group_id;
}

-- `items.map((oi) => oi._id.toString())`, which throws at an item without an `_id`.
abbrev pub cons_done : ℕ → Outcome (List ℕ) → Outcome (List ℕ)
cons_done id (done ids) = done (id ∷ ids)
cons_done id (failed e) = failed e

abbrev pub ids_of : List OrderItem → Outcome (List ℕ)
ids_of [] = done []
ids_of (i ∷ is) = elim i.id [ none ↦ failed type_error | some id ↦ cons_done id (ids_of is) ]

abbrev pub includes : List ℕ → ℕ → Bool
includes [] x = false
includes (y ∷ ys) x = if y == x then true else includes ys x

abbrev pub includes_id : List ℕ → Option ℕ → Bool
includes_id ids none = false
includes_id ids (some id) = includes ids id

abbrev pub serve_item : List ℕ → OrderItem → OrderItem
serve_item ids i =
    if includes_id ids i.id then record i { preparation_status = PreparationStatus.on_table } else i

-- The branch of `OnTable`: items that the body names are served one by one, and then the status
-- of the order stays; else the whole order is served.
abbrev pub serve_items : ℕ → Option (List ℕ) → OrderStatus → OrderDoc → List ℕ → OrderDoc
serve_items now none old o all = record o {
  order_ready_time = some now;
  items = map (serve_item all) o.items;
}
serve_items now (some ids) old o all = record o {
  order_ready_time = some now;
  status = old;
  items = map (serve_item ids) o.items;
}

-- The times that come with a status, and the serving of the items.
abbrev pub mark_status :
    ℕ → Option (List ℕ) → OrderStatus → OrderDoc → Option OrderStatus → Outcome OrderDoc
mark_status now ids old o (some OrderStatus.sent_to_kitchen) =
    done (record o { sent_to_kitchen_time = some now })
mark_status now ids old o (some OrderStatus.on_table) = elim (ids_of o.items) [
  | failed e ↦ failed e
  | done all ↦ done (serve_items now ids old o all)
]
mark_status now ids old o _ = done o

-- What `calculateSummery` reads of an order.
abbrev pub order_data : OrderDoc → OrderData
order_data o = record {
  items = map (λ i. i.amounts) o.items;
  coupon_code = o.coupon_code;
  table_fee = o.table_fee;
  tax_rate = o.tax_rate;
  fee_rate = o.fee_rate;
  tip = o.tip;
  total_paid = some o.summary.total_paid;
  total_refunded = some o.summary.total_refunded;
}

abbrev pub with_summary : Env → OrderDoc → OrderDoc
with_summary env o = record o { summary = calculate_summery (order_data o) env.now env.offers }

-- The items are prepared again, and the order is summed up again.
unfoldable pub prepare_order : Env → OrderDoc → Outcome OrderDoc
prepare_order env o =
    and_then (env.prepare o) (λ items. done (with_summary env (record o { items = items })))

-- Items or a code in the body make the order be prepared again; without a code, the order keeps
-- its own.
unfoldable pub reprice : Env → UpdateOrderDto → OrderDoc → OrderDoc → Outcome OrderDoc
unfolding prepare_order
reprice env dto old o =
    if is_some dto.items || is_text dto.coupon_code
    then prepare_order env
        (if is_text dto.coupon_code then o else record o { coupon_code = old.coupon_code })
    else done o

-- The comparison of what was paid with what is due, once something was paid.
abbrev pub due_of : OrderDoc → ℤ
due_of o = o.summary.total_with_tax +ℤ tip_or_zero o.tip

abbrev pub paid_status : ℤ → ℤ → OrderPaymentStatus
paid_status paid due =
    if ltb_ℤ due paid
    then OrderPaymentStatus.over_paid
    else if eqb_ℤ paid due
    then OrderPaymentStatus.paid
    else OrderPaymentStatus.not_paid

unfoldable pub set_payment_status : OrderDoc → OrderDoc
set_payment_status o =
    if ltb_ℤ (pos 0) o.summary.total_paid
    then record o { payment_status = paid_status o.summary.total_paid (due_of o) }
    else o

-- The document that `update` writes, from the one that it read.
unfoldable pub updated : Env → UpdateOrderDto → OrderDoc → Outcome OrderDoc
unfolding check_update merge reprice set_payment_status
updated env dto o = and_then (check_update o.status dto.status) (λ _.
    and_then (mark_status env.now dto.order_item_ids o.status (merge dto o) dto.status)
      (λ marked. and_then (reprice env dto o marked) (λ priced. done (set_payment_status priced))))

unfoldable pub update : Env → ℕ → UpdateOrderDto → LifeAction OrderDoc
unfolding updated post_order_update
update env id dto = do
  order ← or_throw (← gets (find_order id)) record_not_found
  data' ← (λ s. (updated env dto order, s))
  modified ← gets (λ s. numbered s.next_id data')
  modify (write_order data')
  modify (log_calls (post_order_update modified dto order))
  pure modified

-- The query `{ _id, status: New, paymentStatus: NotPaid }`.
abbrev pub is_untouched : ℕ → OrderDoc → Bool
is_untouched id o = has_id id o && is_new o.status && is_not_paid o.payment_status

unfoldable pub restricted_update : Env → ℕ → UpdateOrderDto → LifeAction OrderDoc
unfolding update
restricted_update env id dto = do
  _ ← or_throw (← gets (λ s. find (is_untouched id) s.orders)) no_permission
  update env id dto

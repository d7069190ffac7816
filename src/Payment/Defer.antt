-- ===== src/Payment/Defer.antt =====
-- `deferOrder` of src/order/order.service.ts: an order that is closed without its payment.
use gitrema_backend.Prelude.{ℕ, ◌==◌, Bool, true, Option, none, some, ◌∷◌}
use gitrema_backend.Prelude.Int.{pos}
use gitrema_backend.Prelude.Action.{record_not_found, gets, or_throw, modify, ◌>>=◌, ◌>>◌}
use gitrema_backend.Prelude.Collection.{find, update_all}
use gitrema_backend.Order.Status.{OrderStatus, OrderPaymentStatus, PaymentStatus}
use gitrema_backend.Order.State.{Order, has_id}
use gitrema_backend.Cashier.{Request, resolve_cashier_id}
use gitrema_backend.Cashier.Dashboard.{DeferredTransaction}
use gitrema_backend.Payment.State.{Transaction, Db, DbAction, on_cashier}
use gitrema_backend.Payment.Process.{set_order}

abbrev pub is_of_order : ℕ → Transaction → Bool
is_of_order oid t = t.order_id == oid

abbrev pub with_failure : Transaction → Transaction
with_failure t = record t { status = PaymentStatus.failed }

abbrev pub fail_transactions : ℕ → Db → Db
fail_transactions oid db = record db {
  transactions = update_all (is_of_order oid) with_failure db.transactions;
}

abbrev pub deferred_transaction : Request → Order → ℕ → ℕ → DeferredTransaction
deferred_transaction req o cid now = record {
  supplier_id = req.supplier_id;
  restaurant_id = o.restaurant_id;
  order_id = o.id;
  cashier_id = cid;
  amount = o.summary.remaining_amount_to_collect;
  added_by = some req.user_id;
  created_at = now;
}

abbrev pub add_deferred : DeferredTransaction → Db → Db
add_deferred d db = record db { deferred = d ∷ db.deferred }

-- `read` is the order as it was read.
abbrev pub closed_unpaid : Order → Order → Order
closed_unpaid read o = record o {
  payment_status = OrderPaymentStatus.deferred;
  status = OrderStatus.closed;
  summary = record read.summary {
    total_paid = pos 0;
    remaining_amount_to_collect = read.summary.total_with_tax;
  };
}

-- The rest of `deferOrder` once the cashier is known. The changed order is returned.
unfoldable pub close_unpaid : Request → ℕ → ℕ → Order → ℕ → DbAction (Option Order)
close_unpaid req order_id now o cid = do
  modify (add_deferred (deferred_transaction req o cid now))
  modify (set_order order_id (closed_unpaid o))
  gets (λ db. find (has_id order_id) db.orders)

unfoldable pub defer_order : Request → ℕ → ℕ → DbAction (Option Order)
unfolding close_unpaid
defer_order req order_id now = do
  o ← or_throw (← gets (λ db. find (has_id order_id) db.orders)) record_not_found
  modify (fail_transactions order_id)
  cid ← on_cashier (resolve_cashier_id req none true (some o.restaurant_id) now)
  close_unpaid req order_id now o cid

-- ===== src/Payment/Examples.antt =====
-- An order of 40.00 that is paid in two parts and refunded, and what is proved of it.
use gitrema_backend.Prelude.{
  ℕ, ◌+◌, ◌*◌, ◌≤◌, ◌≡◌, refl, if◌then◌else◌, true, false, none, some, List, [], ◌∷◌, arith, length,
}
use gitrema_backend.Prelude.Int.{ℤ, pos, ◌+ℤ◌, ◌-ℤ◌, ◌≤ℤ◌, eqb_ℤ}
use gitrema_backend.Prelude.Action.{failed, no_cashier_available}
use gitrema_backend.Prelude.Collection.{find}
use gitrema_backend.Order.Status.{
  OrderStatus, OrderPaymentStatus, PaymentMethod, PaymentStatus, PreparationStatus,
}
use gitrema_backend.Order.State.{Order, has_id}
use gitrema_backend.Cashier.{Request, CashierState, resolve_cashier_id, auto_start_cashier}
use gitrema_backend.Payment.State.{Transaction, Db, PaymentInitiateDto, RefundDto}
use gitrema_backend.Payment.Process.{due, paid_in}
use gitrema_backend.Payment.Service.{create, refund}
use gitrema_backend.Payment.Split.{split_amounts}
use gitrema_backend.Cashier.Dashboard.{DeferredTransaction}
use gitrema_backend.Payment.Defer.{defer_order}
use gitrema_backend.Payment.Deferred.{defer_order-PaidMatches, defer_order_stranded}
use gitrema_backend.Payment.Totals.{PaidMatches}
use gitrema_backend.Payment.Reachable.{PaymentCall, handle_all, handle_all-PaidMatches}
use gitrema_backend.Payment.Bounds.{create_within_due}
use gitrema_backend.Payment.Refunds.{refund_lem}
use gitrema_backend.Payment.Shares.{sum, split_total}

abbrev dinner : Order
dinner = record {
  id = 30;
  supplier_id = 9;
  restaurant_id = 5;
  table_id = none;
  waiter_id = some 4;
  cashier_id = none;
  status = OrderStatus.new;
  payment_status = OrderPaymentStatus.not_paid;
  items = PreparationStatus.not_started ∷ [];
  tip = none;
  summary = record {
    total_with_tax = pos 4_000;
    total_paid = pos 1_000;
    total_refunded = pos 0;
    remaining_amount_to_collect = pos 3_000;
  };
  transactions = 50 ∷ [];
  payment_time = none;
}

-- 10.00 of it were paid already.
abbrev deposit : Transaction
deposit = record {
  id = 50;
  supplier_id = 9;
  order_id = 30;
  cashier_id = some 1;
  amount = pos 1_000;
  status = PaymentStatus.success;
  payment_method = some PaymentMethod.cash;
  is_refund = false;
  added_by = some 3;
}

abbrev tills : CashierState
tills = record {
  cashiers =
      record {
        id = 1;
        supplier_id = 9;
        restaurant_id = 5;
        paused = false;
        default = true;
        active = true;
        current_log = none;
      }
      ∷ [];
  logs = [];
  users = [];
  next_id = 10;
}

abbrev stored : Db
stored = record {
  orders = dinner ∷ [];
  transactions = deposit ∷ [];
  deferred = [];
  next_id = 51;
  cashier = tills;
  table = record { tables = []; logs = []; next_id = 20; boot_time = 0 };
  calls = [];
}

abbrev clerk : Request
clerk = record { user_id = 3; supplier_id = 9; is_customer = false }

-- The rest in cash, and 4.00 back.
abbrev pay_rest : PaymentInitiateDto
pay_rest = record {
  order_id = 30;
  cashier_id = some 1;
  amount = none;
  payment_method = PaymentMethod.cash;
  transaction_id = none;
}

abbrev give_back : RefundDto
give_back = record { order_id = 30; cashier_id = some 1; amount = pos 400 }

-- The rest is paid, 4.00 are given back, and more than that is refused.
abbrev an_hour : List (PaymentCall × ℕ)
an_hour =
    (PaymentCall.split_call clerk 30 3, 600)
    ∷ (PaymentCall.create_call clerk pay_rest, 700)
    ∷ (PaymentCall.refund_call clerk give_back, 800)
    ∷ (PaymentCall.create_call clerk pay_rest, 900)
    ∷ []

handle_all-PaidMatches_example : PaidMatches (handle_all an_hour stored)
unfolding ◌+ℤ◌
handle_all-PaidMatches_example = handle_all-PaidMatches an_hour stored (refl, tt)

abbrev rest : Transaction
rest = record deposit { id = 51; amount = pos 3_000 }

create_within_due_example :
    (o : Order) × (find (has_id 30) stored.orders ≡ some o)
    × (paid_in o.id stored.transactions +ℤ pos 3_000 ≤ℤ due o)
unfolding create resolve_cashier_id auto_start_cashier ◌+ℤ◌ ◌-ℤ◌
create_within_due_example = create_within_due clerk pay_rest 700 stored rest (refl, tt) refl

abbrev given_back : Transaction
given_back = record deposit { id = 51; amount = pos 400; is_refund = true }

refund_lem_example :
    (o o' : Order) × (find (has_id 30) stored.orders ≡ some o)
    × (find (has_id 30) (refund clerk give_back 700 stored).1.orders ≡ some o')
    × (o'.summary.total_refunded ≡ o.summary.total_refunded +ℤ pos 400)
    × (o'.summary.total_paid ≡ o.summary.total_paid)
    × (o'.summary.total_refunded ≤ℤ o'.summary.total_paid)
    × (o'.payment_status ≡ (
        if eqb_ℤ o'.summary.total_refunded o'.summary.total_paid
        then OrderPaymentStatus.refunded
        else OrderPaymentStatus.partially_refunded))
unfolding refund resolve_cashier_id auto_start_cashier ◌-ℤ◌
refund_lem_example = refund_lem clerk give_back 700 stored given_back refl

-- 2.00 in three parts: 0.67 each, which is 2.01 together.
abbrev thirds : List ℤ
thirds = pos 67 ∷ pos 67 ∷ pos 67 ∷ []

split_total_example :
    (length thirds ≡ 3)
    × (3 * 67 ≤ 200 → sum thirds ≡ pos 200)
    × (200 ≤ 3 * 67 → sum thirds ≡ pos (3 * 67))
    × (2 * (3 * 67) ≤ 2 * 200 + 3)
unfolding split_amounts ◌+ℤ◌ ◌-ℤ◌
split_total_example = split_total 200 3 thirds (omega arith) refl

abbrev deferred_dinner : Order
deferred_dinner = record dinner {
  payment_status = OrderPaymentStatus.deferred;
  status = OrderStatus.closed;
  summary = record dinner.summary { total_paid = pos 0; remaining_amount_to_collect = pos 4_000 };
}

defer_order-PaidMatches_example :
    let db' = (defer_order clerk 30 700 stored).1 in
    PaidMatches db'
    × (paid_in 30 db'.transactions ≡ pos 0)
    × ((o : Order) × (d : DeferredTransaction) × (find (has_id 30) stored.orders ≡ some o)
        × (db'.deferred ≡ d ∷ [])
        × (d.amount ≡ o.summary.remaining_amount_to_collect))
unfolding defer_order resolve_cashier_id auto_start_cashier ◌+ℤ◌
defer_order-PaidMatches_example =
    defer_order-PaidMatches clerk 30 700 stored (some deferred_dinner) (refl, tt) refl

-- The same order in a restaurant without a cashier.
abbrev elsewhere : Order
elsewhere = record dinner { restaurant_id = 6 }

abbrev stored_elsewhere : Db
stored_elsewhere = record stored { orders = elsewhere ∷ [] }

defer_order_stranded_example :
    let r = defer_order clerk 30 700 stored_elsewhere in
    (r.0 ≡ failed no_cashier_available)
    × (r.1.orders ≡ stored_elsewhere.orders)
    × (paid_in 30 r.1.transactions ≡ pos 0)
unfolding resolve_cashier_id
defer_order_stranded_example =
    defer_order_stranded clerk 30 700 stored_elsewhere elsewhere no_cashier_available refl refl

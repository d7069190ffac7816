-- ===== src/Lifecycle/Examples.antt =====
-- A restaurant with three orders: the methods of src/order/order.service.ts at concrete states.
use gitrema_backend.Prelude.{ℕ, ◌+◌, ◌≡◌, refl, false, Option, none, some, List, [], ◌∷◌, arith}
use gitrema_backend.Prelude.Int.{pos, ◌+ℤ◌, ◌-ℤ◌, ratio}
use gitrema_backend.Prelude.Action.{done, failed, order_closed, not_allowed, same_status}
use gitrema_backend.Order.Status.{OrderType, OrderStatus, OrderPaymentStatus, PreparationStatus}
use gitrema_backend.Menu.{Source}
use gitrema_backend.Pricing.{
  FullSummary, calculate_summery, summary_with, find_offer, first_by_priority, header_discount_of,
}
use gitrema_backend.Lifecycle.{
  OrderItem, OrderDoc, UpdateOrderDto, Store, Env, find_order, update, updated, check_update, merge,
  reprice, prepare_order, set_payment_status, post_order_update, kitchen_queue_process, processed,
  start_order, post_kitchen_queue_processing, KitchenQueueProcessDto, due_of, finished,
}
use gitrema_backend.Lifecycle.PaymentStatus.{
  Compared, IsSummedUp, update-Compared, update-IsSummedUp,
}
use gitrema_backend.Lifecycle.Finishes.{Report}
use gitrema_backend.Lifecycle.Answers.{Change}
use gitrema_backend.Lifecycle.History.{History}
use gitrema_backend.Lifecycle.Closed.{Request, update_all_requests, closed_until_reset}

abbrev pub no_money : FullSummary
no_money = record {
  total_before_discount = pos 3000;
  discount = pos 0;
  total_with_tax = pos 3000;
  total_taxable_amount = pos 2609;
  total_tax = pos 391;
  total_paid = pos 0;
  total_refunded = pos 0;
  header_discount = pos 0;
  remaining_amount_to_collect = pos 3000;
  taxable_fee = record { numerator = pos 0; denominator = 10_000 };
  tax_on_fee = record { numerator = pos 0; denominator = 10_000 };
  total_fee = record { numerator = pos 0; denominator = 10_000 };
}

abbrev pub line : ℕ → ℕ → ℕ → OrderItem
line id menu quantity = record {
  id = some id;
  menu_item_id = menu;
  quantity = quantity;
  amounts = record {
    amount_before_discount = pos 1500;
    discount = pos 0;
    amount_after_discount = pos 1500;
  };
  preparation_status = PreparationStatus.not_started;
  kitchen_queue_id = some 5;
  additions = [];
  price = none;
}

abbrev pub order_with : ℕ → OrderStatus → List OrderItem → OrderDoc
order_with id status items = record {
  id = id;
  order_number = id;
  supplier_id = 1;
  restaurant_id = 1;
  source = Source.dine_in;
  market_place_type = none;
  kitchen_queue_id = none;
  table_id = some (20 + id);
  customer_id = none;
  contact_number = none;
  order_type = OrderType.dine_in;
  status = status;
  payment_status = OrderPaymentStatus.not_paid;
  invoiced = false;
  is_scheduled = false;
  is_grouped = false;
  group_id = none;
  coupon_code = none;
  items = items;
  table_fee = pos 0;
  tax_rate = 1500;
  fee_rate = 0;
  tip = none;
  summary = no_money;
  transactions = [];
  sent_to_kitchen_time = none;
  order_ready_time = none;
  actual_start_time = none;
}

abbrev pub lunch : OrderDoc
lunch = order_with 2 OrderStatus.new (line 11 7 3 ∷ line 12 8 1 ∷ [])

abbrev pub dinner : OrderDoc
dinner = order_with 3 OrderStatus.sent_to_kitchen (line 13 7 2 ∷ [])

abbrev pub breakfast : OrderDoc
breakfast = order_with 1 OrderStatus.closed (line 10 9 1 ∷ [])

abbrev pub start_store : Store
start_store = record {
  orders = dinner ∷ lunch ∷ breakfast ∷ [];
  payments =
      record { transaction_id = 31; order_id = 2 }
      ∷ record { transaction_id = 30; order_id = 1 }
      ∷ [];
  next_id = 40;
  calls = [];
}

-- Every item is available at the price that it has.
abbrev pub env : Env
env = record { now = 86_400_000; offers = []; prepare = λ o. done o.items }

abbrev ask : Option OrderStatus → UpdateOrderDto
ask status = record {
  status = status;
  order_item_ids = none;
  items = none;
  coupon_code = none;
  table_id = none;
  tip = none;
  group_id = none;
}

abbrev requests : List Request
requests =
    record { env = env; id = 2; dto = ask (some OrderStatus.sent_to_kitchen) }
    ∷ record { env = env; id = 1; dto = ask (some OrderStatus.on_table) }
    ∷ record { env = env; id = 2; dto = ask (some OrderStatus.on_table) }
    ∷ []

-- No request moves a closed order to a status but `Reset`.
closed_stays : ¬ Change OrderStatus.closed OrderStatus.sent_to_kitchen
closed_stays (Change.advances open_ _ _) = absurd (ground arith)
closed_stays (Change.reopens _ same) = absurd (ground arith)

closed_until_reset_example :
    find_order 1 (update_all_requests requests start_store) ≡ some breakfast
closed_until_reset_example =
    closed_until_reset 1 requests start_store breakfast refl refl (refl, (refl, (refl, tt)))

abbrev with_soup : UpdateOrderDto
with_soup = record (ask none) {
  items = some (line 11 7 3 ∷ line 12 8 1 ∷ line 14 9 1 ∷ []);
  tip = some (pos 500);
}

-- An order on which 50.00 was paid.
abbrev paid_lunch : OrderDoc
paid_lunch = record lunch { summary = record no_money { total_paid = pos 5000 } }

abbrev paid_store : Store
paid_store = record start_store { orders = dinner ∷ paid_lunch ∷ breakfast ∷ [] }

abbrev paid_after : OrderDoc
paid_after = record paid_lunch {
  items = line 11 7 3 ∷ line 12 8 1 ∷ line 14 9 1 ∷ [];
  tip = some (pos 500);
  payment_status = OrderPaymentStatus.paid;
  summary = record no_money {
    total_before_discount = pos 4500;
    total_with_tax = pos 4500;
    total_taxable_amount = pos 3913;
    total_tax = pos 587;
    total_paid = pos 5000;
    remaining_amount_to_collect = pos 0;
    tax_on_fee = record { numerator = pos 0; denominator = 100_000_000 };
    total_fee = record { numerator = pos 0; denominator = 100_000_000 };
  };
}

updated_lunch : (update env 2 with_soup paid_store).0 ≡ done paid_after
unfolding update updated check_update merge reprice prepare_order set_payment_status
    calculate_summery summary_with find_offer first_by_priority header_discount_of ◌+ℤ◌ ◌-ℤ◌ ratio
updated_lunch = refl

update-Compared_example : Compared OrderPaymentStatus.paid (pos 5000) (due_of paid_after)
update-Compared_example =
    update-Compared env 2 with_soup paid_store paid_after updated_lunch (omega arith)

update-IsSummedUp_example : IsSummedUp env paid_after
update-IsSummedUp_example =
    update-IsSummedUp env 2 with_soup paid_store paid_after updated_lunch refl

-- Closed orders, orders that are not closed, and orders that have the status already.
refused_updates :
    ((update env 1 (ask (some OrderStatus.new)) start_store).0 ≡ failed order_closed)
    × ((update env 2 (ask (some OrderStatus.reset)) start_store).0 ≡ failed not_allowed)
    × ((update env 2 (ask (some OrderStatus.new)) start_store).0 ≡ failed same_status)
unfolding update updated check_update
refused_updates = (refl, refl, refl)

abbrev reports : List Report
reports =
    record { now = 600; user_queue = none; item_id = 11 }
    ∷ record { now = 700; user_queue = some 5; item_id = 12 }
    ∷ []

abbrev whole_queue : KitchenQueueProcessDto
whole_queue = record {
  order_id = 1;
  order_item_id = none;
  preparation_status = PreparationStatus.done_preparing;
}

reopened :
    ((kitchen_queue_process 900 (some 5) whole_queue start_store).1.orders)
    ≡ dinner
      ∷ lunch
      ∷ finished (record breakfast {
        items = record (line 10 9 1) { preparation_status = PreparationStatus.done_preparing } ∷ [];
      })
      ∷ []
unfolding kitchen_queue_process processed start_order post_kitchen_queue_processing
    post_order_update
reopened = refl

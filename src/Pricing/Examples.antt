-- ===== src/Pricing/Examples.antt =====
-- The summary of an order of two items with an offer on the whole order.
use gitrema_backend.Prelude.{◌≡◌, ◌≢◌, ◌⊎◌, refl, true, false, none, some, [], ◌∷◌, arith, is_text}
use gitrema_backend.Prelude.Int.{pos, ◌+ℤ◌, ◌-ℤ◌, ◌≤ℤ◌, ratio}
use gitrema_backend.Order.Status.{OrderStatus, OrderPaymentStatus}
use gitrema_backend.Order.State.{Order}
use gitrema_backend.Payment.{with_total}
use gitrema_backend.Pricing.State.{ApplicationType, CalculationType, Offer, OrderData}
use gitrema_backend.Pricing.Summary.{calculate_summery, find_offer, is_header_offer, is_used_up}
use gitrema_backend.Pricing.Amounts.{calculate_summery_balance, calculate_summery-with_total}
use gitrema_backend.Pricing.Discounts.{IsPartial, find_offer_lem, calculate_summery_discount}

-- Half of the price, and at most 10.00.
abbrev half_price : Offer
half_price = record {
  supplier_id = 9;
  active = true;
  deleted_at = none;
  start = 0;
  end = 864_000_000;
  code = none;
  application_type = ApplicationType.header;
  discount_type = CalculationType.percentage;
  discount = pos 5_000;
  max_discount = some (pos 1_000);
  max_number_allowed = none;
  total_used = 0;
  priority = some 1;
}

abbrev lunch_data : OrderData
lunch_data = record {
  items =
      record {
        amount_before_discount = pos 2_000;
        discount = pos 500;
        amount_after_discount = pos 1_500;
      }
      ∷ record {
        amount_before_discount = pos 3_000;
        discount = pos 0;
        amount_after_discount = pos 3_000;
      }
      ∷ [];
  coupon_code = none;
  table_fee = pos 0;
  tax_rate = 1_500;
  fee_rate = 0;
  tip = some (pos 200);
  total_paid = some (pos 1_000);
  total_refunded = none;
}

-- 45.00 less 10.00, of which 4.57 are tax.
lunch_tax : (calculate_summery lunch_data 90_000_000 (half_price ∷ [])).total_tax ≡ pos 457
unfolding calculate_summery ◌+ℤ◌ ◌-ℤ◌ ratio
lunch_tax = refl

calculate_summery_balance_example :
    let s = calculate_summery lunch_data 90_000_000 (half_price ∷ []) in
    s.total_with_tax ≡ s.total_before_discount -ℤ s.discount
unfolding ◌-ℤ◌
calculate_summery_balance_example =
    calculate_summery_balance lunch_data 90_000_000 (half_price ∷ []) (refl, (refl, tt))

abbrev lunch_order : Order
lunch_order = record {
  id = 40;
  supplier_id = 9;
  restaurant_id = 5;
  table_id = none;
  waiter_id = none;
  cashier_id = none;
  status = OrderStatus.new;
  payment_status = OrderPaymentStatus.not_paid;
  items = [];
  tip = some (pos 200);
  summary = record {
    total_with_tax = pos 3_500;
    total_paid = pos 0;
    total_refunded = pos 0;
    remaining_amount_to_collect = pos 3_700;
  };
  transactions = [];
  payment_time = none;
}

lunch-not_free : pos 1_000 ≢ pos 0
lunch-not_free e = cc

calculate_summery-with_total_example :
    (calculate_summery lunch_data 90_000_000 (half_price ∷ [])).remaining_amount_to_collect
    ≡ (with_total (pos 1_000) lunch_order).summary.remaining_amount_to_collect
unfolding calculate_summery ◌+ℤ◌ ◌-ℤ◌ ratio
calculate_summery-with_total_example =
    calculate_summery-with_total lunch_data 90_000_000 (half_price ∷ []) lunch_order (pos 1_000)
      refl lunch-not_free refl refl

find_offer_lem_example :
    IsPartial half_price
    × ((is_header_offer 90_000_000 none half_price ≡ true)
        ⊎ (is_text none ≡ true)
          × (is_header_offer 90_000_000 none half_price ≡ true)
          × (is_used_up half_price ≡ false))
unfolding find_offer
find_offer_lem_example =
    find_offer_lem IsPartial 90_000_000 none (half_price ∷ []) half_price
      ((refl, omega arith, omega arith, omega arith), tt) refl

calculate_summery_discount_example :
    let s = calculate_summery lunch_data 90_000_000 (half_price ∷ []) in
    (pos 0 ≤ℤ s.header_discount) × (s.header_discount ≤ℤ pos 4_500) × (pos 0 ≤ℤ s.total_with_tax)
unfolding ◌+ℤ◌
calculate_summery_discount_example =
    calculate_summery_discount lunch_data 90_000_000 4_500 (half_price ∷ []) refl
      ((refl, omega arith, omega arith, omega arith), tt)

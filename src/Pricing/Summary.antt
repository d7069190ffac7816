-- ===== src/Pricing/Summary.antt =====
-- `calculateSummery` of src/order/calculation.service.ts.
use gitrema_backend.Prelude.{
  ℕ, suc, ◌+◌, ◌-◌, ◌*◌, ◌%◌, ltb, leb, if◌then◌else◌, Bool, true, false, not, ◌&&◌, Option, none,
  some, List, [], ◌∷◌, String, is_some, is_text, filter,
}
use gitrema_backend.Prelude.Int.{ℤ, pos, negsuc, ◌+ℤ◌, ◌-ℤ◌, ltb_ℤ, eqb_ℤ, neg, ratio, scale}
use gitrema_backend.Order.State.{tip_or_zero}
use gitrema_backend.Pricing.State.{
  ApplicationType, CalculationType, Offer, ItemAmounts, Fraction, OrderData, FullSummary, same_text,
}

-- `new Date(moment.utc().format('YYYY-MM-DD'))`: the start of the day.
abbrev pub start_of_day : ℕ → ℕ
start_of_day now = now - now % 86_400_000

abbrev pub is_header : ApplicationType → Bool
is_header ApplicationType.header = true
is_header _ = false

-- The query for an offer on the whole order, on the day, with the given code or with none.
abbrev pub same_code : Option String → Option String → Bool
same_code none none = true
same_code none (some _) = false
same_code (some _) none = false
same_code (some a) (some b) = same_text a b

abbrev pub is_header_offer : ℕ → Option String → Offer → Bool
is_header_offer now code o =
    o.active
    && not (is_some o.deleted_at)
    && leb o.start (start_of_day now)
    && leb (start_of_day now) o.end
    && is_header o.application_type
    && same_code o.code code

-- `sort: { priority: 1 }`, where an offer without a priority comes first.
abbrev pub comes_first : Option ℕ → Option ℕ → Bool
comes_first none b = true
comes_first (some a) none = false
comes_first (some a) (some b) = leb a b

abbrev pub before : Offer → Option Offer → Option Offer
before o none = some o
before o (some p) = if comes_first o.priority p.priority then some o else some p

unfoldable pub first_by_priority : List Offer → Option Offer
first_by_priority [] = none
first_by_priority (o ∷ os) = before o (first_by_priority os)

-- A number that is `null` or 0 is falsy.
abbrev pub is_used_up : Offer → Bool
is_used_up o = elim o.max_number_allowed [ none ↦ false | some m ↦ ltb 0 m && leb m o.total_used ]

abbrev pub unless_used_up : Option Offer → Option Offer
unless_used_up none = none
unless_used_up (some o) = if is_used_up o then none else some o

abbrev pub coupon_offer : ℕ → Option String → List Offer → Option Offer
coupon_offer now code offers =
    if is_text code
    then unless_used_up (first_by_priority (filter (is_header_offer now code) offers))
    else none

-- The offer without a code, or else that of the order's coupon.
abbrev pub or_coupon : Option Offer → Option Offer → Option Offer
or_coupon (some o) coupon = some o
or_coupon none coupon = coupon

unfoldable pub find_offer : ℕ → Option String → List Offer → Option Offer
unfolding first_by_priority
find_offer now code offers =
    or_coupon (first_by_priority (filter (is_header_offer now none) offers))
      (coupon_offer now code offers)

abbrev pub sum_of : (ItemAmounts → ℤ) → List ItemAmounts → ℤ
sum_of f [] = pos 0
sum_of f (i ∷ is) = f i +ℤ sum_of f is

-- A part of the total, of any sign, rounded by its size.
abbrev pub part_of : ℤ → ℤ → ℤ
part_of (pos rate) total = ratio total rate 10_000
part_of (negsuc n) total = neg (ratio total (suc n) 10_000)

abbrev pub uncapped : CalculationType → ℤ → ℤ → ℤ
uncapped CalculationType.fixed discount total = discount
uncapped CalculationType.percentage discount total = part_of discount total

-- `offer.maxDiscount ? … : …`
abbrev pub capped : Option ℤ → ℤ → ℤ
capped none d = d
capped (some m) d = if not (eqb_ℤ m (pos 0)) && ltb_ℤ m d then m else d

unfoldable pub header_discount_of : Option Offer → ℤ → ℤ
header_discount_of none total = pos 0
header_discount_of (some o) total =
    capped o.max_discount (uncapped o.discount_type o.discount total)

-- `totalWithTax - totalWithTax / (1 + feeRate / 100)`, and the tax on it, which are not rounded.
abbrev pub taxable_fee_of : ℤ → ℕ → Fraction
taxable_fee_of total fee_rate = record {
  numerator = if ltb 0 fee_rate then scale fee_rate total else pos 0;
  denominator = 10_000 + fee_rate;
}

abbrev pub tax_on : ℕ → Fraction → Fraction
tax_on tax_rate f = record {
  numerator = scale tax_rate f.numerator;
  denominator = 10_000 * f.denominator;
}

abbrev pub add_tax : ℕ → Fraction → Fraction
add_tax tax_rate f = record {
  numerator = scale (10_000 + tax_rate) f.numerator;
  denominator = 10_000 * f.denominator;
}

abbrev pub amount_or_zero : Option ℤ → ℤ
amount_or_zero none = pos 0
amount_or_zero (some a) = a

-- Only an amount that was paid, not 0, keeps the rest from falling below 0.
abbrev pub remaining : ℤ → ℤ → ℤ
remaining due paid =
    if eqb_ℤ paid (pos 0) then due else if ltb_ℤ (due -ℤ paid) (pos 0) then pos 0 else due -ℤ paid

-- The summary of an order with the given offer.
unfoldable pub summary_with : Option Offer → OrderData → FullSummary
unfolding header_discount_of
summary_with offer d =
    let before_offer = sum_of (λ i. i.amount_after_discount) d.items +ℤ d.table_fee in
    let header = header_discount_of offer before_offer in
    let total = before_offer -ℤ header in
    let fee = taxable_fee_of total d.fee_rate in
    record {
      total_before_discount = sum_of (λ i. i.amount_before_discount) d.items +ℤ d.table_fee;
      discount = sum_of (λ i. i.discount) d.items +ℤ header;
      total_with_tax = total;
      total_taxable_amount = ratio total 10_000 (10_000 + d.tax_rate);
      total_tax = ratio total d.tax_rate (10_000 + d.tax_rate);
      total_paid = amount_or_zero d.total_paid;
      total_refunded = amount_or_zero d.total_refunded;
      header_discount = header;
      remaining_amount_to_collect =
          remaining (total +ℤ tip_or_zero d.tip) (amount_or_zero d.total_paid);
      taxable_fee = fee;
      tax_on_fee = tax_on d.tax_rate fee;
      total_fee = add_tax d.tax_rate fee;
    }

unfoldable pub calculate_summery : OrderData → ℕ → List Offer → FullSummary
unfolding find_offer summary_with
calculate_summery d now offers = summary_with (find_offer now d.coupon_code offers) d

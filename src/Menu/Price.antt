-- ===== src/Menu/Price.antt =====
-- `getMarketPrice` of src/order/order-helper.service.ts, and the offers and amounts of
-- `prepareOrderItems`. Amounts are exact until they are rounded.
use gitrema_backend.Prelude.{
  ℕ, ◌+◌, ◌*◌, leb, if◌then◌else◌, Bool, true, false, not, ◌&&◌, ◌||◌, Option, none, some, List, [],
  ◌∷◌, String, is_some, is_text, map, filter,
}
use gitrema_backend.Prelude.Int.{ℤ, pos, ◌+ℤ◌, ◌-ℤ◌, ratio, scale}
use gitrema_backend.Prelude.Action.{Outcome, done, failed, and_then, type_error}
use gitrema_backend.Prelude.Collection.{find}
use gitrema_backend.Pricing.{
  ApplicationType, Offer, Fraction, same_text, same_code, start_of_day, first_by_priority,
  unless_used_up, header_discount_of, or_coupon,
}
use gitrema_backend.Menu.State.{MarketPrice, MenuItem, ItemOffer, Source, LineAmounts, includes}

-- The market by whose name prices are looked up, where the source of the order has one.
abbrev pub market_of : Source → Option String → Option String
market_of Source.app t = some "App"
market_of Source.website t = some "Website"
market_of Source.dine_in t = none
market_of Source.market_place t = if is_text t then t else none

-- `prices?.find(…).price`, which throws where the market has no price.
abbrev pub listed_price : Option MarketPrice → Outcome ℤ
listed_price none = failed type_error
listed_price (some p) = done p.price

abbrev pub market_price : Option String → Option (List MarketPrice) → ℤ → Outcome ℤ
market_price none prices price = done price
market_price (some m) none price = done price
market_price (some m) (some ps) price = listed_price (find (λ p. same_text p.name m) ps)

unfoldable pub get_market_price : Option String → List MenuItem → Outcome (List MenuItem)
get_market_price m [] = done []
get_market_price m (i ∷ is) =
    and_then (market_price m i.prices_for_markets i.price)
      (λ p. and_then (get_market_price m is) (λ rest. done (record i { price = p } ∷ rest)))

-- The query for an offer on a menu item or on its category.
abbrev pub includes_some : List ℕ → Option ℕ → Bool
includes_some xs none = false
includes_some xs (some x) = includes xs x

abbrev pub is_line_item : ApplicationType → Bool
is_line_item ApplicationType.line_item = true
is_line_item _ = false

abbrev pub is_manager : ApplicationType → Bool
is_manager ApplicationType.manager_line_item = true
is_manager _ = false

abbrev pub runs_on : ℕ → MenuItem → ItemOffer → Bool
runs_on now i o =
    (includes_some o.menu_category_ids i.category_id || includes o.menu_item_ids i.id)
    && o.offer.active
    && not (is_some o.offer.deleted_at)
    && leb o.offer.start (start_of_day now)
    && leb (start_of_day now) o.offer.end

abbrev pub line_offers : ℕ → MenuItem → List ItemOffer → List Offer
line_offers now i os =
    map (λ o. o.offer) (filter (λ o. runs_on now i o && is_line_item o.offer.application_type) os)

abbrev pub coupon_offers : ℕ → Option String → MenuItem → List ItemOffer → List Offer
coupon_offers now code i os =
    map (λ o. o.offer)
      (filter
        (λ o.
          runs_on now i o
          && same_code o.offer.code code
          && (is_line_item o.offer.application_type || is_manager o.offer.application_type))
        os)

unfoldable pub item_offer : ℕ → Option String → MenuItem → List ItemOffer → Option Offer
unfolding first_by_priority
item_offer now code i os = or_coupon (first_by_priority (line_offers now i os)) (
    if is_text code then unless_used_up (first_by_priority (coupon_offers now code i os)) else none)

-- A line before it is rounded. The discount is that of a unit, or, where `divided`, that of all
-- units together. `taxable` and `tax` are for all units.
pub record RawLine : Type 0 where
  pub before : ℤ
  pub discount : ℤ
  pub divided : Bool
  pub taxable : Fraction
  pub tax : Fraction

abbrev pub whole : ℤ → Fraction
whole a = record { numerator = a; denominator = 1 }

infixl 65 ◌+F◌
abbrev pub ◌+F◌ : Fraction → Fraction → Fraction
a +F b = record {
  numerator = scale b.denominator a.numerator +ℤ scale a.denominator b.numerator;
  denominator = a.denominator * b.denominator;
}

unfoldable pub round_off : Fraction → ℤ
unfolding ratio
round_off f = ratio f.numerator 1 f.denominator

-- The discount on all units.
abbrev pub discount_on : ℕ → RawLine → ℤ
discount_on q l = if l.divided then l.discount else scale q l.discount

abbrev pub after_on : ℕ → RawLine → ℤ
after_on q l = scale q l.before -ℤ discount_on q l

-- `calculate price … apply tax`. The discount is that of the offer on the price of a unit, which
-- an offer of the manager divides by the quantity.
unfoldable pub raw_item : Option Offer → Bool → ℕ → ℕ → ℤ → RawLine
unfolding header_discount_of ratio
raw_item offer tax_enabled tax_rate q price =
    let line : RawLine = record {
      before = price;
      discount = header_discount_of offer price;
      divided = elim offer [ none ↦ false | some o ↦ is_manager o.application_type ];
      taxable = whole (pos 0);
      tax = whole (pos 0);
    } in
    let amount = after_on q line in
    let taxable = ratio amount 10_000 (10_000 + tax_rate) in
    if tax_enabled
    then record line {
      taxable = whole taxable;
      tax = record { numerator = scale tax_rate taxable; denominator = 10_000 };
    }
    else record line { taxable = whole amount }

-- An option of an addition.
unfoldable pub raw_option : Bool → ℕ → ℕ → ℤ → RawLine
raw_option tax_enabled tax_rate q price =
    let line : RawLine = record {
      before = price;
      discount = pos 0;
      divided = false;
      taxable = whole (scale q price);
      tax = whole (pos 0);
    } in
    if tax_enabled
    then record line {
      taxable = record { numerator = scale (10_000 * q) price; denominator = 10_000 + tax_rate };
      tax = record { numerator = scale (tax_rate * q) price; denominator = 10_000 + tax_rate };
    }
    else line

-- `add option price to item`
abbrev pub add_option : RawLine → RawLine → RawLine
add_option l o = record l {
  before = l.before +ℤ o.before;
  taxable = l.taxable +F o.taxable;
  tax = l.tax +F o.tax;
}

-- The rounded amounts of a line.
unfoldable pub amounts_of : ℕ → RawLine → LineAmounts
unfolding round_off
amounts_of q l = record {
  unit_price_before_discount = l.before;
  amount_before_discount = scale q l.before;
  unit_price_discount =
      if l.divided
      then round_off (record { numerator = l.discount; denominator = q })
      else l.discount;
  discount = discount_on q l;
  unit_price_after_discount =
      if l.divided
      then round_off (record { numerator = after_on q l; denominator = q })
      else l.before -ℤ l.discount;
  amount_after_discount = after_on q l;
  item_taxable_amount = round_off l.taxable;
  tax = round_off l.tax;
}

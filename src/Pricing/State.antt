-- ===== src/Pricing/State.antt =====
-- The offers (src/offer/schemas/offer.schema.ts), and what the summary of an order is made of.
-- Percentages are counted in hundredths, as amounts are, so 15% is 1,500.
use Prim.Native.Nat.{Ordering}
use Prim.Native.String.{compare}
use gitrema_backend.Prelude.{ℕ, Bool, true, false, Option, List, String}
use gitrema_backend.Prelude.Int.{ℤ}

pub data ApplicationType : Type 0 where
  line_item header manager_line_item : ApplicationType

pub data CalculationType : Type 0 where
  fixed percentage : CalculationType

pub record Offer : Type 0 where
  pub supplier_id : ℕ
  pub active : Bool
  pub deleted_at : Option ℕ
  pub start : ℕ
  pub end : ℕ
  pub code : Option String
  pub application_type : ApplicationType
  pub discount_type : CalculationType
  pub discount : ℤ
  pub max_discount : Option ℤ
  pub max_number_allowed : Option ℕ
  pub total_used : ℕ
  pub priority : Option ℕ

-- The amounts of an order's item.
pub record ItemAmounts : Type 0 where
  pub amount_before_discount : ℤ
  pub discount : ℤ
  pub amount_after_discount : ℤ

-- An amount that is not rounded: `numerator / denominator` hundredths.
pub record Fraction : Type 0 where
  pub numerator : ℤ
  pub denominator : ℕ

-- `totalPaid` and `totalRefunded` are those of the summary so far, if there is one.
pub record OrderData : Type 0 where
  pub items : List ItemAmounts
  pub coupon_code : Option String
  pub table_fee : ℤ
  pub tax_rate : ℕ
  pub fee_rate : ℕ
  pub tip : Option ℤ
  pub total_paid : Option ℤ
  pub total_refunded : Option ℤ

pub record FullSummary : Type 0 where
  pub total_before_discount : ℤ
  pub discount : ℤ
  pub total_with_tax : ℤ
  pub total_taxable_amount : ℤ
  pub total_tax : ℤ
  pub total_paid : ℤ
  pub total_refunded : ℤ
  pub header_discount : ℤ
  pub remaining_amount_to_collect : ℤ
  pub taxable_fee : Fraction
  pub tax_on_fee : Fraction
  pub total_fee : Fraction

abbrev pub same_text : String → String → Bool
same_text a b = elim (compare a b) [ Ordering.eq ↦ true | _ ↦ false ]

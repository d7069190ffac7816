-- ===== src/Units/State.antt =====
-- src/unit-of-measure/schemas/unit-of-measure.schema.ts, and its documents with their base units read
-- in place of the identifiers.
use gitrema_backend.Prelude.{ℕ, ◌*◌, ◌==◌, Bool, true, false, not, Option, none, some, String}

-- A number, `numerator / denominator` or its negative.
pub record Ratio : Type 0 where
  pub is_negative : Bool
  pub numerator : ℕ
  pub denominator : ℕ

abbrev pub one : Ratio
one = record { is_negative = false; numerator = 1; denominator = 1 }

abbrev pub differ : Bool → Bool → Bool
differ true b = not b
differ false b = b

abbrev pub times : Ratio → Ratio → Ratio
times a b = record {
  is_negative = differ a.is_negative b.is_negative;
  numerator = a.numerator * b.numerator;
  denominator = a.denominator * b.denominator;
}

abbrev pub flip : Ratio → Ratio
flip a = record {
  is_negative = a.is_negative;
  numerator = a.denominator;
  denominator = a.numerator;
}

abbrev pub over : Ratio → Ratio → Ratio
over a b = times a (flip b)

-- `a ?? d`
abbrev pub or_else {ℓ} : {A : Type ℓ} → Option A → A → A
or_else none d = d
or_else (some a) _ = a

-- `abbr` names a unit of convert-units.
pub record UnitOfMeasure : Type 0 where
  pub id : ℕ
  pub abbr : Option String
  pub base_unit : Option ℕ
  pub base_conversion_rate : Option Ratio

abbrev pub has_id : ℕ → UnitOfMeasure → Bool
has_id i u = u.id == i

-- A document whose `baseUnit` is null, one whose `baseUnit` was read, and the identifier that
-- `baseUnit` is where it was not.
pub data Populated : Type 0 where
  root : UnitOfMeasure → Populated
  based : UnitOfMeasure → Populated → Populated
  reference : ℕ → Populated

-- The fields as JavaScript reads them; an identifier has none of them.
abbrev pub id_of : Populated → ℕ
id_of (root u) = u.id
id_of (based u _) = u.id
id_of (reference i) = i

abbrev pub abbr_of : Populated → Option String
abbr_of (root u) = u.abbr
abbr_of (based u _) = u.abbr
abbr_of (reference _) = none

abbrev pub base_of : Populated → Option Populated
base_of (root _) = none
base_of (based _ b) = some b
base_of (reference _) = none

abbrev pub rate_of : Populated → Ratio
rate_of (root u) = or_else u.base_conversion_rate one
rate_of (based u _) = or_else u.base_conversion_rate one
rate_of (reference _) = one

-- ===== src/Units/Examples.antt =====
-- Boxes, bags and grams: tests of the factor, and the theorems at concrete units.
use gitrema_backend.Prelude.{
  ◌≡◌, refl, ℕ, Option, none, some, List, [], ◌∷◌, String, ◌⊎◌, inl, inr, arith, All, ap, Bool,
  true, false,
}
use gitrema_backend.Prelude.Action.{Outcome, done, failed, unsupported_unit}
use mathlib.Core.Path.{subst}
use mathlib.Core.Option.{some-injective}
use gitrema_backend.Pricing.{same_text}
use gitrema_backend.Units.State.{Ratio, one, times, over, flip, UnitOfMeasure}
use gitrema_backend.Units.Factor.{
  populate, walk, ConversionFactor, factor_of, factor_if_found, get_conversion_factor,
}
use gitrema_backend.Units.Queried.{stored}
use gitrema_backend.Units.Described.{factor_in, described, get_conversion_factor-ends}
use gitrema_backend.Units.Links.{itself, based_on, RefusesNone, get_conversion_factor-too_far}
use gitrema_backend.Units.Ratios.{differ_comm, ratio_eq}
use gitrema_backend.Units.Lineage.{IsNonzero, HasRate, one-IsNonzero, times-IsNonzero}
use gitrema_backend.Units.Inverse.{ByFactor, IsOne, get_conversion_factor-inverse}

-- Grams and kilograms, of all the units of convert-units.
abbrev grams : Bool → Bool → Option Ratio
grams true _ = some one
grams false true = some (record { is_negative = false; numerator = 1000; denominator = 1 })
grams false false = none

abbrev grams_in : Option String → Option Ratio
grams_in none = none
grams_in (some a) = grams (same_text a "g") (same_text a "kg")

abbrev converted : Ratio → Option Ratio → Option Ratio → Outcome Ratio
converted r (some a) (some b) = done (times r (over a b))
converted r _ _ = failed unsupported_unit

abbrev convert : Ratio → Option String → Option String → Outcome Ratio
convert r a b = converted r (grams_in a) (grams_in b)

abbrev whole : ℕ → Ratio
whole n = record { is_negative = false; numerator = n; denominator = 1 }

-- A bag is 5 kg, a box 4 bags, and a pallet 30 boxes. A barrel and a cask are each 2 of the other.
abbrev unit : ℕ → Option String → Option ℕ → ℕ → UnitOfMeasure
unit id abbr base rate = record {
  id = id;
  abbr = abbr;
  base_unit = base;
  base_conversion_rate = some (whole rate);
}

abbrev units : List UnitOfMeasure
units =
    unit 1 (some "g") none 1
    ∷ unit 2 (some "kg") none 1
    ∷ unit 3 none (some 2) 5
    ∷ unit 4 none (some 3) 4
    ∷ unit 5 none (some 4) 30
    ∷ unit 6 none (some 7) 2
    ∷ unit 7 none (some 6) 2
    ∷ []

abbrev factor : ℕ → ℕ → Option (Outcome Ratio)
unfolding get_conversion_factor factor_if_found factor_of walk populate
factor a b = elim (get_conversion_factor convert 4 units (some a) (some b)) [
  | none ↦ none
  | some r ↦ some (factor_in r)
]

-- A box is 20000 g.
box_in_grams :
    factor 4 1 ≡ some (done (record { is_negative = false; numerator = 20000; denominator = 1 }))
unfolding get_conversion_factor factor_if_found factor_of walk populate
box_in_grams = refl

bags_in_box :
    factor 4 3 ≡ some (done (record { is_negative = false; numerator = 20000; denominator = 5000 }))
unfolding get_conversion_factor factor_if_found factor_of walk populate
bags_in_box = refl

not_stored : factor 4 9 ≡ some (done one)
unfolding get_conversion_factor factor_if_found factor_of walk populate
not_stored = refl

-- Three rounds are too few for a unit whose base units go on.
rounds_needed : get_conversion_factor convert 3 units (some 6) (some 1) ≡ none
unfolding get_conversion_factor factor_if_found factor_of walk populate
rounds_needed = refl

convert-RefusesNone : RefusesNone convert
convert-RefusesNone r a = (refl, none_last (grams_in a))
  where
    none_last : (o : Option Ratio) → converted r o none ≡ failed unsupported_unit
    none_last none = refl
    none_last (some f) = refl

converted-ByFactor :
    (o o' : Option Ratio)
    → ((a : Ratio) → o ≡ some a → IsNonzero a)
    → ((a : Ratio) → o' ≡ some a → IsNonzero a)
    → ((r : Ratio) → converted r o o' ≡ failed unsupported_unit)
      ⊎ ((f : Ratio) × IsNonzero f
          × ((r : Ratio) → converted r o o' ≡ done (times r f))
          × ((r : Ratio) → converted r o' o ≡ done (times r (flip f))))
converted-ByFactor none o' h h' = inl (λ r. refl)
converted-ByFactor (some a) none h h' = inl (λ r. refl)
converted-ByFactor (some a) (some b) h h' = inr (
  over a b,
  times-IsNonzero a (flip b) (h a refl) ((h' b refl).1, (h' b refl).0),
  (λ r. refl),
  (λ r.
      ap (λ x. done (times r x))
        (ratio_eq (over b a) (flip (over a b)) (differ_comm b.is_negative a.is_negative)
          (omega arith) (omega arith))),
)

grams-IsNonzero : (g kg : Bool) (f : Ratio) → grams g kg ≡ some f → IsNonzero f
grams-IsNonzero true kg f e = subst IsNonzero (some-injective one f e) one-IsNonzero
grams-IsNonzero false true f e =
    subst IsNonzero
      (some-injective (record { is_negative = false; numerator = 1000; denominator = 1 }) f e)
      (omega arith, omega arith)
grams-IsNonzero false false f e = absurd (ground arith)

grams_in-IsNonzero : (a : Option String) (f : Ratio) → grams_in a ≡ some f → IsNonzero f
grams_in-IsNonzero none f e = absurd (ground arith)
grams_in-IsNonzero (some a) f e = grams-IsNonzero (same_text a "g") (same_text a "kg") f e

convert-ByFactor : (a b : Option String) → ByFactor convert a b
convert-ByFactor a b =
    converted-ByFactor (grams_in a) (grams_in b) (grams_in-IsNonzero a) (grams_in-IsNonzero b)

get_conversion_factor-ends_example :
    (c : Outcome ConversionFactor) × (get_conversion_factor convert 4 units (some 6) (some 1)
      ≡ some c)
    × (factor_in c ≡ described convert units (stored units (some 6)) (stored units (some 1)))
get_conversion_factor-ends_example =
    get_conversion_factor-ends convert 4 units (some 6) (some 1) (omega arith)

get_conversion_factor-too_far_example :
    get_conversion_factor convert 4 units (some 5) (some 1) ≡ some (failed unsupported_unit)
get_conversion_factor-too_far_example =
    get_conversion_factor-too_far convert 4 units (some 5) (some 1) (unit 5 none (some 4) 30)
      (unit 1 (some "g") none 1) convert-RefusesNone (omega arith) refl refl
      (inl (unit 3 none (some 2) 5, 2, based_on refl refl (based_on refl refl itself), refl))

every :
    {P : UnitOfMeasure → Type 0}
    → ((u : UnitOfMeasure) → P u)
    → (us : List UnitOfMeasure) → All P us
every h [] = tt
every h (u ∷ us) = (h u, every h us)

units-HasRate : All HasRate units
units-HasRate =
    let one_to_one : IsNonzero one = one-IsNonzero in
    let two : IsNonzero (whole 2) = (omega arith, omega arith) in
    (
      one_to_one,
      (
        one_to_one,
        (
          (omega arith, omega arith),
          ((omega arith, omega arith), ((omega arith, omega arith), (two, (two, tt)))),
        ),
      ),
    )

get_conversion_factor-inverse_example : IsOne (
    times
      (record { is_negative = false; numerator = 20000; denominator = 1 })
      (record { is_negative = false; numerator = 1; denominator = 20000 }))
unfolding get_conversion_factor factor_if_found factor_of walk populate
get_conversion_factor-inverse_example =
    get_conversion_factor-inverse convert 4 units (some 4) (some 1)
      (record {
        conversion_factor = record { is_negative = false; numerator = 20000; denominator = 1 };
        source_uom = some (populate 2 units (unit 4 none (some 3) 4));
        target_uom = some (populate 2 units (unit 1 (some "g") none 1));
      })
      (record {
        conversion_factor = record { is_negative = false; numerator = 1; denominator = 20000 };
        source_uom = some (populate 2 units (unit 1 (some "g") none 1));
        target_uom = some (populate 2 units (unit 4 none (some 3) 4));
      })
      convert-RefusesNone (every (λ u. every (λ v. convert-ByFactor u.abbr v.abbr) units) units)
      units-HasRate (omega arith) refl refl

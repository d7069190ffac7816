-- ===== src/Units/Inverse.antt =====
-- The factors of the two directions.
use gitrema_backend.Prelude.{
  ◌≡◌, refl, sym, ap, ◌∙◌, ℕ, ◌≤◌, Option, none, some, List, String, ◌⊎◌, ◌≢◌, inl, inr, arith, All,
  false,
}
use mathlib.Core.Path.{subst}
use mathlib.Core.Option.{some-injective}
use gitrema_backend.Prelude.Collection.{find-All}
use gitrema_backend.Prelude.Action.{
  Outcome, done, failed, and_then, unsupported_unit, done-injective,
}
use gitrema_backend.Units.State.{Ratio, one, times, over, flip, UnitOfMeasure, has_id}
use gitrema_backend.Units.Factor.{ConversionFactor, factor_between, get_conversion_factor}
use gitrema_backend.Units.Ends.{lineage, ended}
use gitrema_backend.Units.Queried.{stored}
use gitrema_backend.Units.Ratios.{differ_inverse}
use gitrema_backend.Units.Links.{RefusesNone}
use gitrema_backend.Units.Described.{factor_in, described, get_conversion_factor-ends}
use gitrema_backend.Units.Lineage.{
  IsNonzero, HasRate, times-IsNonzero, HasRate-stored, HasUnit, lineage-HasUnit_of,
}

-- Two units of convert-units are of different measures, and refused, or differ by a factor, and the
-- way back by its inverse. Two temperatures are neither: they differ by an offset.
abbrev pub ByFactor :
    (Ratio → Option String → Option String → Outcome Ratio) → Option String → Option String → Type 0
ByFactor convert a b =
    ((r : Ratio) → convert r a b ≡ failed unsupported_unit)
    ⊎ ((f : Ratio) × IsNonzero f
        × ((r : Ratio) → convert r a b ≡ done (times r f))
        × ((r : Ratio) → convert r b a ≡ done (times r (flip f))))

-- This holds of any two units that are stored: none of them is a temperature.
abbrev pub ConvertsByFactor :
    (Ratio → Option String → Option String → Outcome Ratio) → List UnitOfMeasure → Type 0
ConvertsByFactor convert units = All (λ u. All (λ v. ByFactor convert u.abbr v.abbr) units) units

abbrev pub IsOne : Ratio → Type 0
IsOne r = (r.is_negative ≡ false) × (r.numerator ≡ r.denominator) × (1 ≤ r.denominator)

inverse-IsOne :
    (s t f : Ratio)
    → IsNonzero s
    → IsNonzero t
    → IsNonzero f
    → IsOne (times (over (times s f) t) (over (times t (flip f)) s))
inverse-IsOne s t f hs ht hf =
    let there = times-IsNonzero (times s f) (flip t) (times-IsNonzero s f hs hf) (ht.1, ht.0) in
    let back =
      times-IsNonzero (times t (flip f)) (flip s) (times-IsNonzero t (flip f) ht (hf.1, hf.0))
        (hs.1, hs.0) in
    (
      differ_inverse s.is_negative t.is_negative f.is_negative,
      omega arith,
      (times-IsNonzero (over (times s f) t) (over (times t (flip f)) s) there back).1,
    )

module _ (convert : Ratio → Option String → Option String → Outcome Ratio) where
  factor_between-converted :
      (a b : Option String) (s t f r : Ratio)
      → ((v : Ratio) → convert v a b ≡ done (times v f))
      → factor_between convert (ended a s) (ended b t) ≡ done r
      → over (times s f) t ≡ r
  factor_between-converted a b s t f r h e =
      done-injective (sym (ap (λ x. and_then x (λ v. done (over v t))) (h s)) ∙ e)

  factor_between-not_refused :
      (a b : Option String) (s t r : Ratio)
      → ((v : Ratio) → convert v a b ≡ failed unsupported_unit)
      → factor_between convert (ended a s) (ended b t) ≢ done r
  factor_between-not_refused a b s t r h e =
      let thrown = sym (ap (λ x. and_then x (λ v. done (over v t))) (h s)) ∙ e in
      absurd (ground (arith, thrown))

  between-IsOne :
      (a b : Option String) (s t r r' : Ratio)
      → ByFactor convert a b
      → IsNonzero s
      → IsNonzero t
      → factor_between convert (ended a s) (ended b t) ≡ done r
      → factor_between convert (ended b t) (ended a s) ≡ done r'
      → IsOne (times r r')
  between-IsOne a b s t r r' h hs ht e e' = elim h [
    | inl refused ↦ absurd (factor_between-not_refused a b s t r refused e)
    | inr (f, hf, there, back) ↦
        let first = factor_between-converted a b s t f r there e in
        let second = factor_between-converted b a t s (flip f) r' back e' in
        subst (λ x. IsOne (times x r')) first
          (subst (λ x. IsOne (times (over (times s f) t) x)) second (inverse-IsOne s t f hs ht hf))
  ]

  HasUnit-ByFactor :
      (units : List UnitOfMeasure) (a b : Option String)
      → RefusesNone convert
      → ConvertsByFactor convert units
      → HasUnit units a
      → HasUnit units b
      → ByFactor convert a b
  HasUnit-ByFactor units a b refuses h (inl e) hb =
      subst (λ x. ByFactor convert x b) (sym e) (inl (λ r. (refuses r b).0))
  HasUnit-ByFactor units a b refuses h (inr _) (inl e) =
      subst (ByFactor convert a) (sym e) (inl (λ r. (refuses r a).1))
  HasUnit-ByFactor units a b refuses h (inr (i, u, at_i, same)) (inr (j, v, at_j, same')) =
      let row =
        find-All (λ x. All (λ y. ByFactor convert x.abbr y.abbr) units) (has_id i) units u h at_i in
      let cell = find-All (λ y. ByFactor convert u.abbr y.abbr) (has_id j) units v row at_j in
      subst (λ x. ByFactor convert x b) same (subst (ByFactor convert u.abbr) same' cell)

  one-IsOne : (r r' : Ratio) → done one ≡ done r → done one ≡ done r' → IsOne (times r r')
  one-IsOne r r' e e' =
      subst (λ x. IsOne (times x r')) (done-injective e)
        (subst (λ x. IsOne (times one x)) (done-injective e') (refl, omega arith, omega arith))

  described-IsOne :
      (units : List UnitOfMeasure) (source target : Option ℕ) (u v : Option UnitOfMeasure)
      (r r' : Ratio)
      → RefusesNone convert
      → ConvertsByFactor convert units
      → All HasRate units
      → stored units source ≡ u
      → stored units target ≡ v
      → described convert units u v ≡ done r
      → described convert units v u ≡ done r'
      → IsOne (times r r')
  described-IsOne units source target none none r r' refuses h all es et e e' = one-IsOne r r' e e'
  described-IsOne units source target none (some v) r r' refuses h all es et e e' =
      one-IsOne r r' e e'
  described-IsOne units source target (some u) none r r' refuses h all es et e e' =
      one-IsOne r r' e e'
  described-IsOne units source target (some u) (some v) r r' refuses h all es et e e' =
      let lu = lineage 2 units u in
      let lv = lineage 2 units v in
      let factor =
        HasUnit-ByFactor units lu.0 lv.0 refuses h (lineage-HasUnit_of units source u es)
          (lineage-HasUnit_of units target v et) in
      between-IsOne lu.0 lv.0 lu.1 lv.1 r r' factor (HasRate-stored units source u all es)
        (HasRate-stored units target v all et) e e'

  answer-described :
      (rounds : ℕ) (units : List UnitOfMeasure) (source target : Option ℕ) (c : ConversionFactor)
      → 4 ≤ rounds
      → get_conversion_factor convert rounds units source target ≡ some (done c)
      → described convert units (stored units source) (stored units target)
        ≡ done c.conversion_factor
  answer-described rounds units source target c h e =
      let (answer, returned, means) =
        get_conversion_factor-ends convert rounds units source target h in
      let same : answer ≡ done c = some-injective answer (done c) (sym returned ∙ e) in
      sym means ∙ ap factor_in same

  -- Where convert-units converts between the stored units by factors that the way back inverts, so that
  -- none of them is a temperature, refuses a value without a unit, and no stored unit has the rate 0, the
  -- factors that two requests in opposite directions return have the product 1.
  pub get_conversion_factor-inverse :
      (rounds : ℕ) (units : List UnitOfMeasure) (source target : Option ℕ)
      (there back : ConversionFactor)
      → RefusesNone convert
      → ConvertsByFactor convert units
      → All HasRate units
      → 4 ≤ rounds
      → get_conversion_factor convert rounds units source target ≡ some (done there)
      → get_conversion_factor convert rounds units target source ≡ some (done back)
      → IsOne (times there.conversion_factor back.conversion_factor)
  get_conversion_factor-inverse rounds units source target there back refuses h all enough e e' =
      described-IsOne units source target (stored units source) (stored units target)
        there.conversion_factor back.conversion_factor refuses h all refl refl
        (answer-described rounds units source target there enough e)
        (answer-described rounds units target source back enough e')

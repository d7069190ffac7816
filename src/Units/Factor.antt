-- ===== src/Units/Factor.antt =====
-- getConversionFactor of src/unit-of-measure/unit-of-measure-helper.service.ts. The library
-- convert-units is the argument `convert`, which takes the value, its unit and the wanted unit.
use gitrema_backend.Prelude.{
  ℕ, zero, suc, ◌==◌, ◌||◌, Bool, false, Option, none, some, List, map, filter, String,
}
use gitrema_backend.Prelude.Action.{Outcome, done, and_then}
use gitrema_backend.Prelude.Collection.{find}
use gitrema_backend.Units.State.{
  Ratio, one, times, over, UnitOfMeasure, has_id, Populated, root, based, reference, id_of, abbr_of,
  base_of, rate_of,
}

-- A document with `baseUnit` read as many levels deep as is said, and an identifier below. A base
-- unit that is not stored becomes null.
unfoldable pub populate : ℕ → List UnitOfMeasure → UnitOfMeasure → Populated
populate zero units u = elim u.base_unit [ none ↦ root u | some b ↦ based u (reference b) ]
populate (suc depth) units u = elim u.base_unit [
  | none ↦ root u
  | some b ↦ elim (find (has_id b) units) [
    | none ↦ root u
    | some v ↦ based u (populate depth units v)
  ]
]

-- The variables of the loop: the document that is read, the unit and the value so far.
pub record Walk : Type 0 where
  pub ref_uom : Option Populated
  pub uom_abbr : Option String
  pub base_value : Ratio

abbrev pub step : Populated → Walk → Walk
step d w = elim (base_of d) [
  | none ↦ record { ref_uom = none; uom_abbr = abbr_of d; base_value = w.base_value }
  | some b ↦ record {
    ref_uom = some b;
    uom_abbr = abbr_of d;
    base_value = times w.base_value (rate_of d);
  }
]

-- The loop, for at most so many rounds; none where they do not suffice.
unfoldable pub walk : ℕ → Walk → Option Walk
walk zero w = elim w.ref_uom [ none ↦ some w | some _ ↦ none ]
walk (suc rounds) w = elim w.ref_uom [ none ↦ some w | some d ↦ walk rounds (step d w) ]

abbrev pub walk_from : Populated → Walk
walk_from d = record { ref_uom = some d; uom_abbr = none; base_value = one }

-- The two units that are asked for may be left out of the request. The values behind the loops, or
-- none where the rounds do not suffice.
pub record ConversionFactor : Type 0 where
  pub conversion_factor : Ratio
  pub source_uom : Option Populated
  pub target_uom : Option Populated

abbrev pub is_asked : Option ℕ → ℕ → Bool
is_asked none _ = false
is_asked (some a) i = i == a

-- The query, with its `populate`.
abbrev pub unit_of_measures : List UnitOfMeasure → Option ℕ → Option ℕ → List Populated
unit_of_measures units source target =
    map (populate 2 units) (filter (λ u. is_asked source u.id || is_asked target u.id) units)

abbrev pub asked : Option ℕ → List Populated → Option Populated
asked a = find (λ d. is_asked a (id_of d))

module _ (convert : Ratio → Option String → Option String → Outcome Ratio) where
  abbrev pub factor_between : Walk → Walk → Outcome Ratio
  factor_between source target =
      and_then (convert source.base_value source.uom_abbr target.uom_abbr)
        (λ value. done (over value target.base_value))

  abbrev pub named : Populated → Populated → Outcome Ratio → Outcome ConversionFactor
  named source target r = and_then r (λ f.
      done (record { conversion_factor = f; source_uom = some source; target_uom = some target }))

  abbrev pub joined :
      Populated → Populated → Option Walk → Option Walk → Option (Outcome ConversionFactor)
  joined source target (some ws) (some wt) = some (named source target (factor_between ws wt))
  joined source target (some _) none = none
  joined source target none _ = none

  -- Behind the test for missing units.
  unfoldable pub factor_of : ℕ → Populated → Populated → Option (Outcome ConversionFactor)
  factor_of rounds source target =
      joined source target (walk rounds (walk_from source)) (walk rounds (walk_from target))

  -- Behind the query: the factor is 1 where one of the units was not found.
  unfoldable pub factor_if_found :
      ℕ → Option Populated → Option Populated → Option (Outcome ConversionFactor)
  unfolding factor_of
  factor_if_found rounds none t =
      some (done (record { conversion_factor = one; source_uom = none; target_uom = t }))
  factor_if_found rounds (some s) none =
      some (done (record { conversion_factor = one; source_uom = some s; target_uom = none }))
  factor_if_found rounds (some s) (some t) = factor_of rounds s t

  unfoldable pub get_conversion_factor :
      ℕ → List UnitOfMeasure → Option ℕ → Option ℕ → Option (Outcome ConversionFactor)
  unfolding factor_if_found
  get_conversion_factor rounds units source target =
      let found = unit_of_measures units source target in
      factor_if_found rounds (asked source found) (asked target found)

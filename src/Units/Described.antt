-- ===== src/Units/Described.antt =====
-- getConversionFactor always ends, and does what the stored units say.
use gitrema_backend.Prelude.{◌≡◌, refl, ℕ, ◌≤◌, Option, none, some, List, String}
use gitrema_backend.Prelude.Action.{Outcome, done, failed, and_then}
use gitrema_backend.Units.State.{Ratio, one, UnitOfMeasure, Populated}
use gitrema_backend.Units.Factor.{
  populate, ConversionFactor, factor_between, named, factor_of, factor_if_found,
  get_conversion_factor,
}
use gitrema_backend.Units.Ends.{lineage, ended, walk-populate}
use gitrema_backend.Units.Queried.{map_option, stored, asked_source, asked_target}

abbrev pub factor_in : Outcome ConversionFactor → Outcome Ratio
factor_in r = and_then r (λ c. done c.conversion_factor)

module _ (convert : Ratio → Option String → Option String → Outcome Ratio) where
  -- The factor between two stored units, whose base units are followed over two links.
  abbrev pub factor_between_units :
      List UnitOfMeasure → UnitOfMeasure → UnitOfMeasure → Outcome Ratio
  factor_between_units units u v =
      let lu = lineage 2 units u in
      let lv = lineage 2 units v in factor_between convert (ended lu.0 lu.1) (ended lv.0 lv.1)

  abbrev pub described :
      List UnitOfMeasure → Option UnitOfMeasure → Option UnitOfMeasure → Outcome Ratio
  described units none _ = done one
  described units (some _) none = done one
  described units (some u) (some v) = factor_between_units units u v

  abbrev Answers : Option (Outcome ConversionFactor) → Outcome Ratio → Type 0
  Answers o r = (c : Outcome ConversionFactor) × (o ≡ some c) × (factor_in c ≡ r)

  factor_in-named : (s t : Populated) (r : Outcome Ratio) → factor_in (named convert s t r) ≡ r
  factor_in-named s t (done f) = refl
  factor_in-named s t (failed e) = refl

  factor_of-Answers :
      (rounds : ℕ) (units : List UnitOfMeasure) (u v : UnitOfMeasure)
      → 4 ≤ rounds
      → Answers
          (factor_of convert rounds (populate 2 units u) (populate 2 units v))
          (factor_between_units units u v)
  unfolding factor_of
  factor_of-Answers rounds units u v h =
      let s = populate 2 units u in
      let t = populate 2 units v in
      let r = factor_between_units units u v in
      (
        named convert s t r,
        rw (walk-populate 2 rounds units u h, walk-populate 2 rounds units v h) refl,
        factor_in-named s t r,
      )

  factor_if_found-Answers :
      (rounds : ℕ) (units : List UnitOfMeasure) (s t : Option UnitOfMeasure)
      → 4 ≤ rounds
      → Answers
          (factor_if_found convert rounds
            (map_option (populate 2 units) s)
            (map_option (populate 2 units) t))
          (described units s t)
  unfolding factor_if_found
  factor_if_found-Answers rounds units none t h = (_, refl, refl)
  factor_if_found-Answers rounds units (some u) none h = (_, refl, refl)
  factor_if_found-Answers rounds units (some u) (some v) h = factor_of-Answers rounds units u v h

  -- Whatever units are stored, with base units in a circle too, four rounds of each loop are enough:
  -- the request gets an answer, the same for any more rounds. The factor is 1 where one of the two
  -- units is not stored; else it is what convert-units makes of the units at the ends of their base
  -- units, followed over at most two links, and of the products of the rates on the way.
  pub get_conversion_factor-ends :
      (rounds : ℕ) (units : List UnitOfMeasure) (source target : Option ℕ)
      → 4 ≤ rounds
      → (c : Outcome ConversionFactor) × (get_conversion_factor convert rounds units source target
          ≡ some c)
        × (factor_in c ≡ described units (stored units source) (stored units target))
  unfolding get_conversion_factor
  get_conversion_factor-ends rounds units source target h =
      rw (asked_source units source target, asked_target units source target)
        (factor_if_found-Answers rounds units (stored units source) (stored units target) h)

-- ===== src/Units/Links.antt =====
-- Units whose base units go on over more than two links.
use gitrema_backend.Prelude.{
  ◌≡◌, refl, ap, ◌∙◌, ℕ, suc, ◌≤◌, Option, none, some, List, String, ◌⊎◌, inl, inr, arith,
}
use gitrema_backend.Prelude.Action.{Outcome, done, failed, unsupported_unit}
use gitrema_backend.Prelude.Collection.{find}
use gitrema_backend.Units.State.{Ratio, UnitOfMeasure, has_id}
use gitrema_backend.Units.Factor.{ConversionFactor, get_conversion_factor, factor_between}
use gitrema_backend.Units.Ends.{lineage, ended, populate-found}
use gitrema_backend.Units.Queried.{stored}
use gitrema_backend.Units.Described.{
  factor_in, factor_between_units, described, get_conversion_factor-ends,
}

-- `w` is reached from `u` by so many base units.
pub data BasedOn (units : List UnitOfMeasure) : ℕ → UnitOfMeasure → UnitOfMeasure → Type 0 where
  itself : {u : UnitOfMeasure} → BasedOn units 0 u u
  based_on :
      {links b : ℕ} {u v w : UnitOfMeasure}
      → u.base_unit ≡ some b
      → find (has_id b) units ≡ some v
      → BasedOn units links v w
      → BasedOn units (suc links) u w

-- Behind the links that are followed stands an identifier, which has no unit of convert-units.
lineage-BasedOn :
    {units : List UnitOfMeasure} {links b : ℕ} {u w : UnitOfMeasure}
    → BasedOn units links u w
    → w.base_unit ≡ some b
    → (lineage links units u).0 ≡ none
lineage-BasedOn itself e = ground (arith, e)
lineage-BasedOn (based_on {links} {u = u} {v} base found rest) e =
    ap (λ l. l.0) (populate-found links _ u v _ base found).1 ∙ lineage-BasedOn rest e

-- convert-units throws where one of the two units is missing.
abbrev pub RefusesNone : (Ratio → Option String → Option String → Outcome Ratio) → Type 0
RefusesNone convert =
    (r : Ratio) (a : Option String)
    → (convert r none a ≡ failed unsupported_unit) × (convert r a none ≡ failed unsupported_unit)

failed-factor_in :
    (c : Outcome ConversionFactor)
    → factor_in c ≡ failed unsupported_unit
    → c ≡ failed unsupported_unit
failed-factor_in (done c) e = absurd (ground arith)
failed-factor_in (failed x) e = ground arith

module _ (convert : Ratio → Option String → Option String → Outcome Ratio) where
  factor_between-refused :
      (r r' : Ratio) (a a' : Option String)
      → RefusesNone convert
      → (a ≡ none) ⊎ (a' ≡ none)
      → factor_between convert (ended a r) (ended a' r') ≡ failed unsupported_unit
  factor_between-refused r r' a a' h (inl e) = rw (e, (h r a').0) refl
  factor_between-refused r r' a a' h (inr e) = rw (e, (h r a).1) refl

  -- One of the units reaches over two links a unit that has a base unit itself.
  abbrev pub IsTooFar : List UnitOfMeasure → UnitOfMeasure → Type 0
  IsTooFar units u = (w : UnitOfMeasure) × (b : ℕ) × BasedOn units 2 u w × (w.base_unit ≡ some b)

  factor_between_units-refused :
      (units : List UnitOfMeasure) (u v : UnitOfMeasure)
      → RefusesNone convert
      → IsTooFar units u ⊎ IsTooFar units v
      → factor_between_units convert units u v ≡ failed unsupported_unit
  factor_between_units-refused units u v h far =
      let lu = lineage 2 units u in
      let lv = lineage 2 units v in
      factor_between-refused lu.1 lv.1 lu.0 lv.0 h (elim far [
        | inl (w, b, links, e) ↦ inl (lineage-BasedOn links e)
        | inr (w, b, links, e) ↦ inr (lineage-BasedOn links e)
      ])

  -- Where both units are stored, and one of them stands more than two links from the unit of
  -- convert-units, in a circle too, the request throws the error of convert-units, which refuses a
  -- value without a unit.
  pub get_conversion_factor-too_far :
      (rounds : ℕ) (units : List UnitOfMeasure) (source target : Option ℕ) (u v : UnitOfMeasure)
      → RefusesNone convert
      → 4 ≤ rounds
      → stored units source ≡ some u
      → stored units target ≡ some v
      → IsTooFar units u ⊎ IsTooFar units v
      → get_conversion_factor convert rounds units source target ≡ some (failed unsupported_unit)
  get_conversion_factor-too_far rounds units source target u v refuses h es et far =
      let (c, returned, means) = get_conversion_factor-ends convert rounds units source target h in
      let refused = factor_between_units-refused units u v refuses far in
      let to_units =
        ap (λ o. described convert units o (stored units target)) es
        ∙ ap (λ o. described convert units (some u) o) et in
      returned ∙ ap some (failed-factor_in c (means ∙ to_units ∙ refused))

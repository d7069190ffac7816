-- ===== src/Units/Ends.antt =====
-- The loops of getConversionFactor end, whatever units are stored, and with what.
use gitrema_backend.Prelude.{
  ◌≡◌, refl, sym, ap, ◌∙◌, ℕ, zero, suc, ◌+◌, ◌≤◌, arith, Option, none, some, List, String, inl,
  inr, Option-cases,
}
use gitrema_backend.Prelude.Collection.{find}
use gitrema_backend.Units.State.{
  Ratio, one, times, or_else, UnitOfMeasure, has_id, Populated, root, based, reference,
}
use gitrema_backend.Units.Factor.{populate, Walk, walk, walk_from}
use gitrema_backend.Units.Ratios.{times-one_left, times-one, times_assoc}

-- The unit of convert-units at the end of the base units of `u`, and the rate to it, where so many
-- links are followed: none where the links go on.
abbrev pub lineage : ℕ → List UnitOfMeasure → UnitOfMeasure → Option String × Ratio
lineage zero units u = elim u.base_unit [
  | none ↦ (u.abbr, one)
  | some _ ↦ (none, or_else u.base_conversion_rate one)
]
lineage (suc links) units u = elim u.base_unit [
  | none ↦ (u.abbr, one)
  | some b ↦ elim (find (has_id b) units) [
    | none ↦ (u.abbr, one)
    | some v ↦
        let (a, r) = lineage links units v in (a, times (or_else u.base_conversion_rate one) r)
  ]
]

abbrev pub ended : Option String → Ratio → Walk
ended a r = record { ref_uom = none; uom_abbr = a; base_value = r }

pub walk-ended :
    (rounds : ℕ) (a : Option String) (r : Ratio) → walk rounds (ended a r) ≡ some (ended a r)
unfolding walk
walk-ended zero a r = refl
walk-ended (suc rounds) a r = refl

pub walk-root :
    (rounds : ℕ) (a : Option String) (r : Ratio)
    → walk rounds (ended a r) ≡ some (ended a (times r one))
walk-root rounds a r = walk-ended rounds a r ∙ ap (λ x. some (ended a x)) (sym (times-one r))

-- The four cases of a unit: without a base unit, with one that is not followed, with one that is not
-- stored, and with one that is.
pub populate-none :
    (links : ℕ) (units : List UnitOfMeasure) (u : UnitOfMeasure)
    → u.base_unit ≡ none
    → (populate links units u ≡ root u) × (lineage links units u ≡ (u.abbr, one))
unfolding populate
populate-none zero units u e = (ground (arith, e), ground (arith, e))
populate-none (suc links) units u e = (ground (arith, e), ground (arith, e))

pub populate-zero :
    (units : List UnitOfMeasure) (u : UnitOfMeasure) (b : ℕ)
    → u.base_unit ≡ some b
    → (populate 0 units u ≡ based u (reference b))
      × (lineage 0 units u ≡ (none, or_else u.base_conversion_rate one))
unfolding populate
populate-zero units u b e = (ground (arith, e), ground (arith, e))

pub populate-missing :
    (links : ℕ) (units : List UnitOfMeasure) (u : UnitOfMeasure) (b : ℕ)
    → u.base_unit ≡ some b
    → find (has_id b) units ≡ none
    → (populate (suc links) units u ≡ root u) × (lineage (suc links) units u ≡ (u.abbr, one))
unfolding populate
populate-missing links units u b e f = (ground (arith, e, f), ground (arith, e, f))

pub populate-found :
    (links : ℕ) (units : List UnitOfMeasure) (u v : UnitOfMeasure) (b : ℕ)
    → u.base_unit ≡ some b
    → find (has_id b) units ≡ some v
    → (populate (suc links) units u ≡ based u (populate links units v))
      × (lineage (suc links) units u ≡ (
        (lineage links units v).0,
        times (or_else u.base_conversion_rate one) (lineage links units v).1,
      ))
unfolding populate
populate-found links units u v b e f = (ground (arith, e, f), ground (arith, e, f))

abbrev from_here : Populated → Option String → Ratio → Walk
from_here d a r = record { ref_uom = some d; uom_abbr = a; base_value = r }

-- The loop over `d` ends, with this unit and rate.
abbrev EndsWith : ℕ → Populated → Option String × Ratio → Type 0
EndsWith rounds d l =
    (a : Option String) (r : Ratio) → walk rounds (from_here d a r) ≡ some (ended l.0 (times r l.1))

EndsWith-of :
    (rounds : ℕ) {d d' : Populated} {l l' : Option String × Ratio}
    → (d ≡ d') × (l ≡ l')
    → EndsWith rounds d' l'
    → EndsWith rounds d l
EndsWith-of rounds (e, f) h a r =
    ap (λ x. walk rounds (from_here x a r)) e
    ∙ h a r
    ∙ ap (λ x. some (ended x.0 (times r x.1))) (sym f)

EndsWith-root : (rounds : ℕ) (u : UnitOfMeasure) → EndsWith (suc rounds) (root u) (u.abbr, one)
unfolding walk
EndsWith-root rounds u a r = walk-root rounds u.abbr r

EndsWith-based :
    (rounds : ℕ) (u : UnitOfMeasure) (d : Populated) (l : Option String × Ratio)
    → EndsWith rounds d l
    → EndsWith (suc rounds) (based u d) (l.0, times (or_else u.base_conversion_rate one) l.1)
unfolding walk
EndsWith-based rounds u d l h a r =
    let rate = or_else u.base_conversion_rate one in
    h u.abbr (times r rate) ∙ ap (λ y. some (ended l.0 y)) (times_assoc r rate l.1)

EndsWith-reference :
    (rounds : ℕ) (u : UnitOfMeasure) (b : ℕ)
    → EndsWith (suc (suc rounds)) (based u (reference b)) (none, or_else u.base_conversion_rate one)
unfolding walk
EndsWith-reference rounds u b a r =
    walk-ended rounds none (times r (or_else u.base_conversion_rate one))

walk-EndsWith :
    (links rounds : ℕ) (units : List UnitOfMeasure) (u : UnitOfMeasure)
    → links + 2 ≤ rounds
    → EndsWith rounds (populate links units u) (lineage links units u)
walk-EndsWith links zero units u h = absurd (ground arith)
walk-EndsWith links (suc zero) units u h = absurd (ground arith)
walk-EndsWith zero (suc (suc rounds)) units u h = elim (Option-cases u.base_unit) [
  | inl e ↦
      EndsWith-of (suc (suc rounds)) (populate-none 0 units u e) (EndsWith-root (suc rounds) u)
  | inr (b, e) ↦
      EndsWith-of (suc (suc rounds)) (populate-zero units u b e) (EndsWith-reference rounds u b)
]
walk-EndsWith (suc links) (suc (suc rounds)) units u h = elim (Option-cases u.base_unit) [
  | inl e ↦
      EndsWith-of (suc (suc rounds)) (populate-none (suc links) units u e)
        (EndsWith-root (suc rounds) u)
  | inr (b, e) ↦ elim (Option-cases (find (has_id b) units)) [
    | inl f ↦
        EndsWith-of (suc (suc rounds)) (populate-missing links units u b e f)
          (EndsWith-root (suc rounds) u)
    | inr (v, f) ↦
        let rest = walk-EndsWith links (suc rounds) units v (ground arith) in
        EndsWith-of (suc (suc rounds)) (populate-found links units u v b e f)
          (EndsWith-based (suc rounds) u (populate links units v) (lineage links units v) rest)
  ]
]

pub walk-populate :
    (links rounds : ℕ) (units : List UnitOfMeasure) (u : UnitOfMeasure)
    → links + 2 ≤ rounds
    → walk rounds (walk_from (populate links units u))
      ≡ some (ended (lineage links units u).0 (lineage links units u).1)
walk-populate links rounds units u h =
    walk-EndsWith links rounds units u h none one
    ∙ ap (λ y. some (ended (lineage links units u).0 y)) (times-one_left (lineage links units u).1)

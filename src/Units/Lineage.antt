-- ===== src/Units/Lineage.antt =====
-- The rate and the unit of convert-units at the end of the base units of a stored unit.
use gitrema_backend.Prelude.{
  ◌≡◌, sym, ap, ℕ, zero, suc, ◌≤◌, Option, none, some, List, String, ◌⊎◌, inl, inr, arith, All,
  Option-cases,
}
use mathlib.Core.Path.{subst}
use native.Mathlib.Nat.{one-le-mul}
use gitrema_backend.Prelude.Collection.{find, find-All}
use gitrema_backend.Units.State.{Ratio, one, times, or_else, UnitOfMeasure, has_id}
use gitrema_backend.Units.Ends.{
  lineage, populate-none, populate-zero, populate-missing, populate-found,
}
use gitrema_backend.Units.Queried.{stored}

abbrev pub IsNonzero : Ratio → Type 0
IsNonzero r = (1 ≤ r.numerator) × (1 ≤ r.denominator)

-- The rate that the loop reads in a unit.
abbrev pub HasRate : UnitOfMeasure → Type 0
HasRate u = IsNonzero (or_else u.base_conversion_rate one)

pub one-IsNonzero : IsNonzero one
one-IsNonzero = (omega arith, omega arith)

pub times-IsNonzero : (r r' : Ratio) → IsNonzero r → IsNonzero r' → IsNonzero (times r r')
times-IsNonzero r r' h h' = (one-le-mul h.0 h'.0, one-le-mul h.1 h'.1)

pub lineage-IsNonzero :
    (links : ℕ) (units : List UnitOfMeasure) (u : UnitOfMeasure)
    → All HasRate units
    → HasRate u
    → IsNonzero (lineage links units u).1
lineage-IsNonzero zero units u all here = elim (Option-cases u.base_unit) [
  | inl e ↦ subst (λ l. IsNonzero l.1) (sym (populate-none 0 units u e).1) one-IsNonzero
  | inr (b, e) ↦ subst (λ l. IsNonzero l.1) (sym (populate-zero units u b e).1) here
]
lineage-IsNonzero (suc links) units u all here = elim (Option-cases u.base_unit) [
  | inl e ↦ subst (λ l. IsNonzero l.1) (sym (populate-none (suc links) units u e).1) one-IsNonzero
  | inr (b, e) ↦ elim (Option-cases (find (has_id b) units)) [
    | inl f ↦
        subst (λ l. IsNonzero l.1) (sym (populate-missing links units u b e f).1) one-IsNonzero
    | inr (v, f) ↦
        let above =
          lineage-IsNonzero links units v all (find-All HasRate (has_id b) units v all f) in
        subst (λ l. IsNonzero l.1) (sym (populate-found links units u v b e f).1)
          (times-IsNonzero (or_else u.base_conversion_rate one) (lineage links units v).1 here
            above)
  ]
]

pub HasRate-stored :
    (units : List UnitOfMeasure) (a : Option ℕ) (u : UnitOfMeasure)
    → All HasRate units
    → stored units a ≡ some u
    → IsNonzero (lineage 2 units u).1
HasRate-stored units none u all e = absurd (ground arith)
HasRate-stored units (some i) u all e =
    lineage-IsNonzero 2 units u all (find-All HasRate (has_id i) units u all e)

-- No unit at all, or the unit of convert-units of a stored one.
abbrev pub HasUnit : List UnitOfMeasure → Option String → Type 0
HasUnit units a =
    (a ≡ none) ⊎ ((i : ℕ) × (u : UnitOfMeasure) × (find (has_id i) units ≡ some u) × (u.abbr ≡ a))

pub lineage-HasUnit :
    (links : ℕ) (units : List UnitOfMeasure) (i : ℕ) (u : UnitOfMeasure)
    → find (has_id i) units ≡ some u
    → HasUnit units (lineage links units u).0
lineage-HasUnit zero units i u here = elim (Option-cases u.base_unit) [
  | inl e ↦ inr (i, u, here, sym (ap (λ l. l.0) (populate-none 0 units u e).1))
  | inr (b, e) ↦ inl (ap (λ l. l.0) (populate-zero units u b e).1)
]
lineage-HasUnit (suc links) units i u here = elim (Option-cases u.base_unit) [
  | inl e ↦ inr (i, u, here, sym (ap (λ l. l.0) (populate-none (suc links) units u e).1))
  | inr (b, e) ↦ elim (Option-cases (find (has_id b) units)) [
    | inl f ↦ inr (i, u, here, sym (ap (λ l. l.0) (populate-missing links units u b e f).1))
    | inr (v, f) ↦
        subst (HasUnit units) (sym (ap (λ l. l.0) (populate-found links units u v b e f).1))
          (lineage-HasUnit links units b v f)
  ]
]

pub lineage-HasUnit_of :
    (units : List UnitOfMeasure) (a : Option ℕ) (u : UnitOfMeasure)
    → stored units a ≡ some u
    → HasUnit units (lineage 2 units u).0
lineage-HasUnit_of units none u e = absurd (ground arith)
lineage-HasUnit_of units (some i) u e = lineage-HasUnit 2 units i u e

-- ===== src/Units/Queried.antt =====
-- What the query of getConversionFactor finds for each of the two units.
use gitrema_backend.Prelude.{
  ◌≡◌, refl, ℕ, zero, suc, ◌==◌, ◌||◌, Bool, true, Option, none, some, List, [], ◌∷◌, map, filter,
  inl, inr, arith, Bool-cases,
}
use gitrema_backend.Prelude.Collection.{find}
use gitrema_backend.Units.State.{UnitOfMeasure, has_id, Populated, id_of}
use gitrema_backend.Units.Factor.{populate, is_asked, unit_of_measures, asked}

abbrev pub map_option : {A B : Type 0} → (A → B) → Option A → Option B
map_option f none = none
map_option f (some a) = some (f a)

-- The stored unit that an identifier of the request names.
abbrev pub stored : List UnitOfMeasure → Option ℕ → Option UnitOfMeasure
stored units none = none
stored units (some i) = find (has_id i) units

id_of-populate :
    (depth : ℕ) (units : List UnitOfMeasure) (u : UnitOfMeasure)
    → id_of (populate depth units u) ≡ u.id
unfolding populate
id_of-populate zero units u = ground arith
id_of-populate (suc depth) units u = ground arith

find-map-filter :
    (i : ℕ) (q : UnitOfMeasure → Bool) (f : UnitOfMeasure → Populated) (xs : List UnitOfMeasure)
    → ((x : UnitOfMeasure) → id_of (f x) ≡ x.id)
    → ((x : UnitOfMeasure) → (x.id == i) ≡ true → q x ≡ true)
    → find (λ d. id_of d == i) (map f (filter q xs)) ≡ map_option f (find (has_id i) xs)
find-map-filter i q f [] same wanted = refl
find-map-filter i q f (x ∷ xs) same wanted =
    let rest = find-map-filter i q f xs same wanted in
    elim (Bool-cases (x.id == i)) [
      | inl t ↦ rw (wanted x t, same x, t) refl
      | inr e ↦ elim (Bool-cases (q x)) [
        | inl t ↦ rw (t, same x, e) rest
        | inr out ↦ rw (out, e) rest
      ]
    ]

asked-none : (ds : List Populated) → asked none ds ≡ none
asked-none [] = refl
asked-none (d ∷ ds) = asked-none ds

pub asked_source :
    (units : List UnitOfMeasure) (source target : Option ℕ)
    → asked source (unit_of_measures units source target)
      ≡ map_option (populate 2 units) (stored units source)
asked_source units none target = asked-none (unit_of_measures units none target)
asked_source units (some i) target =
    find-map-filter i (λ u. u.id == i || is_asked target u.id) (populate 2 units) units
      (id_of-populate 2 units) (λ x t. ground (arith, t))

pub asked_target :
    (units : List UnitOfMeasure) (source target : Option ℕ)
    → asked target (unit_of_measures units source target)
      ≡ map_option (populate 2 units) (stored units target)
asked_target units source none = asked-none (unit_of_measures units source none)
asked_target units source (some i) =
    find-map-filter i (λ u. is_asked source u.id || u.id == i) (populate 2 units) units
      (id_of-populate 2 units) (λ x t. ground (arith, t))

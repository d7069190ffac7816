-- ===== src/Prelude/Collection.antt =====
-- A collection of documents, newest first. Identifiers grow, so `sort: { _id: -1 }` with
-- `findOne` is the first document that matches.
use gitrema_backend.Prelude.Tests.{if◌then◌else◌, Bool-cases}
use gitrema_backend.Prelude.Lists.{All}
use mathlib.Core.Path.{◌≡◌, refl, sym, subst}
use mathlib.Core.Logic.{inl, inr}
use mathlib.Core.Bool.{Bool, true, false}
use mathlib.Core.List.{List, [], ◌∷◌}
use mathlib.Core.Option.{Option, none, some}
use native.Mathlib.Omega.{arith}

module _ {A : Type 0} where
  -- `findOne`
  abbrev pub find : (A → Bool) → List A → Option A
  find p [] = none
  find p (x ∷ xs) = let rest = find p xs in if p x then some x else rest

  -- The document that `find p` returns, changed and written back: `save` and `findOneAndUpdate`.
  abbrev pub update_first : (A → Bool) → (A → A) → List A → List A
  update_first p f [] = []
  update_first p f (x ∷ xs) = let rest = update_first p f xs in if p x then f x ∷ xs else x ∷ rest

  -- `updateMany`
  abbrev pub update_all : (A → Bool) → (A → A) → List A → List A
  update_all p f [] = []
  update_all p f (x ∷ xs) = (if p x then f x else x) ∷ update_all p f xs

module _ {A : Type 0} where
  -- The document found satisfies the query.
  pub find_sound : (p : A → Bool) (xs : List A) (x : A) → find p xs ≡ some x → p x ≡ true
  find_sound p [] x e = ground arith
  find_sound p (y ∷ xs) x e = ground (arith, find_sound p xs x)

  -- A property of all documents holds of the one found.
  pub find-All :
      (P : A → Type 0) (p : A → Bool) (xs : List A) (x : A) → All P xs → find p xs ≡ some x → P x
  find-All P p [] x h e = absurd (ground arith)
  find-All P p (y ∷ xs) x h e = elim (Bool-cases (p y)) [
    | inl t ↦ subst P (ground arith) h.0
    | inr f ↦ find-All P p xs x h.1 (ground arith)
  ]

  -- A document that is changed, and still matches, is found by the same query.
  pub find-update_first :
      (p : A → Bool) (f : A → A) (xs : List A) (x : A)
      → find p xs ≡ some x
      → p (f x) ≡ true
      → find p (update_first p f xs) ≡ some (f x)
  find-update_first p f [] x e t = ground arith
  find-update_first p f (y ∷ xs) x e t = ground (arith, find-update_first p f xs x)

  -- Another query, which the document satisfies neither before nor after the change, finds what
  -- it found.
  pub find-update_first_other :
      (p q : A → Bool) (f : A → A) (xs : List A) (x : A)
      → find p xs ≡ some x
      → q x ≡ false
      → q (f x) ≡ false
      → find q (update_first p f xs) ≡ find q xs
  find-update_first_other p q f [] x e h k = refl
  find-update_first_other p q f (y ∷ xs) x e h k =
      ground (arith, find-update_first_other p q f xs x)

  pub update_all-none :
      (p : A → Bool) (f : A → A) (xs : List A) → find p xs ≡ none → update_all p f xs ≡ xs
  update_all-none p f [] e = refl
  update_all-none p f (y ∷ xs) e = ground (arith, update_all-none p f xs)

  pub update_first-All :
      (P : A → Type 0) (p : A → Bool) (f : A → A) (xs : List A) (x : A)
      → find p xs ≡ some x
      → (P x → P (f x))
      → All P xs
      → All P (update_first p f xs)
  update_first-All P p f [] x e h a = tt
  update_first-All P p f (y ∷ xs) x e h a = elim (Bool-cases (p y)) [
    | inl t ↦
        let same : y ≡ x = ground arith in
        rw t (subst (λ z. P (f z)) (sym same) (h (subst P same a.0)), a.1)
    | inr other ↦ rw other (a.0, update_first-All P p f xs x (ground arith) h a.1)
  ]

  pub update_all-All :
      (P : A → Type 0) (p : A → Bool) (f : A → A) (xs : List A)
      → ((x : A) → p x ≡ true → P x → P (f x))
      → All P xs
      → All P (update_all p f xs)
  update_all-All P p f [] h a = tt
  update_all-All P p f (y ∷ xs) h a = elim (Bool-cases (p y)) [
    | inl t ↦ rw t (h y t a.0, update_all-All P p f xs h a.1)
    | inr e ↦ rw e (a.0, update_all-All P p f xs h a.1)
  ]

  pub find-none-All : (p : A → Bool) (xs : List A) → find p xs ≡ none → All (λ x. p x ≡ false) xs
  find-none-All p [] e = tt
  find-none-All p (y ∷ xs) e = elim (Bool-cases (p y)) [
    | inl t ↦ absurd (ground arith)
    | inr f ↦ (f, find-none-All p xs (ground arith))
  ]

  pub find-update_all :
      (p : A → Bool) (f : A → A) (xs : List A) (x : A)
      → find p xs ≡ some x
      → p (f x) ≡ true
      → find p (update_all p f xs) ≡ some (f x)
  find-update_all p f [] x e t = absurd (ground arith)
  find-update_all p f (y ∷ xs) x e t = elim (Bool-cases (p y)) [
    | inl h ↦
        let same : y ≡ x = ground arith in
        let kept : p (f y) ≡ true = subst (λ z. p (f z) ≡ true) (sym same) t in
        rw (h, kept) (subst (λ z. some (f y) ≡ some (f z)) same refl)
    | inr h ↦ let rest = find-update_all p f xs x (ground arith) t in rw (h, h) rest
  ]

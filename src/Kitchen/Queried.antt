-- ===== src/Kitchen/Queried.antt =====
-- What filtering and sorting keep of the orders, and what the writes to them reach.
use mathlib.Core.Path.{subst}
use gitrema_backend.Prelude.{
  ℕ, zero, suc, ◌==◌, ◌≡◌, refl, ◌∙◌, inl, inr, leb, Bool, false, some, List, [], ◌∷◌, arith, All,
  All-zip, get_elem?, filter, Bool-cases, ==-refl,
}
use gitrema_backend.Prelude.Collection.{find, find-update_first, update_first}
use gitrema_backend.Kitchen.State.{
  PreparationDetails, KitchenOrder, start_of, insert_by_start, sort_by_start,
}
use gitrema_backend.Kitchen.Queue.{set_details, write_details}

abbrev pub has_id : ℕ → KitchenOrder → Bool
has_id id o = o.id == id

-- No two orders have one identifier.
abbrev pub Distinct : List KitchenOrder → Type 0
Distinct [] = Unit
Distinct (o ∷ os) = All (λ p. (p.id == o.id) ≡ false) os × Distinct os

filter-All :
    (P : KitchenOrder → Type 0) (p : KitchenOrder → Bool) (os : List KitchenOrder)
    → All P os
    → All P (filter p os)
filter-All P p [] h = tt
filter-All P p (o ∷ os) h = elim (Bool-cases (p o)) [
  | inl t ↦ rw t (h.0, filter-All P p os h.1)
  | inr f ↦ rw f (filter-All P p os h.1)
]

filter-Distinct :
    (p : KitchenOrder → Bool) (os : List KitchenOrder) → Distinct os → Distinct (filter p os)
filter-Distinct p [] h = tt
filter-Distinct p (o ∷ os) h = elim (Bool-cases (p o)) [
  | inl t ↦ rw t (filter-All (λ q. (q.id == o.id) ≡ false) p os h.0, filter-Distinct p os h.1)
  | inr f ↦ rw f (filter-Distinct p os h.1)
]

insert-All :
    (P : KitchenOrder → Type 0) (o : KitchenOrder) (os : List KitchenOrder)
    → P o
    → All P os
    → All P (insert_by_start o os)
unfolding insert_by_start
insert-All P o [] ho h = (ho, tt)
insert-All P o (p ∷ ps) ho h = elim (Bool-cases (leb (start_of o) (start_of p))) [
  | inl t ↦ rw t (ho, h)
  | inr f ↦ rw f (h.0, insert-All P o ps ho h.1)
]

insert-Distinct :
    (o : KitchenOrder) (os : List KitchenOrder)
    → All (λ p. (p.id == o.id) ≡ false) os
    → Distinct os
    → Distinct (insert_by_start o os)
unfolding insert_by_start
insert-Distinct o [] new h = (tt, tt)
insert-Distinct o (p ∷ ps) new h = elim (Bool-cases (leb (start_of o) (start_of p))) [
  | inl t ↦ rw t (new, h)
  | inr f ↦ rw f (
    insert-All (λ q. (q.id == p.id) ≡ false) o ps (ground (arith, new.0)) h.0,
    insert-Distinct o ps new.1 h.1,
  )
]

pub sort-All :
    (P : KitchenOrder → Type 0) (os : List KitchenOrder) → All P os → All P (sort_by_start os)
unfolding sort_by_start
sort-All P [] h = tt
sort-All P (o ∷ os) h = insert-All P o (sort_by_start os) h.0 (sort-All P os h.1)

sort-Distinct : (os : List KitchenOrder) → Distinct os → Distinct (sort_by_start os)
unfolding sort_by_start
sort-Distinct [] h = tt
sort-Distinct (o ∷ os) h =
    insert-Distinct o (sort_by_start os) (sort-All (λ p. (p.id == o.id) ≡ false) os h.0)
      (sort-Distinct os h.1)

-- Every order is the one that its identifier finds.
find_own : (os : List KitchenOrder) → Distinct os → All (λ o. find (has_id o.id) os ≡ some o) os
find_own [] h = tt
find_own (o ∷ os) h = (
  rw (==-refl o.id),
  All-zip (λ p e found. let other : (o.id == p.id) ≡ false = ground arith in rw other found) os h.0
      (find_own os h.1),
)

-- A query, sorted: its orders have different identifiers, and each is found by its own.
pub queried :
    (p : KitchenOrder → Bool) (os : List KitchenOrder)
    → Distinct os
    → Distinct (sort_by_start (filter p os))
      × All (λ o. find (has_id o.id) os ≡ some o) (sort_by_start (filter p os))
queried p os h = (
  sort-Distinct (filter p os) (filter-Distinct p os h),
  sort-All (λ o. find (has_id o.id) os ≡ some o) (filter p os)
      (filter-All (λ o. find (has_id o.id) os ≡ some o) p os (find_own os h)),
)

pub All-get_elem? :
    {A : Type 0} (P : A → Type 0) (xs : List A) (k : ℕ) (x : A)
    → All P xs
    → get_elem? xs k ≡ some x
    → P x
All-get_elem? P [] k x h e = absurd (ground arith)
All-get_elem? P (y ∷ xs) zero x h e = subst P (ground arith) h.0
All-get_elem? P (y ∷ xs) (suc k) x h e = All-get_elem? P xs k x h.1 e

find-update_id_other :
    (id k : ℕ) (d : PreparationDetails) (os : List KitchenOrder)
    → (id == k) ≡ false
    → find (has_id id) (update_first (has_id k) (set_details d) os) ≡ find (has_id id) os
find-update_id_other id k d [] e = refl
find-update_id_other id k d (o ∷ os) e = ground (arith, find-update_id_other id k d os e)

-- The details of an order to which nothing is written stay.
pub write_details_other :
    (ws : List (ℕ × PreparationDetails)) (os : List KitchenOrder) (id : ℕ)
    → All (λ w. (id == w.0) ≡ false) ws
    → find (has_id id) (write_details ws os) ≡ find (has_id id) os
unfolding write_details
write_details_other [] os id h = refl
write_details_other ((k, d) ∷ ws) os id h =
    write_details_other ws (update_first (has_id k) (set_details d) os) id h.1
    ∙ find-update_id_other id k d os h.0

flip_ne : (a b : ℕ) → (a == b) ≡ false → (b == a) ≡ false
flip_ne a b e = ground arith

-- No order is written to twice.
abbrev pub DistinctWrites : List (ℕ × PreparationDetails) → Type 0
DistinctWrites [] = Unit
DistinctWrites (w ∷ ws) = All (λ v. (w.0 == v.0) ≡ false) ws × DistinctWrites ws

-- An order to which the details `d` are written has them in the end.
pub write_details_at :
    (ws : List (ℕ × PreparationDetails)) (os : List KitchenOrder) (k : ℕ) (d : PreparationDetails)
    (o : KitchenOrder)
    → DistinctWrites ws
    → get_elem? ws k ≡ some (o.id, d)
    → find (has_id o.id) os ≡ some o
    → find (has_id o.id) (write_details ws os) ≡ some (set_details d o)
unfolding write_details
write_details_at [] os k d o h at found = absurd (ground arith)
write_details_at ((j, e) ∷ ws) os zero d o h at found =
    let own : j ≡ o.id = ground arith in
    let same : e ≡ d = ground arith in
    rw (own, same)
      (write_details_other ws (update_first (has_id o.id) (set_details d) os) o.id
          (subst (λ i. All (λ v. (i == v.0) ≡ false) ws) own h.0)
        ∙ find-update_first (has_id o.id) (set_details d) os o found (==-refl o.id))
write_details_at ((j, e) ∷ ws) os (suc k) d o h at found =
    write_details_at ws (update_first (has_id j) (set_details e) os) k d o h.1 at (
      find-update_id_other o.id j e os
        (flip_ne j o.id (All-get_elem? (λ v. (j == v.0) ≡ false) ws k (o.id, d) h.0 at))
      ∙ found)

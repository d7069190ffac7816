-- ===== src/Pricing/Discounts.antt =====
-- The offer on a whole order that `calculateSummery` (src/order/calculation.service.ts) chooses, and
-- what it may take off.
use native.Mathlib.Nat.{div-add-mod, mul-le-mul_left}
use mathlib.Core.Path.{subst}
use gitrema_backend.Prelude.{
  ℕ, ◌+◌, ◌*◌, ◌≤◌, ◌≡◌, refl, ap, ◌⊎◌, inl, inr, Bool, Bool-cases, Option-cases, true, false,
  Option, none, some, List, [], ◌∷◌, String, is_text, arith, All, filter,
}
use gitrema_backend.Prelude.Int.{ℤ, pos, negsuc, ◌+ℤ◌, ◌≤ℤ◌, int_laws, ratio, nearest}
use gitrema_backend.Pricing.State.{CalculationType, Offer, OrderData}
use gitrema_backend.Pricing.Summary.{
  sum_of, is_header_offer, comes_first, before, first_by_priority, is_used_up, unless_used_up,
  coupon_offer, or_coupon, find_offer, part_of, capped, header_discount_of, summary_with,
  calculate_summery,
}

-- A limit that is there is not negative.
abbrev pub IsLimit : Option ℤ → Type 0
IsLimit none = Unit
IsLimit (some m) = pos 0 ≤ℤ m

-- An offer of a part of a price, from nothing to all of it.
abbrev pub IsPartial : Offer → Type 0
IsPartial o =
    (o.discount_type ≡ CalculationType.percentage)
    × (pos 0 ≤ℤ o.discount)
    × (o.discount ≤ℤ pos 10_000)
    × IsLimit o.max_discount

nearest-le : (t p : ℕ) → p ≤ 10_000 → nearest (t * p) 10_000 ≤ t
nearest-le t p h = omega (arith, mul-le-mul_left t h, div-add-mod (2 * (t * p) + 10_000) 20_000)

capped-le :
    (m : Option ℤ) (d : ℕ) → IsLimit m → (pos 0 ≤ℤ capped m (pos d)) × (capped m (pos d) ≤ℤ pos d)
capped-le none d h = (omega arith, omega arith)
capped-le (some m) d h = (ground arith, ground arith)

part_of-le :
    (rate : ℤ) (t : ℕ)
    → pos 0 ≤ℤ rate
    → rate ≤ℤ pos 10_000
    → (d : ℕ) × (part_of rate (pos t) ≡ pos d) × (d ≤ t)
unfolding ratio
part_of-le (pos p) t low high = (nearest (t * p) 10_000, refl, nearest-le t p (omega (arith, high)))
part_of-le (negsuc n) t low high = absurd (omega (arith, low))

partial-le :
    (o : Offer) (t : ℕ)
    → IsPartial o
    → (pos 0 ≤ℤ header_discount_of (some o) (pos t))
      × (header_discount_of (some o) (pos t) ≤ℤ pos t)
unfolding header_discount_of ratio
partial-le o t (kind, least, most, limit) =
    let (d, part, below) = part_of-le o.discount t least most in
    let (low, high) = capped-le o.max_discount d limit in
    rw (kind, part) (low, omega (arith, high, below))

filter-All :
    (P : Offer → Type 0) (p : Offer → Bool) (os : List Offer) → All P os → All P (filter p os)
filter-All P p [] h = tt
filter-All P p (o ∷ os) h = elim (Bool-cases (p o)) [
  | inl y ↦ rw y (h.0, filter-All P p os h.1)
  | inr n ↦ rw n (filter-All P p os h.1)
]

filter-All_own : (p : Offer → Bool) (os : List Offer) → All (λ o. p o ≡ true) (filter p os)
filter-All_own p [] = tt
filter-All_own p (o ∷ os) = elim (Bool-cases (p o)) [
  | inl y ↦ rw y (y, filter-All_own p os)
  | inr n ↦ rw n (filter-All_own p os)
]

before-one_of : (o p : Offer) (x : Option Offer) → before o x ≡ some p → (o ≡ p) ⊎ (x ≡ some p)
before-one_of o p none e = inl (ground arith)
before-one_of o p (some q) e = elim (Bool-cases (comes_first o.priority q.priority)) [
  | inl y ↦ inl (ground arith)
  | inr n ↦ inr (ground arith)
]

first_by_priority-All :
    (P : Offer → Type 0) (os : List Offer) (o : Offer)
    → All P os
    → first_by_priority os ≡ some o
    → P o
unfolding first_by_priority
first_by_priority-All P [] o h e = absurd (ground arith)
first_by_priority-All P (x ∷ os) o h e = elim (before-one_of x o (first_by_priority os) e) [
  | inl same ↦ subst P same h.0
  | inr later ↦ first_by_priority-All P os o h.1 later
]

or_coupon-one_of :
    (x y : Option Offer) (o : Offer) → or_coupon x y ≡ some o → (x ≡ some o) ⊎ (y ≡ some o)
or_coupon-one_of none y o e = inr e
or_coupon-one_of (some z) y o e = inl e

unless_used_up-some :
    (x : Option Offer) (o : Offer)
    → unless_used_up x ≡ some o
    → (x ≡ some o) × (is_used_up o ≡ false)
unless_used_up-some none o e = absurd (ground arith)
unless_used_up-some (some z) o e = elim (Bool-cases (is_used_up z)) [
  | inl used ↦ absurd (ground arith)
  | inr unused ↦
      let same : z ≡ o = ground arith in
      (ap some same, subst (λ w. is_used_up w ≡ false) same unused)
]

coupon_offer-some :
    (now : ℕ) (code : Option String) (offers : List Offer) (o : Offer)
    → coupon_offer now code offers ≡ some o
    → (is_text code ≡ true)
      × (first_by_priority (filter (is_header_offer now code) offers) ≡ some o)
      × (is_used_up o ≡ false)
coupon_offer-some now code offers o e = elim (Bool-cases (is_text code)) [
  | inr empty ↦ absurd (ground arith)
  | inl given ↦
      let used =
        unless_used_up-some (first_by_priority (filter (is_header_offer now code) offers)) o
          (rw given at e) in
      (given, used.0, used.1)
]

-- An offer that is applied is stored, and is valid on the day for whole orders. It has no code, or
-- it has the code of the order and has not been used as often as it may be.
pub find_offer_lem :
    (P : Offer → Type 0) (now : ℕ) (code : Option String) (offers : List Offer) (o : Offer)
    → All P offers
    → find_offer now code offers ≡ some o
    → P o
      × ((is_header_offer now none o ≡ true)
          ⊎ (is_text code ≡ true) × (is_header_offer now code o ≡ true) × (is_used_up o ≡ false))
unfolding find_offer
find_offer_lem P now code offers o h e =
    elim (or_coupon-one_of (first_by_priority (filter (is_header_offer now none) offers))
      (coupon_offer now code offers) o e) [
        | inl free ↦ (
          first_by_priority-All P (filter (is_header_offer now none) offers) o
              (filter-All P (is_header_offer now none) offers h) free,
          inl (
              first_by_priority-All (λ x. is_header_offer now none x ≡ true)
                (filter (is_header_offer now none) offers) o
                (filter-All_own (is_header_offer now none) offers) free),
        )
        | inr coupon ↦
            let (given, found, unused) = coupon_offer-some now code offers o coupon in
            (
              first_by_priority-All P (filter (is_header_offer now code) offers) o
                  (filter-All P (is_header_offer now code) offers h) found,
              inr (
                given,
                first_by_priority-All (λ x. is_header_offer now code x ≡ true)
                    (filter (is_header_offer now code) offers) o
                    (filter-All_own (is_header_offer now code) offers) found,
                unused,
              ),
            )
      ]

-- Where all offers are percentages from 0 to 100, and no offer has a negative limit, the discount on the whole order is not negative
-- and does not pass what the items and the table cost, so the total with tax is not negative.
pub calculate_summery_discount :
    (d : OrderData) (now t : ℕ) (offers : List Offer)
    → sum_of (λ i. i.amount_after_discount) d.items +ℤ d.table_fee ≡ pos t
    → All IsPartial offers
    → let s = calculate_summery d now offers in
      (pos 0 ≤ℤ s.header_discount) × (s.header_discount ≤ℤ pos t) × (pos 0 ≤ℤ s.total_with_tax)
unfolding calculate_summery summary_with header_discount_of
calculate_summery_discount d now t offers e h =
    elim (Option-cases (find_offer now d.coupon_code offers)) [
      | inl free ↦ rw (free, e) (omega arith, omega arith, omega int_laws)
      | inr (o, found) ↦
          let (low, high) =
            partial-le o t (find_offer_lem IsPartial now d.coupon_code offers o h found).0 in
          rw (found, e) (low, high, omega int_laws)
    ]

-- ===== src/Payment/Shares.antt =====
-- What the parts of a split order add up to.
use native.Mathlib.Nat.{div-add-mod}
use mathlib.Core.Path.{subst}
use gitrema_backend.Prelude.{
  ℕ, zero, suc, ◌+◌, ◌*◌, ◌≤◌, ◌<◌, ◌≡◌, refl, List, [], ◌∷◌, arith, length, inl, inr, Bool-cases,
  false, ◌==◌, ap,
}
use gitrema_backend.Prelude.Int.{ℤ, pos, ◌+ℤ◌, ◌-ℤ◌, ◌≤ℤ◌, ltb_ℤ, ltb_ℤ→lt, ltb_ℤ→le, int_laws}
use gitrema_backend.Prelude.Action.{done, done-injective}
use gitrema_backend.Payment.Split.{nearest_share, split_loop, split_amounts}

abbrev pub sum : List ℤ → ℤ
sum [] = pos 0
sum (a ∷ as_) = a +ℤ sum as_

length-split_loop : (n share : ℕ) (a : ℤ) → length (split_loop n share a) ≡ n
unfolding split_loop
length-split_loop zero share a = refl
length-split_loop (suc n) share a = ap suc (length-split_loop n share (a -ℤ pos share))

not_last : (n : ℕ) → (suc n == 0) ≡ false
not_last n = ground arith

-- Where the parts do not pass the amount, the last takes what is left.
sum-split_loop_exact :
    (n share : ℕ) (a : ℤ) → pos (suc n * share) ≤ℤ a → sum (split_loop (suc n) share a) ≡ a
unfolding split_loop
sum-split_loop_exact zero share a h = elim (Bool-cases (ltb_ℤ (pos 0) (a -ℤ pos share))) [
  | inl more ↦ rw more (omega int_laws)
  | inr none_left ↦ rw none_left (omega (int_laws, ltb_ℤ→le (pos 0) (a -ℤ pos share) none_left))
]
sum-split_loop_exact (suc n) share a h =
    let rest = sum-split_loop_exact n share (a -ℤ pos share) (omega int_laws) in
    rw (not_last n, rest) (omega int_laws)

-- Where they do, nothing is left for the last.
sum-split_loop_over :
    (n share : ℕ) (a : ℤ)
    → a ≤ℤ pos (suc n * share)
    → sum (split_loop (suc n) share a) ≡ pos (suc n * share)
unfolding split_loop
sum-split_loop_over zero share a h = elim (Bool-cases (ltb_ℤ (pos 0) (a -ℤ pos share))) [
  | inl more ↦ rw more (omega (int_laws, ltb_ℤ→lt (pos 0) (a -ℤ pos share) more))
  | inr none_left ↦ rw none_left (omega int_laws)
]
sum-split_loop_over (suc n) share a h =
    let rest = sum-split_loop_over n share (a -ℤ pos share) (omega int_laws) in
    rw (not_last n, rest) (omega int_laws)

share-le : (a n : ℕ) → 2 * (n * nearest_share a n) ≤ 2 * a + n
share-le a n = omega (arith, div-add-mod (2 * a + n) (2 * n))

-- Where an amount of at least 0 is split into `n` parts, one at least, and the split is not
-- refused, there are `n` parts. They add up to the amount where `n` nearest shares do not pass it,
-- and to the `n` shares where they do; that is at most half a hundredth too much for each part.
pub split_total :
    (a n : ℕ) (xs : List ℤ)
    → 0 < n
    → split_amounts (pos a) n ≡ done xs
    → let share = nearest_share a n in
      (length xs ≡ n)
      × (n * share ≤ a → sum xs ≡ pos a)
      × (a ≤ n * share → sum xs ≡ pos (n * share))
      × (2 * (n * share) ≤ 2 * a + n)
unfolding split_amounts
split_total a zero xs h e = absurd (omega arith)
split_total a (suc n) xs h e = elim (Bool-cases (nearest_share a (suc n) == 0)) [
  | inl nothing ↦ absurd (ground arith)
  | inr some_share ↦
      let share = nearest_share a (suc n) in
      let parts : split_loop (suc n) share (pos a) ≡ xs = done-injective (rw some_share at e) in
      subst
        (λ ys.
          (length ys ≡ suc n)
          × (suc n * share ≤ a → sum ys ≡ pos a)
          × (a ≤ suc n * share → sum ys ≡ pos (suc n * share))
          × (2 * (suc n * share) ≤ 2 * a + suc n))
        parts
        (
          length-split_loop (suc n) share (pos a),
          λ le. sum-split_loop_exact n share (pos a) (omega arith),
          λ ge. sum-split_loop_over n share (pos a) (omega arith),
          share-le a (suc n),
        )
]

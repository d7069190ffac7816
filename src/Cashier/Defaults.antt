-- ===== src/Cashier/Defaults.antt =====
-- The default cashier of a restaurant (src/cashier/cashier-helper.service.ts).
use mathlib.Core.Path.{subst}
use gitrema_backend.Prelude.{
  ℕ, ◌==◌, ◌≡◌, refl, sym, ap, ◌∙◌, inl, inr, Bool, true, false, not, ◌&&◌, Option, none, some,
  List, [], ◌∷◌, arith, Bool-cases, ==-refl,
}
use gitrema_backend.Prelude.Action.{done, pure, ◌>>◌, >>=-at_done}
use gitrema_backend.Prelude.Collection.{find, update_all}
use gitrema_backend.Cashier.State.{Cashier, Request, CashierState, CashierAction}
use gitrema_backend.Cashier.Shift.{has_id}
use gitrema_backend.Cashier.Resolve.{
  is_default_of, default_cashier, identify_cashier, resolve_cashier_id, keep_only_one_default,
}

abbrev is_other : Cashier → Cashier → Bool
is_other c d = (d.restaurant_id == c.restaurant_id) && not (d.id == c.id)

abbrev without_default : Cashier → Cashier
without_default d = record d { default = false }

find_default :
    (c : Cashier) (cs : List Cashier)
    → c.default ≡ true
    → find (has_id c.id) cs ≡ some c
    → find (is_default_of (some c.restaurant_id)) (update_all (is_other c) without_default cs)
      ≡ some c
find_default c [] d e = absurd (ground arith)
find_default c (x ∷ xs) d e = elim (Bool-cases (x.id == c.id)) [
  | inl own ↦
      let same : x ≡ c = ground arith in
      let kept : is_other c x ≡ false = ground arith in
      let found : is_default_of (some c.restaurant_id) x ≡ true =
        subst (λ z. is_default_of (some c.restaurant_id) z ≡ true) (sym same)
          (ground (arith, ==-refl c.restaurant_id)) in
      rw (kept, found) (ap some same)
  | inr other ↦
      let rest = find_default c xs d (ground arith) in
      elim (Bool-cases (x.restaurant_id == c.restaurant_id)) [
        | inl here ↦
            let changed : is_other c x ≡ true = ground arith in
            let passed : is_default_of (some c.restaurant_id) (without_default x) ≡ false =
              ground arith in
            rw (changed, passed) rest
        | inr elsewhere ↦
            let kept : is_other c x ≡ false = ground arith in
            let passed : is_default_of (some c.restaurant_id) x ≡ false = ground arith in
            rw (kept, passed) rest
      ]
]

default_cashier_found :
    (r : Option ℕ) (c : Cashier) (s : CashierState)
    → find (is_default_of r) s.cashiers ≡ some c
    → default_cashier r s ≡ (done (c.id, some c), s)
unfolding default_cashier
default_cashier_found r c s e = rw e refl

resolve_default :
    (req : Request) (r : Option ℕ) (c : Cashier) (now : ℕ) (s : CashierState)
    → req.is_customer ≡ true
    → find (is_default_of r) s.cashiers ≡ some c
    → (resolve_cashier_id req none false r now s).0 ≡ done c.id
unfolding resolve_cashier_id identify_cashier
resolve_default req r c now s customer e =
    let then_id : ℕ × Option Cashier → CashierAction ℕ = λ found. pure tt >> pure found.0 in
    rw customer (
      ap (λ z. z.0)
        (>>=-at_done (default_cashier r) then_id s (c.id, some c)
          (ap (λ z. z.0) (default_cashier_found r c s e))))

keep_cashiers :
    (c : Cashier) (s : CashierState)
    → c.default ≡ true
    → (keep_only_one_default c s).cashiers ≡ update_all (is_other c) without_default s.cashiers
unfolding keep_only_one_default
keep_cashiers c s d = elim (Bool-cases c.default) [
  | inl yes_ ↦ ground arith
  | inr no_ ↦ absurd (ground arith)
]

-- After a stored default cashier was made the only one of its restaurant, a customer's request
-- without a cashier is resolved to it there.
pub resolve_cashier_id-keep_only_one_default :
    (req : Request) (c : Cashier) (now : ℕ) (s : CashierState)
    → req.is_customer ≡ true
    → c.default ≡ true
    → find (has_id c.id) s.cashiers ≡ some c
    → (resolve_cashier_id req none false (some c.restaurant_id) now (keep_only_one_default c s)).0
      ≡ done c.id
resolve_cashier_id-keep_only_one_default req c now s customer d stored =
    let kept = keep_cashiers c s d in
    resolve_default req (some c.restaurant_id) c now (keep_only_one_default c s) customer
      (ap (find (is_default_of (some c.restaurant_id))) kept ∙ find_default c s.cashiers d stored)

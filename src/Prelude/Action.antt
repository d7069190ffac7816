-- ===== src/Prelude/Action.antt =====
-- The asynchronous methods of the services: a method reads and writes the state of its
-- collections, and returns or throws. What was written before a throw stays written.
use native.Mathlib.Omega.{arith}
use gitrema_backend.Prelude.Tests.{if◌then◌else◌}
use mathlib.Core.Path.{◌≡◌, refl, ap}
use mathlib.Core.Logic.{◌⊎◌, inl, inr}
use mathlib.Core.Bool.{Bool}
use mathlib.Core.Option.{Option, none, some}

-- The exceptions of the modelled services, by the message that they carry. `type_error` is
-- JavaScript's own, for reading a property of `null`.
pub data Failure : Type 0 where
  record_not_found previous_open_instance no_open_instance no_balance_match : Failure
  already_paused nothing_to_resume no_cashier_available : Failure
  payments_not_allowed transaction_not_found transaction_already_paid over_payment : Failure
  refund_too_large order_already_paid : Failure
  table_not_started orders_pending_to_close type_error : Failure
  order_closed not_allowed same_status no_permission : Failure
  all_order_closed same_table_merge_not_allowed : Failure
  not_enough_quantity item_not_found not_enough_items : Failure
  menu_item_not_available sold_out unsupported_unit : Failure

pub data Outcome (A : Type 0) : Type 0 where
  done : A → Outcome A
  failed : Failure → Outcome A

abbrev pub Action : Type 0 → Type 0 → Type 0
Action S A = S → Outcome A × S

module _ {S A : Type 0} where
  abbrev pub pure : A → Action S A
  pure a s = (done a, s)

  abbrev pub throw : Failure → Action S A
  throw e s = (failed e, s)

  abbrev pub gets : (S → A) → Action S A
  gets f s = (done (f s), s)

  -- A lookup that throws on `null`.
  abbrev pub or_throw : Option A → Failure → Action S A
  or_throw none e s = (failed e, s)
  or_throw (some a) _ s = (done a, s)

pub Outcome-cases :
    {A : Type 0} (r : Outcome A) → ((e : Failure) × (r ≡ failed e)) ⊎ ((a : A) × (r ≡ done a))
Outcome-cases (done a) = inr (a, refl)
Outcome-cases (failed e) = inl (e, refl)

-- A computation that may throw and leaves the state, and what follows where it does not.
abbrev pub and_then : {A B : Type 0} → Outcome A → (A → Outcome B) → Outcome B
and_then (done a) f = f a
and_then (failed e) f = failed e

pub and_then-done :
    {A B : Type 0} (r : Outcome A) (f : A → Outcome B) (b : B)
    → and_then r f ≡ done b
    → (a : A) × (r ≡ done a) × (f a ≡ done b)
and_then-done (done a) f b e = (a, refl, e)
and_then-done (failed x) f b e = absurd (ground arith)

pub and_then-failed :
    {A B : Type 0} (r : Outcome A) (f : A → Outcome B) (x : Failure)
    → and_then r f ≡ failed x
    → (r ≡ failed x) ⊎ ((a : A) × (r ≡ done a) × (f a ≡ failed x))
and_then-failed (done a) f x e = inr (a, refl, e)
and_then-failed (failed y) f x e = inl (ground arith)

pub done-injective : {A : Type 0} {a b : A} → done a ≡ done b → a ≡ b
done-injective {A} {a} {b} e = ap (value_or a) e
  where
    value_or : A → Outcome A → A
    value_or d (done x) = x
    value_or d (failed _) = d

infixl 5 ◌>>=◌ ◌>>◌
abbrev pub ◌>>=◌ : {S A B : Type 0} → Action S A → (A → Action S B) → Action S B
◌>>=◌ m f s = let (r, s') = m s in elim r [ done a ↦ f a s' | failed e ↦ (failed e, s') ]

abbrev pub ◌>>◌ : {S A B : Type 0} → Action S A → Action S B → Action S B
m >> k = m >>= λ _. k

abbrev pub throw_if : {S : Type 0} → Bool → Failure → Action S (Unit {0})
throw_if b e s = (if b then failed e else done tt, s)

abbrev pub modify : {S : Type 0} → (S → S) → Action S (Unit {0})
modify f s = (done tt, f s)

-- A call without `await`: its writes are made, and its exception does not reach the caller.
abbrev pub detached : {S A : Type 0} → Action S A → Action S (Unit {0})
detached m s = (done tt, (m s).1)

-- `m` keeps the property `P` of the state, whether it returns or throws.
abbrev pub Keeps : {S A : Type 0} → (S → Type 0) → Action S A → Type 0
Keeps {S} P m = (s : S) → P s → P (m s).1

pub >>=-Keeps :
    {S A B : Type 0} (P : S → Type 0) (m : Action S A) (f : A → Action S B)
    → Keeps P m
    → ((a : A) → Keeps P (f a))
    → Keeps P (m >>= f)
>>=-Keeps {S} {A} {B} P m f hm hf s h = go (m s).0 (m s).1 (hm s h)
  where
    go :
        (r : Outcome A) (s' : S)
        → P s'
        → P (elim r as (λ _. Outcome B × S) [ done a ↦ f a s' | failed e ↦ (failed e, s') ]).1
    go (done a) s' h' = hf a s' h'
    go (failed e) s' h' = h'

-- Returning a value behind `m` leaves the state of `m`.
pub >>-pure_state :
    {S A B : Type 0} (m : Action S A) (b : B) (s : S) → ((m >> pure b) s).1 ≡ (m s).1
>>-pure_state {S} {A} {B} m b s = go (m s).0 (m s).1
  where
    go :
        (r : Outcome A) (s' : S)
        → (elim r as (λ _. Outcome B × S) [ done a ↦ (done b, s') | failed e ↦ (failed e, s') ]).1
          ≡ s'
    go (done a) s' = refl
    go (failed e) s' = refl

-- A chain that returns got a value from its first action.
pub >>=-done :
    {S A B : Type 0} (m : Action S A) (f : A → Action S B) (s : S) (b : B)
    → ((m >>= f) s).0 ≡ done b
    → (a : A) × ((m s).0 ≡ done a) × ((f a (m s).1).0 ≡ done b)
>>=-done {S} {A} {B} m f s b e = go (m s).0 (m s).1 e
  where
    go :
        (r : Outcome A) (s' : S)
        → (elim r as (λ _. Outcome B × S) [ done a ↦ f a s' | failed e ↦ (failed e, s') ]).0
          ≡ done b
        → (a : A) × (r ≡ done a) × ((f a s').0 ≡ done b)
    go (done a) s' e = (a, refl, e)
    go (failed x) s' e = absurd (ground arith)

-- Where the first action returns, the chain goes on from its state.
pub >>=-at_done :
    {S A B : Type 0} (m : Action S A) (f : A → Action S B) (s : S) (a : A)
    → (m s).0 ≡ done a
    → (m >>= f) s ≡ f a (m s).1
>>=-at_done {S} {A} {B} m f s a e = go (m s).0 (m s).1 e
  where
    go :
        (r : Outcome A) (s' : S)
        → r ≡ done a
        → (elim r as (λ _. Outcome B × S) [ done a ↦ f a s' | failed e ↦ (failed e, s') ]) ≡ f a s'
    go (done x) s' e = ap (λ y. f y s') (done-injective e)
    go (failed x) s' e = absurd (ground arith)

-- Where it throws, so does the chain.
pub >>=-at_failed :
    {S A B : Type 0} (m : Action S A) (f : A → Action S B) (s : S) (e : Failure)
    → (m s).0 ≡ failed e
    → (m >>= f) s ≡ (failed e, (m s).1)
>>=-at_failed {S} {A} {B} m f s e h = go (m s).0 (m s).1 h
  where
    go :
        (r : Outcome A) (s' : S)
        → r ≡ failed e
        → (elim r as (λ _. Outcome B × S) [ done a ↦ f a s' | failed x ↦ (failed x, s') ])
          ≡ (failed e, s')
    go (done x) s' h = absurd (ground arith)
    go (failed x) s' h = ap (λ y. (failed y, s')) (ground arith)

-- A chain that returns is its second action, from where the first one left the state.
pub >>=-run :
    {S A B : Type 0} (m : Action S A) (f : A → Action S B) (s : S) (b : B)
    → ((m >>= f) s).0 ≡ done b
    → (a : A) × ((m s).0 ≡ done a) × ((m >>= f) s ≡ f a (m s).1)
>>=-run m f s b e =
    let (a, returned, _) = >>=-done m f s b e in (a, returned, >>=-at_done m f s a returned)

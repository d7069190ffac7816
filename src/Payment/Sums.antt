-- ===== src/Payment/Sums.antt =====
-- Sums of successful payments, as transactions are added and tried again.
use mathlib.Core.Path.{subst}
use gitrema_backend.Prelude.{
  ℕ, ◌==◌, ◌≡◌, refl, sym, ◌∙◌, inl, inr, Bool, true, false, some, List, [], ◌∷◌, arith, All,
  All-map, Bool-cases, ==-refl,
}
use gitrema_backend.Prelude.Collection.{find, update_first}
use gitrema_backend.Order.Status.{PaymentMethod, is_success, is_immediate}
use gitrema_backend.Order.State.{Order}
use gitrema_backend.Payment.State.{Transaction}
use gitrema_backend.Payment.Process.{is_payment_of, paid_in, has_payment}
use gitrema_backend.Payment.Service.{first_status, retried}
use gitrema_backend.Payment.Totals.{TotalMatches}

pub not_payment-other :
    (oid : ℕ) (t : Transaction) → (oid == t.order_id) ≡ false → is_payment_of oid t ≡ false
not_payment-other oid t h = ground arith

pub not_payment-status :
    (oid : ℕ) (t : Transaction) → is_success t.status ≡ false → is_payment_of oid t ≡ false
not_payment-status oid t h = ground arith

pub not_payment-refund :
    (oid : ℕ) (t : Transaction) → t.is_refund ≡ true → is_payment_of oid t ≡ false
not_payment-refund oid t h = ground arith

pub payment-own :
    (t : Transaction)
    → is_success t.status ≡ true
    → t.is_refund ≡ false
    → is_payment_of t.order_id t ≡ true
payment-own t s r = ground (arith, ==-refl t.order_id)

pub paid_in-skip :
    (oid : ℕ) (t : Transaction) (ts : List Transaction)
    → is_payment_of oid t ≡ false
    → paid_in oid (t ∷ ts) ≡ paid_in oid ts
paid_in-skip oid t ts h = rw h refl

pub paid_in-cons :
    (oid : ℕ) (t : Transaction) (xs ys : List Transaction)
    → paid_in oid xs ≡ paid_in oid ys
    → paid_in oid (t ∷ xs) ≡ paid_in oid (t ∷ ys)
paid_in-cons oid t xs ys h = elim (Bool-cases (is_payment_of oid t)) [
  | inl y ↦ rw (y, h) refl
  | inr n ↦ rw (n, h) refl
]

-- A transaction that is not a successful payment before and after it is tried again.
pub paid_in-retried :
    (oid : ℕ) (m : PaymentMethod) (p : Transaction → Bool) (ts : List Transaction) (t : Transaction)
    → find p ts ≡ some t
    → is_payment_of oid t ≡ false
    → is_payment_of oid (retried m t) ≡ false
    → paid_in oid (update_first p (retried m) ts) ≡ paid_in oid ts
paid_in-retried oid m p [] t e h k = refl
paid_in-retried oid m p (x ∷ xs) t e h k = elim (Bool-cases (p x)) [
  | inl y ↦
      let same : x ≡ t = ground arith in
      rw y (
        paid_in-skip oid (retried m x) xs
          (subst (λ z. is_payment_of oid (retried m z) ≡ false) (sym same) k)
        ∙ sym (paid_in-skip oid x xs (subst (λ z. is_payment_of oid z ≡ false) (sym same) h)))
  | inr n ↦
      let rest = paid_in-retried oid m p xs t (ground arith) h k in
      rw n (paid_in-cons oid x (update_first p (retried m) xs) xs rest)
]

pub has_payment-retried :
    (oid : ℕ) (m : PaymentMethod) (p : Transaction → Bool) (ts : List Transaction) (t : Transaction)
    → find p ts ≡ some t
    → is_payment_of oid (retried m t) ≡ true
    → has_payment oid (update_first p (retried m) ts) ≡ true
has_payment-retried oid m p [] t e h = absurd (ground arith)
has_payment-retried oid m p (x ∷ xs) t e h = elim (Bool-cases (p x)) [
  | inl y ↦
      let same : x ≡ t = ground arith in
      let own = subst (λ z. is_payment_of oid (retried m z) ≡ true) (sym same) h in rw (y, own) refl
  | inr n ↦
      let rest = has_payment-retried oid m p xs t (ground arith) h in rw (n, rest) (ground arith)
]

pub first_status-success :
    (m : PaymentMethod) → is_immediate m ≡ true → is_success (first_status m) ≡ true
first_status-success m h = rw h refl

pub first_status-pending :
    (m : PaymentMethod) → is_immediate m ≡ false → is_success (first_status m) ≡ false
first_status-pending m h = rw h refl

-- Orders that match go on matching under other transactions, if no sum of theirs changes.
pub same_sums :
    (oid : ℕ) (xs ys : List Transaction) (os : List Order)
    → ((i : ℕ) → (i == oid) ≡ false → paid_in i ys ≡ paid_in i xs)
    → All (TotalMatches xs) os
    → All (λ o. (o.id == oid) ≡ false → TotalMatches ys o) os
same_sums oid xs ys os h a = All-map (λ o m other. m ∙ sym (h o.id other)) os a

pub All-sums :
    (xs ys : List Transaction) (os : List Order)
    → ((i : ℕ) → paid_in i ys ≡ paid_in i xs)
    → All (TotalMatches xs) os
    → All (TotalMatches ys) os
All-sums xs ys os h a = All-map (λ o m. m ∙ sym (h o.id)) os a

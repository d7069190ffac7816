-- ===== src/Units/Ratios.antt =====
-- The arithmetic of rates.
use gitrema_backend.Prelude.{◌≡◌, refl, Bool, true, false, arith}
use gitrema_backend.Units.State.{Ratio, one, differ, times}

pub ratio_eq :
    (a b : Ratio)
    → a.is_negative ≡ b.is_negative
    → a.numerator ≡ b.numerator
    → a.denominator ≡ b.denominator
    → a ≡ b
ratio_eq a b s p q = λ i. record { is_negative = s i; numerator = p i; denominator = q i }

differ-false : (s : Bool) → differ s false ≡ s
differ-false true = refl
differ-false false = refl

differ_assoc : (s t u : Bool) → differ (differ s t) u ≡ differ s (differ t u)
differ_assoc s t u = ground arith

-- The sign of a product of a number with the quotient of the same two, the other way round.
pub differ_inverse : (s t f : Bool) → differ (differ (differ s f) t) (differ (differ t f) s) ≡ false
differ_inverse s t f = ground arith

pub differ_comm : (s t : Bool) → differ s t ≡ differ t s
differ_comm s t = ground arith

pub times-one : (a : Ratio) → times a one ≡ a
times-one a = ratio_eq (times a one) a (differ-false a.is_negative) (omega arith) (omega arith)

pub times-one_left : (a : Ratio) → times one a ≡ a
times-one_left a = ratio_eq (times one a) a refl (omega arith) (omega arith)

pub times_assoc : (a b c : Ratio) → times (times a b) c ≡ times a (times b c)
times_assoc a b c =
    ratio_eq (times (times a b) c) (times a (times b c))
      (differ_assoc a.is_negative b.is_negative c.is_negative) (omega arith) (omega arith)

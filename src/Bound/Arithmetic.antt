-- ===== src/Bound/Arithmetic.antt =====
-- Sums, negatives and products of bounds as limits of sums, negatives and products of numbers:
-- verifiers/prevail/src/crab_utils/num_extended.hpp.
use linux_dev_env.Base.{◌≡◌, true, if◌then◌else◌, arith}
use linux_dev_env.Base.Int
use linux_dev_env.Base.Int.{ℤ, pos, negsuc, ◌+ℤ◌, ◌-ℤ◌, leb_ℤ, ltb_ℤ, eqb_ℤ, int_laws}
use linux_dev_env.Outcome.{ok}
use linux_dev_env.Bound.{Bound, finite, neg, add, sub}
use linux_dev_env.Bound.Order.{at_least, at_most}

-- A lower bound is no positive infinity, an upper bound no negative one.
pub record IsLower (b : Bound) : Type 0 where
  pub unit : b.is_infinite ≡ true → b.n ≡ negsuc 0

pub record IsUpper (b : Bound) : Type 0 where
  pub unit : b.is_infinite ≡ true → b.n ≡ pos 1

-- What a sum is where no error arises.
abbrev pub sum : Bound → Bound → Bound
sum b x = if b.is_infinite then b else if x.is_infinite then x else finite (b.n +ℤ x.n)

pub add_lower : (a b : Bound) → IsLower a → IsLower b → add a b ≡ ok (sum a b)
unfolding add
add_lower a b p q = ground (arith, p.unit, q.unit)

pub add_upper : (a b : Bound) → IsUpper a → IsUpper b → add a b ≡ ok (sum a b)
unfolding add
add_upper a b p q = ground (arith, p.unit, q.unit)

pub sum-IsLower : (a b : Bound) → IsLower a → IsLower b → IsLower (sum a b)
sum-IsLower a b p q = record { unit = ground (arith, p.unit, q.unit) }

pub sum-IsUpper : (a b : Bound) → IsUpper a → IsUpper b → IsUpper (sum a b)
sum-IsUpper a b p q = record { unit = ground (arith, p.unit, q.unit) }

pub at_least-sum :
    (a b : Bound) (x y : ℤ)
    → IsLower a
    → IsLower b
    → at_least a x ≡ true
    → at_least b y ≡ true
    → at_least (sum a b) (x +ℤ y) ≡ true
unfolding at_least ◌+ℤ◌
at_least-sum a b x y p q h k = ground (arith, p.unit, q.unit)

pub at_most-sum :
    (a b : Bound) (x y : ℤ)
    → IsUpper a
    → IsUpper b
    → at_most a x ≡ true
    → at_most b y ≡ true
    → at_most (sum a b) (x +ℤ y) ≡ true
unfolding at_most ◌+ℤ◌
at_most-sum a b x y p q h k = ground (arith, p.unit, q.unit)

-- The negative of an upper bound is a lower bound, and the other way round.
pub neg-IsLower : (b : Bound) → IsUpper b → IsLower (neg b)
unfolding neg Int.neg
neg-IsLower b p = record { unit = ground (arith, p.unit) }

pub neg-IsUpper : (b : Bound) → IsLower b → IsUpper (neg b)
unfolding neg Int.neg
neg-IsUpper b p = record { unit = ground (arith, p.unit) }

pub at_least-neg : (b : Bound) (z : ℤ) → IsUpper b → at_least (neg b) (Int.neg z) ≡ at_most b z
unfolding neg Int.neg at_least at_most
at_least-neg b z p = ground (arith, p.unit)

pub at_most-neg : (b : Bound) (z : ℤ) → IsLower b → at_most (neg b) (Int.neg z) ≡ at_least b z
unfolding neg Int.neg at_least at_most
at_most-neg b z p = ground (arith, p.unit)

pub sub_lem : (a b : Bound) → sub a b ≡ add a (neg b)
unfolding sub
sub_lem a b = λ _. add a (neg b)

-- ===== src/Bound.antt =====
-- Extended numbers, the bounds of intervals: verifiers/prevail/src/crab_utils/num_extended.hpp.
pub mod Order
pub mod Arithmetic
pub mod Product
use linux_dev_env.Base.{
  ℕ, Bool, true, false, not, ◌||◌, ◌&&◌, Option, none, some, eq_Bool, if◌then◌else◌,
}
use linux_dev_env.Base.Int
use linux_dev_env.Base.Int.{ℤ, pos, negsuc, ◌+ℤ◌, ◌*ℤ◌, leb_ℤ, ltb_ℤ, eqb_ℤ}
use linux_dev_env.Outcome.{Result, ok, err, crab_message, ◌>>=◌}
use linux_dev_env.Number.{CppInt, Integral, uint, fits, cast_to, quot, rem}

pub record Bound : Type 0 where
  pub is_infinite : Bool
  pub n : ℤ

-- `extended_number(number_t)`.
abbrev pub finite : ℤ → Bound
finite n = record { is_infinite = false; n = n }

-- The constructor of both fields: the number of an infinity is 1 or -1.
abbrev pub extended_number : Bool → ℤ → Bound
extended_number is_infinite n = record {
  is_infinite = is_infinite;
  n = if is_infinite then (if ltb_ℤ (pos 0) n then pos 1 else negsuc 0) else n;
}

abbrev pub plus_infinity : Bound
plus_infinity = extended_number true (pos 1)

abbrev pub minus_infinity : Bound
minus_infinity = extended_number true (negsuc 0)

unfoldable pub narrow : Integral → Bound → Result ℤ
narrow t b =
    if b.is_infinite
    then err (crab_message "Bound: cannot narrow infinite value")
    else if fits t b.n
    then ok b.n
    else err (crab_message "number_t does not fit into")

unfoldable pub is_plus_infinity : Bound → Bool
is_plus_infinity b = b.is_infinite && ltb_ℤ (pos 0) b.n

unfoldable pub is_minus_infinity : Bound → Bool
is_minus_infinity b = b.is_infinite && ltb_ℤ b.n (pos 0)

unfoldable pub neg : Bound → Bound
neg b = extended_number b.is_infinite (Int.neg b.n)

unfoldable pub add : Bound → Bound → Result Bound
add b x =
    if b.is_infinite
    then (if not x.is_infinite || eqb_ℤ x.n b.n
        then ok b
        else err (crab_message "Bound: undefined operation -oo + +oo"))
    else if x.is_infinite
    then ok x
    else ok (finite (b.n +ℤ x.n))

unfoldable pub sub : Bound → Bound → Result Bound
unfolding add neg
sub b x = add b (neg x)

unfoldable pub mul : Bound → Bound → Bound
mul b x =
    if eqb_ℤ x.n (pos 0)
    then x
    else if eqb_ℤ b.n (pos 0)
    then b
    else extended_number (b.is_infinite || x.is_infinite) (b.n *ℤ x.n)

-- `AbsDiv`, whose last argument divides two numbers.
unfoldable pub abs_div : Bound → Bound → (ℤ → ℤ → Result ℤ) → Result Bound
abs_div b x f =
    if eqb_ℤ x.n (pos 0)
    then err (crab_message "Bound: division by zero")
    else if x.is_infinite
    then (if b.is_infinite then err (crab_message "Bound: inf / inf") else ok (finite (pos 0)))
    else if b.is_infinite
    then ok b
    else (f b.n x.n >>= λ q. ok (finite q))

-- The number, or its value as a `uint64_t` if it is negative.
unfoldable pub unsigned_64 : ℤ → Result ℤ
unsigned_64 a = if leb_ℤ (pos 0) a then ok a else cast_to (uint 64) a

module _ (cpp : CppInt) where
  unfoldable pub div : Bound → Bound → Result Bound
  unfolding abs_div quot
  div b x = abs_div b x (quot cpp)

  unfoldable pub mod_ : Bound → Bound → Result Bound
  unfolding abs_div rem
  mod_ b x = abs_div b x (rem cpp)

  unfoldable pub udiv : Bound → Bound → Result Bound
  unfolding abs_div quot unsigned_64
  udiv b x =
      abs_div b x
        (λ dividend divisor. do d ← unsigned_64 dividend; r ← unsigned_64 divisor; quot cpp d r)

  unfoldable pub urem : Bound → Bound → Result Bound
  unfolding abs_div rem unsigned_64
  urem b x =
      abs_div b x
        (λ dividend divisor. do d ← unsigned_64 dividend; r ← unsigned_64 divisor; rem cpp d r)

-- The comparisons. `xor` of the two flags is that they differ.
unfoldable pub le : Bound → Bound → Bool
le b x =
    if eq_Bool b.is_infinite x.is_infinite
    then leb_ℤ b.n x.n
    else if b.is_infinite
    then ltb_ℤ b.n (pos 0)
    else ltb_ℤ (pos 0) x.n

unfoldable pub ge : Bound → Bound → Bool
ge b x =
    if eq_Bool b.is_infinite x.is_infinite
    then leb_ℤ x.n b.n
    else if b.is_infinite
    then ltb_ℤ (pos 0) b.n
    else ltb_ℤ x.n (pos 0)

unfoldable pub lt : Bound → Bound → Bool
lt b x = not (ge b x)

unfoldable pub gt : Bound → Bound → Bool
gt b x = not (le b x)

unfoldable pub eq : Bound → Bound → Bool
eq b x = eq_Bool b.is_infinite x.is_infinite && eqb_ℤ b.n x.n

unfoldable pub abs : Bound → Bound
unfolding neg ge
abs b = if ge b (finite (pos 0)) then b else neg b

unfoldable pub number : Bound → Option ℤ
number b = if b.is_infinite then none else some b.n

-- `std::min` and `std::max`.
unfoldable pub min : Bound → Bound → Bound
min a b = if lt b a then b else a

unfoldable pub max : Bound → Bound → Bound
max a b = if lt a b then b else a

-- ===== src/Number.antt =====
-- Numbers of arbitrary size, `number_t`: verifiers/prevail/src/crab_utils/num_big.hpp. A
-- `cpp_int` of Boost is an integer. What the code calls of Boost beyond sums, products and
-- comparisons is an interface with the behaviour that its documentation states: division truncates
-- towards zero, and a bitwise operation acts on the digits in two's complement.
pub mod Laws
use linux_dev_env.Base.{
  ℕ, suc, ◌+◌, ◌-◌, ◌*◌, ◌/◌, ◌%◌, ◌^◌, ◌≤◌, ◌<◌, ◌≡◌, ◌≢◌, bit_and, bit_or, Bool, ◌||◌, ◌&&◌, ◌==◌,
  if◌then◌else◌,
}
use linux_dev_env.Base.Int.{
  ℤ, pos, negsuc, pos_part, neg_part, sub_ℕ, ◌*ℤ◌, magnitude, neg, leb_ℤ, ltb_ℤ, eqb_ℤ, to_unsigned,
  to_signed,
}
use linux_dev_env.Outcome.{Result, ok, err, crab_message, throw_if, ◌>>◌}

-- Division towards zero, and the remainder that goes with it.
abbrev pub truncated_quotient : ℤ → ℤ → ℤ
truncated_quotient a (pos m) = sub_ℕ (pos_part a / m) (neg_part a / m)
truncated_quotient a (negsuc k) = sub_ℕ (neg_part a / suc k) (pos_part a / suc k)

abbrev pub truncated_remainder : ℤ → ℤ → ℤ
truncated_remainder a b = sub_ℕ (pos_part a % magnitude b) (neg_part a % magnitude b)

pub record CppInt : Type 0 where
  pub quotient : ℤ → ℤ → ℤ
  pub remainder : ℤ → ℤ → ℤ
  pub land : ℤ → ℤ → ℤ
  pub lor : ℤ → ℤ → ℤ
  pub lxor : ℤ → ℤ → ℤ
  pub shift_right : ℤ → ℕ → ℤ
  pub msb : ℤ → ℕ
  pub quotient_lem : (a b : ℤ) → b ≢ pos 0 → quotient a b ≡ truncated_quotient a b
  pub remainder_lem : (a b : ℤ) → b ≢ pos 0 → remainder a b ≡ truncated_remainder a b
  pub land_mask : (a : ℤ) (k : ℕ) → land a (pos (2 ^ k - 1)) ≡ pos (to_unsigned (2 ^ k) a)
  pub shift_right_lem : (a k : ℕ) → shift_right (pos a) k ≡ pos (a / 2 ^ k)
  pub msb_lem : (a : ℕ) → 0 < a → (2 ^ msb (pos a) ≤ a) × (a < 2 ^ (msb (pos a) + 1))

-- The integral types: signed and unsigned, of a width.
pub data Integral : Type 0 where
  sint : ℕ → Integral
  uint : ℕ → Integral

-- `std::numeric_limits<T>::min()` and `max()`.
abbrev pub lowest : Integral → ℤ
lowest (sint w) = neg (pos (2 ^ (w - 1)))
lowest (uint w) = pos 0

abbrev pub highest : Integral → ℤ
highest (sint w) = pos (2 ^ (w - 1) - 1)
highest (uint w) = pos (2 ^ w - 1)

abbrev pub swap_signedness : Integral → Integral
swap_signedness (sint w) = uint w
swap_signedness (uint w) = sint w

-- `static_cast<T>` of an integer of the same width.
abbrev pub wrap : Integral → ℤ → ℤ
wrap (sint w) a = to_signed (2 ^ w) (to_unsigned (2 ^ w) a)
wrap (uint w) a = pos (to_unsigned (2 ^ w) a)

unfoldable pub fits : Integral → ℤ → Bool
fits t a = leb_ℤ (lowest t) a && leb_ℤ a (highest t)

unfoldable pub fits_cast_to : Integral → ℤ → Bool
unfolding fits
fits_cast_to t a = fits t a || fits (swap_signedness t) a

unfoldable pub cast_to : Integral → ℤ → Result ℤ
unfolding fits
cast_to t a =
    if fits t a
    then ok a
    else if fits (swap_signedness t) a
    then ok (wrap t a)
    else err (crab_message "number_t does not fit into")

-- The switches on a width, where 0 is no finite width.
abbrev pub at_finite_width : ℕ → ℤ → Result ℤ → Result ℤ
at_finite_width width a r =
    if width == 0
    then ok a
    else if width == 8 || (width == 16 || (width == 32 || width == 64))
    then r
    else err (crab_message "invalid finite width")

unfoldable pub cast_to_sint : ℕ → ℤ → Result ℤ
unfolding cast_to
cast_to_sint width a = at_finite_width width a (cast_to (sint width) a)

unfoldable pub cast_to_uint : ℕ → ℤ → Result ℤ
unfolding cast_to
cast_to_uint width a = at_finite_width width a (cast_to (uint width) a)

-- `operator<<`.
unfoldable pub shift_left : ℤ → ℤ → Result ℤ
unfolding fits
shift_left a x =
    if ltb_ℤ x (pos 0)
    then err (crab_message "Shift amount cannot be negative")
    else if fits (sint 32) x
    then ok (a *ℤ pos (2 ^ pos_part x))
    else err (crab_message "number_t does not fit into an int32")

abbrev pub abs : ℤ → ℤ
abs a = if ltb_ℤ a (pos 0) then neg a else a

module _ (cpp : CppInt) where
  unfoldable pub quot : ℤ → ℤ → Result ℤ
  quot a b =
      if eqb_ℤ b (pos 0)
      then err (crab_message "number_t: division by zero [1]")
      else ok (cpp.quotient a b)

  unfoldable pub rem : ℤ → ℤ → Result ℤ
  rem a b =
      if eqb_ℤ b (pos 0)
      then err (crab_message "number_t: division by zero [2]")
      else ok (cpp.remainder a b)

  -- `static_cast<T>(static_cast<U>(_n & mask))`, with `U` the unsigned type of the width of `T`.
  unfoldable pub truncate_to : Integral → ℤ → ℤ
  truncate_to (sint w) a = to_signed (2 ^ w) (pos_part (cpp.land a (pos (2 ^ w - 1))))
  truncate_to (uint w) a = cpp.land a (pos (2 ^ w - 1))

  unfoldable pub truncate_to_sint : ℕ → ℤ → Result ℤ
  unfolding truncate_to
  truncate_to_sint width a = at_finite_width width a (ok (truncate_to (sint width) a))

  unfoldable pub truncate_to_uint : ℕ → ℤ → Result ℤ
  unfolding truncate_to
  truncate_to_uint width a = at_finite_width width a (ok (truncate_to (uint width) a))

  unfoldable pub shift_right : ℤ → ℤ → Result ℤ
  unfolding fits
  shift_right a x =
      if ltb_ℤ x (pos 0)
      then err (crab_message "Shift amount cannot be negative")
      else if fits (sint 32) x
      then ok (cpp.shift_right a (pos_part x))
      else err (crab_message "number_t does not fit into an int32")

  unfoldable pub fill_ones : ℤ → ℤ
  fill_ones a = if eqb_ℤ a (pos 0) then pos 0 else pos (2 ^ (cpp.msb a + 1) - 1)

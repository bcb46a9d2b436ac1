-- ===== src/Tests/Digits.antt =====
-- Numbers with their digits in two's complement, which have the laws that the model asks of a
-- `cpp_int`.
use linux_dev_env.Base.{
  ℕ, zero, suc, ◌+◌, ◌-◌, ◌/◌, ◌^◌, ◌≤◌, ◌<◌, ◌≡◌, refl, ap, bit_and, bit_or, ltb, if◌then◌else◌,
  Bool-cases, inl, inr, arith,
}
use linux_dev_env.Base.Int.{ℤ, pos, negsuc, to_unsigned}
use linux_dev_env.Base.Bits.{bit_and_mask}
use linux_dev_env.Number.{CppInt, truncated_quotient, truncated_remainder}
use Prim.Native.Nat.{bit_xor}
use native.Mathlib.Nat.{pow-suc}

-- ~n & m
abbrev clear : ℕ → ℕ → ℕ
clear n m = m - bit_and n m

abbrev land : ℤ → ℤ → ℤ
land (pos a) (pos b) = pos (bit_and a b)
land (negsuc a) (pos b) = pos (clear a b)
land (pos a) (negsuc b) = pos (clear b a)
land (negsuc a) (negsuc b) = negsuc (bit_or a b)

abbrev lor : ℤ → ℤ → ℤ
lor (pos a) (pos b) = pos (bit_or a b)
lor (negsuc a) (pos b) = negsuc (clear b a)
lor (pos a) (negsuc b) = negsuc (clear a b)
lor (negsuc a) (negsuc b) = negsuc (bit_and a b)

abbrev lxor : ℤ → ℤ → ℤ
lxor (pos a) (pos b) = pos (bit_xor a b)
lxor (negsuc a) (pos b) = negsuc (bit_xor a b)
lxor (pos a) (negsuc b) = negsuc (bit_xor a b)
lxor (negsuc a) (negsuc b) = pos (bit_xor a b)

abbrev shift_right : ℤ → ℕ → ℤ
shift_right (pos a) k = pos (a / 2 ^ k)
shift_right (negsuc a) k = negsuc (a / 2 ^ k)

-- The place of the highest digit, with a fuel of the number itself.
pub highest_digit : ℕ → ℕ → ℕ
highest_digit zero n = 0
highest_digit (suc fuel) n =
    let rest = highest_digit fuel (n / 2) in if ltb n 2 then 0 else suc rest

pub highest_digit_lem :
    (fuel n : ℕ)
    → n ≤ fuel
    → 0 < n
    → (2 ^ highest_digit fuel n ≤ n) × (n < 2 ^ (highest_digit fuel n + 1))
unfolding highest_digit
highest_digit_lem zero n h p = absurd (omega arith)
highest_digit_lem (suc fuel) n h p = elim (Bool-cases (ltb n 2)) [
  | inl e ↦ rw e (omega arith, ground (arith, e))
  | inr e ↦
      (let big : 2 ≤ n = ground (arith, e) in
        let k = highest_digit fuel (n / 2) in
        let (low, high) = highest_digit_lem fuel (n / 2) (omega arith) (omega arith) in
        rw e (
          omega (arith, low, pow-suc 2 k),
          omega (arith, high, pow-suc 2 (k + 1), ap (λ m. 2 ^ m) (same k)),
        ))
]
  where
    same : (k : ℕ) → suc k + 1 ≡ suc (k + 1)
    same k = omega arith

pub land_mask : (a : ℤ) (k : ℕ) → land a (pos (2 ^ k - 1)) ≡ pos (to_unsigned (2 ^ k) a)
land_mask (pos a) k = ap pos (bit_and_mask k a)
land_mask (negsuc a) k = ap (λ r. pos (2 ^ k - 1 - r)) (bit_and_mask k a)

unfoldable pub digits : CppInt
unfolding highest_digit
digits = record {
  quotient = truncated_quotient;
  remainder = truncated_remainder;
  land = land;
  lor = lor;
  lxor = lxor;
  shift_right = shift_right;
  msb = λ a. elim a [ pos n ↦ highest_digit n n | negsuc n ↦ 0 ];
  quotient_lem = λ a b h. refl;
  remainder_lem = λ a b h. refl;
  land_mask = land_mask;
  shift_right_lem = λ a k. refl;
  msb_lem = λ a h. highest_digit_lem a a (omega arith) h;
}

-- ===== src/Base/Int.antt =====
-- Signed integers over the native numbers, and the C++ conversions between signed and unsigned
-- integers of a width, written out with their modulus.
use Prim.Native.Nat.{ℕ, suc, ◌+◌, ◌-◌, ◌*◌, ◌/◌, ◌%◌, ◌^◌, ◌≤◌, ◌<◌, compare, Ordering}
use mathlib.Core.Path.{◌≡◌}
use mathlib.Core.Bool.{Bool, true, false}
use native.Mathlib.Omega.{arith}

-- `negsuc n` is -(n + 1).
pub data ℤ : Type 0 where
  pos : ℕ → ℤ
  negsuc : ℕ → ℤ

abbrev pub pos_part : ℤ → ℕ
pos_part (pos n) = n
pos_part (negsuc n) = 0

abbrev pub neg_part : ℤ → ℕ
neg_part (pos n) = 0
neg_part (negsuc n) = suc n

abbrev if_le : ℕ → ℕ → ℤ → ℤ → ℤ
if_le a b x y = elim (compare a b) [ Ordering.gt ↦ y | _ ↦ x ]

-- a - b, as an integer.
abbrev pub sub_ℕ : ℕ → ℕ → ℤ
sub_ℕ a b = if_le b a (pos (a - b)) (negsuc (b - a - 1))

infixl 65 ◌+ℤ◌ ◌-ℤ◌
infix 50 ◌≤ℤ◌ ◌<ℤ◌
unfoldable pub ◌+ℤ◌ : ℤ → ℤ → ℤ
a +ℤ b = sub_ℕ (pos_part a + pos_part b) (neg_part a + neg_part b)

unfoldable pub ◌-ℤ◌ : ℤ → ℤ → ℤ
a -ℤ b = sub_ℕ (pos_part a + neg_part b) (neg_part a + pos_part b)

infixl 70 ◌*ℤ◌
unfoldable pub ◌*ℤ◌ : ℤ → ℤ → ℤ
a *ℤ b =
    sub_ℕ (pos_part a * pos_part b + neg_part a * neg_part b)
      (pos_part a * neg_part b + neg_part a * pos_part b)

-- The negative of a number.
unfoldable pub neg : ℤ → ℤ
neg a = sub_ℕ (neg_part a) (pos_part a)

-- The absolute value.
abbrev pub magnitude : ℤ → ℕ
magnitude a = pos_part a + neg_part a

abbrev pub ◌≤ℤ◌ : ℤ → ℤ → Type 0
a ≤ℤ b = pos_part a + neg_part b ≤ pos_part b + neg_part a

abbrev pub ◌<ℤ◌ : ℤ → ℤ → Type 0
a <ℤ b = pos_part a + neg_part b < pos_part b + neg_part a

abbrev pub leb_ℤ : ℤ → ℤ → Bool
leb_ℤ a b = elim (compare (pos_part a + neg_part b) (pos_part b + neg_part a)) [
  | Ordering.gt ↦ false
  | _ ↦ true
]

abbrev pub ltb_ℤ : ℤ → ℤ → Bool
ltb_ℤ a b = elim (compare (pos_part a + neg_part b) (pos_part b + neg_part a)) [
  | Ordering.lt ↦ true
  | _ ↦ false
]

abbrev pub eqb_ℤ : ℤ → ℤ → Bool
eqb_ℤ a b = elim (compare (pos_part a + neg_part b) (pos_part b + neg_part a)) [
  | Ordering.eq ↦ true
  | _ ↦ false
]

-- `std::min` and `std::max`.
abbrev pub min_ℤ : ℤ → ℤ → ℤ
min_ℤ a b = elim (ltb_ℤ b a) [ true ↦ b | false ↦ a ]

abbrev pub max_ℤ : ℤ → ℤ → ℤ
max_ℤ a b = elim (ltb_ℤ a b) [ true ↦ b | false ↦ a ]

-- The value of `x` as an unsigned integer with `m` values: `static_cast<uintN_t>(x)`.
abbrev pub to_unsigned : ℕ → ℤ → ℕ
to_unsigned m (pos n) = n % m
to_unsigned m (negsuc n) = m - 1 - n % m

-- The value of an unsigned `x` below `m` as a signed integer with `m` values.
abbrev pub to_signed : ℕ → ℕ → ℤ
to_signed m x = if_le (m / 2) x (negsuc (m - x - 1)) (pos x)

abbrev pub IsInt : ℕ → ℤ → Type 0
IsInt h x = (pos_part x < h) × (neg_part x ≤ h)

abbrev pub IsInt16 : ℤ → Type 0
IsInt16 = IsInt (2 ^ 15)

abbrev pub IsInt32 : ℤ → Type 0
IsInt32 = IsInt (2 ^ 31)

pub +ℤ_parts :
    (a b : ℤ)
    → pos_part (a +ℤ b) + neg_part a + neg_part b ≡ neg_part (a +ℤ b) + pos_part a + pos_part b
unfolding ◌+ℤ◌
+ℤ_parts a b = ground arith

pub -ℤ_parts :
    (a b : ℤ)
    → pos_part (a -ℤ b) + neg_part a + pos_part b ≡ neg_part (a -ℤ b) + pos_part a + neg_part b
unfolding ◌-ℤ◌
-ℤ_parts a b = ground arith

pub neg_parts : (a : ℤ) → pos_part (neg a) + pos_part a ≡ neg_part (neg a) + neg_part a
unfolding neg
neg_parts a = ground arith

pub eq_of_parts : (a b : ℤ) → pos_part a + neg_part b ≡ pos_part b + neg_part a → a ≡ b
eq_of_parts a b h = ground arith

pub ruleset int_laws = (arith, +ℤ_parts, -ℤ_parts, neg_parts, eq_of_parts)

pub to_signed-to_unsigned32 : (x : ℤ) → IsInt32 x → to_signed (2 ^ 32) (to_unsigned (2 ^ 32) x) ≡ x
to_signed-to_unsigned32 x h = ground arith

pub to_unsigned-to_signed32 : (x : ℕ) → x < 2 ^ 32 → to_unsigned (2 ^ 32) (to_signed (2 ^ 32) x) ≡ x
to_unsigned-to_signed32 x h = ground arith

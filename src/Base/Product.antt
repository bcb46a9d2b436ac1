-- ===== src/Base/Product.antt =====
-- Products of signed integers: how they follow the order of their factors; and the order of
-- quotients.
use linux_dev_env.Base.Int.{
  ℤ, pos, negsuc, pos_part, neg_part, ◌+ℤ◌, ◌-ℤ◌, ◌*ℤ◌, ◌≤ℤ◌, ◌<ℤ◌, eqb_ℤ, eq_of_parts, +ℤ_parts,
  -ℤ_parts, int_laws,
}
use Prim.Native.Nat.{ℕ, zero, suc, ◌+◌, ◌*◌, ◌/◌, ◌≤◌, ◌<◌}
use mathlib.Core.Path.{◌≡◌, ap, ◌∙◌}
use mathlib.Core.Bool.{true}
use mathlib.Core.Logic.{◌⊎◌}
use native.Mathlib.Omega.{arith}
use native.Mathlib.Nat.{mul-le-mul_left, le-div_iff_mul-le, div-mul-le_self}

pub *ℤ_parts :
    (a b : ℤ)
    → pos_part (a *ℤ b) + (pos_part a * neg_part b + neg_part a * pos_part b)
      ≡ neg_part (a *ℤ b) + (pos_part a * pos_part b + neg_part a * neg_part b)
unfolding ◌*ℤ◌
*ℤ_parts a b = ground arith

pub one_times : (a : ℤ) → pos 1 *ℤ a ≡ a
one_times a = eq_of_parts (pos 1 *ℤ a) a (omega (arith, *ℤ_parts (pos 1) a))

pub *ℤ_comm : (a b : ℤ) → a *ℤ b ≡ b *ℤ a
*ℤ_comm a b = eq_of_parts (a *ℤ b) (b *ℤ a) (omega (arith, *ℤ_parts a b, *ℤ_parts b a))

-- A product by a number of known sign keeps or turns the order.
pub *ℤ-le : (a b m : ℤ) → a ≤ℤ b → pos 0 ≤ℤ m → (a *ℤ m) ≤ℤ (b *ℤ m)
*ℤ-le a b (pos k) h p = omega (arith, *ℤ_parts a (pos k), *ℤ_parts b (pos k), mul-le-mul_left k h)
*ℤ-le a b (negsuc k) h p = absurd (omega arith)

pub *ℤ-ge : (a b m : ℤ) → a ≤ℤ b → m ≤ℤ pos 0 → (b *ℤ m) ≤ℤ (a *ℤ m)
*ℤ-ge a b (pos zero) h p = omega (arith, *ℤ_parts a (pos 0), *ℤ_parts b (pos 0))
*ℤ-ge a b (pos (suc k)) h p = absurd (omega arith)
*ℤ-ge a b (negsuc k) h p =
    omega (arith, *ℤ_parts a (negsuc k), *ℤ_parts b (negsuc k), mul-le-mul_left (suc k) h)

-- The signs of a product by a positive and by a negative number.
pub *ℤ_pos : (a m : ℤ) → pos 0 <ℤ a → pos 0 <ℤ m → pos 0 <ℤ (a *ℤ m)
*ℤ_pos (pos (suc n)) (pos (suc k)) h p = omega (arith, *ℤ_parts (pos (suc n)) (pos (suc k)))
*ℤ_pos (pos zero) m h p = absurd (omega arith)
*ℤ_pos (negsuc n) m h p = absurd (omega arith)
*ℤ_pos a (pos zero) h p = absurd (omega arith)
*ℤ_pos a (negsuc k) h p = absurd (omega arith)

pub *ℤ_neg : (a m : ℤ) → a <ℤ pos 0 → pos 0 <ℤ m → (a *ℤ m) <ℤ pos 0
*ℤ_neg (negsuc n) (pos (suc k)) h p = omega (arith, *ℤ_parts (negsuc n) (pos (suc k)))
*ℤ_neg (pos n) m h p = absurd (omega arith)
*ℤ_neg a (pos zero) h p = absurd (omega arith)
*ℤ_neg a (negsuc k) h p = absurd (omega arith)

pub *ℤ_of_neg : (a m : ℤ) → a <ℤ pos 0 → m <ℤ pos 0 → pos 0 <ℤ (a *ℤ m)
*ℤ_of_neg (negsuc n) (negsuc k) h p = omega (arith, *ℤ_parts (negsuc n) (negsuc k))
*ℤ_of_neg (pos n) m h p = absurd (omega arith)
*ℤ_of_neg a (pos k) h p = absurd (omega arith)

pub zero_mul : (a : ℤ) → a *ℤ pos 0 ≡ pos 0
zero_mul a = eq_of_parts (a *ℤ pos 0) (pos 0) (omega (arith, *ℤ_parts a (pos 0)))

pub *ℤ_zero : (a m : ℤ) → m ≡ pos 0 → a *ℤ m ≡ pos 0
*ℤ_zero a m e = rw e (zero_mul a)

pub leb_total : (a b : ℤ) → (a ≤ℤ b) ⊎ (b ≤ℤ a)
leb_total a b = ground arith

-- A quotient follows the order of the dividends.
pub div_le : (p n k : ℕ) → 0 < k → p ≤ n → p / k ≤ n / k
div_le p n k h l = (le-div_iff_mul-le h).1 (omega (arith, div-mul-le_self p k))

-- Sums, differences and products of products.
pub add_mul : (a b s : ℤ) → (a +ℤ b) *ℤ s ≡ a *ℤ s +ℤ b *ℤ s
add_mul a b s = eq_of_parts _ _ (
    omega (
      arith,
      *ℤ_parts (a +ℤ b) s,
      *ℤ_parts a s,
      *ℤ_parts b s,
      +ℤ_parts (a *ℤ s) (b *ℤ s),
      ap (λ x. x * pos_part s) (+ℤ_parts a b),
      ap (λ x. x * neg_part s) (+ℤ_parts a b),
    ))

pub sub_mul : (a b s : ℤ) → (a -ℤ b) *ℤ s ≡ a *ℤ s -ℤ b *ℤ s
sub_mul a b s = eq_of_parts _ _ (
    omega (
      arith,
      *ℤ_parts (a -ℤ b) s,
      *ℤ_parts a s,
      *ℤ_parts b s,
      -ℤ_parts (a *ℤ s) (b *ℤ s),
      ap (λ x. x * pos_part s) (-ℤ_parts a b),
      ap (λ x. x * neg_part s) (-ℤ_parts a b),
    ))

pub mul_assoc : (c k s : ℤ) → (c *ℤ k) *ℤ s ≡ (c *ℤ s) *ℤ k
mul_assoc c k s = eq_of_parts _ _ (
    omega (
      arith,
      *ℤ_parts (c *ℤ k) s,
      *ℤ_parts (c *ℤ s) k,
      ap (λ x. x * pos_part s) (*ℤ_parts c k),
      ap (λ x. x * neg_part s) (*ℤ_parts c k),
      ap (λ x. x * pos_part k) (*ℤ_parts c s),
      ap (λ x. x * neg_part k) (*ℤ_parts c s),
    ))

pub add_step : (d x y z w : ℤ) → x +ℤ y ≡ z +ℤ w → (d +ℤ x) +ℤ y ≡ (d +ℤ z) +ℤ w
add_step d x y z w h = omega (int_laws, ap pos_part h, ap neg_part h)

pub plus_step : (x y z w m : ℤ) → x +ℤ y ≡ z +ℤ (y +ℤ w) → x +ℤ m ≡ z +ℤ (w +ℤ m)
plus_step x y z w m h = omega (int_laws, ap pos_part h, ap neg_part h)

pub minus_step : (x y z w m : ℤ) → x +ℤ y ≡ z +ℤ (y -ℤ w) → x -ℤ m ≡ z -ℤ (w +ℤ m)
minus_step x y z w m h = omega (int_laws, ap pos_part h, ap neg_part h)

pub variable_step : (x y z w m : ℤ) → x +ℤ y ≡ z +ℤ (y -ℤ w) → x +ℤ m ≡ (z +ℤ m) -ℤ w
variable_step x y z w m h = omega (int_laws, ap pos_part h, ap neg_part h)

pub zero_add : (a : ℤ) → pos 0 +ℤ a ≡ a
zero_add a = omega int_laws

pub zero_times : (c s : ℤ) → eqb_ℤ c (pos 0) ≡ true → c *ℤ s ≡ pos 0
zero_times c s e = *ℤ_comm c s ∙ *ℤ_zero s c (eq_of_parts c (pos 0) (ground (arith, e)))

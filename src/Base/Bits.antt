-- ===== src/Base/Bits.antt =====
-- `bit_or` of a shifted number and a number that fits below the shift is their sum, and the lowest
-- bit of a number is its remainder by 2.
use Prim.Native.Nat.{
  ℕ, zero, suc, ◌+◌, ◌-◌, ◌*◌, ◌/◌, ◌%◌, ◌^◌, ◌≤◌, ◌<◌, min, max, bit_and, bit_or, digits, bitwise,
  bit_and-bitwise, bit_or-bitwise,
}
use mathlib.Core.Path.{◌≡◌, refl, sym, ap, ◌∙◌}
use mathlib.Core.Logic.{◌⊎◌, inl, inr}
use native.Mathlib.Nat.{pow-suc, div-add-mod, mod-lt, mod-eq_of_lt, mul-add-mod_self_left}
use native.Mathlib.Omega.{arith}

at_most_suc : (x n : ℕ) → x ≤ suc n → (x ≤ n) ⊎ (x ≡ suc n)
at_most_suc x n h = ground arith

module _ (rest : ℕ → ℕ) (both : ℕ → ℕ → ℕ) where
  -- One more step changes nothing once there are as many steps as the number.
  one_more : (n x y : ℕ) → x ≤ n → digits rest both (suc n) x y ≡ digits rest both n x y
  one_more zero zero y h = refl
  one_more zero (suc x) y h = absurd (omega arith)
  one_more (suc n) zero y h = refl
  one_more (suc n) (suc x) y h = omega (arith, one_more n (suc x / 2) (y / 2) (omega arith))

  -- So as many steps as the number are as good as any.
  all_steps : (n x y : ℕ) → x ≤ n → digits rest both n x y ≡ bitwise rest both x y
  all_steps zero zero y h = refl
  all_steps zero (suc x) y h = absurd (omega arith)
  all_steps (suc n) x y h = elim (at_most_suc x n h) [
    | inl below ↦ omega (arith, one_more n x y below, all_steps n x y below)
    | inr same ↦ rw same refl
  ]

  lowest_digit :
      (x y : ℕ)
      → bitwise rest both (suc x) y
        ≡ bitwise rest both (suc x / 2) (y / 2) * 2 + both (suc x % 2) (y % 2)
  lowest_digit x y = omega (arith, all_steps x (suc x / 2) (y / 2) (omega arith))

or_with_zero : (n x : ℕ) → x ≤ n → bitwise (λ y. y) max x 0 ≡ x
or_with_zero n zero h = refl
or_with_zero zero (suc x) h = absurd (omega arith)
or_with_zero (suc n) (suc x) h =
    omega (arith, lowest_digit (λ y. y) max x 0, or_with_zero n (suc x / 2) (omega arith))

pub bit_or-zero : (x : ℕ) → bit_or x 0 ≡ x
bit_or-zero x = bit_or-bitwise x 0 ∙ or_with_zero x x (omega arith)

or_lowest : (x y : ℕ) → bit_or x y ≡ bit_or (x / 2) (y / 2) * 2 + max (x % 2) (y % 2)
or_lowest zero y = omega (arith, bit_or-bitwise 0 y, bit_or-bitwise 0 (y / 2))
or_lowest (suc x) y = omega (
  arith,
  bit_or-bitwise (suc x) y ∙ lowest_digit (λ y. y) max x y,
  bit_or-bitwise (suc x / 2) (y / 2),
)

-- Bits below the shift do not meet the shifted number.
pub bit_or_disjoint : (k q r : ℕ) → r < 2 ^ k → bit_or (q * 2 ^ k) r ≡ q * 2 ^ k + r
bit_or_disjoint zero q r h = ground (arith, bit_or-zero q)
bit_or_disjoint (suc k) q r h = ground (
  arith,
  or_lowest (q * 2 ^ suc k) r,
  ap (λ (t : ℕ). q * t) (pow-suc 2 k),
  pow-suc 2 k,
  bit_or_disjoint k q (r / 2) (omega (arith, pow-suc 2 k)),
)

and_with_zero : (n x : ℕ) → x ≤ n → bitwise (λ _. 0) min x 0 ≡ 0
and_with_zero n zero h = refl
and_with_zero zero (suc x) h = absurd (omega arith)
and_with_zero (suc n) (suc x) h =
    omega (arith, lowest_digit (λ _. 0) min x 0, and_with_zero n (suc x / 2) (omega arith))

-- The lowest bit.
pub bit_and-one : (x : ℕ) → bit_and x 1 ≡ x % 2
bit_and-one zero = bit_and-bitwise 0 1
bit_and-one (suc x) = omega (
  arith,
  bit_and-bitwise (suc x) 1 ∙ lowest_digit (λ _. 0) min x 1,
  and_with_zero (suc x / 2) (suc x / 2) (omega arith),
)

-- A mask with the lowest bit keeps the parity.
pub bit_and_parity : (x m : ℕ) → bit_and x (m * 2 + 1) % 2 ≡ x % 2
bit_and_parity zero m = omega (arith, bit_and-bitwise 0 (m * 2 + 1))
bit_and_parity (suc x) m =
    omega (arith, bit_and-bitwise (suc x) (m * 2 + 1) ∙ lowest_digit (λ _. 0) min x (m * 2 + 1))

and_lowest : (x y : ℕ) → bit_and x y ≡ bit_and (x / 2) (y / 2) * 2 + min (x % 2) (y % 2)
and_lowest zero y = omega (arith, bit_and-bitwise 0 y, bit_and-bitwise 0 (y / 2))
and_lowest (suc x) y = omega (
  arith,
  bit_and-bitwise (suc x) y ∙ lowest_digit (λ _. 0) min x y,
  bit_and-bitwise (suc x / 2) (y / 2),
)

-- A remainder by twice a number, by the lowest bit and the rest.
mod_twice : (x m : ℕ) → 0 < m → x % (m * 2) ≡ (x / 2) % m * 2 + x % 2
mod_twice x m h =
    let r = (x / 2) % m * 2 + x % 2 in
    let whole : m * 2 * (x / 2 / m) + r ≡ x = grind (arith, div-add-mod (x / 2) m) in
    let small : r < m * 2 = grind (arith, mod-lt (x / 2) h) in
    ap (λ y. y % (m * 2)) (sym whole)
    ∙ (mul-add-mod_self_left (m * 2) (x / 2 / m) r ∙ mod-eq_of_lt small)

pub pow_pos : (k : ℕ) → 0 < 2 ^ k
pow_pos zero = omega arith
pow_pos (suc k) = omega (arith, pow_pos k, pow-suc 2 k)

and_zero : (n x : ℕ) → x ≤ n → bit_and x 0 ≡ 0
and_zero n x h = bit_and-bitwise x 0 ∙ and_with_zero n x h

-- A mask of the lowest bits keeps the remainder.
pub bit_and_mask : (k x : ℕ) → bit_and x (2 ^ k - 1) ≡ x % 2 ^ k
bit_and_mask zero x = omega (arith, and_zero x x (omega arith))
bit_and_mask (suc k) x =
    let p = pow_pos k in
    let e : 2 ^ suc k ≡ 2 ^ k * 2 = omega (arith, pow-suc 2 k) in
    let half : (2 ^ k * 2 - 1) / 2 ≡ 2 ^ k - 1 = omega (arith, p) in
    let odd : (2 ^ k * 2 - 1) % 2 ≡ 1 = omega (arith, p) in
    rw e (
      and_lowest x (2 ^ k * 2 - 1)
      ∙ rw half (rw odd (omega (arith, bit_and_mask k (x / 2), mod_twice x (2 ^ k) p))))

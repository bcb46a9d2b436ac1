-- ===== src/Interval/Remainder/Numbers.antt =====
-- The remainder of division towards 0: verifiers/prevail/src/crab_utils/num_big.hpp.
use linux_dev_env.Base.{zero, suc, ◌≤◌, ◌<◌, ◌≡◌, ◌≢◌, refl, arith}
use linux_dev_env.Base.Int.{ℤ, pos, negsuc, pos_part, neg_part, magnitude, ◌≤ℤ◌}
use native.Mathlib.Nat.{mod-lt, mod-le, mod-eq_of_lt}
use linux_dev_env.Number.{truncated_remainder}

magnitude_pos : (b : ℤ) → b ≢ pos 0 → 0 < magnitude b
magnitude_pos (pos zero) h = absurd (h refl)
magnitude_pos (pos (suc n)) h = omega arith
magnitude_pos (negsuc n) h = omega arith

-- The parts of a remainder are no max_ℤ than those of the dividend, and less than the divisor.
pub remainder_parts :
    (a b : ℤ)
    → b ≢ pos 0
    → (pos_part (truncated_remainder a b) ≤ pos_part a)
      × (neg_part (truncated_remainder a b) ≤ neg_part a)
      × (magnitude (truncated_remainder a b) < magnitude b)
remainder_parts a b h =
    let m = magnitude b in
    let m_pos = magnitude_pos b h in
    let p = mod-le (pos_part a) m in
    let q = mod-le (neg_part a) m in
    let r = mod-lt (pos_part a) m_pos in
    let s = mod-lt (neg_part a) m_pos in
    (ground (arith, p, q, r, s), ground (arith, p, q, r, s), ground (arith, p, q, r, s))

-- A dividend that is less than the divisor is its own remainder.
pub remainder_small : (a b : ℤ) → magnitude a < magnitude b → truncated_remainder a b ≡ a
remainder_small (pos n) b h = ground (arith, mod-eq_of_lt {n = n} {m = magnitude b})
remainder_small (negsuc n) b h = ground (arith, mod-eq_of_lt {n = suc n} {m = magnitude b})

module _ (a b : ℤ) (n : b ≢ pos 0) where
  pub keeps_not_negative : pos 0 ≤ℤ a → pos 0 ≤ℤ truncated_remainder a b
  keeps_not_negative k = let p = remainder_parts a b n in ground (arith, p.0, p.1, p.2)

  pub keeps_not_positive : a ≤ℤ pos 0 → truncated_remainder a b ≤ℤ pos 0
  keeps_not_positive k = let p = remainder_parts a b n in ground (arith, p.0, p.1, p.2)

  pub remainder_le : pos 0 ≤ℤ a → truncated_remainder a b ≤ℤ a
  remainder_le k = let p = remainder_parts a b n in ground (arith, p.0, p.1, p.2)

  pub le_remainder : a ≤ℤ pos 0 → a ≤ℤ truncated_remainder a b
  le_remainder k = let p = remainder_parts a b n in ground (arith, p.0, p.1, p.2)

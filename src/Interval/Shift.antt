-- ===== src/Interval/Shift.antt =====
-- Shifts of intervals: verifiers/prevail/src/crab/interval.cpp.
use linux_dev_env.Base.{
  ℕ, zero, suc, ◌/◌, ◌^◌, ◌<◌, ◌≤◌, ◌≡◌, refl, ap, inl, inr, true, false, ◌||◌, some, Bool-cases,
  Option-cases, arith,
}
use linux_dev_env.Base.Int
use linux_dev_env.Base.Int.{ℤ, pos, negsuc, pos_part, ◌*ℤ◌, leb_ℤ, ltb_ℤ}
use linux_dev_env.Base.Product.{div_le}
use linux_dev_env.Base.Bits.{pow_pos}
use linux_dev_env.Outcome.{ok}
use linux_dev_env.Outcome.Inversion.{if-returns}
use linux_dev_env.Number.{CppInt, fits, shift_right}
use linux_dev_env.Bound
use linux_dev_env.Bound.{Bound, finite, number}
use linux_dev_env.Bound.Order.{at_least, at_most, finite-IsNormal}
use linux_dev_env.Interval.{Interval, top, is_bottom, singleton, singleton_of, pair_number, range}
use linux_dev_env.Interval.Lattice.{Has, IsValid, Has-not_bottom, Has-interval_t}
use linux_dev_env.Interval.Multiplication.{Has-mul}
use linux_dev_env.Interval.Bitwise.{shift_factor, shl, lshr, lshr_by}

pub shift_factor_lem : (k : ℕ) → shift_factor k ≡ 2 ^ k
unfolding shift_factor
shift_factor_lem zero = omega arith
shift_factor_lem (suc k) = omega (arith, shift_factor_lem k)

pub top-Has : (z : ℤ) → Has top z
unfolding at_least at_most
top-Has z = (refl, refl)

pub singleton_of-IsValid : (n : ℤ) → IsValid (singleton_of n)
singleton_of-IsValid n = record { lb = finite-IsNormal n; ub = finite-IsNormal n }

pub singleton_of-Has : (n : ℤ) → Has (singleton_of n) n
unfolding at_least at_most
singleton_of-Has n = (ground arith, ground arith)

-- The number of a singleton is the only one.
pub singleton-Has : (x : Interval) (b c : ℤ) → singleton x ≡ some c → Has x b → c ≡ b
unfolding singleton Bound.eq number at_least at_most
singleton-Has x b c e h = ground arith

shift_right_ok :
    (cpp : CppInt) (p k : ℕ) → k < 2 ^ 31 → shift_right cpp (pos p) (pos k) ≡ ok (pos (p / 2 ^ k))
unfolding shift_right fits Int.neg
shift_right_ok cpp p k h = ground (arith, cpp.shift_right_lem p k)

lshr_by_lem :
    (cpp : CppInt) (i : Interval) (p q k : ℕ)
    → i.lb ≡ finite (pos p)
    → i.ub ≡ finite (pos q)
    → k < 2 ^ 31
    → lshr_by cpp i (pos k) ≡ ok (range (pos (p / 2 ^ k)) (pos (q / 2 ^ k)))
unfolding lshr_by pair_number number
lshr_by_lem cpp i p q k lb ub h =
    rw lb (rw ub (rw (shift_right_ok cpp p k h) (rw (shift_right_ok cpp q k h) refl)))

finite_between :
    {p q n : ℕ}
    → p ≤ n
    → n ≤ q
    → (at_least (finite (pos p)) (pos n) ≡ true) × (at_most (finite (pos q)) (pos n) ≡ true)
unfolding at_least at_most
finite_between h k = (ground arith, ground arith)

module _ (i x : Interval) (a : ℤ) (k : ℕ) (v : IsValid i) (w : IsValid x) (h : Has i a)
    (g : Has x (pos k)) where
  both_full : (is_bottom i || is_bottom x) ≡ false
  both_full = ground (arith, Has-not_bottom i a v h, Has-not_bottom x (pos k) w g)

  -- Where an interval has the number a and another the shift k, shifting the first left by the
  -- second gives an interval that has a * 2 ^ k.
  pub Has-shl : Has (shl i x) (a *ℤ pos (2 ^ k))
  unfolding shl
  Has-shl = rw both_full (elim (Option-cases (singleton x)) [
    | inl e ↦ rw e (top-Has _)
    | inr (c, e) ↦ rw e (elim (Bool-cases (ltb_ℤ c (pos 0) || ltb_ℤ (pos 128) c)) [
      | inl f ↦ rw f (top-Has _)
      | inr f ↦ rw f (
          rw (singleton-Has x (pos k) c e g) (
            rw (shift_factor_lem k) (
              Has-mul i (singleton_of (pos (2 ^ k))) v (singleton_of-IsValid _) a _ h
                (singleton_of-Has _))))
    ])
  ])

  -- The bounds of the code's test, as numbers.
  lower_number : Bound.ge i.lb (finite (pos 0)) ≡ true → i.lb ≡ finite (pos (pos_part i.lb.n))
  unfolding Bound.ge at_least
  lower_number e = ground (arith, v.lb.unit)

  upper_number :
      (n : ℕ) → a ≡ pos n → i.ub.is_infinite ≡ false → i.ub ≡ finite (pos (pos_part i.ub.n))
  unfolding at_most
  upper_number n f e = ground arith

  lower_le : (n : ℕ) → a ≡ pos n → i.lb.is_infinite ≡ false → pos_part i.lb.n ≤ n
  unfolding at_least
  lower_le n f e = ground arith

  le_upper : (n : ℕ) → a ≡ pos n → i.ub.is_infinite ≡ false → n ≤ pos_part i.ub.n
  unfolding at_most
  le_upper n f e = ground arith

  range-Has :
      (p q n : ℕ)
      → p ≤ n
      → n ≤ q
      → Has (range (pos (p / 2 ^ k)) (pos (q / 2 ^ k))) (pos (n / 2 ^ k))
  range-Has p q n lo hi =
      (Has-interval_t _ _ _ (finite-IsNormal _) (finite-IsNormal _)).1
        (finite_between (div_le p n (2 ^ k) (pow_pos k) lo) (div_le n q (2 ^ k) (pow_pos k) hi))

  lshr_by-Has :
      (cpp : CppInt) (n : ℕ) (c : ℤ)
      → a ≡ pos n
      → k < 2 ^ 31
      → c ≡ pos k
      → Bound.ge i.lb (finite (pos 0)) ≡ true
      → i.ub.is_infinite ≡ false
      → (r : Interval) × (lshr_by cpp i c ≡ ok r) × Has r (pos (n / 2 ^ k))
  lshr_by-Has cpp n c e small same low high =
      let lb = lower_number low in
      let ub = upper_number n e high in
      rw same (
        _,
        lshr_by_lem cpp i _ _ k lb ub small,
        range-Has (pos_part i.lb.n) (pos_part i.ub.n) n (lower_le n e (ap (λ b. b.is_infinite) lb))
            (le_upper n e high),
      )

  -- Where an interval has the number a, not negative, and another the shift k that an int32_t holds,
  -- shifting the first right by the second throws nothing and gives an interval that has a / 2 ^ k.
  Has-lshr :
      (cpp : CppInt) (n : ℕ)
      → a ≡ pos n
      → k < 2 ^ 31
      → (r : Interval) × (lshr cpp i x ≡ ok r) × Has r (pos (n / 2 ^ k))
  unfolding lshr
  Has-lshr cpp n e small = rw both_full (elim (Option-cases (singleton x)) [
    | inl f ↦ rw f (top, refl, top-Has _)
    | inr (c, f) ↦ rw f (
        if-returns _ (lshr_by cpp i c) (ok top)
          (λ t.
            lshr_by-Has cpp n c e small (singleton-Has x (pos k) c f g) (ground (arith, t))
              (ground (arith, t)))
          (λ t. (top, refl, top-Has _)))
  ])

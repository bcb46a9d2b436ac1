-- ===== src/Interval/Mask.antt =====
-- `And` with an interval that has the mask of 64 bits: verifiers/prevail/src/crab/interval.cpp.
use linux_dev_env.Base.{ℕ, ◌-◌, ◌^◌, ◌<◌, ◌≡◌, refl, ap, ◌∙◌, true, false, ◌||◌, none, arith}
use linux_dev_env.Base.Int.{ℤ, pos, negsuc, to_unsigned}
use linux_dev_env.Outcome.{ok}
use linux_dev_env.Number.{CppInt, uint}
use linux_dev_env.Bound
use linux_dev_env.Bound.{Bound, finite, number}
use linux_dev_env.Bound.Order.{at_least, at_most}
use linux_dev_env.Interval.{Interval, is_bottom, is_top, eq, le, singleton, singleton_of, contains}
use linux_dev_env.Interval.Lattice.{Has}
use linux_dev_env.Interval.Width.{full, truncate}
use linux_dev_env.Interval.Bitwise.{and, and_bounds}

-- The numbers from l to u.
abbrev pub from_to : ℕ → ℕ → Interval
from_to l u = record { lb = finite (pos l); ub = finite (pos u) }

to_unsigned_one : (a : ℤ) → to_unsigned 1 a ≡ 0
to_unsigned_one (pos a) = omega arith
to_unsigned_one (negsuc a) = omega arith

land_zero : (cpp : CppInt) (a : ℤ) → cpp.land a (pos 0) ≡ pos 0
land_zero cpp a = cpp.land_mask a 0 ∙ ap pos (to_unsigned_one a)

module _ (cpp : CppInt) (l u : ℕ) (x : Interval) (positive : 0 < l) (several : l < u)
    (fits64 : u < 2 ^ 64) (mask : contains x (pos (2 ^ 64 - 1)) ≡ true)
    (zero_in : contains x (pos 0) ≡ true)
    (checked : (is_top x || Bound.ge x.lb (finite (pos 0))) ≡ true) where
  le-full : le (from_to l u) (full (uint 64)) ≡ true
  unfolding le full Bound.gt Bound.le
  le-full = ground arith

  truncate_lem : truncate cpp (uint 64) (from_to l u) ≡ ok (from_to l u)
  unfolding truncate
  truncate_lem = rw le-full refl

  not_bottom : is_bottom x ≡ false
  unfolding contains
  not_bottom = ground arith

  from_to-not_bottom : is_bottom (from_to l u) ≡ false
  unfolding is_bottom Bound.gt Bound.le
  from_to-not_bottom = ground arith

  not_singleton : singleton (from_to l u) ≡ none
  unfolding singleton Bound.gt Bound.eq number
  not_singleton = ground arith

  not_mask32 : eq x (singleton_of (pos (2 ^ 32 - 1))) ≡ false
  unfolding eq contains Bound.eq Bound.le Bound.gt
  not_mask32 = ground arith

  and_bounds_lem : and_bounds cpp (from_to l u) x ≡ ok (from_to l u)
  unfolding and_bounds
  and_bounds_lem = rw (mask, truncate_lem) refl

  and_lem : and cpp (from_to l u) x ≡ ok (from_to l u)
  unfolding and Bound.ge Bound.le
  and_lem =
      ground
        (arith, from_to-not_bottom, not_bottom, not_singleton, not_mask32, and_bounds_lem, checked)

  contains-Has : Has x (pos 0)
  unfolding contains at_least at_most Bound.le is_bottom
  contains-Has = (ground arith, ground arith)

  from_to-Has : Has (from_to l u) (pos l)
  unfolding at_least at_most
  from_to-Has = (ground arith, ground arith)

  zero_out : Has (from_to l u) (pos 0) → ⊥
  unfolding at_least at_most
  zero_out h = ground arith

  -- The bitwise conjunction of an interval from l to u with one that has both 0 and the mask of 64
  -- bits, and no negative number unless it is the whole, loses numbers: it is an interval that has
  -- not the conjunction of some numbers of the two. Here l is above 0, and u above l and below
  -- 2 ^ 64.
  pub and-loses :
      (j : Interval) × (and cpp (from_to l u) x ≡ ok j)
      × (a : ℤ) × (b : ℤ) × Has (from_to l u) a
      × Has x b
      × (Has j (cpp.land a b) → ⊥)
  and-loses = (
    from_to l u,
    and_lem,
    pos l,
    pos 0,
    from_to-Has,
    contains-Has,
    λ h. zero_out (rw (← land_zero cpp (pos l)) h),
  )

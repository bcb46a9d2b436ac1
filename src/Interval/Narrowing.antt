-- ===== src/Interval/Narrowing.antt =====
-- Narrowing: verifiers/prevail/src/crab/interval.hpp.
use linux_dev_env.Base.{◌≡◌, inl, inr, true, not, ◌&&◌, ◌||◌, if◌then◌else◌, Bool-cases, arith}
use linux_dev_env.Base.Int.{ℤ}
use linux_dev_env.Bound.{Bound}
use linux_dev_env.Bound.Order.{IsNormal, at_least, at_most}
use linux_dev_env.Interval.{Interval, le, is_bottom, narrow}
use linux_dev_env.Interval.Lattice.{Has, bottom_empty, IsValid, Has-not_bottom, Has-interval_t}
use linux_dev_env.Interval.Inclusion.{IsProper, le_iff}
use linux_dev_env.Interval.Arithmetic.{bottom-IsProper, interval_t-IsProper}

module _ (i x : Interval) (v : IsValid i) (w : IsValid x) where
  -- The bounds after narrowing.
  narrow_lb : Bound
  narrow_lb = if i.lb.is_infinite && not x.lb.is_infinite then x.lb else i.lb

  narrow_ub : Bound
  narrow_ub = if i.ub.is_infinite && not x.ub.is_infinite then x.ub else i.ub

  narrow_lb-IsNormal : IsNormal narrow_lb
  unfolding narrow_lb
  narrow_lb-IsNormal = record { unit = ground (arith, v.lb.unit) }

  narrow_ub-IsNormal : IsNormal narrow_ub
  unfolding narrow_ub
  narrow_ub-IsNormal = record { unit = ground (arith, v.ub.unit) }

  at_least-narrow_lb : (z : ℤ) → IsProper i → at_least narrow_lb z ≡ true → at_least i.lb z ≡ true
  unfolding narrow_lb at_least
  at_least-narrow_lb z p h = ground (arith, p.lower)

  at_most-narrow_ub : (z : ℤ) → IsProper i → at_most narrow_ub z ≡ true → at_most i.ub z ≡ true
  unfolding narrow_ub at_most
  at_most-narrow_ub z p h = ground (arith, p.upper)

  narrow-Has : (z : ℤ) → IsProper i → Has (narrow i x) z → Has i z
  unfolding narrow narrow_lb narrow_ub
  narrow-Has z p h = ground (
    arith,
    h,
    p.lower,
    p.upper,
    bottom_empty z,
    at_least-narrow_lb z p,
    at_most-narrow_ub z p,
    (Has-interval_t narrow_lb narrow_ub z narrow_lb-IsNormal narrow_ub-IsNormal).0,
  )

  narrow-IsProper : IsProper i → IsProper x → IsProper (narrow i x)
  unfolding narrow
  narrow-IsProper p q = elim (Bool-cases (is_bottom i || is_bottom x)) [
    | inl e ↦ rw e bottom-IsProper
    | inr e ↦ rw e (
        interval_t-IsProper _ _ (record { unit = ground (arith, p.lower, q.lower) })
          (record { unit = ground (arith, p.upper, q.upper) }))
  ]

  Has-narrow_of_both : (z : ℤ) → IsProper i → Has i z → Has x z → Has (narrow i x) z
  unfolding narrow narrow_lb narrow_ub
  Has-narrow_of_both z p h k = ground (
    arith,
    h,
    k,
    Has-not_bottom i z v,
    Has-not_bottom x z w,
    (Has-interval_t narrow_lb narrow_ub z narrow_lb-IsNormal narrow_ub-IsNormal).1,
  )

  -- Where two intervals with no infinity on the wrong side both have a number, the narrowing of the
  -- first by the second is below the first in the order and has the number.
  pub Has-narrow :
      (z : ℤ)
      → IsProper i
      → IsProper x
      → Has i z
      → Has x z
      → (le (narrow i x) i ≡ true) × Has (narrow i x) z
  Has-narrow z p q h k = (
    (le_iff (narrow i x) i (narrow-IsProper p q) v).1 (λ y. narrow-Has y p),
    Has-narrow_of_both z p h k,
  )

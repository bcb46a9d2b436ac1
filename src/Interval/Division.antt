-- ===== src/Interval/Division.antt =====
-- Division of intervals: verifiers/prevail/src/crab/interval.cpp. The operators call themselves at
-- most twice below the first call, once to split the divisor at 0 and once the dividend; the fuel
-- of the model is the depth of the calls.
pub mod Ending
pub mod Termination
pub mod Singleton
use linux_dev_env.Base.{ℕ, zero, suc, Bool, true, false, ◌||◌, Option, none, some, if◌then◌else◌}
use linux_dev_env.Base.Int.{ℤ, pos, negsuc, ltb_ℤ, eqb_ℤ}
use linux_dev_env.Outcome.{Result, ok, err, out_of_fuel, ◌>>=◌}
use linux_dev_env.Number.{CppInt, sint, uint, fits_cast_to, cast_to}
use linux_dev_env.Bound
use linux_dev_env.Bound.{Bound, finite}
use linux_dev_env.Interval.{
  Interval, bottom, interval_t, singleton_of, is_bottom, singleton, contains, join, add, sub,
  min_max,
}

-- `operator/` and the others, on the negative and the positive part of an interval, and what is
-- joined to the two results.
abbrev pub on_parts : (Interval → Result Interval) → Interval → Interval → Result Interval
on_parts f x extra = do
  l ← f (interval_t x.lb (finite (negsuc 0)))
  u ← f (interval_t (finite (pos 1)) x.ub)
  ok (join (join l u) extra)

unfoldable pub make_dividend_when_both_nonzero : Interval → Interval → Result Interval
unfolding add sub
make_dividend_when_both_nonzero dividend divisor =
    if Bound.ge dividend.ub (finite (pos 0))
    then ok dividend
    else if Bound.lt divisor.ub (finite (pos 0))
    then (add dividend divisor >>= λ s. add s (singleton_of (pos 1)))
    else (add dividend (singleton_of (pos 1)) >>= λ s. sub s divisor)

-- The bounds of the quotients of the bounds.
unfoldable pub quotients : (Bound → Bound → Result Bound) → Interval → Interval → Result Interval
unfolding interval_t
quotients f a x = do
  p ← f a.lb x.lb
  q ← f a.lb x.ub
  r ← f a.ub x.lb
  s ← f a.ub x.ub
  ok (min_max p q r s)

-- The last case, where neither interval contains 0.
unfoldable pub divide_nonzero :
    (Bound → Bound → Result Bound) → Interval → Interval → Result Interval
unfolding make_dividend_when_both_nonzero quotients
divide_nonzero f i x = make_dividend_when_both_nonzero i x >>= λ a. quotients f a x

-- The interval of two quotients.
abbrev pub interval_of : Result Bound → Result Bound → Result Interval
interval_of lb ub = do l ← lb; u ← ub; ok (interval_t l u)

module _ (cpp : CppInt) where
  unfoldable pub div_by : Interval → ℤ → Result Interval
  unfolding interval_t
  div_by i c =
      if eqb_ℤ c (pos 1)
      then ok i
      else if ltb_ℤ (pos 0) c
      then interval_of (Bound.div cpp i.lb (finite c)) (Bound.div cpp i.ub (finite c))
      else if ltb_ℤ c (pos 0)
      then interval_of (Bound.div cpp i.ub (finite c)) (Bound.div cpp i.lb (finite c))
      else ok (singleton_of (pos 0))

  -- `operator/`.
  unfoldable pub div : ℕ → Interval → Interval → Result Interval
  unfolding div_by divide_nonzero interval_t is_bottom singleton contains join
  div zero i x = err out_of_fuel
  div (suc fuel) i x = elim (is_bottom i || is_bottom x) [
    | true ↦ ok bottom
    | false ↦ elim (singleton x) [
      | some c ↦ div_by i c
      | none ↦ elim (contains x (pos 0)) [
        | true ↦ on_parts (div fuel i) x (singleton_of (pos 0))
        | false ↦ elim (contains i (pos 0)) [
          | true ↦ on_parts (λ l. div fuel l x) i (singleton_of (pos 0))
          | false ↦ divide_nonzero (Bound.div cpp) i x
        ]
      ]
    ]
  ]

  -- A singleton divisor that fits 64 bits; both bounds are divided by it in this order.
  unfoldable pub sdiv_by : Interval → ℤ → Result Interval
  unfolding interval_t
  sdiv_by i c =
      if eqb_ℤ c (pos 1)
      then ok i
      else if eqb_ℤ c (pos 0)
      then ok (singleton_of (pos 0))
      else interval_of (Bound.div cpp i.lb (finite c)) (Bound.div cpp i.ub (finite c))

  unfoldable pub udiv_by : Interval → ℤ → Result Interval
  unfolding interval_t
  udiv_by i c =
      if eqb_ℤ c (pos 1)
      then ok i
      else if ltb_ℤ (pos 0) c
      then interval_of (Bound.udiv cpp i.lb (finite c)) (Bound.udiv cpp i.ub (finite c))
      else ok (singleton_of (pos 0))

  -- `SDiv` and `UDiv` after the test for a singleton.
  abbrev pub divide_parts :
      (Interval → Interval → Result Interval)
      → (Bound → Bound → Result Bound)
      → Interval
      → Interval
      → Result Interval
  divide_parts again f i x = elim (contains x (pos 0)) [
    | true ↦ on_parts (again i) x (singleton_of (pos 0))
    | false ↦ elim (contains i (pos 0)) [
      | true ↦ on_parts (λ l. again l x) i (singleton_of (pos 0))
      | false ↦ divide_nonzero f i x
    ]
  ]

  unfoldable pub sdiv : ℕ → Interval → Interval → Result Interval
  unfolding sdiv_by divide_nonzero interval_t is_bottom singleton contains join fits_cast_to cast_to
  sdiv zero i x = err out_of_fuel
  sdiv (suc fuel) i x = elim (is_bottom i || is_bottom x) [
    | true ↦ ok bottom
    | false ↦ elim (singleton x) [
      | some n ↦ elim (fits_cast_to (sint 64) n) [
        | true ↦ (cast_to (sint 64) n >>= λ c. sdiv_by i c)
        | false ↦ divide_parts (sdiv fuel) (Bound.div cpp) i x
      ]
      | none ↦ divide_parts (sdiv fuel) (Bound.div cpp) i x
    ]
  ]

  unfoldable pub udiv : ℕ → Interval → Interval → Result Interval
  unfolding udiv_by divide_nonzero interval_t is_bottom singleton contains join fits_cast_to cast_to
  udiv zero i x = err out_of_fuel
  udiv (suc fuel) i x = elim (is_bottom i || is_bottom x) [
    | true ↦ ok bottom
    | false ↦ elim (singleton x) [
      | some n ↦ elim (fits_cast_to (sint 64) n) [
        | true ↦ (cast_to (uint 64) n >>= λ c. udiv_by i c)
        | false ↦ divide_parts (udiv fuel) (Bound.udiv cpp) i x
      ]
      | none ↦ divide_parts (udiv fuel) (Bound.udiv cpp) i x
    ]
  ]

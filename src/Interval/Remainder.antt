-- ===== src/Interval/Remainder.antt =====
-- Remainders of intervals: verifiers/prevail/src/crab/interval.cpp. The fuel is the depth of the
-- calls, as for the divisions.
pub mod Termination
pub mod Numbers
pub mod Soundness
pub mod Signed
use linux_dev_env.Base.{
  ℕ, zero, suc, ◌%◌, Bool, true, false, not, ◌||◌, ◌&&◌, Option, none, some, if◌then◌else◌,
}
use linux_dev_env.Base.Int.{ℤ, min_ℤ, max_ℤ, pos, negsuc, pos_part, ◌-ℤ◌, neg, ltb_ℤ, eqb_ℤ}
use linux_dev_env.Outcome.{Result, ok, err, out_of_fuel, undefined_behaviour, or_throw, ◌>>=◌}
use linux_dev_env.Number.{CppInt, sint, uint, fits_cast_to, cast_to, abs, rem}
use linux_dev_env.Bound
use linux_dev_env.Bound.{finite}
use linux_dev_env.Interval.{
  Interval, bottom, top, interval_t, singleton_of, is_bottom, singleton, contains, join, sub,
  pair_number, range,
}
use linux_dev_env.Interval.Division.{on_parts}

-- `singleton()` of both.
abbrev pub both_singletons : Interval → Interval → Option (ℤ × ℤ)
both_singletons i x = elim (singleton i) [
  | none ↦ none
  | some a ↦ elim (singleton x) [ none ↦ none | some b ↦ some (a, b) ]
]

-- The remainders by a divisor whose magnitude is between two numbers, neither of them 0.
unfoldable pub srem_within : Interval → ℤ → ℤ → Interval
unfolding interval_t
srem_within i smallest largest =
    if Bound.lt i.ub (finite smallest) && Bound.lt (Bound.neg i.lb) (finite smallest)
    then i
    else if Bound.lt i.lb (finite (pos 0))
    then (if Bound.gt i.ub (finite (pos 0))
        then range (neg (largest -ℤ pos 1)) (largest -ℤ pos 1)
        else range (neg (largest -ℤ pos 1)) (pos 0))
    else range (pos 0) (largest -ℤ pos 1)

-- The divisor does not contain 0.
unfoldable pub srem_nonzero : Interval → Interval → Result Interval
unfolding srem_within pair_number join
srem_nonzero i x =
    if not x.ub.is_infinite && not x.lb.is_infinite
    then (do
      (xlb, xub) ← pair_number x
      ok (srem_within i (min_ℤ (abs xlb) (abs xub)) (max_ℤ (abs xlb) (abs xub))))
    else ok (join i (singleton_of (pos 0)))

-- Neither interval contains 0.
unfoldable pub urem_nonzero : Interval → Interval → Result Interval
unfolding join sub cast_to interval_t
urem_nonzero i x =
    if x.lb.is_infinite || x.ub.is_infinite
    then (if Bound.lt i.ub (finite (pos 0))
        then ok top
        else (sub i (singleton_of (pos 1)) >>= λ s. ok (join s (singleton_of (pos 0)))))
    else (do
      low ←
          if i.ub.is_infinite
          then ok false
          else (do u ← cast_to (uint 64) i.ub.n; l ← cast_to (uint 64) x.lb.n; ok (ltb_ℤ u l))
      if low
          then ok i
          else (cast_to (uint 64) x.ub.n >>= λ largest. ok (range (pos 0) (largest -ℤ pos 1))))

module _ (cpp : CppInt) where
  unfoldable pub srem : ℕ → Interval → Interval → Result Interval
  unfolding srem_nonzero rem interval_t is_bottom singleton contains join
  srem zero i x = err out_of_fuel
  srem (suc fuel) i x = elim (is_bottom i || is_bottom x) [
    | true ↦ ok bottom
    | false ↦ elim (both_singletons i x) [
      | some (dividend, divisor) ↦
          if eqb_ℤ divisor (pos 0)
          then ok (singleton_of dividend)
          else (rem cpp dividend divisor >>= λ r. ok (singleton_of r))
      | none ↦ elim (contains x (pos 0)) [
        | true ↦ on_parts (srem fuel i) x i
        | false ↦ srem_nonzero i x
      ]
    ]
  ]

-- The remainder of two numbers that fit 64 bits after a cast.
unfoldable pub urem_numbers : ℤ → ℤ → Result Interval
unfolding cast_to
urem_numbers dividend divisor = if eqb_ℤ divisor (pos 0) then ok (singleton_of dividend) else (do
  a ← cast_to (uint 64) dividend
  b ← cast_to (uint 64) divisor
  ok (singleton_of (pos (pos_part a % pos_part b))))

-- `URem` after the test for two singletons.
abbrev pub urem_parts :
    (Interval → Interval → Result Interval) → Interval → Interval → Result Interval
urem_parts again i x = elim (contains x (pos 0)) [
  | true ↦ on_parts (again i) x i
  | false ↦ elim (contains i (pos 0)) [
    | true ↦ on_parts (λ l. again l x) i i
    | false ↦ urem_nonzero i x
  ]
]

unfoldable pub urem : ℕ → Interval → Interval → Result Interval
unfolding urem_nonzero urem_numbers fits_cast_to interval_t is_bottom singleton contains join
urem zero i x = err out_of_fuel
urem (suc fuel) i x = elim (is_bottom i || is_bottom x) [
  | true ↦ ok bottom
  | false ↦ elim (both_singletons i x) [
    | some (dividend, divisor) ↦
        elim (fits_cast_to (uint 64) dividend && fits_cast_to (uint 64) divisor) [
          | true ↦ urem_numbers dividend divisor
          | false ↦ urem_parts (urem fuel) i x
        ]
    | none ↦ urem_parts (urem fuel) i x
  ]
]

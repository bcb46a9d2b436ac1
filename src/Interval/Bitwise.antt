-- ===== src/Interval/Bitwise.antt =====
-- Bitwise operations and shifts of intervals: verifiers/prevail/src/crab/interval.cpp.
use linux_dev_env.Base.{ℕ, zero, suc, ◌-◌, ◌*◌, ◌^◌, not, ◌||◌, ◌&&◌, none, some, if◌then◌else◌}
use linux_dev_env.Base.Int.{ℤ, pos, pos_part, ◌+ℤ◌, ltb_ℤ, eqb_ℤ}
use linux_dev_env.Outcome.{
  Result, ok, assertion_failed, undefined_behaviour, throw_if, or_throw, ◌>>=◌, ◌>>◌,
}
use linux_dev_env.Number.{CppInt, uint, fits, truncate_to, fill_ones, shift_right}
use linux_dev_env.Bound
use linux_dev_env.Bound.{finite, plus_infinity}
use linux_dev_env.Interval.{
  Interval, bottom, top, interval_t, singleton_of, is_bottom, is_top, eq, singleton, contains,
  pair_number, range, finite_size, mul,
}
use linux_dev_env.Interval.Width.{full, truncate}
use linux_dev_env.Interval.Division.{div}
use linux_dev_env.Interval.Remainder.{both_singletons}

abbrev max_u32 : ℤ
max_u32 = pos (2 ^ 32 - 1)

abbrev max_u64 : ℤ
max_u64 = pos (2 ^ 64 - 1)

-- The loop that doubles `factor`.
unfoldable pub shift_factor : ℕ → ℕ
shift_factor zero = 1
shift_factor (suc turns) = shift_factor turns * 2

unfoldable pub shl : Interval → Interval → Interval
unfolding mul is_bottom singleton shift_factor
shl i x = if is_bottom i || is_bottom x then bottom else elim (singleton x) [
  | none ↦ top
  | some k ↦
      if ltb_ℤ k (pos 0) || ltb_ℤ (pos 128) k
      then top
      else mul i (singleton_of (pos (shift_factor (pos_part k))))
]

module _ (cpp : CppInt) where
  -- `x` is the mask of 32 bits, and the width of the interval is finite.
  unfoldable pub and_mask : Interval → ℤ → Result Interval
  unfolding truncate_to fits full interval_t
  and_mask i width = do
    lb ← or_throw (Bound.number i.lb) undefined_behaviour
    ub ← or_throw (Bound.number i.ub) undefined_behaviour
    let lb32 = truncate_to cpp (uint 32) lb
    let ub32 = truncate_to cpp (uint 32) ub
    ok (
        if fits (uint 32) width
          && (ltb_ℤ lb32 ub32 && eqb_ℤ (lb32 +ℤ truncate_to cpp (uint 32) width) ub32)
        then range lb32 ub32
        else full (uint 32))

  -- Neither is the mask of 32 bits, nor are both singletons.
  unfoldable pub and_bounds : Interval → Interval → Result Interval
  unfolding contains truncate is_top interval_t
  and_bounds i x =
      if contains x max_u64
      then truncate cpp (uint 64) i
      else if not (is_top i) && not (is_top x)
      then ok (interval_t (finite (pos 0)) (Bound.min i.ub x.ub))
      else if not (is_top x)
      then ok (interval_t (finite (pos 0)) x.ub)
      else if not (is_top i)
      then ok (interval_t (finite (pos 0)) i.ub)
      else ok top

  unfoldable pub and : Interval → Interval → Result Interval
  unfolding and_mask and_bounds is_bottom is_top eq singleton full finite_size
  and i x = if is_bottom i || is_bottom x then ok bottom else (do
    throw_if (not (is_top i || Bound.ge i.lb (finite (pos 0)))) assertion_failed
    throw_if (not (is_top x || Bound.ge x.lb (finite (pos 0)))) assertion_failed
    elim (both_singletons i x) [
      | some (left, right) ↦ ok (singleton_of (cpp.land left right))
      | none ↦
          if eq x (singleton_of max_u32)
          then (do
            size ← finite_size i
            elim size [ none ↦ ok (full (uint 32)) | some width ↦ and_mask i width ])
          else and_bounds i x
    ])

  -- `Or` after the test for two singletons.
  unfoldable pub or_bounds : Interval → Interval → Interval
  unfolding fill_ones interval_t
  or_bounds i x =
      if Bound.ge i.lb (finite (pos 0)) && Bound.ge x.lb (finite (pos 0))
      then (if not i.ub.is_infinite && not x.ub.is_infinite
          then range (pos 0) (fill_ones cpp (if ltb_ℤ i.ub.n x.ub.n then x.ub.n else i.ub.n))
          else interval_t (finite (pos 0)) plus_infinity)
      else top

  unfoldable pub or : Interval → Interval → Interval
  unfolding or_bounds is_bottom singleton
  or i x = if is_bottom i || is_bottom x then bottom else elim (both_singletons i x) [
    | some (left, right) ↦ singleton_of (cpp.lor left right)
    | none ↦ or_bounds i x
  ]

  unfoldable pub xor : Interval → Interval → Interval
  unfolding or is_bottom singleton
  xor i x = if is_bottom i || is_bottom x then bottom else elim (both_singletons i x) [
    | some (left, right) ↦ singleton_of (cpp.lxor left right)
    | none ↦ or i x
  ]

  unfoldable pub ashr : ℕ → Interval → Interval → Result Interval
  unfolding div is_bottom singleton shift_factor
  ashr fuel i x = if is_bottom i || is_bottom x then ok bottom else elim (singleton x) [
    | none ↦ ok top
    | some k ↦
        if ltb_ℤ k (pos 0) || ltb_ℤ (pos 128) k
        then ok top
        else div cpp fuel i (singleton_of (pos (shift_factor (pos_part k))))
  ]

  -- `LShr` by a number, of an interval of two numbers.
  unfoldable pub lshr_by : Interval → ℤ → Result Interval
  unfolding shift_right pair_number interval_t
  lshr_by i k = do
    (lb, ub) ← pair_number i
    l ← shift_right cpp lb k
    u ← shift_right cpp ub k
    ok (range l u)

  unfoldable pub lshr : Interval → Interval → Result Interval
  unfolding lshr_by is_bottom singleton
  lshr i x = if is_bottom i || is_bottom x then ok bottom else elim (singleton x) [
    | none ↦ ok top
    | some k ↦
        if ltb_ℤ (pos 0) k && (Bound.ge i.lb (finite (pos 0)) && not i.ub.is_infinite)
        then lshr_by i k
        else ok top
  ]

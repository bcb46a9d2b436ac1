-- ===== src/Interval/Width.antt =====
-- Intervals of the integral types, and truncation to them: verifiers/prevail/src/crab/interval.hpp.
use linux_dev_env.Base.{ℕ, ◌-◌, ◌^◌, ◌||◌, ◌==◌, none, some, if◌then◌else◌}
use linux_dev_env.Base.Int.{pos, negsuc, leb_ℤ}
use linux_dev_env.Outcome.{Result, ok, err, crab_error, undefined_behaviour, or_throw, ◌>>=◌}
use linux_dev_env.Number.{CppInt, Integral, sint, uint, lowest, highest, fits, truncate_to}
use linux_dev_env.Bound
use linux_dev_env.Interval.{Interval, interval_t, range, le, finite_size}

unfoldable pub full : Integral → Interval
unfolding interval_t
full t = range (lowest t) (highest t)

unfoldable pub nonnegative : Integral → Interval
unfolding interval_t
nonnegative t = range (pos 0) (highest t)

unfoldable pub negative : Integral → Interval
unfolding interval_t
negative t = range (lowest t) (negsuc 0)

-- `high<T>`, of the unsigned type of a width.
unfoldable pub high : ℕ → Interval
unfolding interval_t
high w = range (pos (2 ^ (w - 1))) (highest (uint w))

-- The two bounds of a finite interval, truncated, if they stay in order.
unfoldable pub truncate_bounds : CppInt → Integral → Interval → Result Interval
unfolding full truncate_to interval_t
truncate_bounds cpp t i = do
  lb ← or_throw (Bound.number i.lb) undefined_behaviour
  ub ← or_throw (Bound.number i.ub) undefined_behaviour
  let llb = truncate_to cpp t lb
  let lub = truncate_to cpp t ub
  ok (if leb_ℤ llb lub then range llb lub else full t)

unfoldable pub truncate : CppInt → Integral → Interval → Result Interval
unfolding le full finite_size fits truncate_bounds
truncate cpp t i = if le i (full t) then ok i else (do
  size ← finite_size i
  elim size [
    | none ↦ ok (full t)
    | some s ↦ if fits t s then truncate_bounds cpp t i else ok (full t)
  ])

-- The switches on a width, and an error at any other.
abbrev pub at_width : {A : Type 0} → ℕ → Result A → Result A
at_width width r =
    if width == 8 || (width == 16 || (width == 32 || width == 64))
    then r
    else err (crab_error "Invalid width " width)

unfoldable pub truncate_to_sint : CppInt → ℕ → Interval → Result Interval
unfolding truncate
truncate_to_sint cpp width i = at_width width (truncate cpp (sint width) i)

unfoldable pub truncate_to_uint : CppInt → ℕ → Interval → Result Interval
unfolding truncate
truncate_to_uint cpp width i = at_width width (truncate cpp (uint width) i)

unfoldable pub signed_int : ℕ → Result Interval
unfolding full
signed_int width = at_width width (ok (full (sint width)))

unfoldable pub unsigned_int : ℕ → Result Interval
unfolding full
unsigned_int width = at_width width (ok (full (uint width)))

unfoldable pub nonnegative_of : ℕ → Result Interval
unfolding nonnegative
nonnegative_of width = at_width width (ok (nonnegative (sint width)))

unfoldable pub negative_of : ℕ → Result Interval
unfolding negative
negative_of width = at_width width (ok (negative (sint width)))

unfoldable pub unsigned_high : ℕ → Result Interval
unfolding high
unsigned_high width = at_width width (ok (high width))

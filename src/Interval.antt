-- ===== src/Interval.antt =====
-- Intervals of extended numbers: verifiers/prevail/src/crab/interval.hpp and interval.cpp.
pub mod Lattice
pub mod Width
pub mod Inclusion
pub mod Widening
pub mod Narrowing
pub mod Arithmetic
pub mod Multiplication
pub mod Division
pub mod Remainder
pub mod Bitwise
pub mod Shift
pub mod Mask
pub mod Truncation
use linux_dev_env.Base.{
  ℕ, ◌-◌, ◌^◌, Bool, true, false, not, ◌||◌, ◌&&◌, ◌==◌, Option, none, some, if◌then◌else◌,
}
use linux_dev_env.Base.Int.{ℤ, pos, negsuc, leb_ℤ}
use linux_dev_env.Outcome.{
  Result, ok, err, crab_error, crab_message, undefined_behaviour, or_throw, ◌>>=◌,
}
use linux_dev_env.Number.{CppInt, Integral, sint, uint, lowest, highest, fits, truncate_to}
use linux_dev_env.Bound
use linux_dev_env.Bound.{Bound, finite, plus_infinity, minus_infinity}

pub record Interval : Type 0 where
  pub lb : Bound
  pub ub : Bound

abbrev pub bottom : Interval
bottom = record { lb = finite (pos 0); ub = finite (negsuc 0) }

abbrev pub top : Interval
top = record { lb = minus_infinity; ub = plus_infinity }

-- `interval_t(const bound_t&, const bound_t&)`: bounds that cross give the empty interval.
unfoldable pub interval_t : Bound → Bound → Interval
interval_t lb ub = if Bound.gt lb ub then bottom else record { lb = lb; ub = ub }

-- `interval_t(number_t)`.
abbrev pub singleton_of : ℤ → Interval
singleton_of n = record { lb = finite n; ub = finite n }

unfoldable pub is_bottom : Interval → Bool
is_bottom i = Bound.gt i.lb i.ub

unfoldable pub is_top : Interval → Bool
is_top i = i.lb.is_infinite && i.ub.is_infinite

unfoldable pub eq : Interval → Interval → Bool
unfolding is_bottom
eq i x = if is_bottom i then is_bottom x else Bound.eq i.lb x.lb && Bound.eq i.ub x.ub

unfoldable pub le : Interval → Interval → Bool
unfolding is_bottom
le i x =
    if is_bottom i
    then true
    else if is_bottom x
    then false
    else Bound.le x.lb i.lb && Bound.le i.ub x.ub

unfoldable pub join : Interval → Interval → Interval
unfolding is_bottom interval_t
join i x =
    if is_bottom i
    then x
    else if is_bottom x
    then i
    else interval_t (Bound.min i.lb x.lb) (Bound.max i.ub x.ub)

unfoldable pub meet : Interval → Interval → Interval
unfolding is_bottom interval_t
meet i x =
    if is_bottom i || is_bottom x
    then bottom
    else interval_t (Bound.max i.lb x.lb) (Bound.min i.ub x.ub)

unfoldable pub widen : Interval → Interval → Interval
unfolding is_bottom interval_t
widen i x =
    if is_bottom i
    then x
    else if is_bottom x
    then i
    else interval_t (if Bound.lt x.lb i.lb then minus_infinity else i.lb)
        (if Bound.lt i.ub x.ub then plus_infinity else i.ub)

unfoldable pub narrow : Interval → Interval → Interval
unfolding is_bottom interval_t
narrow i x =
    if is_bottom i || is_bottom x
    then bottom
    else interval_t (if i.lb.is_infinite && not x.lb.is_infinite then x.lb else i.lb)
        (if i.ub.is_infinite && not x.ub.is_infinite then x.ub else i.ub)

unfoldable pub add : Interval → Interval → Result Interval
unfolding is_bottom interval_t
add i x =
    if is_bottom i || is_bottom x
    then ok bottom
    else (do lb ← Bound.add i.lb x.lb; ub ← Bound.add i.ub x.ub; ok (interval_t lb ub))

unfoldable pub neg : Interval → Interval
unfolding is_bottom interval_t
neg i = if is_bottom i then bottom else interval_t (Bound.neg i.ub) (Bound.neg i.lb)

unfoldable pub sub : Interval → Interval → Result Interval
unfolding is_bottom interval_t
sub i x =
    if is_bottom i || is_bottom x
    then ok bottom
    else (do lb ← Bound.sub i.lb x.ub; ub ← Bound.sub i.ub x.lb; ok (interval_t lb ub))

-- `std::minmax` of four bounds, as the interval of the two.
abbrev pub min_max : Bound → Bound → Bound → Bound → Interval
min_max a b c d =
    interval_t (Bound.min (Bound.min a b) (Bound.min c d))
      (Bound.max (Bound.max a b) (Bound.max c d))

unfoldable pub mul : Interval → Interval → Interval
unfolding is_bottom interval_t
mul i x =
    if is_bottom i || is_bottom x
    then bottom
    else min_max (Bound.mul i.lb x.lb) (Bound.mul i.lb x.ub) (Bound.mul i.ub x.lb)
        (Bound.mul i.ub x.ub)

unfoldable pub size : Interval → Result Bound
unfolding is_bottom
size i = if is_bottom i then ok (finite (pos 0)) else Bound.sub i.ub i.lb

unfoldable pub finite_size : Interval → Result (Option ℤ)
finite_size i = Bound.sub i.ub i.lb >>= λ b. ok (Bound.number b)

unfoldable pub is_singleton : Interval → Bool
is_singleton i = Bound.eq i.lb i.ub

unfoldable pub singleton : Interval → Option ℤ
unfolding is_bottom
singleton i = if not (is_bottom i) && Bound.eq i.lb i.ub then Bound.number i.lb else none

unfoldable pub contains : Interval → ℤ → Bool
unfolding is_bottom
contains i n = if is_bottom i then false else Bound.le i.lb (finite n) && Bound.le (finite n) i.ub

-- `_lb.number().value()` and `_ub.number().value()`.
unfoldable pub pair_number : Interval → Result (ℤ × ℤ)
pair_number i = do
  lb ← or_throw (Bound.number i.lb) undefined_behaviour
  ub ← or_throw (Bound.number i.ub) undefined_behaviour
  ok (lb, ub)

-- `bound<T>(lb, ub)`: the bounds of the part between two numbers of a type.
unfoldable pub bound : Integral → ℤ → ℤ → Interval → Result (ℤ × ℤ)
unfolding is_bottom interval_t meet Bound.narrow
bound t lb ub i =
    let b = meet (interval_t (finite lb) (finite ub)) i in
    if is_bottom b
    then err (crab_message "Cannot convert bottom to tuple")
    else (do l ← Bound.narrow t b.lb; u ← Bound.narrow t b.ub; ok (l, u))

-- `pair<T>()`.
unfoldable pub pair : Integral → Interval → Result (ℤ × ℤ)
unfolding Bound.narrow
pair t i = do l ← Bound.narrow t i.lb; u ← Bound.narrow t i.ub; ok (l, u)

-- `interval_t(lb, ub)` of two integers.
abbrev pub range : ℤ → ℤ → Interval
range lb ub = interval_t (finite lb) (finite ub)

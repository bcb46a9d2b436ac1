-- ===== src/Tests/Interval.antt =====
-- The theorems on intervals at concrete intervals, and runs of divisions.
use linux_dev_env.Base.Int.{neg}
use linux_dev_env.Number.{fits}
use linux_dev_env.Base.{◌-◌, ◌≤◌, ◌^◌, ◌≡◌, ◌≢◌, ◌↔◌, refl, inl, true, [], ◌∷◌, arith}
use linux_dev_env.Base.Int.{ℤ, pos, negsuc, ◌+ℤ◌, ◌-ℤ◌, ◌*ℤ◌}
use linux_dev_env.Outcome.{ok, err, out_of_fuel, crab_message}
use linux_dev_env.Number.{uint, wrap, truncated_quotient}
use linux_dev_env.Number.Laws.{uint8}
use linux_dev_env.Bound
use linux_dev_env.Bound.{finite, plus_infinity}
use linux_dev_env.Bound.Order.{at_least, at_most}
use linux_dev_env.Interval
use linux_dev_env.Interval.{Interval, bottom, range, singleton_of}
use linux_dev_env.Interval.Lattice.{Has}
use linux_dev_env.Interval.Inclusion.{IsProper, le_iff}
use linux_dev_env.Interval.Widening.{changes, changes_le}
use linux_dev_env.Interval.Bitwise.{and}
use linux_dev_env.Interval.Mask.{from_to, and-loses}
use linux_dev_env.Interval.Narrowing.{Has-narrow}
use linux_dev_env.Interval.Arithmetic.{Has-add-sub}
use linux_dev_env.Interval.Multiplication.{Has-mul}
use linux_dev_env.Interval.Shift.{Has-shl}
use linux_dev_env.Interval.Width.{truncate}
use linux_dev_env.Interval.Truncation.{Has-truncate}
use linux_dev_env.Interval.Bitwise.{shl}
use linux_dev_env.Interval.Division.{div, sdiv, udiv}
use linux_dev_env.Interval.Division.Singleton.{Has-sdiv, sdiv_negative}
use linux_dev_env.Interval.Remainder.{srem, urem}
use linux_dev_env.Interval.Remainder.Signed.{Has-srem, srem_value}
use linux_dev_env.Interval.Remainder.Termination.{operators-ends}
use linux_dev_env.Tests.Digits.{digits}

-- [0, 5], [3, 9] and the numbers from 1 on.
abbrev five : Interval
five = record { lb = finite (pos 0); ub = finite (pos 5) }

abbrev nine : Interval
nine = record { lb = finite (pos 3); ub = finite (pos 9) }

abbrev from_one : Interval
from_one = record { lb = finite (pos 1); ub = plus_infinity }

five-IsProper : IsProper five
five-IsProper = record {
  valid = record { lb = record { unit = λ e. cc }; ub = record { unit = λ e. cc } };
  lower = λ e. cc;
  upper = λ e. cc;
}

nine-IsProper : IsProper nine
nine-IsProper = record {
  valid = record { lb = record { unit = λ e. cc }; ub = record { unit = λ e. cc } };
  lower = λ e. cc;
  upper = λ e. cc;
}

from_one-IsProper : IsProper from_one
from_one-IsProper = record {
  valid = record { lb = record { unit = λ e. cc }; ub = record { unit = λ e. inl refl } };
  lower = λ e. cc;
  upper = λ e. refl;
}

-- The number 1, and [250, 300].
abbrev one : Interval
one = singleton_of (pos 1)

abbrev large : Interval
large = record { lb = finite (pos 250); ub = finite (pos 300) }

one-IsProper : IsProper one
one-IsProper = record {
  valid = record { lb = record { unit = λ e. cc }; ub = record { unit = λ e. cc } };
  lower = λ e. cc;
  upper = λ e. cc;
}

large-IsProper : IsProper large
large-IsProper = record {
  valid = record { lb = record { unit = λ e. cc }; ub = record { unit = λ e. cc } };
  lower = λ e. cc;
  upper = λ e. cc;
}

one-Has : Has one (pos 1)
unfolding at_least at_most
one-Has = (refl, refl)

large-Has : Has large (pos 260)
unfolding at_least at_most
large-Has = (refl, refl)

from_one-Has : Has from_one (pos 4)
unfolding at_least at_most
from_one-Has = (refl, refl)

five-Has : Has five (pos 4)
unfolding at_least at_most
five-Has = (refl, refl)

nine-Has : Has nine (pos 4)
unfolding at_least at_most
nine-Has = (refl, refl)

le_iff_example : (Interval.le nine from_one ≡ true) ↔ ((z : ℤ) → Has nine z → Has from_one z)
le_iff_example = le_iff nine from_one nine-IsProper from_one-IsProper.valid

changes_le_example : changes five (nine ∷ from_one ∷ []) ≤ 3
changes_le_example =
    changes_le five (nine ∷ from_one ∷ []) five-IsProper (nine-IsProper, (from_one-IsProper, tt))

Has-narrow_example :
    (Interval.le (Interval.narrow from_one nine) from_one ≡ true)
    × Has (Interval.narrow from_one nine) (pos 4)
Has-narrow_example =
    Has-narrow from_one nine from_one-IsProper.valid nine-IsProper.valid (pos 4) from_one-IsProper
      nine-IsProper from_one-Has nine-Has

Has-add-sub_example :
    ((r : Interval) × (Interval.add five nine ≡ ok r) × (IsProper r × Has r (pos 4 +ℤ pos 4)))
    × ((r : Interval) × (Interval.sub five nine ≡ ok r) × (IsProper r × Has r (pos 4 -ℤ pos 4)))
Has-add-sub_example =
    Has-add-sub five nine five-IsProper nine-IsProper (pos 4) (pos 4) five-Has nine-Has

Has-mul_example : Has (Interval.mul five nine) (pos 4 *ℤ pos 4)
Has-mul_example =
    Has-mul five nine five-IsProper.valid nine-IsProper.valid (pos 4) (pos 4) five-Has nine-Has

Has-shl_example : Has (shl five nine) (pos 4 *ℤ pos (2 ^ 4))
Has-shl_example =
    Has-shl five nine (pos 4) 4 five-IsProper.valid nine-IsProper.valid five-Has nine-Has

Has-truncate_example :
    (j : Interval) × (truncate digits (uint 8) large ≡ ok j) × Has j (wrap (uint 8) (pos 260))
Has-truncate_example = Has-truncate digits uint8 large (pos 260) large-IsProper large-Has

operators-ends_example :
    (div digits 3 five nine ≢ err out_of_fuel)
    × (sdiv digits 3 five nine ≢ err out_of_fuel)
    × (udiv digits 3 five nine ≢ err out_of_fuel)
    × (srem digits 3 five nine ≢ err out_of_fuel)
    × (urem 3 five nine ≢ err out_of_fuel)
operators-ends_example = operators-ends digits 0 five nine

Has-srem_example :
    (r : Interval) × (srem digits 2 nine five ≡ ok r) × Has r (srem_value (pos 4) (pos 4))
Has-srem_example =
    Has-srem digits nine five (pos 4) (pos 4) nine-IsProper five-IsProper nine-Has five-Has 0

Has-sdiv_example :
    (r : Interval) × (sdiv digits 1 nine (singleton_of (pos 2)) ≡ ok r)
    × Has r (truncated_quotient (pos 4) (pos 2))
unfolding fits neg
Has-sdiv_example = Has-sdiv digits 0 nine (pos 4) 2 nine-IsProper nine-Has (omega arith) refl

sdiv_negative_example : sdiv digits 1 (range (pos 4) (pos 8)) (singleton_of (negsuc 1)) ≡ ok bottom
unfolding fits neg
sdiv_negative_example =
    sdiv_negative digits 0 (pos 4) (pos 8) (negsuc 1) (omega arith) (omega arith) refl (omega arith)

-- A division of two intervals without upper bounds throws.
unbounded_division : sdiv digits 3 from_one from_one ≡ err (crab_message "Bound: inf / inf")
unfolding sdiv Bound.gt Bound.le Bound.eq Bound.ge Bound.div
unbounded_division = refl

-- The quotient -1 of -5 by 3 is not in the result for [-10, -5] and [2, 3].
floored_division :
    sdiv digits 3 (range (negsuc 9) (negsuc 4)) (range (pos 2) (pos 3))
    ≡ ok (range (negsuc 5) (negsuc 1))
unfolding sdiv Bound.gt Bound.le Bound.eq Bound.ge Bound.lt Bound.add ◌+ℤ◌ Bound.sub Bound.div neg
    Bound.min digits Bound.max
floored_division = refl

-- [4, 5] and a number of 64 bits that is not known.
and-loses_example :
    (j : Interval) × (and digits (from_to 4 5) (from_to 0 (2 ^ 64 - 1)) ≡ ok j)
    × (a : ℤ) × (b : ℤ) × Has (from_to 4 5) a
    × Has (from_to 0 (2 ^ 64 - 1)) b
    × (Has j (digits.land a b) → ⊥)
unfolding Interval.contains Bound.gt Bound.le Interval.is_top Bound.ge
and-loses_example =
    and-loses digits 4 5 (from_to 0 (2 ^ 64 - 1)) (omega arith) (omega arith) (omega arith) refl
      refl refl

-- ===== src/Gsl.antt =====
-- `gsl::narrow` of the Guidelines Support Library, which the code calls and does not contain: an
-- interface with what its documentation says, that the value is returned if the target type holds
-- it and `narrowing_error` is thrown otherwise.
use linux_dev_env.Base.{
  ℕ, ◌-◌, ◌^◌, ◌≡◌, Bool, true, false, ◌&&◌, Option, none, some, if◌then◌else◌, Bool-cases, inl,
  inr, arith,
}
use linux_dev_env.Base.Int.{ℤ, pos, negsuc, pos_part, leb_ℤ}
use linux_dev_env.Outcome.{Result, ok, or_throw, narrowing_error, ◌>>=◌}

-- The target types of the calls.
pub data IntType : Type 0 where
  uint8 int16 uint32 int32 int64 : IntType

abbrev pub holds : IntType → ℤ → Bool
holds uint8 x = leb_ℤ (pos 0) x && leb_ℤ x (pos 255)
holds int16 x = leb_ℤ (negsuc (2 ^ 15 - 1)) x && leb_ℤ x (pos (2 ^ 15 - 1))
holds uint32 x = leb_ℤ (pos 0) x && leb_ℤ x (pos (2 ^ 32 - 1))
holds int32 x = leb_ℤ (negsuc (2 ^ 31 - 1)) x && leb_ℤ x (pos (2 ^ 31 - 1))
holds int64 x = leb_ℤ (negsuc (2 ^ 63 - 1)) x && leb_ℤ x (pos (2 ^ 63 - 1))

pub record Gsl : Type 0 where
  pub narrow? : IntType → ℤ → Option ℤ
  pub narrow_holds : (t : IntType) (x : ℤ) → holds t x ≡ true → narrow? t x ≡ some x
  pub narrow_throws : (t : IntType) (x : ℤ) → holds t x ≡ false → narrow? t x ≡ none

module _ (gsl : Gsl) where
  abbrev pub narrow : IntType → ℤ → Result ℤ
  narrow t x = or_throw (gsl.narrow? t x) narrowing_error

  -- The same for a target that is unsigned.
  abbrev pub narrow_unsigned : IntType → ℤ → Result ℕ
  narrow_unsigned t x = narrow t x >>= λ y. ok (pos_part y)

  pub narrow_lem : (t : IntType) (x : ℤ) → gsl.narrow? t x ≡ (if holds t x then some x else none)
  narrow_lem t x = elim (Bool-cases (holds t x)) [
    | inl h ↦ ground (arith, gsl.narrow_holds t x h)
    | inr h ↦ ground (arith, gsl.narrow_throws t x h)
  ]

-- The interface can be met.
abbrev pub checked_narrow : IntType → ℤ → Option ℤ
checked_narrow t x = if holds t x then some x else none

pub checked_narrow-holds : (t : IntType) (x : ℤ) → holds t x ≡ true → checked_narrow t x ≡ some x
checked_narrow-holds t x h = rw h

pub checked_narrow-throws : (t : IntType) (x : ℤ) → holds t x ≡ false → checked_narrow t x ≡ none
checked_narrow-throws t x h = rw h

abbrev pub checked : Gsl
checked = record {
  narrow? = checked_narrow;
  narrow_holds = checked_narrow-holds;
  narrow_throws = checked_narrow-throws;
}

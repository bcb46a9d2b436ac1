-- ===== src/Outcome.antt =====
-- Exceptions as values, the notes that `Unmarshaller` collects, and the two monads: `Result` for
-- code that may throw, `M` for code that also writes notes. A note written before a throw stays
-- written, as the caller's vector is written by reference.
pub mod Noting
pub mod Inversion
pub mod Ends
pub mod Returns
use linux_dev_env.Base.{ℕ, String, Bool, true, false, Option, none, some, List, [], ◌∷◌, ◌++◌}
use linux_dev_env.Base.Int.{ℤ}

-- The text of an `InvalidInstruction`: a message, `make_opcode_message` of one, or a message with
-- a number appended.
pub data What : Type 0 where
  message : String → What
  make_opcode_message : String → ℕ → What
  numbered_message : String → ℤ → What

-- `crab_error` and `crab_message` are `CRAB_ERROR` with and without a number that is appended;
-- `runtime_error` has the literal and the text appended to it; `narrowing_error` is what
-- `gsl::narrow` throws, `out_of_range` what `map::at` throws, `assertion_failed` is a failed
-- `assert`, `invalid_control_flow` what `InvalidControlFlow` is thrown with, `undefined_behaviour` an access that the language leaves undefined, and `out_of_fuel` no
-- error of the code: a recursion of the model whose fuel does not suffice.
pub data Error : Type 0 where
  invalid_instruction : ℕ → What → Error
  invalid_argument : String → Error
  runtime_error : String → String → Error
  crab_error : String → ℕ → Error
  crab_message : String → Error
  invalid_control_flow : String → Error
  narrowing_error out_of_range assertion_failed undefined_behaviour out_of_fuel : Error

pub data Result (A : Type 0) : Type 0 where
  ok : A → Result A
  err : Error → Result A

-- `InvalidInstruction{pc, opcode}`.
abbrev pub bad_instruction : ℕ → ℕ → Error
bad_instruction pc opcode = invalid_instruction pc (make_opcode_message "bad instruction" opcode)

abbrev pub throw_if : Bool → Error → Result (Unit {0})
throw_if true e = err e
throw_if false e = ok tt

abbrev pub or_throw : {A : Type 0} → Option A → Error → Result A
or_throw none e = err e
or_throw (some a) e = ok a

-- Chaining of code that may throw.
infixl 5 ◌>>=◌ ◌>>◌
abbrev pub ◌>>=◌ : {A B : Type 0} → Result A → (A → Result B) → Result B
ok a >>= f = f a
err e >>= f = err e

abbrev pub ◌>>◌ : {A B : Type 0} → Result A → Result B → Result B
m >> k = m >>= λ _. k

-- The notes of each program counter, the current one last.
abbrev pub Notes : Type 0
Notes = List (List String)

unfoldable pub note : String → Notes → Notes
note what [] = []
note what (n ∷ []) = (n ++ what ∷ []) ∷ []
note what (n ∷ m ∷ ns) = n ∷ note what (m ∷ ns)

unfoldable pub note_next_pc : Notes → Notes
note_next_pc ns = ns ++ [] ∷ []

-- A result with the notes after it.
abbrev pub M : Type 0 → Type 0
M A = Notes → Result A × Notes

abbrev pub lift : {A : Type 0} → Result A → M A
lift r ns = (r, ns)

abbrev pub tell : (Notes → Notes) → M (Unit {0})
tell f ns = (ok tt, f ns)

abbrev pub note_if : Bool → String → M (Unit {0})
note_if true what ns = (ok tt, note what ns)
note_if false what ns = (ok tt, ns)

abbrev pub and_then : {A B : Type 0} → Result A × Notes → (A → M B) → Result B × Notes
and_then (ok a, ns) f = f a ns
and_then (err e, ns) f = (err e, ns)

-- ===== src/Label.antt =====
-- Labels of instructions, and the jump offsets of labels: verifiers/prevail/src/crab/label.hpp.
pub mod Order
pub mod Text
pub mod Keyed
use Prim.Native.Char.{code}
use linux_dev_env.Base.{ℕ, ◌+◌, ◌-◌, ◌^◌, String, Bool, ◌&&◌, not, ◌==◌, if◌then◌else◌}
use linux_dev_env.Base.Int.{ℤ, pos, negsuc, ◌-ℤ◌, leb_ℤ, eqb_ℤ}
use linux_dev_env.Outcome.{Result, ok, ◌>>=◌}
use linux_dev_env.Gsl.{Gsl, int16, int32, int64, narrow}

pub record Label : Type 0 where
  pub stack_frame_prefix : String
  pub from : ℤ
  pub to : ℤ
  pub special_label : String

-- `label_t{index, to, stack_frame_prefix}`; `label_t{index}` has `to` -1 and no prefix.
abbrev pub label_t : ℤ → ℤ → String → Label
label_t index to prefix = record {
  stack_frame_prefix = prefix;
  from = index;
  to = to;
  special_label = "";
}

abbrev pub label_at : ℤ → Label
label_at index = label_t index (negsuc 0) ""

-- `label_t::entry` and `label_t::exit`.
abbrev pub entry : Label
entry = label_at (negsuc 0)

abbrev pub exit : Label
exit = label_at (pos (2 ^ 31 - 1))

unfoldable pub make_jump : Label → Label → Label
make_jump src_label target_label =
    label_t src_label.from target_label.from target_label.stack_frame_prefix

unfoldable pub make_increment_counter : Label → Label
make_increment_counter label = record (label_t label.from label.to label.stack_frame_prefix) {
  special_label = "counter";
}

unfoldable pub is_jump : Label → Bool
is_jump label = not (eqb_ℤ label.to (negsuc 0))

-- `std::ranges::count`.
abbrev pub count_char : ℕ → String → ℕ
count_char c String.[] = 0
count_char c (String.◌∷◌ d s) = (if code d == c then 1 else 0) + count_char c s

abbrev pub is_empty : String → Bool
is_empty String.[] = Bool.true
is_empty (String.◌∷◌ _ _) = Bool.false

-- `STACK_FRAME_DELIMITER`.
abbrev pub stack_frame_delimiter : ℕ
stack_frame_delimiter = b'/'

unfoldable pub call_stack_depth : Gsl → Label → Result ℤ
call_stack_depth gsl label =
    if is_empty label.stack_frame_prefix
    then ok (pos 1)
    else narrow gsl int32 (pos (2 + count_char stack_frame_delimiter label.stack_frame_prefix))

abbrev pub is_16 : ℤ → Bool
is_16 offset = leb_ℤ (negsuc (2 ^ 15 - 1)) offset && leb_ℤ offset (pos (2 ^ 15 - 1))

-- `label.from - pc - 1`, in 64 bits.
abbrev pub jump_offset : Gsl → ℕ → Label → Result ℤ
jump_offset gsl pc label = narrow gsl int64 (pos pc) >>= λ p. ok (label.from -ℤ p -ℤ pos 1)

unfoldable pub label_to_offset16 : Gsl → ℕ → Label → Result ℤ
label_to_offset16 gsl pc label = do
  offset ← jump_offset gsl pc label
  narrow gsl int16 (if is_16 offset then offset else pos 0)

unfoldable pub label_to_offset32 : Gsl → ℕ → Label → Result ℤ
label_to_offset32 gsl pc label = do
  offset ← jump_offset gsl pc label
  if is_16 offset then ok (pos 0) else narrow gsl int32 offset

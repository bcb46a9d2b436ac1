-- ===== src/Safety/Position.antt =====
-- Where the encoding of each instruction of a sequence begins, and the positions of labels:
-- `get_labels` and `marshal` of verifiers/prevail/src/asm_marshal.cpp.
use linux_dev_env.Base.{ℕ, ◌≡◌, false, List, [], ◌∷◌, ◌++◌, length}
use linux_dev_env.Outcome.{ok}
use linux_dev_env.Gsl.{Gsl}
use linux_dev_env.Isa.{EbpfInst}
use linux_dev_env.Label.{Label}
use linux_dev_env.Label.Order.{eq_label}
use linux_dev_env.Syntax.Instruction.{Instruction, LabeledInstruction}
use linux_dev_env.Marshal.Sequence.{marshal, retarget, PcOfLabel}

-- No instruction has the label.
abbrev pub IsAbsent : Label → List LabeledInstruction → Type 0
IsAbsent l [] = Unit
IsAbsent l (i ∷ insts) = (eq_label i.label l ≡ false) × IsAbsent l insts

-- The encoding of an instruction, whose jumps are already to positions, begins at the slot `pc`.
pub record IsPlaced (gsl : Gsl) (m : PcOfLabel) (pc : ℕ) (i : LabeledInstruction)
    (es : List EbpfInst) : Type 0 where
  pub before : List EbpfInst
  pub own : List EbpfInst
  pub after : List EbpfInst
  pub ins : Instruction
  pub whole : es ≡ (before ++ own) ++ after
  pub starts : length before ≡ pc
  pub retargeted : retarget gsl m i.ins ≡ ok ins
  pub encoded : marshal gsl ins pc ≡ ok own

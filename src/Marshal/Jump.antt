-- ===== src/Marshal/Jump.antt =====
-- Encoding of jumps: verifiers/prevail/src/asm_marshal.cpp.
use linux_dev_env.Base.{ℕ, ◌*◌, ◌^◌, bit_or, Option, none, some, List, [], ◌∷◌, if◌then◌else◌}
use linux_dev_env.Base.Int.{ℤ, pos, eqb_ℤ}
use linux_dev_env.Outcome.{Result, ok, ◌>>=◌}
use linux_dev_env.Gsl.{Gsl, uint8, narrow_unsigned}
use linux_dev_env.Isa
use linux_dev_env.Isa.{EbpfInst, u4}
use linux_dev_env.Label.{Label, label_to_offset16, label_to_offset32}
use linux_dev_env.Syntax.Instruction.{Condition}
use linux_dev_env.Marshal.Code.{cond_op_code}
use linux_dev_env.Marshal.Visitor.{with_operand}

abbrev inst_of : ℕ → ℤ → ℤ → List EbpfInst
inst_of opcode offset value =
    record { opcode = opcode; dst = 0; src = 0; offset = offset; imm = value } ∷ []

module _ (gsl : Gsl) where
  -- `Jmp`, with and without a condition.
  unfoldable pub marshal_jmp : ℕ → Option Condition → Label → Result (List EbpfInst)
  unfolding with_operand
  marshal_jmp pc (some cond) target = do
    code ← cond_op_code cond.op
    opcode ← narrow_unsigned gsl uint8 (pos (bit_or Isa.inst_cls_jmp (code * 2 ^ 4)))
    offset ← label_to_offset16 gsl pc target
    with_operand gsl
        (record { opcode = opcode; dst = u4 cond.left; src = 0; offset = offset; imm = pos 0 })
        cond.right
  marshal_jmp pc none target = do
    value ← label_to_offset32 gsl pc target
    if eqb_ℤ value (pos 0)
        then (do
          offset ← label_to_offset16 gsl pc target
          ok (inst_of Isa.inst_op_ja16 offset (pos 0)))
        else ok (inst_of Isa.inst_op_ja32 (pos 0) value)

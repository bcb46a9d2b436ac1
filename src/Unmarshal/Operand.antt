-- ===== src/Unmarshal/Operand.antt =====
-- Operands, and checks that the decoders share: verifiers/prevail/src/asm_unmarshal.cpp.
use linux_dev_env.Base.{
  ℕ, ◌^◌, String, bit_and, Bool, not, List, get_elem?, ◌!=◌, has_bits, if◌then◌else◌,
}
use linux_dev_env.Base.Int.{ℤ, pos, to_unsigned, eqb_ℤ}
use linux_dev_env.Outcome.{
  Result, ok, Error, invalid_instruction, make_opcode_message, message, bad_instruction,
  undefined_behaviour, throw_if, or_throw, ◌>>◌,
}
use linux_dev_env.Isa.{EbpfInst, inst_cls_mask, inst_src_reg}
use linux_dev_env.Syntax.Op.{Value, imm, reg}
use linux_dev_env.Platform.{ConformanceGroup, ProgramInfo, supports_group}

-- `InvalidInstruction(pc, "…")`.
abbrev pub invalid : ℕ → String → Error
invalid pc what = invalid_instruction pc (message what)

-- `InvalidInstruction(pc, make_opcode_message("…", opcode))`.
abbrev pub invalid_for : ℕ → String → ℕ → Error
invalid_for pc what opcode = invalid_instruction pc (make_opcode_message what opcode)

-- `if (!info.platform->supports_group(group)) throw InvalidInstruction(pc, inst.opcode);`
unfoldable pub require_group : ProgramInfo → ConformanceGroup → ℕ → EbpfInst → Result (Unit {0})
require_group info group pc inst =
    throw_if (not (supports_group info.platform group)) (bad_instruction pc inst.opcode)

-- `inst.opcode & INST_CLS_MASK`.
abbrev pub class_of : EbpfInst → ℕ
class_of inst = bit_and inst.opcode inst_cls_mask

abbrev pub is_zero : ℤ → Bool
is_zero x = eqb_ℤ x (pos 0)

-- `insts[pc]`.
abbrev pub inst_at : List EbpfInst → ℕ → Result EbpfInst
inst_at insts pc = or_throw (get_elem? insts pc) undefined_behaviour

unfoldable pub sign_extend : ℤ → ℕ
sign_extend x = to_unsigned (2 ^ 64) x

unfoldable pub zero_extend : ℤ → ℕ
zero_extend x = to_unsigned (2 ^ 32) x

unfoldable pub get_bin_value : ℕ → EbpfInst → Result Value
unfolding sign_extend
get_bin_value pc inst =
    if has_bits inst.opcode inst_src_reg
    then (do
      throw_if (not (is_zero inst.imm)) (invalid_for pc "nonzero imm for" inst.opcode)
      ok (reg inst.src))
    else (do
      throw_if (inst.src != 0) (bad_instruction pc inst.opcode)
      ok (imm (sign_extend inst.imm)))

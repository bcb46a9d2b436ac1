-- ===== src/Unmarshal/AluOp.antt =====
-- The branches of `getAluOp`: verifiers/prevail/src/asm_unmarshal.cpp. The function itself is in
-- the module Alu, since one of its branches writes a note.
use linux_dev_env.Base.{ℕ, Bool, not, ◌&&◌, ◌==◌, ◌!=◌, has_bits, if◌then◌else◌}
use linux_dev_env.Base.Int.{pos, eqb_ℤ, ltb_ℤ}
use linux_dev_env.Outcome.{Result, ok, err, bad_instruction, throw_if, ◌>>◌}
use linux_dev_env.Isa.{EbpfInst, inst_cls_alu64, inst_src_reg, inst_end_be}
use linux_dev_env.Syntax.Op.{BinOp, UnOp}
use linux_dev_env.Platform.{ConformanceGroup, base32, base64, divmul32, divmul64, ProgramInfo}
use linux_dev_env.Unmarshal.Operand.{class_of, is_zero, require_group, invalid, invalid_for}

-- `std::variant<Bin::Op, Un::Op>`.
pub data AluOp : Type 0 where
  bin_op : BinOp → AluOp
  un_op : UnOp → AluOp

abbrev pub is_alu64 : EbpfInst → Bool
is_alu64 inst = class_of inst == inst_cls_alu64

abbrev pub divmul_group : EbpfInst → ConformanceGroup
divmul_group inst = if is_alu64 inst then divmul64 else divmul32

-- The cases `INST_ALU_OP_DIV` and `INST_ALU_OP_MOD`, with their unsigned and signed operator.
unfoldable pub division_op : ProgramInfo → BinOp → BinOp → ℕ → EbpfInst → Result AluOp
division_op info unsigned signed pc inst = do
  require_group info (divmul_group inst) pc inst
  if eqb_ℤ inst.offset (pos 0)
      then ok (bin_op unsigned)
      else if eqb_ℤ inst.offset (pos 1)
      then ok (bin_op signed)
      else err (invalid_for pc "invalid offset for" inst.opcode)

-- The case `INST_ALU_OP_MOV`.
unfoldable pub mov_op : ℕ → EbpfInst → Result AluOp
mov_op pc inst = do
  throw_if (ltb_ℤ (pos 0) inst.offset && not (has_bits inst.opcode inst_src_reg))
      (invalid_for pc "nonzero offset for" inst.opcode)
  if eqb_ℤ inst.offset (pos 0)
      then ok (bin_op BinOp.mov)
      else if eqb_ℤ inst.offset (pos 8)
      then ok (bin_op BinOp.movsx8)
      else if eqb_ℤ inst.offset (pos 16)
      then ok (bin_op BinOp.movsx16)
      else if eqb_ℤ inst.offset (pos 32)
      then ok (bin_op BinOp.movsx32)
      else err (invalid_for pc "invalid offset for" inst.opcode)

-- The case `INST_ALU_OP_MUL`.
unfoldable pub mul_op : ProgramInfo → ℕ → EbpfInst → Result AluOp
mul_op info pc inst = do require_group info (divmul_group inst) pc inst; ok (bin_op BinOp.mul)

-- The case `INST_ALU_OP_NEG`.
unfoldable pub neg_op : ℕ → EbpfInst → Result AluOp
neg_op pc inst = do
  throw_if (has_bits inst.opcode inst_src_reg) (bad_instruction pc inst.opcode)
  throw_if (inst.src != 0) (bad_instruction pc inst.opcode)
  throw_if (not (is_zero inst.imm)) (invalid_for pc "nonzero imm for" inst.opcode)
  ok (un_op UnOp.neg)

-- The switches on `inst.imm` in the case `INST_ALU_OP_END`.
unfoldable pub endian_width : ProgramInfo → UnOp → UnOp → UnOp → ℕ → EbpfInst → Result AluOp
endian_width info op16 op32 op64 pc inst =
    if eqb_ℤ inst.imm (pos 16)
    then (do require_group info base32 pc inst; ok (un_op op16))
    else if eqb_ℤ inst.imm (pos 32)
    then (do require_group info base32 pc inst; ok (un_op op32))
    else if eqb_ℤ inst.imm (pos 64)
    then (do require_group info base64 pc inst; ok (un_op op64))
    else err (invalid pc "unsupported immediate")

-- The case `INST_ALU_OP_END`.
unfoldable pub end_op : ProgramInfo → ℕ → EbpfInst → Result AluOp
unfolding endian_width
end_op info pc inst = do
  throw_if (inst.src != 0) (bad_instruction pc inst.opcode)
  if is_alu64 inst
      then (do
        throw_if (has_bits inst.opcode inst_end_be) (bad_instruction pc inst.opcode)
        endian_width info UnOp.swap16 UnOp.swap32 UnOp.swap64 pc inst)
      else if has_bits inst.opcode inst_end_be
      then endian_width info UnOp.be16 UnOp.be32 UnOp.be64 pc inst
      else endian_width info UnOp.le16 UnOp.le32 UnOp.le64 pc inst

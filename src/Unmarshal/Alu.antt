-- ===== src/Unmarshal/Alu.antt =====
-- Arithmetic instructions, `getAluOp` and `makeAluOp`: verifiers/prevail/src/asm_unmarshal.cpp.
use linux_dev_env.Base.{
  ℕ, ◌%◌, ◌^◌, bit_and, Bool, false, not, ◌&&◌, ◌||◌, ltb, ◌==◌, if◌then◌else◌,
}
use linux_dev_env.Outcome.{M, ok, err, bad_instruction, lift, note_if, throw_if}
use linux_dev_env.Outcome.Noting.{◌>>=◌, ◌>>◌}
use linux_dev_env.Isa
use linux_dev_env.Isa.{EbpfInst, r10_stack_pointer}
use linux_dev_env.Syntax.Op.{BinOp, Value, imm, reg, eq_BinOp}
use linux_dev_env.Syntax.Instruction.{Instruction, bin, un}
use linux_dev_env.Platform.{base32, base64, ProgramInfo}
use linux_dev_env.Unmarshal.Operand.{
  class_of, is_zero, require_group, invalid, invalid_for, get_bin_value,
}
use linux_dev_env.Unmarshal.AluOp.{
  AluOp, bin_op, un_op, is_alu64, division_op, mov_op, mul_op, neg_op, end_op,
}

-- The second switch of `getAluOp`, on the operators that have no offset.
unfoldable pub offset_free_op : ProgramInfo → ℕ → EbpfInst → M AluOp
offset_free_op info pc inst =
    let op = bit_and inst.opcode Isa.inst_alu_op_mask in
    if op == Isa.inst_alu_op_add
    then lift (ok (bin_op BinOp.add))
    else if op == Isa.inst_alu_op_sub
    then lift (ok (bin_op BinOp.sub))
    else if op == Isa.inst_alu_op_mul
    then lift (mul_op info pc inst)
    else if op == Isa.inst_alu_op_or
    then lift (ok (bin_op BinOp.or))
    else if op == Isa.inst_alu_op_and
    then lift (ok (bin_op BinOp.and))
    else if op == Isa.inst_alu_op_lsh
    then lift (ok (bin_op BinOp.lsh))
    else if op == Isa.inst_alu_op_rsh
    then lift (ok (bin_op BinOp.rsh))
    else if op == Isa.inst_alu_op_neg
    then lift (neg_op pc inst)
    else if op == Isa.inst_alu_op_xor
    then lift (ok (bin_op BinOp.xor))
    else if op == Isa.inst_alu_op_arsh
    then (do
      note_if (class_of inst == Isa.inst_cls_alu) "arsh32 is not allowed"
      lift (ok (bin_op BinOp.arsh)))
    else if op == Isa.inst_alu_op_end
    then lift (end_op info pc inst)
    else if op == 0xe0
    then lift (err (bad_instruction pc inst.opcode))
    else if op == 0xf0
    then lift (err (bad_instruction pc inst.opcode))
    else lift (ok (bin_op BinOp.mov))

unfoldable pub get_alu_op : ProgramInfo → ℕ → EbpfInst → M AluOp
get_alu_op info pc inst =
    let op = bit_and inst.opcode Isa.inst_alu_op_mask in
    if op == Isa.inst_alu_op_div
    then lift (division_op info BinOp.udiv BinOp.sdiv pc inst)
    else if op == Isa.inst_alu_op_mod
    then lift (division_op info BinOp.umod BinOp.smod pc inst)
    else if op == Isa.inst_alu_op_mov
    then lift (mov_op pc inst)
    else (do
      lift (throw_if (not (is_zero inst.offset)) (invalid_for pc "nonzero offset for" inst.opcode))
      offset_free_op info pc inst)

abbrev pub is_zero_imm : Value → Bool
is_zero_imm (imm v) = v == 0
is_zero_imm (reg _) = false

-- The visitor of `makeAluOp`.
unfoldable pub alu_instruction : ProgramInfo → ℕ → EbpfInst → AluOp → M Instruction
alu_instruction info pc inst (un_op op) =
    lift (ok (un (record { op = op; dst = inst.dst; is64 = is_alu64 inst })))
alu_instruction info pc inst (bin_op op) = do
  v ← lift (get_bin_value (pc % 2 ^ 32) inst)
  note_if
      (not info.allow_division_by_zero
        && ((eq_BinOp op BinOp.udiv || eq_BinOp op BinOp.umod) && is_zero_imm v))
      "division by zero"
  lift (ok (bin (record { op = op; dst = inst.dst; v = v; is64 = is_alu64 inst; lddw = false })))

unfoldable pub make_alu_op : ProgramInfo → ℕ → EbpfInst → M Instruction
make_alu_op info pc inst = do
  lift (require_group info (if is_alu64 inst then base64 else base32) pc inst)
  lift (throw_if (inst.dst == r10_stack_pointer) (invalid pc "invalid target r10"))
  lift (
      throw_if (ltb r10_stack_pointer inst.dst || ltb r10_stack_pointer inst.src)
        (invalid pc "bad register"))
  op ← get_alu_op info pc inst
  alu_instruction info pc inst op

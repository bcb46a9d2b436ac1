-- ===== src/Unmarshal/Jump.antt =====
-- Jumps, calls and exits, `makeJmp`: verifiers/prevail/src/asm_unmarshal.cpp.
use linux_dev_env.Base.{
  ℕ, ◌+◌, ◌/◌, ◌%◌, ◌^◌, bit_and, Bool, not, ◌&&◌, ◌||◌, none, some, List, length, ltb, leb, ◌==◌,
  ◌!=◌, has_bits, if◌then◌else◌,
}
use linux_dev_env.Base.Int.{ℤ, pos, ltb_ℤ, to_unsigned}
use linux_dev_env.Outcome.{
  Result, ok, err, bad_instruction, invalid_instruction, numbered_message, throw_if, ◌>>=◌, ◌>>◌,
}
use linux_dev_env.Gsl.{Gsl, uint8, int32, narrow, narrow_unsigned}
use linux_dev_env.Isa
use linux_dev_env.Isa.{EbpfInst, r10_stack_pointer}
use linux_dev_env.Label.{Label, label_at}
use linux_dev_env.Syntax.Op.{CondOp, imm, reg}
use linux_dev_env.Syntax.Instruction.{
  Condition, CallLocal, Callx, Instruction, call, call_local, callx, exit, jmp,
}
use linux_dev_env.Platform.{ConformanceGroup, base32, base64, ProgramInfo, supports_group}
use linux_dev_env.Unmarshal.Operand.{
  class_of, is_zero, inst_at, require_group, invalid, invalid_for, sign_extend,
}
use linux_dev_env.Unmarshal.Helper.{make_call}

unfoldable pub get_jmp_op : ℕ → ℕ → Result CondOp
get_jmp_op pc opcode =
    let code = bit_and (opcode / 2 ^ 4) 0xF in
    if code == 0x1
    then ok CondOp.eq
    else if code == 0x2
    then ok CondOp.gt
    else if code == 0x3
    then ok CondOp.ge
    else if code == 0x4
    then ok CondOp.set
    else if code == 0x5
    then ok CondOp.ne
    else if code == 0x6
    then ok CondOp.sgt
    else if code == 0x7
    then ok CondOp.sge
    else if code == 0xa
    then ok CondOp.lt
    else if code == 0xb
    then ok CondOp.le
    else if code == 0xc
    then ok CondOp.slt
    else if code == 0xd
    then ok CondOp.sle
    else if code == 0xe
    then err (bad_instruction pc opcode)
    else if code == 0xf
    then err (bad_instruction pc opcode)
    else ok CondOp.eq

-- `pc + 1 + offset`, in 32 bits.
unfoldable pub get_jump_target : Gsl → ℤ → List EbpfInst → ℕ → Result Label
get_jump_target gsl offset insts pc = do
  let new_pc = (pc + 1 + to_unsigned (2 ^ 32) offset) % 2 ^ 32
  throw_if (leb (length insts) new_pc) (invalid pc "jump out of bounds")
  target ← inst_at insts new_pc
  throw_if (target.opcode == 0) (invalid pc "jump to middle of lddw")
  index ← narrow gsl int32 (pos new_pc)
  ok (label_at index)

unfoldable pub make_call_local : Gsl → EbpfInst → List EbpfInst → ℕ → Result CallLocal
make_call_local gsl inst insts pc = do
  throw_if (has_bits inst.opcode Isa.inst_src_reg) (bad_instruction pc inst.opcode)
  throw_if (inst.dst != 0) (invalid_for pc "nonzero dst for register" inst.opcode)
  target ← get_jump_target gsl inst.imm insts pc
  ok (record { target = target; stack_frame_prefix = "" })

unfoldable pub make_callx : Gsl → EbpfInst → ℕ → Result Callx
make_callx gsl inst pc = do
  throw_if (ltb r10_stack_pointer inst.dst) (invalid pc "bad register")
  if is_zero inst.imm then ok (record { func = inst.dst }) else (do
    throw_if (ltb 0 inst.dst) (invalid_for pc "nonzero imm for" inst.opcode)
    throw_if (ltb_ℤ inst.imm (pos 0) || ltb_ℤ (pos r10_stack_pointer) inst.imm)
        (invalid pc "bad register")
    func ← narrow_unsigned gsl uint8 inst.imm
    ok (record { func = func }))

-- The case `INST_CALL`.
unfoldable pub make_call_instruction :
    Gsl → ProgramInfo → EbpfInst → List EbpfInst → ℕ → Result Instruction
make_call_instruction gsl info inst insts pc = do
  throw_if (class_of inst != Isa.inst_cls_jmp) (bad_instruction pc inst.opcode)
  throw_if
      (not (supports_group info.platform ConformanceGroup.callx)
        && has_bits inst.opcode Isa.inst_src_reg)
      (bad_instruction pc inst.opcode)
  require_group info base32 pc inst
  throw_if (leb Isa.inst_call_btf_helper inst.src) (bad_instruction pc inst.opcode)
  throw_if (not (is_zero inst.offset)) (invalid_for pc "nonzero offset for" inst.opcode)
  if inst.src == Isa.inst_call_local
      then (make_call_local gsl inst insts pc >>= λ c. ok (call_local c))
      else if has_bits inst.opcode Isa.inst_src_reg
      then (make_callx gsl inst pc >>= λ c. ok (callx c))
      else (do
        throw_if (inst.dst != 0) (invalid_for pc "nonzero dst for register" inst.opcode)
        throw_if (not (info.platform.is_helper_usable inst.imm))
            (invalid_instruction pc (numbered_message "invalid helper function id " inst.imm))
        c ← make_call gsl info.platform inst.imm
        ok (call c))

-- The case `INST_EXIT`.
unfoldable pub make_exit : ProgramInfo → EbpfInst → ℕ → Result Instruction
make_exit info inst pc = do
  require_group info base32 pc inst
  throw_if (class_of inst != Isa.inst_cls_jmp || has_bits inst.opcode Isa.inst_src_reg)
      (bad_instruction pc inst.opcode)
  throw_if (inst.src != 0) (bad_instruction pc inst.opcode)
  throw_if (inst.dst != 0) (invalid_for pc "nonzero dst for register" inst.opcode)
  throw_if (not (is_zero inst.imm)) (invalid_for pc "nonzero imm for" inst.opcode)
  throw_if (not (is_zero inst.offset)) (invalid_for pc "nonzero offset for" inst.opcode)
  ok (exit (record { stack_frame_prefix = "" }))

-- The checks of the case `INST_JA`, which falls through to the default case.
unfoldable pub check_ja : ProgramInfo → EbpfInst → ℕ → Result (Unit {0})
check_ja info inst pc = do
  throw_if (class_of inst != Isa.inst_cls_jmp && class_of inst != Isa.inst_cls_jmp32)
      (bad_instruction pc inst.opcode)
  require_group info base32 pc inst
  throw_if (has_bits inst.opcode Isa.inst_src_reg) (bad_instruction pc inst.opcode)
  throw_if (class_of inst == Isa.inst_cls_jmp && not (is_zero inst.imm))
      (invalid_for pc "nonzero imm for" inst.opcode)
  throw_if (class_of inst == Isa.inst_cls_jmp32 && not (is_zero inst.offset))
      (invalid_for pc "nonzero offset for" inst.opcode)
  throw_if (inst.dst != 0) (invalid_for pc "nonzero dst for register" inst.opcode)

abbrev pub is_ja : EbpfInst → Bool
is_ja inst = inst.opcode == Isa.inst_op_ja16 || inst.opcode == Isa.inst_op_ja32

-- The default case.
unfoldable pub make_jmp_default :
    Gsl → ProgramInfo → EbpfInst → List EbpfInst → ℕ → Result Instruction
make_jmp_default gsl info inst insts pc = do
  let is64 = class_of inst == Isa.inst_cls_jmp
  let is_reg = has_bits inst.opcode Isa.inst_src_reg
  require_group info (if is64 then base64 else base32) pc inst
  op ← get_jmp_op pc inst.opcode
  throw_if (not is_reg && inst.src != 0) (bad_instruction pc inst.opcode)
  throw_if (is_reg && not (is_zero inst.imm)) (invalid_for pc "nonzero imm for" inst.opcode)
  target ←
      get_jump_target gsl (if inst.opcode == Isa.inst_op_ja32 then inst.imm else inst.offset) insts
        pc
  throw_if (not (is_ja inst) && ltb r10_stack_pointer inst.dst) (invalid pc "bad register")
  throw_if (not (is_ja inst) && (is_reg && ltb r10_stack_pointer inst.src))
      (invalid pc "bad register")
  let right = if is_reg then reg inst.src else imm (sign_extend inst.imm)
  let cond : Condition = record { op = op; left = inst.dst; right = right; is64 = is64 }
  ok (jmp (record { cond = if is_ja inst then none else some cond; target = target }))

unfoldable pub make_jmp : Gsl → ProgramInfo → EbpfInst → List EbpfInst → ℕ → Result Instruction
make_jmp gsl info inst insts pc =
    let code = bit_and (inst.opcode / 2 ^ 4) 0xF in
    if code == Isa.inst_call
    then make_call_instruction gsl info inst insts pc
    else if code == Isa.inst_exit
    then make_exit info inst pc
    else if code == Isa.inst_ja
    then (check_ja info inst pc >> make_jmp_default gsl info inst insts pc)
    else make_jmp_default gsl info inst insts pc

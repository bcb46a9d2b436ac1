-- ===== src/Unmarshal/Memory.antt =====
-- Loads and stores, and `makeMemOp`: verifiers/prevail/src/asm_unmarshal.cpp.
use linux_dev_env.Base.{
  ℕ, ◌-◌, ◌*◌, bit_and, Bool, true, false, not, ◌&&◌, ◌||◌, ltb, ◌==◌, ◌!=◌, has_bits,
  if◌then◌else◌,
}
use linux_dev_env.Base.Int.{pos, negsuc, ◌+ℤ◌, ltb_ℤ}
use linux_dev_env.Outcome.{
  Result, M, ok, err, bad_instruction, crab_error, assertion_failed, lift, note_if, throw_if,
}
use linux_dev_env.Outcome.Noting.{◌>>=◌, ◌>>◌}
use linux_dev_env.Isa
use linux_dev_env.Isa.{EbpfInst, r10_stack_pointer, opcode_to_width}
use linux_dev_env.Syntax.Op.{imm, reg}
use linux_dev_env.Syntax.Instruction.{Deref, Instruction, mem}
use linux_dev_env.Platform.{base32, base64, ProgramInfo}
use linux_dev_env.Unmarshal.Operand.{is_zero, require_group, invalid, invalid_for, zero_extend}
use linux_dev_env.Unmarshal.NoteFree.{is_ld, make_packet_abs, make_packet_ind, make_atomic}

unfoldable pub get_mem_is_load : ℕ → Result Bool
get_mem_is_load opcode =
    let cls = bit_and opcode Isa.inst_cls_mask in
    if cls == Isa.inst_cls_ld || cls == Isa.inst_cls_ldx
    then ok true
    else if cls == Isa.inst_cls_st || cls == Isa.inst_cls_stx
    then ok false
    else err (crab_error "unexpected opcode" opcode)

unfoldable pub get_mem_width : ℕ → Result ℕ
get_mem_width opcode =
    let size = bit_and opcode Isa.inst_size_mask in
    if size == Isa.inst_size_b
    then ok 1
    else if size == Isa.inst_size_h
    then ok 2
    else if size == Isa.inst_size_w
    then ok 4
    else if size == Isa.inst_size_dw
    then ok 8
    else err (crab_error "unexpected opcode" opcode)

abbrev pub ebpf_total_stack_size : ℕ
ebpf_total_stack_size = 8 * 512

-- "Stack access out of bounds", for an access through r10.
unfoldable pub note_stack_access : ℕ → EbpfInst → M (Unit {0})
note_stack_access basereg inst =
    if basereg == r10_stack_pointer
    then (do
      width ← lift (opcode_to_width inst.opcode)
      note_if
          (ltb_ℤ (pos 0) (inst.offset +ℤ pos width)
            || ltb_ℤ inst.offset (negsuc (ebpf_total_stack_size - 1)))
          "Stack access out of bounds")
    else lift (ok tt)

-- The case `INST_MODE_MEM`.
unfoldable pub make_mem : ℕ → ℕ → EbpfInst → M Instruction
make_mem width pc inst = do
  lift (throw_if (is_ld inst) (bad_instruction pc inst.opcode))
  is_load ← lift (get_mem_is_load inst.opcode)
  lift (throw_if (is_load && inst.dst == r10_stack_pointer) (invalid pc "cannot modify r10"))
  let is_imm = not (has_bits inst.opcode 1)
  lift (throw_if (is_imm && inst.src != 0) (bad_instruction pc inst.opcode))
  lift (
      throw_if (not is_imm && not (is_zero inst.imm))
        (invalid_for pc "nonzero imm for" inst.opcode))
  lift (throw_if (is_load && is_imm) assertion_failed)
  let basereg = if is_load then inst.src else inst.dst
  note_stack_access basereg inst
  let access : Deref = record { width = width; basereg = basereg; offset = inst.offset }
  let value =
      if is_load then reg inst.dst else if is_imm then imm (zero_extend inst.imm) else reg inst.src
  lift (ok (mem (record { access = access; value = value; is_load = is_load })))

-- The switch on `inst.opcode & INST_MODE_MASK`.
unfoldable pub make_mem_by_mode : ProgramInfo → ℕ → ℕ → EbpfInst → M Instruction
make_mem_by_mode info width pc inst =
    let mode = bit_and inst.opcode Isa.inst_mode_mask in
    if mode == Isa.inst_mode_imm
    then lift (err (bad_instruction pc inst.opcode))
    else if mode == Isa.inst_mode_abs
    then lift (make_packet_abs info width pc inst)
    else if mode == Isa.inst_mode_ind
    then lift (make_packet_ind info width pc inst)
    else if mode == Isa.inst_mode_mem
    then make_mem width pc inst
    else if mode == Isa.inst_mode_atomic
    then lift (make_atomic info width pc inst)
    else lift (err (bad_instruction pc inst.opcode))

unfoldable pub make_mem_op : ProgramInfo → ℕ → EbpfInst → M Instruction
make_mem_op info pc inst = do
  lift (
      throw_if (ltb r10_stack_pointer inst.dst || ltb r10_stack_pointer inst.src)
        (invalid pc "bad register"))
  width ← lift (get_mem_width inst.opcode)
  lift (require_group info (if width == 8 then base64 else base32) pc inst)
  make_mem_by_mode info width pc inst

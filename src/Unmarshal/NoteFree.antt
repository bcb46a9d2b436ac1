-- ===== src/Unmarshal/NoteFree.antt =====
-- Packet access and atomics, the cases of `makeMemOp` that write no note:
-- verifiers/prevail/src/asm_unmarshal.cpp.
use linux_dev_env.Base.{
  ℕ, ◌-◌, ◌^◌, bit_and, Bool, not, ◌&&◌, ◌||◌, none, some, ltb, ◌==◌, ◌!=◌, if◌then◌else◌,
}
use linux_dev_env.Base.Int.{to_unsigned}
use linux_dev_env.Outcome.{Result, ok, err, bad_instruction, throw_if, ◌>>=◌, ◌>>◌}
use linux_dev_env.Isa
use linux_dev_env.Isa.{EbpfInst, r10_stack_pointer}
use linux_dev_env.Syntax.Op.{AtomicOp, xchg, cmpxchg, atomic_op_value}
use linux_dev_env.Syntax.Instruction.{Deref, Instruction, packet, atomic}
use linux_dev_env.Platform.{ConformanceGroup, atomic32, atomic64, ProgramInfo}
use linux_dev_env.Unmarshal.Operand.{class_of, is_zero, require_group, invalid, invalid_for}

-- `inst.imm & INST_FETCH` and `inst.imm & ~INST_FETCH`, on the 32 bits of `imm`.
abbrev pub fetch_bit : EbpfInst → ℕ
fetch_bit inst = bit_and (to_unsigned (2 ^ 32) inst.imm) Isa.inst_fetch

abbrev pub atomic_code : EbpfInst → ℕ
atomic_code inst = bit_and (to_unsigned (2 ^ 32) inst.imm) (2 ^ 32 - 1 - Isa.inst_fetch)

-- The conversion of an `int` to the enumeration keeps every value, so `gsl::narrow` is the
-- identity here.
unfoldable pub get_atomic_op : ℕ → EbpfInst → Result AtomicOp
get_atomic_op pc inst =
    let op = atomic_code inst in
    let unsupported = invalid pc "unsupported immediate" in
    if op == atomic_op_value xchg
    then (if fetch_bit inst == 0 then err unsupported else ok xchg)
    else if op == atomic_op_value cmpxchg
    then (if fetch_bit inst == 0 then err unsupported else ok cmpxchg)
    else if op == atomic_op_value AtomicOp.add
    then ok AtomicOp.add
    else if op == atomic_op_value AtomicOp.or
    then ok AtomicOp.or
    else if op == atomic_op_value AtomicOp.and
    then ok AtomicOp.and
    else if op == atomic_op_value AtomicOp.xor
    then ok AtomicOp.xor
    else err unsupported

abbrev pub is_ld : EbpfInst → Bool
is_ld inst = class_of inst == Isa.inst_cls_ld

-- The checks that the cases `INST_MODE_ABS` and `INST_MODE_IND` begin with.
unfoldable pub packet_checks : ProgramInfo → ℕ → ℕ → EbpfInst → Result (Unit {0})
packet_checks info width pc inst = do
  require_group info ConformanceGroup.packet pc inst
  throw_if (not (is_ld inst) || width == 8) (bad_instruction pc inst.opcode)
  throw_if (inst.dst != 0) (invalid_for pc "nonzero dst for register" inst.opcode)

-- The case `INST_MODE_ABS`.
unfoldable pub make_packet_abs : ProgramInfo → ℕ → ℕ → EbpfInst → Result Instruction
make_packet_abs info width pc inst = do
  packet_checks info width pc inst
  throw_if (ltb 0 inst.src) (invalid_for pc "bad instruction" inst.opcode)
  throw_if (not (is_zero inst.offset)) (invalid_for pc "nonzero offset for" inst.opcode)
  ok (packet (record { width = width; offset = inst.imm; regoffset = none }))

-- The case `INST_MODE_IND`.
unfoldable pub make_packet_ind : ProgramInfo → ℕ → ℕ → EbpfInst → Result Instruction
make_packet_ind info width pc inst = do
  packet_checks info width pc inst
  throw_if (ltb r10_stack_pointer inst.src) (invalid pc "bad register")
  throw_if (not (is_zero inst.offset)) (invalid_for pc "nonzero offset for" inst.opcode)
  ok (packet (record { width = width; offset = inst.imm; regoffset = some inst.src }))

-- The case `INST_MODE_ATOMIC`.
unfoldable pub make_atomic : ProgramInfo → ℕ → ℕ → EbpfInst → Result Instruction
make_atomic info width pc inst = do
  let size = bit_and inst.opcode Isa.inst_size_mask
  throw_if
      (class_of inst != Isa.inst_cls_stx || (size != Isa.inst_size_w && size != Isa.inst_size_dw))
      (bad_instruction pc inst.opcode)
  require_group info (if size == Isa.inst_size_dw then atomic64 else atomic32) pc inst
  op ← get_atomic_op pc inst
  let access : Deref = record { width = width; basereg = inst.dst; offset = inst.offset }
  ok (
      atomic (record {
        op = op;
        fetch = fetch_bit inst == Isa.inst_fetch;
        access = access;
        valreg = inst.src;
      }))

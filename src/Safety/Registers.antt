-- ===== src/Safety/Registers.antt =====
-- Decoded instructions name registers that exist, and never write r10 by arithmetic or a load.
use linux_dev_env.Base.{
  ℕ, ◌^◌, ◌≤◌, ◌<◌, ◌≡◌, ◌≢◌, ◌⊎◌, true, false, inl, inr, arith, ◌==◌, bit_and,
}
use linux_dev_env.Base.Int.{to_unsigned}
use linux_dev_env.Base.Bits.{bit_and-one}
use linux_dev_env.Outcome.{ok, Notes}
use linux_dev_env.Outcome.Inversion.{Result-cases, either-ok}
use linux_dev_env.Isa
use linux_dev_env.Isa.{EbpfInst, r10_stack_pointer}
use linux_dev_env.Syntax.Op.{Value, imm, reg, AtomicOp}
use linux_dev_env.Syntax.Instruction.{Instruction, bin, un, mem, packet, atomic}
use linux_dev_env.Platform.{ProgramInfo}
use linux_dev_env.Unmarshal.Operand.{require_group, get_bin_value}
use linux_dev_env.Unmarshal.AluOp.{AluOp, bin_op, un_op}
use linux_dev_env.Unmarshal.NoteFree.{
  packet_checks, make_packet_abs, make_packet_ind, make_atomic, get_atomic_op, fetch_bit,
}
use linux_dev_env.Unmarshal.Memory.{make_mem, make_mem_by_mode, make_mem_op, get_mem_width}
use linux_dev_env.Roundtrip.Special.{IsPacketReg, CanFetch}
use linux_dev_env.Unmarshal.Alu.{alu_instruction, make_alu_op}

abbrev IsReg : Value → Type 0
IsReg (reg r) = r ≤ 10
IsReg (imm _) = Unit

-- A load writes a register other than r10.
abbrev IsLoadTarget : Value → Type 0
IsLoadTarget (reg r) = r < 10
IsLoadTarget (imm _) = ⊥

-- The registers of a decoded arithmetic instruction.
abbrev pub IsAluInstruction : Instruction → Type 0
IsAluInstruction (bin b) = (b.dst < 10) × IsReg b.v × (b.lddw ≡ false)
IsAluInstruction (un u) = u.dst < 10
IsAluInstruction _ = ⊥

alu_instruction-IsAlu :
    (info : ProgramInfo) (pc : ℕ) (inst : EbpfInst) (op : AluOp) (ns : Notes) {ins : Instruction}
    → inst.dst < 10
    → inst.src ≤ 10
    → (alu_instruction info pc inst op ns).0 ≡ ok ins
    → IsAluInstruction ins
unfolding alu_instruction get_bin_value
alu_instruction-IsAlu info pc inst (un_op op) ns {ins} d s h = ground arith
alu_instruction-IsAlu info pc inst (bin_op op) ns {ins} d s h = ground arith

-- Whatever the four fields of an instruction of an arithmetic class are, if it is decoded then its
-- destination is one of r0 to r9, a register operand is at most r10, and it is no `lddw`.
pub make_alu_op-IsAluInstruction :
    (info : ProgramInfo) (pc : ℕ) (inst : EbpfInst) (ns : Notes) {ins : Instruction}
    → (make_alu_op info pc inst ns).0 ≡ ok ins
    → IsAluInstruction ins
unfolding make_alu_op require_group
make_alu_op-IsAluInstruction info pc inst ns h = grind (arith, alu_instruction-IsAlu)

-- The registers and widths of a decoded memory access.
abbrev pub IsMemInstruction : Instruction → Type 0
IsMemInstruction (mem m) =
    (m.access.basereg ≤ 10) × IsReg m.value × (m.is_load ≡ true → IsLoadTarget m.value)
IsMemInstruction (packet p) = (p.width ≢ 8) × IsPacketReg p.regoffset
IsMemInstruction (atomic a) =
    (a.access.basereg ≤ 10)
    × (a.valreg ≤ 10)
    × ((a.access.width ≡ 4) ⊎ (a.access.width ≡ 8))
    × CanFetch a.op a.fetch
IsMemInstruction _ = ⊥

make_mem-IsMem :
    (width pc : ℕ) (inst : EbpfInst) (ns : Notes) {ins : Instruction}
    → inst.dst ≤ 10
    → inst.src ≤ 10
    → (make_mem width pc inst ns).0 ≡ ok ins
    → IsMemInstruction ins
unfolding make_mem
make_mem-IsMem width pc inst ns d s h = grind arith

make_packet_abs-IsMem :
    (info : ProgramInfo) (width pc : ℕ) (inst : EbpfInst) {ins : Instruction}
    → make_packet_abs info width pc inst ≡ ok ins
    → IsMemInstruction ins
unfolding make_packet_abs packet_checks require_group
make_packet_abs-IsMem info width pc inst h = grind arith

make_packet_ind-IsMem :
    (info : ProgramInfo) (width pc : ℕ) (inst : EbpfInst) {ins : Instruction}
    → make_packet_ind info width pc inst ≡ ok ins
    → IsMemInstruction ins
unfolding make_packet_ind packet_checks require_group
make_packet_ind-IsMem info width pc inst h = grind arith

get_atomic_op-CanFetch :
    (pc : ℕ) (inst : EbpfInst) {op : AtomicOp}
    → get_atomic_op pc inst ≡ ok op
    → CanFetch op (fetch_bit inst == 1)
unfolding get_atomic_op
get_atomic_op-CanFetch pc inst h = grind (arith, bit_and-one (to_unsigned (2 ^ 32) inst.imm))

make_atomic-IsMem :
    (info : ProgramInfo) (width pc : ℕ) (inst : EbpfInst) {ins : Instruction}
    → inst.dst ≤ 10
    → inst.src ≤ 10
    → get_mem_width inst.opcode ≡ ok width
    → make_atomic info width pc inst ≡ ok ins
    → IsMemInstruction ins
unfolding make_atomic require_group get_mem_width
make_atomic-IsMem info width pc inst d s w h = grind (arith, get_atomic_op-CanFetch)

make_mem_by_mode-IsMem :
    (info : ProgramInfo) (width pc : ℕ) (inst : EbpfInst) (ns : Notes) {ins : Instruction}
    → inst.dst ≤ 10
    → inst.src ≤ 10
    → get_mem_width inst.opcode ≡ ok width
    → (make_mem_by_mode info width pc inst ns).0 ≡ ok ins
    → IsMemInstruction ins
unfolding make_mem_by_mode
make_mem_by_mode-IsMem info width pc inst ns d s w h =
    let mode = bit_and inst.opcode Isa.inst_mode_mask in
    either-ok (mode == Isa.inst_mode_imm) _ _ ns (λ e. cc)
      (either-ok (mode == Isa.inst_mode_abs) _ _ ns (make_packet_abs-IsMem info width pc inst) (
        either-ok (mode == Isa.inst_mode_ind) _ _ ns (make_packet_ind-IsMem info width pc inst) (
          either-ok (mode == Isa.inst_mode_mem) _ _ ns (make_mem-IsMem width pc inst ns d s) (
            either-ok (mode == Isa.inst_mode_atomic) _ _ ns
              (make_atomic-IsMem info width pc inst d s w) (λ e. cc)))))
      h

-- Whatever the four fields of a load or store instruction are, if it is decoded then its registers
-- are at most r10, a load writes one of r0 to r9, a packet access is not 8 bytes wide, and an
-- atomic is 4 or 8 bytes wide and fetches where it is an exchange.
pub make_mem_op-IsMemInstruction :
    (info : ProgramInfo) (pc : ℕ) (inst : EbpfInst) (ns : Notes) {ins : Instruction}
    → (make_mem_op info pc inst ns).0 ≡ ok ins
    → IsMemInstruction ins
unfolding make_mem_op require_group
make_mem_op-IsMemInstruction info pc inst ns {ins} h =
    elim (Result-cases (get_mem_width inst.opcode)) [
      | inl (w, e) ↦ ground (arith, e, make_mem_by_mode-IsMem info w pc inst ns {ins = ins})
      | inr (x, e) ↦ ground (arith, e)
    ]

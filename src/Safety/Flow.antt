-- ===== src/Safety/Flow.antt =====
-- Every instruction that the loop decodes leads to slots of the program:
-- verifiers/prevail/src/asm_unmarshal.cpp.
use linux_dev_env.Base.{ℕ, ◌≡◌, ◌||◌, ◌==◌, List, arith}
use linux_dev_env.Base.Int.{ℤ}
use linux_dev_env.Outcome.{ok, Notes}
use linux_dev_env.Outcome.Inversion.{either-ok}
use linux_dev_env.Gsl.{Gsl}
use linux_dev_env.Isa
use linux_dev_env.Isa.{EbpfInst}
use linux_dev_env.Syntax.Op.{Reg}
use linux_dev_env.Syntax.Instruction.{Instruction}
use linux_dev_env.Platform.{ProgramInfo}
use linux_dev_env.Unmarshal.Operand.{class_of}
use linux_dev_env.Unmarshal.Lddw.{make_lddw}
use linux_dev_env.Unmarshal.Program.{Decoded, merge_shifts, decode_alu, jump_flow, decode}
use linux_dev_env.Safety.Registers.{
  IsAluInstruction, IsMemInstruction, make_alu_op-IsAluInstruction, make_mem_op-IsMemInstruction,
}
use linux_dev_env.Safety.Target.{LandsIn, make_jmp-LandsIn}

IsAluInstruction-LandsIn :
    (insts : List EbpfInst) (ins : Instruction) → IsAluInstruction ins → LandsIn insts ins
IsAluInstruction-LandsIn insts (Instruction.bin b) h = tt
IsAluInstruction-LandsIn insts (Instruction.un b) h = tt
IsAluInstruction-LandsIn insts _ h = absurd h

IsMemInstruction-LandsIn :
    (insts : List EbpfInst) (ins : Instruction) → IsMemInstruction ins → LandsIn insts ins
IsMemInstruction-LandsIn insts (Instruction.mem b) h = tt
IsMemInstruction-LandsIn insts (Instruction.packet b) h = tt
IsMemInstruction-LandsIn insts (Instruction.atomic b) h = tt
IsMemInstruction-LandsIn insts _ h = absurd h

make_lddw-LandsIn :
    (info : ProgramInfo) (inst : EbpfInst) (next_imm : ℤ) (insts all : List EbpfInst) (pc : ℕ)
    {ins : Instruction}
    → make_lddw info inst next_imm insts pc ≡ ok ins
    → LandsIn all ins
unfolding make_lddw
make_lddw-LandsIn info inst next_imm insts all pc h = grind arith

merge_shifts-LandsIn :
    (insts : List EbpfInst) (dst : Reg) (new_ins next_ins : Instruction)
    → LandsIn insts new_ins
    → LandsIn insts (merge_shifts dst new_ins next_ins).new_ins
unfolding merge_shifts
merge_shifts-LandsIn insts dst new_ins next_ins h = ground arith

jump_flow-LandsIn :
    (insts : List EbpfInst) (ins : Instruction)
    → LandsIn insts ins
    → LandsIn insts (jump_flow ins).new_ins
unfolding jump_flow
jump_flow-LandsIn insts (Instruction.jmp j) h = h
jump_flow-LandsIn insts (Instruction.exit e) h = h
jump_flow-LandsIn insts _ h = h

decode_alu-LandsIn :
    (info : ProgramInfo) (insts : List EbpfInst) (pc : ℕ) (inst : EbpfInst) (ns : Notes)
    {d : Decoded}
    → (decode_alu info insts pc inst ns).0 ≡ ok d
    → LandsIn insts d.new_ins
unfolding decode_alu
decode_alu-LandsIn info insts pc inst ns h =
    grind (arith, make_alu_op-IsAluInstruction, IsAluInstruction-LandsIn, merge_shifts-LandsIn)

pub decode-LandsIn :
    (gsl : Gsl) (info : ProgramInfo) (insts : List EbpfInst) (pc : ℕ) (inst : EbpfInst) (ns : Notes)
    {d : Decoded}
    → (decode gsl info insts pc inst ns).0 ≡ ok d
    → LandsIn insts d.new_ins
unfolding decode
decode-LandsIn gsl info insts pc inst ns {d} h =
    let cls = class_of inst in
    either-ok (inst.opcode == Isa.inst_op_lddw_imm) _ _ ns (λ e. grind (arith, make_lddw-LandsIn))
      (either-ok
        (cls == Isa.inst_cls_ld
          || (cls == Isa.inst_cls_ldx || (cls == Isa.inst_cls_st || cls == Isa.inst_cls_stx)))
        _ _ ns (λ e. grind (arith, make_mem_op-IsMemInstruction, IsMemInstruction-LandsIn))
        (either-ok (cls == Isa.inst_cls_alu || cls == Isa.inst_cls_alu64) _ _ ns
          (decode_alu-LandsIn info insts pc inst ns)
          (either-ok (cls == Isa.inst_cls_jmp32 || cls == Isa.inst_cls_jmp) _ _ ns
            (λ e. grind (arith, make_jmp-LandsIn, jump_flow-LandsIn)) (λ e. cc))))
      h

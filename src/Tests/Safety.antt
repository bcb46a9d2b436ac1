-- ===== src/Tests/Safety.antt =====
-- What every decoded program satisfies, at programs that are decoded.
use linux_dev_env.Marshal.Visitor.{marshal_bin}
use linux_dev_env.Unmarshal.Jump.{make_exit}
use linux_dev_env.Unmarshal.AluOp.{mov_op}
use linux_dev_env.Unmarshal.Program.{turn}
use linux_dev_env.Unmarshal.Jump.{get_jump_target}
use linux_dev_env.Unmarshal.Jump.{get_jmp_op}
use linux_dev_env.Unmarshal.Jump.{make_jmp_default}
use linux_dev_env.Unmarshal.Jump.{check_ja}
use linux_dev_env.Base.Int.{◌+ℤ◌}
use linux_dev_env.Isa.{opcode_to_width}
use linux_dev_env.Unmarshal.Memory.{note_stack_access}
use linux_dev_env.Unmarshal.Memory.{get_mem_is_load}
use linux_dev_env.Unmarshal.Memory.{make_mem}
use linux_dev_env.Unmarshal.Memory.{make_mem_by_mode}
use linux_dev_env.Unmarshal.Memory.{get_mem_width}
use linux_dev_env.Unmarshal.Operand.{get_bin_value}
use linux_dev_env.Unmarshal.Alu.{alu_instruction}
use linux_dev_env.Unmarshal.Alu.{offset_free_op}
use linux_dev_env.Unmarshal.Alu.{get_alu_op}
use linux_dev_env.Platform.{supports_group}
use linux_dev_env.Unmarshal.Operand.{require_group}
use linux_dev_env.Base.{ℕ, ◌<◌, ◌≡◌, refl, true, false, none, [], ◌∷◌, length, List}
use linux_dev_env.Base.Int.{pos, negsuc}
use linux_dev_env.Gsl.{checked}
use linux_dev_env.Isa.{EbpfInst}
use linux_dev_env.Roundtrip.Lddw.{lddw_of}
use linux_dev_env.Marshal.Sequence.{marshal, size}
use linux_dev_env.Label.{label_at}
use linux_dev_env.Syntax.Op.{imm, reg, BinOp, ArgSingleKind}
use linux_dev_env.Syntax.Instruction.{bin, mem, jmp, exit, Instruction, LabeledInstruction}
use linux_dev_env.Unmarshal.Alu.{make_alu_op}
use linux_dev_env.Unmarshal.Memory.{make_mem_op}
use linux_dev_env.Unmarshal.Jump.{make_jmp}
use linux_dev_env.Unmarshal.Helper.{make_call}
use linux_dev_env.Unmarshal.Program.{unmarshal}
use linux_dev_env.Roundtrip.Alu.{alu_bin}
use linux_dev_env.Roundtrip.Memory.{Width, mem_of}
use linux_dev_env.Roundtrip.Jump.{jump_to}
use linux_dev_env.Safety.Registers.{
  IsAluInstruction, make_alu_op-IsAluInstruction, IsMemInstruction, make_mem_op-IsMemInstruction,
}
use linux_dev_env.Safety.Program.{Covers, unmarshal-Covers}
use linux_dev_env.Safety.Escape.{IsOutcome, unmarshal-IsOutcome}
use linux_dev_env.Safety.Size.{length-marshal}
use linux_dev_env.Safety.Call.{UsesArguments, make_call-UsesArguments}
use linux_dev_env.Tests.Data.{info, platform, inst, program}

abbrev labelled : ℕ → Instruction → LabeledInstruction
labelled slot ins = record { label = label_at (pos slot); ins = ins; line_info = none }

-- The two slots of `lddw r1, v`.
abbrev lddw_pair : ℕ → List EbpfInst
lddw_pair v = inst 0x18 1 0 (pos 0) (pos v) ∷ inst 0 0 0 (pos 0) (pos 0) ∷ []

-- `r3 += r4`.
make_alu_op-IsAluInstruction_example : IsAluInstruction (bin (alu_bin BinOp.add 3 (reg 4) true))
unfolding make_alu_op require_group supports_group get_alu_op offset_free_op alu_instruction
    get_bin_value
make_alu_op-IsAluInstruction_example =
    make_alu_op-IsAluInstruction info 0 (inst 0x0f 3 4 (pos 0) (pos 0)) ([] ∷ []) refl

-- `r1 = *(u64 *)(r10 - 8)`.
make_mem_op-IsMemInstruction_example :
    IsMemInstruction (mem (mem_of Width.dw 10 (negsuc 7) true (reg 1)))
unfolding make_mem_op get_mem_width require_group supports_group make_mem_by_mode make_mem
    get_mem_is_load note_stack_access opcode_to_width ◌+ℤ◌
make_mem_op-IsMemInstruction_example =
    make_mem_op-IsMemInstruction info 0 (inst 0x79 1 10 (negsuc 7) (pos 0)) ([] ∷ []) refl

-- `r0 = 0; goto +1; r0 = 1; exit` is decoded to four instructions.
unmarshal-Covers_example :
    (0 < length program)
    × Covers program 0 (
        labelled 0 (bin (alu_bin BinOp.mov 0 (imm 0) true))
        ∷ labelled 1 (jmp (jump_to none 3))
        ∷ labelled 2 (bin (alu_bin BinOp.mov 0 (imm 1) true))
        ∷ labelled 3 (exit (record { stack_frame_prefix = "" }))
        ∷ [])
unfolding unmarshal turn make_alu_op require_group supports_group get_alu_op mov_op alu_instruction
    get_bin_value make_jmp check_ja make_jmp_default get_jmp_op get_jump_target make_exit
unmarshal-Covers_example = unmarshal-Covers checked info program [] refl

-- A `lddw` takes two slots.
length-marshal_example : length (lddw_pair 7) ≡ size (bin (lddw_of 1 7))
unfolding marshal marshal_bin
length-marshal_example = length-marshal checked (bin (lddw_of 1 7)) 0 tt refl

-- `goto l; r1 = 7 ll; l: exit`, where `l` is the label 9, is encoded to four slots, and `l` stands at
-- the last one.
abbrev placed_before : List LabeledInstruction
placed_before = labelled 5 (jmp (jump_to none 9)) ∷ labelled 7 (bin (lddw_of 1 7)) ∷ []

abbrev placed_exit : LabeledInstruction
placed_exit = labelled 9 (exit (record { stack_frame_prefix = "" }))

-- `bpf_map_update_elem` is called with a map, a key, a value and flags.
make_call-UsesArguments_example : UsesArguments (record {
  func = pos 2;
  name = "map_update_elem";
  is_map_lookup = false;
  reallocate_packet = false;
  singles =
      record { kind = ArgSingleKind.map_fd; reg = 1 }
      ∷ record { kind = ArgSingleKind.ptr_to_map_key; reg = 2 }
      ∷ record { kind = ArgSingleKind.ptr_to_map_value; reg = 3 }
      ∷ record { kind = ArgSingleKind.anything; reg = 4 }
      ∷ [];
  pairs = [];
  stack_frame_prefix = "";
})
unfolding make_call
make_call-UsesArguments_example = make_call-UsesArguments checked platform (pos 2) refl

unmarshal-IsOutcome_example : IsOutcome (unmarshal checked info program []).0
unmarshal-IsOutcome_example = unmarshal-IsOutcome checked info program []

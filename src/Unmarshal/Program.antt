-- ===== src/Unmarshal/Program.antt =====
-- The decoding loop, `Unmarshaller::unmarshal`, and its callers:
-- verifiers/prevail/src/asm_unmarshal.cpp.
use linux_dev_env.Base.{
  ℕ, ◌+◌, ◌-◌, ◌%◌, ◌^◌, Bool, true, false, not, ◌&&◌, ◌||◌, Option, none, some, List, [], ◌∷◌,
  ◌++◌, length, ltb, leb, ◌==◌, ◌!=◌, if◌then◌else◌,
}
use linux_dev_env.Base.Int.{ℤ, pos, eqb_ℤ}
use linux_dev_env.Outcome.{
  Result, M, Notes, ok, err, What, invalid_instruction, invalid_argument, crab_error, out_of_range,
  lift, tell, note_if, note_next_pc,
}
use linux_dev_env.Outcome.Noting.{◌>>=◌, ◌>>◌}
use linux_dev_env.Gsl.{Gsl, int32, narrow}
use linux_dev_env.Isa
use linux_dev_env.Isa.{EbpfInst}
use linux_dev_env.Label.{label_at}
use linux_dev_env.Syntax.Op.{Reg, BinOp, imm, reg}
use linux_dev_env.Syntax.Instruction.{
  Bin, Instruction, bin, exit, jmp, LineInfo, LabeledInstruction, is_bin,
}
use linux_dev_env.Platform.{ProgramInfo}
use linux_dev_env.Unmarshal.Operand.{class_of, inst_at}
use linux_dev_env.Unmarshal.Alu.{make_alu_op}
use linux_dev_env.Unmarshal.Memory.{make_mem_op}
use linux_dev_env.Unmarshal.Lddw.{make_lddw}
use linux_dev_env.Unmarshal.Jump.{make_jmp}

unfoldable pub shift32 : Reg → BinOp → Bin
shift32 dst op = record { op = op; dst = dst; v = imm 32; is64 = true; lddw = false }

-- What one turn of the loop decodes; `exits` is what it adds to `exit_count`.
pub record Decoded : Type 0 where
  pub new_ins : Instruction
  pub skip_instruction : Bool
  pub fallthrough : Bool
  pub exits : ℕ

abbrev plain : Instruction → Bool → Decoded
plain ins skip = record { new_ins = ins; skip_instruction = skip; fallthrough = true; exits = 0 }

-- The merging of two shifts by 32, given the second instruction.
unfoldable pub merge_shifts : Reg → Instruction → Instruction → Decoded
unfolding shift32
merge_shifts dst new_ins next_ins =
    if is_bin next_ins (shift32 dst BinOp.rsh)
    then plain (bin (record { op = BinOp.mov; dst = dst; v = reg dst; is64 = false; lddw = false }))
        true
    else if is_bin next_ins (shift32 dst BinOp.arsh)
    then plain
        (bin (record { op = BinOp.movsx32; dst = dst; v = reg dst; is64 = true; lddw = false }))
        true
    else plain new_ins false

-- The cases `INST_CLS_ALU` and `INST_CLS_ALU64`.
unfoldable pub decode_alu : ProgramInfo → List EbpfInst → ℕ → EbpfInst → M Decoded
unfolding merge_shifts shift32
decode_alu info insts pc inst = do
  new_ins ← make_alu_op info pc inst
  if leb (length insts - 1) pc || not (is_bin new_ins (shift32 inst.dst BinOp.lsh))
      then lift (ok (plain new_ins false))
      else (do
        next ← lift (inst_at insts (pc + 1))
        if class_of next != Isa.inst_cls_alu64 then lift (ok (plain new_ins false)) else (do
          next_ins ← make_alu_op info (pc + 1) next
          lift (ok (merge_shifts inst.dst new_ins next_ins))))

-- The cases `INST_CLS_JMP32` and `INST_CLS_JMP`, after `makeJmp`.
unfoldable pub jump_flow : Instruction → Decoded
jump_flow (exit e) = record {
  new_ins = exit e;
  skip_instruction = false;
  fallthrough = false;
  exits = 1;
}
jump_flow (jmp j) = record {
  new_ins = jmp j;
  skip_instruction = false;
  fallthrough = elim j.cond [ none ↦ false | some _ ↦ true ];
  exits = 0;
}
jump_flow ins = plain ins false

-- The switch on the class. `pc` is 64 bits wide in the loop, and 32 in some of the callees.
unfoldable pub decode : Gsl → ProgramInfo → List EbpfInst → ℕ → EbpfInst → M Decoded
unfolding decode_alu jump_flow
decode gsl info insts pc inst =
    let cls = class_of inst in
    let pc32 = pc % 2 ^ 32 in
    if inst.opcode == Isa.inst_op_lddw_imm
    then (do
      next ← lift (if ltb pc (length insts - 1) then inst_at insts (pc + 1) else ok inst)
      let next_imm = if ltb pc (length insts - 1) then next.imm else pos 0
      new_ins ← lift (make_lddw info inst next_imm insts pc32)
      lift (ok (plain new_ins true)))
    else if cls == Isa.inst_cls_ld
        || (cls == Isa.inst_cls_ldx || (cls == Isa.inst_cls_st || cls == Isa.inst_cls_stx))
    then (do new_ins ← make_mem_op info pc32 inst; lift (ok (plain new_ins false)))
    else if cls == Isa.inst_cls_alu || cls == Isa.inst_cls_alu64
    then decode_alu info insts pc inst
    else if cls == Isa.inst_cls_jmp32 || cls == Isa.inst_cls_jmp
    then (do new_ins ← lift (make_jmp gsl info inst insts pc32); lift (ok (jump_flow new_ins)))
    else lift (err (crab_error "invalid class: " cls))

-- `line_info.at(pc)`.
abbrev pub line_at : ℤ → List (ℤ × LineInfo) → Option LineInfo
line_at pc [] = none
line_at pc ((k, l) ∷ ls) = if eqb_ℤ k pc then some l else line_at pc ls

unfoldable pub current_line_info : ProgramInfo → ℕ → Result (Option LineInfo)
current_line_info info pc =
    if ltb pc (length info.line_info)
    then elim (line_at (pos pc) info.line_info) [ none ↦ err out_of_range | some l ↦ ok (some l) ]
    else ok none

-- The end of a turn, which appends to `prog`.
unfoldable pub append : Gsl → ProgramInfo → List EbpfInst → ℕ → Decoded → M LabeledInstruction
unfolding current_line_info
append gsl info insts pc d = do
  note_if (pc == length insts - 1 && d.fallthrough) "fallthrough in last instruction"
  line ← lift (current_line_info info pc)
  index ← lift (narrow gsl int32 (pos pc))
  tell note_next_pc
  lift (ok (record { label = label_at index; ins = d.new_ins; line_info = line }))

-- One turn of the loop: what it decodes, and what it appends to `prog`.
unfoldable pub turn :
    Gsl → ProgramInfo → List EbpfInst → ℕ → EbpfInst → M (Decoded × LabeledInstruction)
unfolding decode append
turn gsl info insts pc inst = do
  d ← decode gsl info insts pc inst
  labeled ← append gsl info insts pc d
  lift (ok (d, labeled))

-- The loop, over the instructions from `insts[pc]` on.
unfoldable pub unmarshal_from :
    Gsl
    → ProgramInfo
    → List EbpfInst
    → ℕ
    → ℕ
    → List LabeledInstruction
    → List EbpfInst
    → M (ℕ × List LabeledInstruction)
unmarshal_from gsl info insts pc exit_count prog [] = lift (ok (exit_count, prog))
unmarshal_from gsl info insts pc exit_count prog (inst ∷ []) = do
  (d, labeled) ← turn gsl info insts pc inst
  tell (λ ns. if d.skip_instruction then note_next_pc ns else ns)
  lift (ok (exit_count + d.exits, prog ++ labeled ∷ []))
unmarshal_from gsl info insts pc exit_count prog (inst ∷ next ∷ rest) = do
  (d, labeled) ← turn gsl info insts pc inst
  elim d.skip_instruction [
    | true ↦ (do
      tell note_next_pc
      unmarshal_from gsl info insts (pc + 2) (exit_count + d.exits) (prog ++ labeled ∷ []) rest)
    | false ↦
        unmarshal_from gsl info insts (pc + 1) (exit_count + d.exits) (prog ++ labeled ∷ [])
          (next ∷ rest)
  ]

-- `Unmarshaller::unmarshal`, with the constructor's note.
unfoldable pub unmarshal_program : Gsl → ProgramInfo → List EbpfInst → M (List LabeledInstruction)
unfolding unmarshal_from
unmarshal_program gsl info [] = do
  tell note_next_pc
  lift (err (invalid_argument "Zero length programs are not allowed"))
unmarshal_program gsl info (inst ∷ insts) = do
  tell note_next_pc
  (exit_count, prog) ← unmarshal_from gsl info (inst ∷ insts) 0 0 [] (inst ∷ insts)
  note_if (exit_count == 0) "no exit instruction"
  lift (ok prog)

-- `std::variant<InstructionSeq, std::string>`; the text is kept as its two parts.
pub data Unmarshalled : Type 0 where
  instruction_seq : List LabeledInstruction → Unmarshalled
  message : ℕ → What → Unmarshalled

-- The handler of `unmarshal`: only `InvalidInstruction` is caught.
unfoldable pub caught : Result (List LabeledInstruction) → Result Unmarshalled
caught (ok prog) = ok (instruction_seq prog)
caught (err (invalid_instruction pc what)) = ok (message pc what)
caught (err e) = err e

unfoldable pub unmarshal : Gsl → ProgramInfo → List EbpfInst → Notes → Result Unmarshalled × Notes
unfolding caught unmarshal_program
unmarshal gsl info insts ns = let (r, ns') = unmarshal_program gsl info insts ns in (caught r, ns')

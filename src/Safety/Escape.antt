-- ===== src/Safety/Escape.antt =====
-- What leaves the decoder: verifiers/prevail/src/asm_unmarshal.cpp.
use linux_dev_env.Base.{
  ℕ, String, ◌+◌, ◌<◌, ◌≡◌, refl, Bool, true, false, List, [], ◌∷◌, ◌++◌, length, lt-get_elem?,
  ◌==◌, arith, if◌then◌else◌, ◌||◌,
}
use linux_dev_env.Base.Int.{ℤ}
use linux_dev_env.Outcome.{
  Result, ok, err, Notes, M, and_then, lift, tell, note_if, note_next_pc, assertion_failed,
  undefined_behaviour, invalid_instruction,
}
use linux_dev_env.Outcome.Noting.{◌>>=◌, ◌>>◌}
use linux_dev_env.Gsl.{Gsl}
use linux_dev_env.Isa
use linux_dev_env.Isa.{EbpfInst}
use linux_dev_env.Syntax.Op.{UnOp, BinOp}
use linux_dev_env.Syntax.Instruction.{LabeledInstruction}
use linux_dev_env.Platform.{ProgramInfo}
use linux_dev_env.Unmarshal.Operand.{get_bin_value, inst_at, class_of}
use linux_dev_env.Unmarshal.AluOp.{
  AluOp, bin_op, un_op, division_op, mov_op, mul_op, neg_op, end_op, endian_width,
}
use linux_dev_env.Unmarshal.Alu.{offset_free_op, get_alu_op, alu_instruction, make_alu_op}
use linux_dev_env.Unmarshal.Lddw.{make_lddw}
use linux_dev_env.Unmarshal.Program.{
  Decoded, decode_alu, decode, append, current_line_info, turn, unmarshal_from, unmarshal_program,
  caught, unmarshal,
}
use linux_dev_env.Safety.Defined.{
  IsDefined, make_mem_op-IsDefined, make_jmp-IsDefined, require_group-IsDefined,
}

and_then-IsDefined :
    {A B : Type 0} (r : Result A × Notes) (f : A → M B)
    → IsDefined r.0
    → ((a : A) → r.0 ≡ ok a → IsDefined (f a r.1).0)
    → IsDefined (and_then r f).0
and_then-IsDefined (ok a, ns) f h k = k a refl
and_then-IsDefined (err assertion_failed, ns) f h k = h
and_then-IsDefined (err undefined_behaviour, ns) f h k = h
and_then-IsDefined (err _, ns) f h k = tt

inst_at-IsDefined :
    (insts : List EbpfInst) (pc : ℕ) → pc < length insts → IsDefined (inst_at insts pc)
inst_at-IsDefined insts pc h = let (i, e) = lt-get_elem? insts pc h in ground (arith, e)

alu_instruction-IsDefined :
    (info : ProgramInfo) (pc : ℕ) (inst : EbpfInst) (op : AluOp) (ns : Notes)
    → IsDefined (alu_instruction info pc inst op ns).0
unfolding alu_instruction get_bin_value
alu_instruction-IsDefined info pc inst (un_op op) ns = tt
alu_instruction-IsDefined info pc inst (bin_op op) ns = grind arith

endian_width-IsDefined :
    (info : ProgramInfo) (op16 op32 op64 : UnOp) (pc : ℕ) (inst : EbpfInst)
    → IsDefined (endian_width info op16 op32 op64 pc inst)
unfolding endian_width
endian_width-IsDefined info op16 op32 op64 pc inst = grind (arith, require_group-IsDefined)

end_op-IsDefined : (info : ProgramInfo) (pc : ℕ) (inst : EbpfInst) → IsDefined (end_op info pc inst)
unfolding end_op
end_op-IsDefined info pc inst = grind (arith, endian_width-IsDefined)

division_op-IsDefined :
    (info : ProgramInfo) (unsigned signed : BinOp) (pc : ℕ) (inst : EbpfInst)
    → IsDefined (division_op info unsigned signed pc inst)
unfolding division_op
division_op-IsDefined info unsigned signed pc inst = grind (arith, require_group-IsDefined)

mov_op-IsDefined : (pc : ℕ) (inst : EbpfInst) → IsDefined (mov_op pc inst)
unfolding mov_op
mov_op-IsDefined pc inst = grind arith

either-IsDefined :
    {A : Type 0} (c : Bool) (m m' : M A) (ns : Notes)
    → IsDefined (m ns).0
    → IsDefined (m' ns).0
    → IsDefined ((if c then m else m') ns).0
either-IsDefined true m m' ns h h' = h
either-IsDefined false m m' ns h h' = h'

mul_op-IsDefined : (info : ProgramInfo) (pc : ℕ) (inst : EbpfInst) → IsDefined (mul_op info pc inst)
unfolding mul_op
mul_op-IsDefined info pc inst = grind (arith, require_group-IsDefined)

neg_op-IsDefined : (pc : ℕ) (inst : EbpfInst) → IsDefined (neg_op pc inst)
unfolding neg_op
neg_op-IsDefined pc inst = grind arith

note_if-IsDefined :
    {A : Type 0} (c : Bool) (what : String) (a : A) (ns : Notes)
    → IsDefined ((note_if c what >> lift (ok a)) ns).0
note_if-IsDefined true what a ns = tt
note_if-IsDefined false what a ns = tt

offset_free_op-IsDefined :
    (info : ProgramInfo) (pc : ℕ) (inst : EbpfInst) (ns : Notes)
    → IsDefined (offset_free_op info pc inst ns).0
unfolding offset_free_op
offset_free_op-IsDefined info pc inst ns =
    search
      (either-IsDefined, mul_op-IsDefined, neg_op-IsDefined, note_if-IsDefined, end_op-IsDefined)
      depth 20 fits 4000

get_alu_op-IsDefined :
    (info : ProgramInfo) (pc : ℕ) (inst : EbpfInst) (ns : Notes)
    → IsDefined (get_alu_op info pc inst ns).0
unfolding get_alu_op
get_alu_op-IsDefined info pc inst ns =
    grind (arith, division_op-IsDefined, mov_op-IsDefined, offset_free_op-IsDefined)

make_alu_op-IsDefined :
    (info : ProgramInfo) (pc : ℕ) (inst : EbpfInst) (ns : Notes)
    → IsDefined (make_alu_op info pc inst ns).0
unfolding make_alu_op
make_alu_op-IsDefined info pc inst ns =
    grind (arith, require_group-IsDefined, get_alu_op-IsDefined, alu_instruction-IsDefined)

make_lddw-IsDefined :
    (info : ProgramInfo) (inst : EbpfInst) (next_imm : ℤ) (insts : List EbpfInst) (pc : ℕ)
    → IsDefined (make_lddw info inst next_imm insts pc)
unfolding make_lddw
make_lddw-IsDefined info inst next_imm insts pc =
    grind (arith, require_group-IsDefined, lt-get_elem? insts (pc + 1))

decode_alu-IsDefined :
    (info : ProgramInfo) (insts : List EbpfInst) (pc : ℕ) (inst : EbpfInst) (ns : Notes)
    → IsDefined (decode_alu info insts pc inst ns).0
unfolding decode_alu
decode_alu-IsDefined info insts pc inst ns = grind (arith, make_alu_op-IsDefined, inst_at-IsDefined)

decode-IsDefined :
    (gsl : Gsl) (info : ProgramInfo) (insts : List EbpfInst) (pc : ℕ) (inst : EbpfInst) (ns : Notes)
    → IsDefined (decode gsl info insts pc inst ns).0
unfolding decode
decode-IsDefined gsl info insts pc inst ns =
    let cls = class_of inst in
    either-IsDefined (inst.opcode == Isa.inst_op_lddw_imm) _ _ ns
      (grind (arith, inst_at-IsDefined, make_lddw-IsDefined))
      (either-IsDefined
        (cls == Isa.inst_cls_ld
          || (cls == Isa.inst_cls_ldx || (cls == Isa.inst_cls_st || cls == Isa.inst_cls_stx)))
        _ _ ns (grind (arith, make_mem_op-IsDefined))
        (either-IsDefined (cls == Isa.inst_cls_alu || cls == Isa.inst_cls_alu64) _ _ ns
          (decode_alu-IsDefined info insts pc inst ns)
          (either-IsDefined (cls == Isa.inst_cls_jmp32 || cls == Isa.inst_cls_jmp) _ _ ns
            (grind (arith, make_jmp-IsDefined)) tt)))

append-IsDefined :
    (gsl : Gsl) (info : ProgramInfo) (insts : List EbpfInst) (pc : ℕ) (d : Decoded) (ns : Notes)
    → IsDefined (append gsl info insts pc d ns).0
unfolding append current_line_info
append-IsDefined gsl info insts pc d ns = ground arith

turn-IsDefined :
    (gsl : Gsl) (info : ProgramInfo) (insts : List EbpfInst) (pc : ℕ) (inst : EbpfInst) (ns : Notes)
    → IsDefined (turn gsl info insts pc inst ns).0
unfolding turn
turn-IsDefined gsl info insts pc inst ns =
    and_then-IsDefined (decode gsl info insts pc inst ns)
      (λ d. append gsl info insts pc d >>= λ l. lift (ok (d, l)))
      (decode-IsDefined gsl info insts pc inst ns)
      (λ d e.
        and_then-IsDefined (append gsl info insts pc d (decode gsl info insts pc inst ns).1)
          (λ l. lift (ok (d, l))) (append-IsDefined gsl info insts pc d _) (λ l e'. tt))

elim-IsDefined :
    {A : Type 0} (c : Bool) (m m' : M A) (ns : Notes)
    → IsDefined (m ns).0
    → IsDefined (m' ns).0
    → IsDefined ((elim c as (λ _. M A) [ true ↦ m | false ↦ m' ]) ns).0
elim-IsDefined true m m' ns h h' = h
elim-IsDefined false m m' ns h h' = h'

unmarshal_from-IsDefined :
    (gsl : Gsl) (info : ProgramInfo) (insts : List EbpfInst) (pc exits : ℕ)
    (prog : List LabeledInstruction) (rest : List EbpfInst) (ns : Notes)
    → IsDefined (unmarshal_from gsl info insts pc exits prog rest ns).0
unfolding unmarshal_from
unmarshal_from-IsDefined gsl info insts pc exits prog [] ns = tt
unmarshal_from-IsDefined gsl info insts pc exits prog (i ∷ []) ns =
    and_then-IsDefined (turn gsl info insts pc i ns) _ (turn-IsDefined gsl info insts pc i ns)
      (λ x e. tt)
unmarshal_from-IsDefined gsl info insts pc exits prog (i ∷ n ∷ rest) ns =
    and_then-IsDefined (turn gsl info insts pc i ns)
      (λ x. elim x.0.skip_instruction [
        | true ↦
            tell note_next_pc
            >> unmarshal_from gsl info insts (pc + 2) (exits + x.0.exits) (prog ++ x.1 ∷ []) rest
        | false ↦
            unmarshal_from gsl info insts (pc + 1) (exits + x.0.exits) (prog ++ x.1 ∷ []) (n ∷ rest)
      ])
      (turn-IsDefined gsl info insts pc i ns)
      (λ x e.
        elim-IsDefined x.0.skip_instruction _ _ (turn gsl info insts pc i ns).1
          (unmarshal_from-IsDefined gsl info insts (pc + 2) (exits + x.0.exits) (prog ++ x.1 ∷ [])
            rest (note_next_pc (turn gsl info insts pc i ns).1))
          (unmarshal_from-IsDefined gsl info insts (pc + 1) (exits + x.0.exits) (prog ++ x.1 ∷ [])
            (n ∷ rest) (turn gsl info insts pc i ns).1))

unmarshal_program-IsDefined :
    (gsl : Gsl) (info : ProgramInfo) (insts : List EbpfInst) (ns : Notes)
    → IsDefined (unmarshal_program gsl info insts ns).0
unfolding unmarshal_program
unmarshal_program-IsDefined gsl info [] ns = tt
unmarshal_program-IsDefined gsl info (i ∷ insts) ns =
    and_then-IsDefined (unmarshal_from gsl info (i ∷ insts) 0 0 [] (i ∷ insts) (note_next_pc ns)) _
      (unmarshal_from-IsDefined gsl info (i ∷ insts) 0 0 [] (i ∷ insts) (note_next_pc ns))
      (λ x e. note_if-IsDefined (x.0 == 0) "no exit instruction" x.1 _)

-- A result, or an exception other than the one that is caught.
abbrev pub IsOutcome : {A : Type 0} → Result A → Type 0
IsOutcome (err (invalid_instruction _ _)) = ⊥
IsOutcome r = IsDefined r

caught-IsOutcome : (r : Result (List LabeledInstruction)) → IsDefined r → IsOutcome (caught r)
unfolding caught
caught-IsOutcome (ok prog) h = tt
caught-IsOutcome (err (invalid_instruction pc what)) h = tt
caught-IsOutcome (err assertion_failed) h = h
caught-IsOutcome (err undefined_behaviour) h = h
caught-IsOutcome (err _) h = tt

-- Decoding any list of instructions, of any contents, ends with a program or with the message of an
-- invalid instruction, or throws an exception of another kind: no `InvalidInstruction` leaves it,
-- no assertion fails, and it reads the program at slots of the program only.
pub unmarshal-IsOutcome :
    (gsl : Gsl) (info : ProgramInfo) (insts : List EbpfInst) (ns : Notes)
    → IsOutcome (unmarshal gsl info insts ns).0
unfolding unmarshal
unmarshal-IsOutcome gsl info insts ns =
    caught-IsOutcome (unmarshal_program gsl info insts ns).0
      (unmarshal_program-IsDefined gsl info insts ns)

-- ===== src/Safety/Target.antt =====
-- Every jump and local call that is decoded leads to a slot of the program whose opcode is not 0.
use linux_dev_env.Base.{
  ℕ, ◌+◌, ◌%◌, ◌^◌, ◌≡◌, ◌≢◌, some, List, get_elem?, Option-cases, inl, inr, arith,
}
use linux_dev_env.Base.Int.{ℤ, pos, to_unsigned}
use linux_dev_env.Outcome.{ok}
use linux_dev_env.Gsl.{Gsl, int32, narrow_lem}
use linux_dev_env.Isa.{EbpfInst}
use linux_dev_env.Label.{Label, label_at}
use linux_dev_env.Syntax.Instruction.{Instruction, jmp, call_local}
use linux_dev_env.Platform.{ProgramInfo}
use linux_dev_env.Unmarshal.Jump.{
  get_jump_target, make_call_local, make_call_instruction, make_exit, make_jmp_default, make_jmp,
}

-- The label of a slot of the program that is not the second half of a `lddw`.
pub record Lands (insts : List EbpfInst) (l : Label) : Type 0 where
  pub slot : ℕ
  pub target : EbpfInst
  pub is_slot : l ≡ label_at (pos slot)
  pub at : get_elem? insts slot ≡ some target
  pub whole : target.opcode ≢ 0

abbrev pub LandsIn : List EbpfInst → Instruction → Type 0
LandsIn insts (jmp j) = Lands insts j.target
LandsIn insts (call_local c) = Lands insts c.target
LandsIn insts _ = Unit

get_jump_target-Lands :
    (gsl : Gsl) (offset : ℤ) (insts : List EbpfInst) (pc : ℕ) {l : Label}
    → get_jump_target gsl offset insts pc ≡ ok l
    → Lands insts l
unfolding get_jump_target
get_jump_target-Lands gsl offset insts pc {l} h =
    let new_pc = (pc + 1 + to_unsigned (2 ^ 32) offset) % 2 ^ 32 in
    elim (Option-cases (get_elem? insts new_pc)) [
      | inl e ↦ absurd (ground (arith, e))
      | inr (i, e) ↦ record {
        slot = new_pc;
        target = i;
        is_slot = ground (arith, e, narrow_lem gsl int32 (pos new_pc));
        at = e;
        whole = ground (arith, e);
      }
    ]

make_call_instruction-Lands :
    (gsl : Gsl) (info : ProgramInfo) (inst : EbpfInst) (insts : List EbpfInst) (pc : ℕ)
    {ins : Instruction}
    → make_call_instruction gsl info inst insts pc ≡ ok ins
    → LandsIn insts ins
unfolding make_call_instruction make_call_local
make_call_instruction-Lands gsl info inst insts pc h = grind (arith, get_jump_target-Lands)

make_exit-Lands :
    (info : ProgramInfo) (inst : EbpfInst) (insts : List EbpfInst) (pc : ℕ) {ins : Instruction}
    → make_exit info inst pc ≡ ok ins
    → LandsIn insts ins
unfolding make_exit
make_exit-Lands info inst insts pc h = grind arith

make_jmp_default-Lands :
    (gsl : Gsl) (info : ProgramInfo) (inst : EbpfInst) (insts : List EbpfInst) (pc : ℕ)
    {ins : Instruction}
    → make_jmp_default gsl info inst insts pc ≡ ok ins
    → LandsIn insts ins
unfolding make_jmp_default
make_jmp_default-Lands gsl info inst insts pc h = grind (arith, get_jump_target-Lands)

-- Every jump and local call that is decoded from any bytes leads to a slot inside the program whose
-- opcode is not 0.
pub make_jmp-LandsIn :
    (gsl : Gsl) (info : ProgramInfo) (inst : EbpfInst) (insts : List EbpfInst) (pc : ℕ)
    {ins : Instruction}
    → make_jmp gsl info inst insts pc ≡ ok ins
    → LandsIn insts ins
unfolding make_jmp
make_jmp-LandsIn gsl info inst insts pc h =
    grind (arith, make_call_instruction-Lands, make_exit-Lands, make_jmp_default-Lands)

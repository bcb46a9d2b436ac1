-- ===== src/Roundtrip/Goto.antt =====
-- Unconditional jumps, exits and calls.
use linux_dev_env.Base.{
  ℕ, ◌+◌, ◌^◌, ◌≤◌, ◌<◌, ◌≡◌, false, true, none, List, [], ◌∷◌, String, refl, Bool-cases, inl, inr,
  length, get_elem?-lt, arith,
}
use linux_dev_env.Base.Int.{ℤ, pos, ◌-ℤ◌, IsInt32, IsInt16}
use linux_dev_env.Outcome.{ok}
use linux_dev_env.Gsl.{Gsl, narrow_lem}
use linux_dev_env.Isa.{EbpfInst}
use linux_dev_env.Label.{label_at, label_to_offset16, label_to_offset32, is_16}
use linux_dev_env.Syntax.Instruction.{CallLocal, jmp, exit, callx, call_local}
use linux_dev_env.Platform.{ProgramInfo}
use linux_dev_env.Unmarshal.Operand.{require_group}
use linux_dev_env.Unmarshal.Jump.{
  get_jmp_op, get_jump_target, check_ja, make_jmp_default, make_jmp, make_exit, make_callx,
  make_call_instruction, make_call_local,
}
use linux_dev_env.Marshal.Visitor.{marshal_callx, marshal_call_local}
use linux_dev_env.Marshal.Jump.{marshal_jmp}
use linux_dev_env.Marshal.Sequence.{marshal}
use linux_dev_env.Roundtrip.Alu.{Supports}
use linux_dev_env.Roundtrip.Jump.{distance, IsTarget, jump_to, get_jump_target_lem}

abbrev goto16 : ℤ → EbpfInst
goto16 offset = record { opcode = 0x05; dst = 0; src = 0; offset = offset; imm = pos 0 }

abbrev goto32 : ℤ → EbpfInst
goto32 offset = record { opcode = 0x06; dst = 0; src = 0; offset = pos 0; imm = offset }

module _ (gsl : Gsl) (pc to : ℕ) (pc_fits : pc < 2 ^ 31) (to_fits : to < 2 ^ 31) where
  marshal-near :
      is_16 (distance pc to) ≡ true
      → marshal gsl (jmp (jump_to none to)) pc ≡ ok (goto16 (distance pc to) ∷ [])
  unfolding marshal marshal_jmp label_to_offset16 label_to_offset32
  marshal-near near = simp (narrow_lem gsl) (ground arith)

  distance_fits : IsInt32 (distance pc to)
  unfolding ◌-ℤ◌
  distance_fits = ground arith

  marshal-far :
      is_16 (distance pc to) ≡ false
      → marshal gsl (jmp (jump_to none to)) pc ≡ ok (goto32 (distance pc to) ∷ [])
  unfolding marshal marshal_jmp label_to_offset16 label_to_offset32
  marshal-far far = simp (narrow_lem gsl) (ground (arith, distance_fits))

-- An unconditional jump to a whole instruction of the program, near or far, is encoded as one
-- instruction that is decoded to it, on a platform that supports all groups.
make_jmp-marshal_goto :
    (gsl : Gsl) (info : ProgramInfo) (insts : List EbpfInst) (pc to : ℕ)
    → Supports info
    → pc < length insts
    → IsTarget insts to
    → (inst : EbpfInst) × (marshal gsl (jmp (jump_to none to)) pc ≡ ok (inst ∷ []))
      × (make_jmp gsl info inst insts pc ≡ ok (jmp (jump_to none to)))
unfolding make_jmp make_jmp_default require_group get_jmp_op check_ja
make_jmp-marshal_goto gsl info insts pc to supports here t =
    let lt : to < length insts = get_elem?-lt insts to t.at in
    let target : get_jump_target gsl (distance pc to) insts pc ≡ ok (label_at (pos to)) =
      get_jump_target_lem gsl insts pc to here t in
    let p : pc < 2 ^ 31 = omega (arith, t.size_fits) in
    let q : to < 2 ^ 31 = omega (arith, t.size_fits) in
    elim (Bool-cases (is_16 (distance pc to))) [
      | inl near ↦ (
        goto16 (distance pc to),
        marshal-near gsl pc to p q near,
        simp (supports, target) (ground arith),
      )
      | inr far ↦ (
        goto32 (distance pc to),
        marshal-far gsl pc to p q far,
        simp (supports, target) (ground arith),
      )
    ]

-- An exit is encoded as one instruction that is decoded to it.
pub make_jmp-marshal-exit :
    (gsl : Gsl) (info : ProgramInfo) (insts : List EbpfInst) (pc : ℕ) (prefix : String)
    → Supports info
    → (inst : EbpfInst) × (marshal gsl (exit (record { stack_frame_prefix = prefix })) pc
        ≡ ok (inst ∷ []))
      × (make_jmp gsl info inst insts pc ≡ ok (exit (record { stack_frame_prefix = "" })))
unfolding marshal make_jmp make_exit require_group
make_jmp-marshal-exit gsl info insts pc prefix supports =
    (record { opcode = 0x95; dst = 0; src = 0; offset = pos 0; imm = pos 0 }, refl, simp supports)

-- A call through a register up to r10 is encoded as one instruction that is decoded to it, on a
-- platform that supports all groups.
pub make_jmp-marshal_callx :
    (gsl : Gsl) (info : ProgramInfo) (insts : List EbpfInst) (pc r : ℕ)
    → Supports info
    → r ≤ 10
    → (inst : EbpfInst) × (marshal gsl (callx (record { func = r })) pc ≡ ok (inst ∷ []))
      × (make_jmp gsl info inst insts pc ≡ ok (callx (record { func = r })))
unfolding marshal marshal_callx make_jmp make_call_instruction make_callx require_group
make_jmp-marshal_callx gsl info insts pc r supports fits = (
  record { opcode = 0x8d; dst = r; src = 0; offset = pos 0; imm = pos 0 },
  simp (narrow_lem gsl) (ground arith),
  simp supports (ground arith),
)

abbrev pub local_call : ℕ → CallLocal
local_call to = record { target = label_at (pos to); stack_frame_prefix = "" }

-- A local call over a near distance is encoded with the distance 0, so that its encoding is
-- decoded to a call of the next instruction, whatever the target was.
pub make_jmp-marshal_call_local :
    (gsl : Gsl) (info : ProgramInfo) (insts : List EbpfInst) (pc to : ℕ)
    → Supports info
    → pc < length insts
    → IsTarget insts (pc + 1)
    → IsInt16 (distance pc to)
    → (inst : EbpfInst) × (marshal gsl (call_local (local_call to)) pc ≡ ok (inst ∷ []))
      × (make_jmp gsl info inst insts pc ≡ ok (call_local (local_call (pc + 1))))
unfolding marshal marshal_call_local label_to_offset32 make_jmp make_call_instruction
    make_call_local require_group
make_jmp-marshal_call_local gsl info insts pc to supports here t near =
    let target : get_jump_target gsl (distance pc (pc + 1)) insts pc
        ≡ ok (label_at (pos (pc + 1))) =
      get_jump_target_lem gsl insts pc (pc + 1) here t in
    let z : distance pc (pc + 1) ≡ pos 0 = unfold ◌-ℤ◌ in ground arith in
    let next : get_jump_target gsl (pos 0) insts pc ≡ ok (label_at (pos (pc + 1))) =
      rw z at target in
    let p : pc < 2 ^ 31 = omega (arith, t.size_fits) in
    (
      record { opcode = 0x85; dst = 0; src = 1; offset = pos 0; imm = pos 0 },
      simp (narrow_lem gsl) (ground arith),
      simp (supports, next) (ground arith),
    )

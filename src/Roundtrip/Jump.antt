-- ===== src/Roundtrip/Jump.antt =====
-- Jumps, within a program whose jump target is an instruction.
use linux_dev_env.Base.{
  ℕ, ◌+◌, ◌%◌, ◌^◌, ◌≤◌, ◌<◌, ◌≡◌, refl, refl, ◌≢◌, Bool, true, false, Option, some, List, [], ◌∷◌,
  length, get_elem?, get_elem?-lt, arith,
}
use linux_dev_env.Base.Int.{ℤ, pos, to_unsigned, ◌-ℤ◌, IsInt16}
use linux_dev_env.Outcome.{ok}
use linux_dev_env.Gsl.{Gsl, narrow_lem}
use linux_dev_env.Isa.{EbpfInst}
use linux_dev_env.Label.{Label, label_at, label_to_offset16, label_to_offset32}
use linux_dev_env.Syntax.Op.{Value, imm, reg, CondOp}
use linux_dev_env.Syntax.Instruction.{Condition, Jmp, jmp}
use linux_dev_env.Platform.{ProgramInfo}
use linux_dev_env.Unmarshal.Operand.{require_group, sign_extend}
use linux_dev_env.Unmarshal.Jump.{get_jmp_op, get_jump_target, make_jmp_default, make_jmp}
use linux_dev_env.Marshal.Code.{cond_op_code}
use linux_dev_env.Marshal.Jump.{marshal_jmp}
use linux_dev_env.Marshal.Sequence.{marshal}
use linux_dev_env.Roundtrip.Alu.{Supports}

-- `to - pc - 1`, the distance of a jump.
abbrev pub distance : ℕ → ℕ → ℤ
distance pc to = pos to -ℤ pos pc -ℤ pos 1

-- A 32-bit sum of a position and a distance is the target.
target_sum :
    (pc to : ℕ)
    → pc < 2 ^ 31
    → to < 2 ^ 31
    → (pc + 1 + to_unsigned (2 ^ 32) (distance pc to)) % 2 ^ 32 ≡ to
unfolding ◌-ℤ◌
target_sum pc to p q = ground arith

-- A program of at most 2 ^ 31 slots whose slot `to` holds an instruction that is not the second
-- half of a `lddw`.
pub record IsTarget (insts : List EbpfInst) (to : ℕ) : Type 0 where
  pub inst : EbpfInst
  pub at : get_elem? insts to ≡ some inst
  pub whole : inst.opcode ≢ 0
  pub size_fits : length insts ≤ 2 ^ 31

-- The offset that a jump carries leads back to the target.
pub get_jump_target_lem :
    (gsl : Gsl) (insts : List EbpfInst) (pc to : ℕ)
    → pc < length insts
    → IsTarget insts to
    → get_jump_target gsl (distance pc to) insts pc ≡ ok (label_at (pos to))
unfolding get_jump_target
get_jump_target_lem gsl insts pc to here t =
    let lt : to < length insts = get_elem?-lt insts to t.at in
    simp (target_sum pc to (omega arith) (omega arith), narrow_lem gsl, t.at) (ground arith)

-- A near distance is written in the 16-bit offset, and a far one in the 32-bit immediate.
abbrev pub IsNear : ℕ → ℕ → Type 0
IsNear pc to = IsInt16 (distance pc to)

label_to_offset16-near :
    (gsl : Gsl) (pc to : ℕ)
    → pc < 2 ^ 31
    → IsNear pc to
    → label_to_offset16 gsl pc (label_at (pos to)) ≡ ok (distance pc to)
unfolding label_to_offset16
label_to_offset16-near gsl pc to p near = simp (narrow_lem gsl) (ground arith)

label_to_offset32-near :
    (gsl : Gsl) (pc to : ℕ)
    → pc < 2 ^ 31
    → IsNear pc to
    → label_to_offset32 gsl pc (label_at (pos to)) ≡ ok (pos 0)
unfolding label_to_offset32
label_to_offset32-near gsl pc to p near = simp (narrow_lem gsl) (ground arith)

abbrev cond_code : CondOp → ℕ
cond_code CondOp.eq = 0x10
cond_code CondOp.gt = 0x20
cond_code CondOp.ge = 0x30
cond_code CondOp.set = 0x40
cond_code CondOp.nset = 0
cond_code CondOp.ne = 0x50
cond_code CondOp.sgt = 0x60
cond_code CondOp.sge = 0x70
cond_code CondOp.lt = 0xa0
cond_code CondOp.le = 0xb0
cond_code CondOp.slt = 0xc0
cond_code CondOp.sle = 0xd0

-- All operators but the one that eBPF does not have.
abbrev pub HasCondCode : CondOp → Type 0
HasCondCode CondOp.nset = ⊥
HasCondCode _ = Unit

abbrev pub IsOperand : Value → Type 0
IsOperand (reg r) = r ≤ 10
IsOperand (imm v) = v < 2 ^ 31

abbrev pub cond_of : CondOp → ℕ → Value → Bool → Condition
cond_of op left right is64 = record { op = op; left = left; right = right; is64 = is64 }

abbrev pub jump_to : Option Condition → ℕ → Jmp
jump_to cond to = record { cond = cond; target = label_at (pos to) }

abbrev cond_inst : CondOp → ℕ → Value → ℤ → EbpfInst
cond_inst op left (reg r) offset = record {
  opcode = 0x0d + cond_code op;
  dst = left;
  src = r;
  offset = offset;
  imm = pos 0;
}
cond_inst op left (imm v) offset = record {
  opcode = 0x05 + cond_code op;
  dst = left;
  src = 0;
  offset = offset;
  imm = pos v;
}

module _ (gsl : Gsl) (pc to left : ℕ) (pc_fits : pc < 2 ^ 31) (near : IsNear pc to)
    (left_fits : left ≤ 10) where
  marshal_jmp-some :
      (op : CondOp) (right : Value) (is64 : Bool)
      → HasCondCode op
      → IsOperand right
      → marshal_jmp gsl pc (some (cond_of op left right is64)) (label_at (pos to))
        ≡ ok (cond_inst op left right (distance pc to) ∷ [])
  unfolding marshal_jmp cond_op_code
  marshal_jmp-some CondOp.nset right is64 c fits = absurd c
  marshal_jmp-some _ (reg r) is64 c fits =
      simp (narrow_lem gsl, label_to_offset16-near gsl pc to pc_fits near) (ground arith)
  marshal_jmp-some _ (imm v) is64 c fits =
      simp (narrow_lem gsl, label_to_offset16-near gsl pc to pc_fits near) (ground arith)

module _ (gsl : Gsl) (info : ProgramInfo) (supports : Supports info) (insts : List EbpfInst)
    (pc to left : ℕ)
    (target : get_jump_target gsl (distance pc to) insts pc ≡ ok (label_at (pos to)))
    (left_fits : left ≤ 10) where
  make_jmp-some :
      (op : CondOp) (right : Value)
      → HasCondCode op
      → IsOperand right
      → make_jmp gsl info (cond_inst op left right (distance pc to)) insts pc
        ≡ ok (jmp (jump_to (some (cond_of op left right true)) to))
  unfolding make_jmp make_jmp_default require_group get_jmp_op sign_extend
  make_jmp-some CondOp.nset right c fits = absurd c
  make_jmp-some _ (reg r) c fits = simp (supports, target) (ground arith)
  make_jmp-some _ (imm v) c fits = simp (supports, target) (ground arith)

-- A conditional 64-bit jump over a near distance to a whole instruction of the program, with an
-- operator that eBPF has, registers up to r10 and an immediate below 2 ^ 31, is encoded as one
-- instruction that is decoded to it, on a platform that supports all groups.
pub make_jmp-marshal_cond :
    (gsl : Gsl) (info : ProgramInfo) (insts : List EbpfInst) (pc to : ℕ) (op : CondOp) (left : ℕ)
    (right : Value)
    → Supports info
    → pc < length insts
    → IsTarget insts to
    → IsNear pc to
    → HasCondCode op
    → left ≤ 10
    → IsOperand right
    → let j = jump_to (some (cond_of op left right true)) to in
      (inst : EbpfInst) × (marshal gsl (jmp j) pc ≡ ok (inst ∷ []))
      × (make_jmp gsl info inst insts pc ≡ ok (jmp j))
unfolding marshal
make_jmp-marshal_cond gsl info insts pc to op left right supports here t near code lf rf = (
  cond_inst op left right (distance pc to),
  marshal_jmp-some gsl pc to left (omega (arith, t.size_fits)) near lf op right true code rf,
  make_jmp-some gsl info supports insts pc to left (get_jump_target_lem gsl insts pc to here t) lf
      op right code rf,
)

-- The encoding of a conditional jump does not depend on its width: 32-bit and 64-bit conditions
-- are encoded alike.
marshal_cond_width :
    (gsl : Gsl) (pc : ℕ) (target : Label) (op : CondOp) (left : ℕ) (right : Value)
    → marshal gsl (jmp (record { cond = some (cond_of op left right false); target = target })) pc
      ≡ marshal gsl (jmp (record { cond = some (cond_of op left right true); target = target })) pc
unfolding marshal marshal_jmp
marshal_cond_width gsl pc target op left right = refl

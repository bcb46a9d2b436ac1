-- ===== src/Roundtrip/Alu.antt =====
-- Arithmetic instructions.
use linux_dev_env.Base.{
  ℕ, ◌+◌, ◌*◌, ◌^◌, ◌≤◌, ◌<◌, ◌≡◌, Bool, true, false, [], ◌∷◌, arith, if◌then◌else◌,
}
use linux_dev_env.Base.Int.{pos}
use linux_dev_env.Marshal.Sequence.{marshal}
use linux_dev_env.Outcome.{err, narrowing_error, ok, Notes}
use linux_dev_env.Gsl.{Gsl, narrow_lem}
use linux_dev_env.Isa.{EbpfInst}
use linux_dev_env.Syntax.Op.{Value, imm, reg, BinOp}
use linux_dev_env.Syntax.Instruction.{Bin, bin}
use linux_dev_env.Platform.{ConformanceGroup, ProgramInfo, supports_group}
use linux_dev_env.Unmarshal.Operand.{require_group, get_bin_value}
use linux_dev_env.Unmarshal.AluOp.{division_op, mov_op, mul_op}
use linux_dev_env.Unmarshal.Alu.{make_alu_op, get_alu_op, offset_free_op, alu_instruction}
use linux_dev_env.Marshal.Visitor.{marshal_bin}
use linux_dev_env.Marshal.Code.{bin_op_code, bin_op_offset}

abbrev pub Supports : ProgramInfo → Type 0
Supports info = (g : ConformanceGroup) → supports_group info.platform g ≡ true

abbrev pub alu_bin : BinOp → ℕ → Value → Bool → Bin
alu_bin op dst v is64 = record { op = op; dst = dst; v = v; is64 = is64; lddw = false }

abbrev alu_class : Bool → ℕ
alu_class is64 = if is64 then 7 else 4

abbrev alu_inst : BinOp → ℕ → Value → Bool → EbpfInst
unfolding bin_op_code bin_op_offset
alu_inst op dst (reg r) is64 = record {
  opcode = alu_class is64 + 8 + 16 * bin_op_code op;
  dst = dst;
  src = r;
  offset = bin_op_offset op;
  imm = pos 0;
}
alu_inst op dst (imm v) is64 = record {
  opcode = alu_class is64 + 16 * bin_op_code op;
  dst = dst;
  src = 0;
  offset = bin_op_offset op;
  imm = pos v;
}

-- The operators that take an immediate operand: all but the sign-extending moves.
abbrev pub TakesImm : BinOp → Type 0
TakesImm BinOp.movsx8 = ⊥
TakesImm BinOp.movsx16 = ⊥
TakesImm BinOp.movsx32 = ⊥
TakesImm _ = Unit

-- The operands that have an encoding: a register that programs may use, or an immediate that is
-- not negative as a 32-bit number.
abbrev pub HasCode : BinOp → Value → Type 0
HasCode op (reg r) = r ≤ 10
HasCode op (imm v) = TakesImm op × (v < 2 ^ 31)

module _ (gsl : Gsl) (dst : ℕ) (dst_fits : dst < 10) where
  marshal_bin-reg :
      (op : BinOp) (r : ℕ) (is64 : Bool)
      → r ≤ 10
      → marshal_bin gsl (alu_bin op dst (reg r) is64) ≡ ok (alu_inst op dst (reg r) is64 ∷ [])
  unfolding marshal_bin
  marshal_bin-reg BinOp.mov r true h = simp (narrow_lem gsl) (ground arith)
  marshal_bin-reg _ r true h = simp (narrow_lem gsl) (ground arith)
  marshal_bin-reg _ r false h = simp (narrow_lem gsl) (ground arith)

  marshal_bin-imm :
      (op : BinOp) (v : ℕ) (is64 : Bool)
      → v < 2 ^ 31
      → marshal_bin gsl (alu_bin op dst (imm v) is64) ≡ ok (alu_inst op dst (imm v) is64 ∷ [])
  unfolding marshal_bin
  marshal_bin-imm BinOp.mov v true h = simp (narrow_lem gsl) (ground arith)
  marshal_bin-imm _ v true h = simp (narrow_lem gsl) (ground arith)
  marshal_bin-imm _ v false h = simp (narrow_lem gsl) (ground arith)

  module _ (info : ProgramInfo) (supports : Supports info) (pc : ℕ) (ns : Notes) where
    make_alu_op-reg :
        (op : BinOp) (r : ℕ) (is64 : Bool)
        → r ≤ 10
        → (make_alu_op info pc (alu_inst op dst (reg r) is64) ns).0
          ≡ ok (bin (alu_bin op dst (reg r) is64))
    unfolding make_alu_op get_alu_op offset_free_op alu_instruction get_bin_value require_group
        division_op mov_op mul_op bin_op_code bin_op_offset
    make_alu_op-reg BinOp.mov r true h = simp supports (ground arith)
    make_alu_op-reg _ r true h = simp supports (ground arith)
    make_alu_op-reg BinOp.mov r false h = simp supports (ground arith)
    make_alu_op-reg _ r false h = simp supports (ground arith)

    make_alu_op-imm :
        (op : BinOp) (v : ℕ) (is64 : Bool)
        → HasCode op (imm v)
        → (make_alu_op info pc (alu_inst op dst (imm v) is64) ns).0
          ≡ ok (bin (alu_bin op dst (imm v) is64))
    unfolding make_alu_op get_alu_op offset_free_op alu_instruction get_bin_value require_group
        division_op mov_op mul_op bin_op_code bin_op_offset
    make_alu_op-imm BinOp.mov v true h = simp supports (ground arith)
    make_alu_op-imm BinOp.movsx8 v _ h = absurd h.0
    make_alu_op-imm BinOp.movsx16 v _ h = absurd h.0
    make_alu_op-imm BinOp.movsx32 v _ h = absurd h.0
    make_alu_op-imm _ v true h = simp supports (ground arith)
    make_alu_op-imm _ v false h = simp supports (ground arith)

-- A binary operation that has an encoding is encoded as one instruction, and that instruction is
-- decoded to the same operation, on a platform that supports all groups: the destination is one
-- of r0 to r9, the operand a register up to r10 or, for an operator that takes one, an immediate
-- below 2 ^ 31.
pub make_alu_op-marshal_bin :
    (gsl : Gsl) (info : ProgramInfo) (pc : ℕ) (ns : Notes) (op : BinOp) (dst : ℕ) (v : Value)
    (is64 : Bool)
    → Supports info
    → dst < 10
    → HasCode op v
    → (inst : EbpfInst) × (marshal gsl (bin (alu_bin op dst v is64)) pc ≡ ok (inst ∷ []))
      × ((make_alu_op info pc inst ns).0 ≡ ok (bin (alu_bin op dst v is64)))
unfolding marshal
make_alu_op-marshal_bin gsl info pc ns op dst (reg r) is64 supports fits code = (
  alu_inst op dst (reg r) is64,
  marshal_bin-reg gsl dst fits op r is64 code,
  make_alu_op-reg gsl dst fits info supports pc ns op r is64 code,
)
make_alu_op-marshal_bin gsl info pc ns op dst (imm v) is64 supports fits code = (
  alu_inst op dst (imm v) is64,
  marshal_bin-imm gsl dst fits op v is64 code.1,
  make_alu_op-imm gsl dst fits info supports pc ns op v is64 code,
)

-- An immediate of 2 ^ 31 or more, which is what a negative 32-bit immediate is decoded to, is
-- refused by `gsl::narrow`: no arithmetic instruction with a negative immediate is encoded.
pub marshal_bin-negative :
    (gsl : Gsl) (pc : ℕ) (op : BinOp) (dst v : ℕ) (is64 : Bool)
    → 2 ^ 31 ≤ v
    → marshal gsl (bin (alu_bin op dst (imm v) is64)) pc ≡ err narrowing_error
unfolding marshal marshal_bin
marshal_bin-negative gsl pc BinOp.mov dst v true h = simp (narrow_lem gsl) (ground arith)
marshal_bin-negative gsl pc _ dst v true h = simp (narrow_lem gsl) (ground arith)
marshal_bin-negative gsl pc _ dst v false h = simp (narrow_lem gsl) (ground arith)

-- ===== src/Roundtrip/Unary.antt =====
-- Unary operations.
use linux_dev_env.Base.{ℕ, ◌<◌, ◌≡◌, Bool, true, false, [], ◌∷◌, arith, if◌then◌else◌}
use linux_dev_env.Base.Int.{pos}
use linux_dev_env.Outcome.{ok, Notes}
use linux_dev_env.Gsl.{Gsl, narrow_lem}
use linux_dev_env.Isa.{EbpfInst}
use linux_dev_env.Syntax.Op.{UnOp}
use linux_dev_env.Syntax.Instruction.{Un, un}
use linux_dev_env.Platform.{ProgramInfo}
use linux_dev_env.Unmarshal.Operand.{require_group}
use linux_dev_env.Unmarshal.AluOp.{neg_op, end_op}
use linux_dev_env.Unmarshal.Alu.{make_alu_op, get_alu_op, offset_free_op, alu_instruction}
use linux_dev_env.Marshal.Visitor.{marshal_un}
use linux_dev_env.Marshal.Sequence.{marshal}
use linux_dev_env.Roundtrip.Alu.{Supports}

-- The width flag that goes with an operator: any for `neg`, none for `be` and `le`, and 64 bits
-- for `swap`.
abbrev pub HasWidth : UnOp → Bool → Type 0
HasWidth UnOp.neg is64 = Unit
HasWidth UnOp.swap16 is64 = is64 ≡ true
HasWidth UnOp.swap32 is64 = is64 ≡ true
HasWidth UnOp.swap64 is64 = is64 ≡ true
HasWidth _ is64 = is64 ≡ false

abbrev unary_code : UnOp → Bool → ℕ
unary_code UnOp.neg is64 = if is64 then 0x87 else 0x84
unary_code UnOp.le16 _ = 0xd4
unary_code UnOp.le32 _ = 0xd4
unary_code UnOp.le64 _ = 0xd4
unary_code UnOp.be16 _ = 0xdc
unary_code UnOp.be32 _ = 0xdc
unary_code UnOp.be64 _ = 0xdc
unary_code _ _ = 0xd7

abbrev unary_imm : UnOp → ℕ
unary_imm UnOp.neg = 0
unary_imm UnOp.le16 = 16
unary_imm UnOp.be16 = 16
unary_imm UnOp.swap16 = 16
unary_imm UnOp.le32 = 32
unary_imm UnOp.be32 = 32
unary_imm UnOp.swap32 = 32
unary_imm _ = 64

abbrev pub un_of : UnOp → ℕ → Bool → Un
un_of op dst is64 = record { op = op; dst = dst; is64 = is64 }

abbrev un_inst : UnOp → ℕ → Bool → EbpfInst
un_inst op dst is64 = record {
  opcode = unary_code op is64;
  dst = dst;
  src = 0;
  offset = pos 0;
  imm = pos (unary_imm op);
}

module _ (dst : ℕ) (dst_fits : dst < 10) where
  marshal-un :
      (gsl : Gsl) (pc : ℕ) (op : UnOp) (is64 : Bool)
      → marshal gsl (un (un_of op dst is64)) pc ≡ ok (un_inst op dst is64 ∷ [])
  unfolding marshal marshal_un
  marshal-un gsl pc UnOp.neg true = simp (narrow_lem gsl) (ground arith)
  marshal-un gsl pc _ true = simp (narrow_lem gsl) (ground arith)
  marshal-un gsl pc UnOp.neg false = simp (narrow_lem gsl) (ground arith)
  marshal-un gsl pc _ false = simp (narrow_lem gsl) (ground arith)

  make_alu_op-un :
      (info : ProgramInfo) (pc : ℕ) (ns : Notes) (op : UnOp) (is64 : Bool)
      → Supports info
      → HasWidth op is64
      → (make_alu_op info pc (un_inst op dst is64) ns).0 ≡ ok (un (un_of op dst is64))
  unfolding make_alu_op get_alu_op offset_free_op alu_instruction require_group neg_op end_op
  make_alu_op-un info pc ns UnOp.neg true supports h = simp supports (ground arith)
  make_alu_op-un info pc ns _ true supports h = simp supports (ground arith)
  make_alu_op-un info pc ns UnOp.neg false supports h = simp supports (ground arith)
  make_alu_op-un info pc ns _ false supports h = simp supports (ground arith)

-- A unary operation on one of r0 to r9, with the width flag of its operator, is encoded as one
-- instruction that is decoded to it, on a platform that supports all groups.
pub make_alu_op-marshal_un :
    (gsl : Gsl) (info : ProgramInfo) (pc : ℕ) (ns : Notes) (op : UnOp) (dst : ℕ) (is64 : Bool)
    → Supports info
    → dst < 10
    → HasWidth op is64
    → (inst : EbpfInst) × (marshal gsl (un (un_of op dst is64)) pc ≡ ok (inst ∷ []))
      × ((make_alu_op info pc inst ns).0 ≡ ok (un (un_of op dst is64)))
make_alu_op-marshal_un gsl info pc ns op dst is64 supports fits width = (
  un_inst op dst is64,
  marshal-un dst fits gsl pc op is64,
  make_alu_op-un dst fits info pc ns op is64 supports width,
)

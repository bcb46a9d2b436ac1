-- ===== src/Roundtrip/Memory.antt =====
-- Loads, stores, packet accesses and atomics.
use linux_dev_env.Base.{ℕ, ◌+◌, ◌^◌, ◌≤◌, ◌<◌, ◌≡◌, Bool, true, false, [], ◌∷◌, arith}
use linux_dev_env.Base.Int.{ℤ, pos, IsInt16}
use linux_dev_env.Outcome.{ok, Notes}
use linux_dev_env.Gsl.{Gsl, narrow_lem}
use linux_dev_env.Isa.{EbpfInst, opcode_to_width}
use linux_dev_env.Syntax.Op.{Value, imm, reg}
use linux_dev_env.Syntax.Instruction.{Deref, Mem, mem}
use linux_dev_env.Platform.{ProgramInfo}
use linux_dev_env.Unmarshal.Operand.{require_group, zero_extend}
use linux_dev_env.Unmarshal.Memory.{
  get_mem_is_load, get_mem_width, note_stack_access, make_mem, make_mem_by_mode, make_mem_op,
}
use linux_dev_env.Marshal.Memory.{marshal_mem}
use linux_dev_env.Marshal.Sequence.{marshal}
use linux_dev_env.Roundtrip.Alu.{Supports}

-- The widths of an access, their sizes in bytes and their codes.
pub data Width : Type 0 where
  b h w dw : Width

abbrev pub bytes : Width → ℕ
bytes b = 1
bytes h = 2
bytes w = 4
bytes dw = 8

abbrev size_code : Width → ℕ
size_code b = 0x10
size_code h = 0x08
size_code w = 0x00
size_code dw = 0x18

abbrev pub access_at : Width → ℕ → ℤ → Deref
access_at width basereg offset = record { width = bytes width; basereg = basereg; offset = offset }

-- The accesses that have an encoding: a load into one of r0 to r9, a store of a register, or a
-- store of an immediate that is not negative as a 32-bit number.
abbrev pub HasMemCode : Bool → Value → Type 0
HasMemCode true (reg r) = r < 10
HasMemCode true (imm _) = ⊥
HasMemCode false (reg r) = r ≤ 10
HasMemCode false (imm v) = v < 2 ^ 31

abbrev mem_inst : Width → ℕ → ℤ → Bool → Value → EbpfInst
mem_inst width base offset true (reg r) = record {
  opcode = 0x61 + size_code width;
  dst = r;
  src = base;
  offset = offset;
  imm = pos 0;
}
mem_inst width base offset true (imm v) = record {
  opcode = 0;
  dst = 0;
  src = 0;
  offset = offset;
  imm = pos 0;
}
mem_inst width base offset false (reg r) = record {
  opcode = 0x63 + size_code width;
  dst = base;
  src = r;
  offset = offset;
  imm = pos 0;
}
mem_inst width base offset false (imm v) = record {
  opcode = 0x62 + size_code width;
  dst = base;
  src = 0;
  offset = offset;
  imm = pos v;
}

abbrev pub mem_of : Width → ℕ → ℤ → Bool → Value → Mem
mem_of width base offset is_load value = record {
  access = access_at width base offset;
  value = value;
  is_load = is_load;
}

module _ (base : ℕ) (offset : ℤ) (base_fits : base ≤ 10) (offset_fits : IsInt16 offset) where
  marshal_mem_lem :
      (gsl : Gsl) (width : Width) (is_load : Bool) (value : Value)
      → HasMemCode is_load value
      → marshal_mem gsl (mem_of width base offset is_load value)
        ≡ ok (mem_inst width base offset is_load value ∷ [])
  unfolding marshal_mem
  marshal_mem_lem gsl b true (imm v) c = absurd c
  marshal_mem_lem gsl _ true (imm v) c = absurd c
  marshal_mem_lem gsl _ true (reg r) c = simp (narrow_lem gsl) (ground arith)
  marshal_mem_lem gsl _ false (imm v) c = simp (narrow_lem gsl) (ground arith)
  marshal_mem_lem gsl _ false (reg r) c = simp (narrow_lem gsl) (ground arith)

  module _ (info : ProgramInfo) (supports : Supports info) (pc : ℕ) (ns : Notes) where
    make_mem_op_lem :
        (width : Width) (is_load : Bool) (value : Value)
        → HasMemCode is_load value
        → (make_mem_op info pc (mem_inst width base offset is_load value) ns).0
          ≡ ok (mem (mem_of width base offset is_load value))
    unfolding make_mem_op make_mem_by_mode make_mem get_mem_is_load get_mem_width require_group
        zero_extend note_stack_access opcode_to_width
    make_mem_op_lem b true (imm v) c = absurd c
    make_mem_op_lem b true (reg r) c = simp supports (ground arith)
    make_mem_op_lem b false (imm v) c = simp supports (ground arith)
    make_mem_op_lem b false (reg r) c = simp supports (ground arith)
    make_mem_op_lem _ true (imm v) c = absurd c
    make_mem_op_lem _ true (reg r) c = simp supports (ground arith)
    make_mem_op_lem _ false (imm v) c = simp supports (ground arith)
    make_mem_op_lem _ false (reg r) c = simp supports (ground arith)

-- A load or store of 1, 2, 4 or 8 bytes that has an encoding, at a 16-bit offset from one of r0 to
-- r10, is encoded as one instruction that is decoded to it, on a platform that supports all
-- groups.
pub make_mem_op-marshal_mem :
    (gsl : Gsl) (info : ProgramInfo) (pc : ℕ) (ns : Notes) (width : Width) (base : ℕ) (offset : ℤ)
    (is_load : Bool) (value : Value)
    → Supports info
    → base ≤ 10
    → IsInt16 offset
    → HasMemCode is_load value
    → (inst : EbpfInst) × (marshal gsl (mem (mem_of width base offset is_load value)) pc
        ≡ ok (inst ∷ []))
      × ((make_mem_op info pc inst ns).0 ≡ ok (mem (mem_of width base offset is_load value)))
unfolding marshal
make_mem_op-marshal_mem gsl info pc ns width base offset is_load value supports fits near code = (
  mem_inst width base offset is_load value,
  marshal_mem_lem base offset fits near gsl width is_load value code,
  make_mem_op_lem base offset fits near info supports pc ns width is_load value code,
)

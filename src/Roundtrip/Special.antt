-- ===== src/Roundtrip/Special.antt =====
-- Packet accesses and atomics.
use linux_dev_env.Base.{ℕ, ◌+◌, ◌≤◌, ◌≡◌, Bool, true, false, Option, none, some, [], ◌∷◌, arith}
use linux_dev_env.Base.Int.{ℤ, pos, IsInt16, IsInt32}
use linux_dev_env.Outcome.{ok, Notes}
use linux_dev_env.Gsl.{Gsl, narrow_lem}
use linux_dev_env.Isa.{EbpfInst}
use linux_dev_env.Syntax.Op.{AtomicOp, xchg, cmpxchg, atomic_op_value}
use linux_dev_env.Syntax.Instruction.{Packet, Atomic, packet, atomic}
use linux_dev_env.Platform.{ProgramInfo}
use linux_dev_env.Unmarshal.Operand.{require_group}
use linux_dev_env.Unmarshal.NoteFree.{
  packet_checks, make_packet_abs, make_packet_ind, make_atomic, get_atomic_op,
}
use linux_dev_env.Unmarshal.Memory.{get_mem_width, make_mem_by_mode, make_mem_op}
use linux_dev_env.Marshal.Memory.{marshal_packet, marshal_atomic}
use linux_dev_env.Marshal.Sequence.{marshal}
use linux_dev_env.Roundtrip.Alu.{Supports}
use linux_dev_env.Roundtrip.Memory.{Width, b, h, w, dw, bytes, access_at}

-- A packet is read one, two or four bytes at a time.
abbrev pub IsPacketWidth : Width → Type 0
IsPacketWidth dw = ⊥
IsPacketWidth _ = Unit

abbrev pub IsPacketReg : Option ℕ → Type 0
IsPacketReg none = Unit
IsPacketReg (some r) = r ≤ 10

abbrev packet_size : Width → ℕ
packet_size b = 0x10
packet_size h = 0x08
packet_size _ = 0x00

abbrev pub packet_of : Width → ℤ → Option ℕ → Packet
packet_of width offset r = record { width = bytes width; offset = offset; regoffset = r }

abbrev packet_inst : Width → ℤ → Option ℕ → EbpfInst
packet_inst width offset none = record {
  opcode = 0x20 + packet_size width;
  dst = 0;
  src = 0;
  offset = pos 0;
  imm = offset;
}
packet_inst width offset (some r) = record {
  opcode = 0x40 + packet_size width;
  dst = 0;
  src = r;
  offset = pos 0;
  imm = offset;
}

module _ (offset : ℤ) (offset_fits : IsInt32 offset) where
  marshal_packet_lem :
      (gsl : Gsl) (width : Width) (r : Option ℕ)
      → IsPacketWidth width
      → IsPacketReg r
      → marshal_packet gsl (packet_of width offset r) ≡ ok (packet_inst width offset r ∷ [])
  unfolding marshal_packet
  marshal_packet_lem gsl dw r ok_width fits = absurd ok_width
  marshal_packet_lem gsl _ none ok_width fits = simp (narrow_lem gsl) (ground arith)
  marshal_packet_lem gsl _ (some r) ok_width fits = simp (narrow_lem gsl) (ground arith)

  make_packet_lem :
      (info : ProgramInfo) (pc : ℕ) (ns : Notes) (width : Width) (r : Option ℕ)
      → Supports info
      → IsPacketWidth width
      → IsPacketReg r
      → (make_mem_op info pc (packet_inst width offset r) ns).0
        ≡ ok (packet (packet_of width offset r))
  unfolding make_mem_op make_mem_by_mode get_mem_width require_group packet_checks make_packet_abs
      make_packet_ind
  make_packet_lem info pc ns dw r supports ok_width fits = absurd ok_width
  make_packet_lem info pc ns _ none supports ok_width fits = simp supports (ground arith)
  make_packet_lem info pc ns _ (some r) supports ok_width fits = simp supports (ground arith)

-- A packet access of 1, 2 or 4 bytes at a 32-bit offset, with or without an offset register up to
-- r10, is encoded as one instruction that is decoded to it, on a platform that supports all
-- groups.
make_mem_op-marshal_packet :
    (gsl : Gsl) (info : ProgramInfo) (pc : ℕ) (ns : Notes) (width : Width) (offset : ℤ)
    (r : Option ℕ)
    → Supports info
    → IsPacketWidth width
    → IsInt32 offset
    → IsPacketReg r
    → (inst : EbpfInst) × (marshal gsl (packet (packet_of width offset r)) pc ≡ ok (inst ∷ []))
      × ((make_mem_op info pc inst ns).0 ≡ ok (packet (packet_of width offset r)))
unfolding marshal
make_mem_op-marshal_packet gsl info pc ns width offset r supports ok_width near fits = (
  packet_inst width offset r,
  marshal_packet_lem offset near gsl width r ok_width fits,
  make_packet_lem offset near info pc ns width r supports ok_width fits,
)

-- An exchange returns the old value, so it must fetch.
abbrev pub CanFetch : AtomicOp → Bool → Type 0
CanFetch xchg fetch = fetch ≡ true
CanFetch cmpxchg fetch = fetch ≡ true
CanFetch _ fetch = Unit

-- The widths of an atomic.
abbrev pub IsAtomicWidth : Width → Type 0
IsAtomicWidth w = Unit
IsAtomicWidth dw = Unit
IsAtomicWidth _ = ⊥

abbrev fetch_value : Bool → ℕ
fetch_value true = 1
fetch_value false = 0

abbrev pub atomic_of : AtomicOp → Bool → Width → ℕ → ℤ → ℕ → Atomic
atomic_of op fetch width base offset r = record {
  op = op;
  fetch = fetch;
  access = access_at width base offset;
  valreg = r;
}

abbrev atomic_width_code : Width → ℕ
atomic_width_code dw = 0xdb
atomic_width_code _ = 0xc3

abbrev atomic_inst : AtomicOp → Bool → Width → ℕ → ℤ → ℕ → EbpfInst
atomic_inst op fetch width base offset r = record {
  opcode = atomic_width_code width;
  dst = base;
  src = r;
  offset = offset;
  imm = pos (atomic_op_value op + fetch_value fetch);
}

module _ (base r : ℕ) (offset : ℤ) (base_fits : base ≤ 10) (reg_fits : r ≤ 10)
    (offset_fits : IsInt16 offset) where
  marshal_atomic_lem :
      (gsl : Gsl) (op : AtomicOp) (fetch : Bool) (width : Width)
      → IsAtomicWidth width
      → marshal_atomic gsl (atomic_of op fetch width base offset r)
        ≡ ok (atomic_inst op fetch width base offset r ∷ [])
  unfolding marshal_atomic
  marshal_atomic_lem gsl op fetch b c = absurd c
  marshal_atomic_lem gsl op fetch h c = absurd c
  marshal_atomic_lem gsl xchg true w c = simp (narrow_lem gsl) (ground arith)
  marshal_atomic_lem gsl xchg false w c = simp (narrow_lem gsl) (ground arith)
  marshal_atomic_lem gsl _ true w c = simp (narrow_lem gsl) (ground arith)
  marshal_atomic_lem gsl _ false w c = simp (narrow_lem gsl) (ground arith)
  marshal_atomic_lem gsl xchg true dw c = simp (narrow_lem gsl) (ground arith)
  marshal_atomic_lem gsl xchg false dw c = simp (narrow_lem gsl) (ground arith)
  marshal_atomic_lem gsl _ true dw c = simp (narrow_lem gsl) (ground arith)
  marshal_atomic_lem gsl _ false dw c = simp (narrow_lem gsl) (ground arith)

  make_atomic_lem :
      (info : ProgramInfo) (pc : ℕ) (ns : Notes) (op : AtomicOp) (fetch : Bool) (width : Width)
      → Supports info
      → IsAtomicWidth width
      → CanFetch op fetch
      → (make_mem_op info pc (atomic_inst op fetch width base offset r) ns).0
        ≡ ok (atomic (atomic_of op fetch width base offset r))
  unfolding make_mem_op make_mem_by_mode get_mem_width require_group make_atomic get_atomic_op
  make_atomic_lem info pc ns op fetch b supports c f = absurd c
  make_atomic_lem info pc ns op fetch h supports c f = absurd c
  make_atomic_lem info pc ns xchg true w supports c f = simp supports (ground arith)
  make_atomic_lem info pc ns xchg false w supports c f = cc
  make_atomic_lem info pc ns cmpxchg false w supports c f = cc
  make_atomic_lem info pc ns _ true w supports c f = simp supports (ground arith)
  make_atomic_lem info pc ns _ false w supports c f = simp supports (ground arith)
  make_atomic_lem info pc ns xchg true dw supports c f = simp supports (ground arith)
  make_atomic_lem info pc ns xchg false dw supports c f = cc
  make_atomic_lem info pc ns cmpxchg false dw supports c f = cc
  make_atomic_lem info pc ns _ true dw supports c f = simp supports (ground arith)
  make_atomic_lem info pc ns _ false dw supports c f = simp supports (ground arith)

-- An atomic of 4 or 8 bytes, fetching where it is an exchange, at a 16-bit offset, with registers
-- up to r10, is encoded as one instruction that is decoded to it, on a platform that supports all
-- groups.
make_mem_op-marshal_atomic :
    (gsl : Gsl) (info : ProgramInfo) (pc : ℕ) (ns : Notes) (op : AtomicOp) (fetch : Bool)
    (width : Width) (base : ℕ) (offset : ℤ) (r : ℕ)
    → Supports info
    → IsAtomicWidth width
    → CanFetch op fetch
    → base ≤ 10
    → r ≤ 10
    → IsInt16 offset
    → (inst : EbpfInst) × (marshal gsl (atomic (atomic_of op fetch width base offset r)) pc
        ≡ ok (inst ∷ []))
      × ((make_mem_op info pc inst ns).0 ≡ ok (atomic (atomic_of op fetch width base offset r)))
unfolding marshal
make_mem_op-marshal_atomic gsl info pc ns op fetch width base offset r supports aw f bf rf near = (
  atomic_inst op fetch width base offset r,
  marshal_atomic_lem base r offset bf rf near gsl op fetch width aw,
  make_atomic_lem base r offset bf rf near info pc ns op fetch width supports aw f,
)

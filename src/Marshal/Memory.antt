-- ===== src/Marshal/Memory.antt =====
-- Encoding of loads, stores, packet access and atomics: verifiers/prevail/src/asm_marshal.cpp.
use linux_dev_env.Base.{
  ◌%◌, ◌^◌, bit_or, Bool, true, false, none, some, List, [], ◌∷◌, if◌then◌else◌,
}
use linux_dev_env.Base.Int.{ℤ, pos, to_unsigned, to_signed}
use linux_dev_env.Outcome.{Result, ok, err, runtime_error, ◌>>=◌}
use linux_dev_env.Gsl.{Gsl, uint8, int16, int32, narrow, narrow_unsigned}
use linux_dev_env.Isa
use linux_dev_env.Isa.{EbpfInst, u4, width_to_opcode}
use linux_dev_env.Syntax.Op.{Value, imm, reg, atomic_op_value}
use linux_dev_env.Syntax.Instruction.{Mem, Packet, Atomic}

-- `imm |= INST_FETCH`, on the 32 bits of `imm`.
abbrev pub with_fetch : ℤ → Bool → ℤ
with_fetch value true = to_signed (2 ^ 32) (bit_or (to_unsigned (2 ^ 32) value) Isa.inst_fetch)
with_fetch value false = value

module _ (gsl : Gsl) where
  -- The end of the visitor of `Mem`, by the direction and the operand.
  unfoldable pub mem_operand : EbpfInst → Mem → Value → Result (List EbpfInst)
  mem_operand res b (reg r) =
      if b.is_load
      then (do
        dst ← narrow_unsigned gsl uint8 (pos r)
        ok (
            record res {
              opcode = bit_or res.opcode (bit_or Isa.inst_cls_ld 0x1) % 2 ^ 8;
              dst = u4 dst;
              src = u4 b.access.basereg;
            }
            ∷ []))
      else ok (
          record res {
            opcode = bit_or (bit_or res.opcode Isa.inst_cls_st) 0x1 % 2 ^ 8;
            dst = u4 b.access.basereg;
            src = u4 r;
          }
          ∷ [])
  mem_operand res b (imm v) = if b.is_load then err (runtime_error "LD IMM: " "") else (do
    value ← narrow gsl int32 (pos v)
    ok (
        record res {
          opcode = bit_or (bit_or res.opcode Isa.inst_cls_st) 0x0 % 2 ^ 8;
          dst = u4 b.access.basereg;
          imm = value;
        }
        ∷ []))

  unfoldable pub marshal_mem : Mem → Result (List EbpfInst)
  unfolding width_to_opcode mem_operand
  marshal_mem b = do
    size ← width_to_opcode b.access.width
    opcode ← narrow_unsigned gsl uint8 (pos (bit_or Isa.inst_mode_mem size))
    offset ← narrow gsl int16 b.access.offset
    mem_operand (record { opcode = opcode; dst = 0; src = 0; offset = offset; imm = pos 0 }) b
        b.value

  unfoldable pub marshal_packet : Packet → Result (List EbpfInst)
  unfolding width_to_opcode
  marshal_packet b = do
    size ← width_to_opcode b.width
    opcode ← narrow_unsigned gsl uint8 (pos (bit_or Isa.inst_cls_ld size))
    value ← narrow gsl int32 b.offset
    ok (
        record {
          opcode =
              bit_or opcode
                (elim b.regoffset [ none ↦ Isa.inst_mode_abs | some _ ↦ Isa.inst_mode_ind ])
              % 2 ^ 8;
          dst = 0;
          src = elim b.regoffset [ none ↦ 0 | some r ↦ u4 r ];
          offset = pos 0;
          imm = value;
        }
        ∷ [])

  unfoldable pub marshal_atomic : Atomic → Result (List EbpfInst)
  unfolding width_to_opcode
  marshal_atomic b = do
    value ← narrow gsl int32 (pos (atomic_op_value b.op))
    size ← width_to_opcode b.access.width
    opcode ←
        narrow_unsigned gsl uint8 (pos (bit_or (bit_or Isa.inst_cls_stx Isa.inst_mode_atomic) size))
    offset ← narrow gsl int16 b.access.offset
    ok (
        record {
          opcode = opcode;
          dst = u4 b.access.basereg;
          src = u4 b.valreg;
          offset = offset;
          imm = with_fetch value b.fetch;
        }
        ∷ [])

-- ===== src/Marshal/Visitor.antt =====
-- Encoding of one instruction, `MarshalVisitor`: verifiers/prevail/src/asm_marshal.cpp.
use linux_dev_env.Base.{ℕ, ◌*◌, ◌%◌, ◌^◌, bit_or, Bool, List, [], ◌∷◌, if◌then◌else◌}
use linux_dev_env.Base.Int.{ℤ, pos}
use linux_dev_env.Outcome.{Result, ok, err, assertion_failed, ◌>>=◌}
use linux_dev_env.Gsl.{Gsl, uint8, int32, narrow, narrow_unsigned}
use linux_dev_env.Isa
use linux_dev_env.Isa.{EbpfInst, u4, width_to_opcode, split}
use linux_dev_env.Label.{label_to_offset32}
use linux_dev_env.Syntax.Op.{Reg, Value, imm, reg, UnOp}
use linux_dev_env.Syntax.Instruction.{Bin, Call, CallLocal, Callx}
use linux_dev_env.Marshal.Code.{bin_op_code, bin_op_offset, imm_endian}

module _ (gsl : Gsl) where
  unfoldable pub lddw_insts : Reg → Bool → ℤ → ℤ → Result (List EbpfInst)
  unfolding width_to_opcode
  lddw_insts dst is_fd low high = do
    size ← width_to_opcode 8
    opcode ← narrow_unsigned gsl uint8 (pos (bit_or Isa.inst_cls_ld size))
    ok (
        record {
          opcode = opcode;
          dst = u4 dst;
          src = if is_fd then 1 else 0;
          offset = pos 0;
          imm = low;
        }
        ∷ record { opcode = 0; dst = 0; src = 0; offset = pos 0; imm = high }
        ∷ [])

  -- The visitors of the right operand of `Bin` and of a condition.
  unfoldable pub with_operand : EbpfInst → Value → Result (List EbpfInst)
  with_operand res (reg right) =
      ok (record res { opcode = bit_or res.opcode Isa.inst_src_reg % 2 ^ 8; src = u4 right } ∷ [])
  with_operand res (imm right) = do
    value ← narrow gsl int32 (pos right)
    ok (record res { imm = value } ∷ [])

  -- `b.lddw`: the operand must be an immediate.
  unfoldable pub marshal_lddw : Reg → Value → Result (List EbpfInst)
  unfolding lddw_insts split
  marshal_lddw dst (reg _) = err assertion_failed
  marshal_lddw dst (imm v) = lddw_insts dst Bool.false (split v).0 (split v).1

  unfoldable pub marshal_bin : Bin → Result (List EbpfInst)
  unfolding marshal_lddw with_operand bin_op_code bin_op_offset
  marshal_bin b = if b.lddw then marshal_lddw b.dst b.v else (do
    opcode ← narrow_unsigned gsl uint8 (
        pos (
          bit_or (if b.is64 then Isa.inst_cls_alu64 else Isa.inst_cls_alu)
            (bin_op_code b.op * 2 ^ 4)))
    with_operand
        (record {
          opcode = opcode;
          dst = u4 b.dst;
          src = 0;
          offset = bin_op_offset b.op;
          imm = pos 0;
        })
        b.v)

  -- A unary instruction with its opcode before narrowing and its immediate.
  abbrev unary : Reg → ℕ → Result ℕ → Result (List EbpfInst)
  unary dst code value = do
    opcode ← narrow_unsigned gsl uint8 (pos code)
    v ← value
    ok (record { opcode = opcode; dst = u4 dst; src = 0; offset = pos 0; imm = pos v } ∷ [])

  abbrev le_code : ℕ
  le_code = bit_or (bit_or Isa.inst_cls_alu Isa.inst_end_le) Isa.inst_alu_op_end

  abbrev be_code : ℕ
  be_code = bit_or (bit_or Isa.inst_cls_alu Isa.inst_end_be) Isa.inst_alu_op_end

  abbrev swap_code : ℕ
  swap_code = bit_or Isa.inst_cls_alu64 Isa.inst_alu_op_end

  -- The switch on `b.op`.
  unfoldable pub marshal_un : UnOp → Reg → Bool → Result (List EbpfInst)
  unfolding imm_endian
  marshal_un UnOp.neg dst is64 =
      unary dst (bit_or (if is64 then Isa.inst_cls_alu64 else Isa.inst_cls_alu) Isa.inst_alu_op_neg)
        (ok 0)
  marshal_un UnOp.le16 dst is64 = unary dst le_code (imm_endian UnOp.le16)
  marshal_un UnOp.le32 dst is64 = unary dst le_code (imm_endian UnOp.le32)
  marshal_un UnOp.le64 dst is64 = unary dst le_code (imm_endian UnOp.le64)
  marshal_un UnOp.be16 dst is64 = unary dst be_code (imm_endian UnOp.be16)
  marshal_un UnOp.be32 dst is64 = unary dst be_code (imm_endian UnOp.be32)
  marshal_un UnOp.be64 dst is64 = unary dst be_code (imm_endian UnOp.be64)
  marshal_un UnOp.swap16 dst is64 = unary dst swap_code (imm_endian UnOp.swap16)
  marshal_un UnOp.swap32 dst is64 = unary dst swap_code (imm_endian UnOp.swap32)
  marshal_un UnOp.swap64 dst is64 = unary dst swap_code (imm_endian UnOp.swap64)

  unfoldable pub marshal_call : Call → Result (List EbpfInst)
  marshal_call b = do
    opcode ← narrow_unsigned gsl uint8 (pos Isa.inst_op_call)
    ok (
        record {
          opcode = opcode;
          dst = 0;
          src = Isa.inst_call_static_helper;
          offset = pos 0;
          imm = b.func;
        }
        ∷ [])

  unfoldable pub marshal_call_local : ℕ → CallLocal → Result (List EbpfInst)
  marshal_call_local pc b = do
    opcode ← narrow_unsigned gsl uint8 (pos Isa.inst_op_call)
    offset ← label_to_offset32 gsl pc b.target
    ok (
        record { opcode = opcode; dst = 0; src = Isa.inst_call_local; offset = pos 0; imm = offset }
        ∷ [])

  unfoldable pub marshal_callx : Callx → Result (List EbpfInst)
  marshal_callx b = do
    opcode ← narrow_unsigned gsl uint8 (pos Isa.inst_op_callx)
    ok (
        record {
          opcode = opcode;
          dst = u4 b.func;
          src = Isa.inst_call_static_helper;
          offset = pos 0;
          imm = pos 0;
        }
        ∷ [])

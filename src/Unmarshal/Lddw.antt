-- ===== src/Unmarshal/Lddw.antt =====
-- The two-slot `lddw`: verifiers/prevail/src/asm_unmarshal.cpp.
use linux_dev_env.Base.{
  ℕ, ◌+◌, ◌-◌, true, not, ◌||◌, List, length, ltb, leb, ◌==◌, ◌!=◌, if◌then◌else◌,
}
use linux_dev_env.Base.Int.{ℤ}
use linux_dev_env.Outcome.{Result, ok, throw_if, ◌>>=◌, ◌>>◌}
use linux_dev_env.Isa.{EbpfInst, r10_stack_pointer, merge}
use linux_dev_env.Syntax.Op.{BinOp, imm}
use linux_dev_env.Syntax.Instruction.{Instruction, bin, load_map_fd}
use linux_dev_env.Platform.{base64, ProgramInfo}
use linux_dev_env.Unmarshal.Operand.{is_zero, inst_at, require_group, invalid, invalid_for}

unfoldable pub make_lddw : ProgramInfo → EbpfInst → ℤ → List EbpfInst → ℕ → Result Instruction
make_lddw info inst next_imm insts pc = do
  require_group info base64 pc inst
  throw_if (leb (length insts - 1) pc) (invalid pc "incomplete lddw")
  next ← inst_at insts (pc + 1)
  throw_if (next.opcode != 0 || (next.dst != 0 || (next.src != 0 || not (is_zero next.offset))))
      (invalid pc "invalid lddw")
  throw_if (ltb 1 inst.src) (invalid_for pc "bad instruction" inst.opcode)
  throw_if (not (is_zero inst.offset)) (invalid_for pc "nonzero offset for" inst.opcode)
  throw_if (ltb r10_stack_pointer inst.dst) (invalid pc "bad register")
  if inst.src == 1
      then (do
        throw_if (not (is_zero next.imm)) (invalid pc "lddw uses reserved fields")
        ok (load_map_fd (record { dst = inst.dst; mapfd = inst.imm })))
      else ok (
          bin (record {
            op = BinOp.mov;
            dst = inst.dst;
            v = imm (merge inst.imm next_imm);
            is64 = true;
            lddw = true;
          }))

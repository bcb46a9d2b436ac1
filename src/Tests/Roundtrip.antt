-- ===== src/Tests/Roundtrip.antt =====
-- Round trips.
use linux_dev_env.Base.{◌-◌, ◌≡◌, refl, ◌^◌, true, false, some, [], ◌∷◌, arith}
use linux_dev_env.Base.Int.{pos, negsuc, ◌-ℤ◌}
use linux_dev_env.Outcome.{ok, err, narrowing_error}
use linux_dev_env.Gsl.{checked}
use linux_dev_env.Isa.{EbpfInst}
use linux_dev_env.Syntax.Op.{imm, reg, BinOp, UnOp, CondOp}
use linux_dev_env.Syntax.Instruction.{bin, un, mem, jmp, call_local}
use linux_dev_env.Unmarshal.Alu.{make_alu_op}
use linux_dev_env.Unmarshal.Memory.{make_mem_op}
use linux_dev_env.Unmarshal.Lddw.{make_lddw}
use linux_dev_env.Unmarshal.Jump.{make_jmp}
use linux_dev_env.Marshal.Sequence.{marshal}
use linux_dev_env.Roundtrip.Alu.{alu_bin, make_alu_op-marshal_bin, marshal_bin-negative}
use linux_dev_env.Roundtrip.Unary.{un_of, make_alu_op-marshal_un}
use linux_dev_env.Roundtrip.Lddw.{lddw_of, make_lddw-marshal}
use linux_dev_env.Roundtrip.Memory.{Width, mem_of, make_mem_op-marshal_mem}
use linux_dev_env.Roundtrip.Jump.{jump_to, cond_of, IsTarget, make_jmp-marshal_cond}
use linux_dev_env.Roundtrip.Goto.{local_call, make_jmp-marshal_call_local}
use linux_dev_env.Tests.Data.{info, info-Supports, inst, program}

make_alu_op-marshal_bin_example :
    (i : EbpfInst) × (marshal checked (bin (alu_bin BinOp.smod 3 (reg 4) true)) 7 ≡ ok (i ∷ []))
    × ((make_alu_op info 7 i ([] ∷ [])).0 ≡ ok (bin (alu_bin BinOp.smod 3 (reg 4) true)))
make_alu_op-marshal_bin_example =
    make_alu_op-marshal_bin checked info 7 ([] ∷ []) BinOp.smod 3 (reg 4) true info-Supports
      (omega arith) (omega arith)

marshal_bin-negative_example :
    marshal checked (bin (alu_bin BinOp.add 3 (imm (2 ^ 64 - 1)) true)) 0 ≡ err narrowing_error
marshal_bin-negative_example =
    marshal_bin-negative checked 0 BinOp.add 3 (2 ^ 64 - 1) true (omega arith)

make_alu_op-marshal_un_example :
    (i : EbpfInst) × (marshal checked (un (un_of UnOp.swap32 3 true)) 7 ≡ ok (i ∷ []))
    × ((make_alu_op info 7 i ([] ∷ [])).0 ≡ ok (un (un_of UnOp.swap32 3 true)))
make_alu_op-marshal_un_example =
    make_alu_op-marshal_un checked info 7 ([] ∷ []) UnOp.swap32 3 true info-Supports (omega arith)
      refl

make_mem_op-marshal_mem_example :
    (i : EbpfInst) × (marshal checked (mem (mem_of Width.dw 10 (negsuc 7) false (reg 1))) 0
      ≡ ok (i ∷ []))
    × ((make_mem_op info 0 i ([] ∷ [])).0 ≡ ok (mem (mem_of Width.dw 10 (negsuc 7) false (reg 1))))
make_mem_op-marshal_mem_example =
    make_mem_op-marshal_mem checked info 0 ([] ∷ []) Width.dw 10 (negsuc 7) false (reg 1)
      info-Supports (omega arith) (omega arith, omega arith) (omega arith)

make_lddw-marshal_example :
    (i : EbpfInst) × (next : EbpfInst) × (marshal checked (bin (lddw_of 1 (2 ^ 40))) 0
      ≡ ok (i ∷ next ∷ []))
    × (make_lddw info i next.imm (i ∷ next ∷ program) 0 ≡ ok (bin (lddw_of 1 (2 ^ 40))))
make_lddw-marshal_example =
    make_lddw-marshal checked info [] program 0 1 (2 ^ 40) info-Supports (omega arith) (omega arith)

program-IsTarget : IsTarget program 3
program-IsTarget = record {
  inst = inst 0x95 0 0 (pos 0) (pos 0);
  at = refl;
  whole = omega arith;
  size_fits = omega arith;
}

program-IsTarget_next : IsTarget program 2
program-IsTarget_next = record {
  inst = inst 0xb7 0 0 (pos 0) (pos 1);
  at = refl;
  whole = omega arith;
  size_fits = omega arith;
}

make_jmp-marshal_cond_example :
    (i : EbpfInst) × (marshal checked (jmp (jump_to (some (cond_of CondOp.sgt 1 (imm 7) true)) 3)) 1
      ≡ ok (i ∷ []))
    × (make_jmp checked info i program 1
        ≡ ok (jmp (jump_to (some (cond_of CondOp.sgt 1 (imm 7) true)) 3)))
make_jmp-marshal_cond_example =
    make_jmp-marshal_cond checked info program 1 3 CondOp.sgt 1 (imm 7) info-Supports (omega arith)
      program-IsTarget (unfold ◌-ℤ◌ in (omega arith, omega arith)) tt (omega arith) (omega arith)

make_jmp-marshal_call_local_example :
    (i : EbpfInst) × (marshal checked (call_local (local_call 3)) 1 ≡ ok (i ∷ []))
    × (make_jmp checked info i program 1 ≡ ok (call_local (local_call 2)))
make_jmp-marshal_call_local_example =
    make_jmp-marshal_call_local checked info program 1 3 info-Supports (omega arith)
      program-IsTarget_next (unfold ◌-ℤ◌ in (omega arith, omega arith))

-- ===== src/Cfg/Reverse.antt =====
-- The functions `reverse` and `has_fall` of verifiers/prevail/src/asm_cfg.cpp.
use linux_dev_env.Base.{Bool, true, false, none, some}
use linux_dev_env.Syntax.Op.{CondOp}
use linux_dev_env.Syntax.Instruction.{Condition, Instruction}

unfoldable pub reverse_op : CondOp → CondOp
reverse_op CondOp.eq = CondOp.ne
reverse_op CondOp.ne = CondOp.eq
reverse_op CondOp.ge = CondOp.lt
reverse_op CondOp.lt = CondOp.ge
reverse_op CondOp.sge = CondOp.slt
reverse_op CondOp.slt = CondOp.sge
reverse_op CondOp.le = CondOp.gt
reverse_op CondOp.gt = CondOp.le
reverse_op CondOp.sle = CondOp.sgt
reverse_op CondOp.sgt = CondOp.sle
reverse_op CondOp.set = CondOp.nset
reverse_op CondOp.nset = CondOp.set

unfoldable pub reverse : Condition → Condition
unfolding reverse_op
reverse cond = record {
  op = reverse_op cond.op;
  left = cond.left;
  right = cond.right;
  is64 = cond.is64;
}

unfoldable pub has_fall : Instruction → Bool
has_fall (Instruction.exit _) = false
has_fall (Instruction.jmp j) = elim j.cond [ none ↦ false | some _ ↦ true ]
has_fall _ = true

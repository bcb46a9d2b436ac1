-- ===== src/Cfg/Negation.antt =====
-- The two assumptions of a conditional jump exclude each other and leave no case out: `reverse` of
-- verifiers/prevail/src/asm_cfg.cpp.
use linux_dev_env.Base.{ℕ, ◌%◌, ◌^◌, ◌≡◌, Bool, not, ltb, leb, ◌==◌, bit_and, if◌then◌else◌, arith}
use linux_dev_env.Base.Int.{to_signed, leb_ℤ, ltb_ℤ}
use linux_dev_env.Syntax.Op.{CondOp, Reg, Value, imm, reg}
use linux_dev_env.Syntax.Instruction.{Condition}
use linux_dev_env.Cfg.Reverse.{reverse_op, reverse}

-- What the comparison of two numbers below `m` means.
abbrev pub compares : CondOp → ℕ → ℕ → ℕ → Bool
compares CondOp.eq m x y = x == y
compares CondOp.ne m x y = not (x == y)
compares CondOp.set m x y = not (bit_and x y == 0)
compares CondOp.nset m x y = bit_and x y == 0
compares CondOp.lt m x y = ltb x y
compares CondOp.le m x y = leb x y
compares CondOp.gt m x y = ltb y x
compares CondOp.ge m x y = leb y x
compares CondOp.slt m x y = ltb_ℤ (to_signed m x) (to_signed m y)
compares CondOp.sle m x y = leb_ℤ (to_signed m x) (to_signed m y)
compares CondOp.sgt m x y = ltb_ℤ (to_signed m y) (to_signed m x)
compares CondOp.sge m x y = leb_ℤ (to_signed m y) (to_signed m x)

abbrev pub operand : (Reg → ℕ) → Value → ℕ
operand regs (imm n) = n
operand regs (reg r) = regs r

-- Whether a condition holds of the contents of the registers: on all 64 bits, or on the lower 32.
abbrev pub satisfied : Condition → (Reg → ℕ) → Bool
satisfied c regs =
    let m = if c.is64 then 2 ^ 64 else 2 ^ 32 in
    compares c.op m (regs c.left % m) (operand regs c.right % m)

compares-reverse_op :
    (op : CondOp) (m x y : ℕ) → compares (reverse_op op) m x y ≡ not (compares op m x y)
unfolding reverse_op
compares-reverse_op CondOp.slt m x y = ground (arith, to_signed m x, to_signed m y)
compares-reverse_op op m x y = ground arith

-- Whatever the registers contain, the reverse of a condition holds exactly if the condition does
-- not: so one of the two branches of a conditional jump can be taken, and only one.
pub satisfied-reverse :
    (c : Condition) (regs : Reg → ℕ) → satisfied (reverse c) regs ≡ not (satisfied c regs)
unfolding reverse
satisfied-reverse c regs =
    let m = if c.is64 then 2 ^ 64 else 2 ^ 32 in
    compares-reverse_op c.op m (regs c.left % m) (operand regs c.right % m)

-- ===== src/Assertions/Condition.antt =====
-- The preconditions of conditions, `explicate`: verifiers/prevail/src/assertions.cpp.
use linux_dev_env.Base.{Bool, true, false, ◌&&◌, Option, List, [], ◌∷◌, ◌++◌, ◌!=◌, if◌then◌else◌}
use linux_dev_env.Outcome.{Result, ok, ◌>>=◌}
use linux_dev_env.Gsl.{Gsl}
use linux_dev_env.Label.{Label}
use linux_dev_env.Platform.{ProgramInfo}
use linux_dev_env.Syntax.Op.{Reg, Value, imm, reg, CondOp}
use linux_dev_env.Syntax.Instruction.{Condition}
use linux_dev_env.Syntax.Assertion.{TypeGroup, Assertion}
use linux_dev_env.Assertions.Access.{type_is, make_valid_access, valid_pointer}

-- The switch on `cond.op`.
unfoldable pub allow_pointers : CondOp → Bool
allow_pointers CondOp.slt = false
allow_pointers CondOp.sle = false
allow_pointers CondOp.sgt = false
allow_pointers CondOp.sge = false
allow_pointers _ = true

-- `cond.op != EQ && cond.op != NE`.
abbrev pub is_ordering : CondOp → Bool
is_ordering CondOp.eq = false
is_ordering CondOp.ne = false
is_ordering _ = true

module _ (gsl : Gsl) (info : ProgramInfo) (current_label : Option Label) where
  -- `explicate` of an unprivileged program, by the right operand.
  unfoldable pub explicate_operand : CondOp → Reg → Bool → Value → Result (List Assertion)
  unfolding allow_pointers make_valid_access
  explicate_operand op left is64 (imm v) =
      if v != 0 then ok (type_is left TypeGroup.number ∷ []) else (do
        a ← valid_pointer gsl info current_label left
        ok (
            (if allow_pointers op && is64 then [] else type_is left TypeGroup.number ∷ [])
            ++ a ∷ []))
  explicate_operand op left is64 (reg right) = do
    a ← valid_pointer gsl info current_label left
    b ← valid_pointer gsl info current_label right
    ok (
        (a ∷ b ∷ [])
        ++ ((if is_ordering op then type_is left TypeGroup.ptr_or_num ∷ [] else [])
            ++ Assertion.comparable (record { r1 = left; r2 = right; or_r2_is_number = false })
              ∷ []))

  unfoldable pub explicate : Condition → Result (List Assertion)
  unfolding explicate_operand
  explicate cond =
      if info.is_privileged then ok [] else explicate_operand cond.op cond.left cond.is64 cond.right

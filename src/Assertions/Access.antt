-- ===== src/Assertions/Access.antt =====
-- Helpers of `AssertExtractor`, and the preconditions of calls and conditions:
-- verifiers/prevail/src/assertions.cpp.
use linux_dev_env.Base.{Bool, true, false, Option, none, some, List, [], ◌∷◌, ◌++◌, if◌then◌else◌}
use linux_dev_env.Base.Int.{ℤ, pos}
use linux_dev_env.Outcome.{Result, ok, err, assertion_failed, ◌>>=◌}
use linux_dev_env.Gsl.{Gsl}
use linux_dev_env.Label.{Label, call_stack_depth}
use linux_dev_env.Platform.{ProgramInfo}
use linux_dev_env.Syntax.Op.{Reg, Value, imm, reg, ArgSingleKind, ArgPairKind}
use linux_dev_env.Syntax.Instruction.{ArgSingle, ArgPair, Call}
use linux_dev_env.Syntax.Assertion.{TypeGroup, AccessType, Assertion}

abbrev pub type_is : Reg → TypeGroup → Assertion
type_is r group = Assertion.type_constraint (record { reg = r; types = group })

unfoldable pub zero_offset_ctx : Reg → List Assertion
zero_offset_ctx r = type_is r TypeGroup.ctx ∷ Assertion.zero_ctx_offset (record { reg = r }) ∷ []

-- `AssertExtractor`'s members: the program's information and the label.
module _ (gsl : Gsl) (info : ProgramInfo) (current_label : Option Label) where
  abbrev pub depth : Result ℤ
  depth = elim current_label [ none ↦ ok (pos 1) | some l ↦ call_stack_depth gsl l ]

  unfoldable pub make_valid_access : Reg → ℤ → Value → Bool → AccessType → Result Assertion
  make_valid_access r offset width or_null access_type = do
    d ← depth
    ok (
        Assertion.valid_access (record {
          call_stack_depth = d;
          reg = r;
          offset = offset;
          width = width;
          or_null = or_null;
          access_type = access_type;
        }))

  -- `make_valid_access(reg)`, with the default arguments.
  abbrev pub valid_pointer : Reg → Result Assertion
  valid_pointer r = make_valid_access r (pos 0) (imm 0) false AccessType.compare

  -- One turn of the loop over `call.singles`: the assertions so far, and `map_fd_reg`.
  unfoldable pub single_assertions :
      ArgSingleKind → Reg → Option Reg → List Assertion → Result (List Assertion × Option Reg)
  unfolding zero_offset_ctx
  single_assertions ArgSingleKind.anything r map_fd_reg res =
      ok (if info.is_privileged then res else res ++ type_is r TypeGroup.number ∷ [], map_fd_reg)
  single_assertions ArgSingleKind.map_fd_programs r map_fd_reg res =
      ok (res ++ type_is r TypeGroup.map_fd_programs ∷ [], map_fd_reg)
  single_assertions ArgSingleKind.map_fd r map_fd_reg res =
      ok (res ++ type_is r TypeGroup.map_fd ∷ [], some r)
  single_assertions ArgSingleKind.ptr_to_map_key r none res = err assertion_failed
  single_assertions ArgSingleKind.ptr_to_map_key r (some fd) res = ok (
    res
        ++ type_is r TypeGroup.mem
          ∷ Assertion.valid_map_key_value (record { access_reg = r; map_fd_reg = fd; key = true })
          ∷ [],
    some fd,
  )
  single_assertions ArgSingleKind.ptr_to_map_value r none res = err assertion_failed
  single_assertions ArgSingleKind.ptr_to_map_value r (some fd) res = ok (
    res
        ++ type_is r TypeGroup.mem
          ∷ Assertion.valid_map_key_value (record { access_reg = r; map_fd_reg = fd; key = false })
          ∷ [],
    some fd,
  )
  single_assertions ArgSingleKind.ptr_to_ctx r map_fd_reg res =
      ok (res ++ zero_offset_ctx r, map_fd_reg)

  unfoldable pub singles_assertions :
      List ArgSingle → Option Reg → List Assertion → Result (List Assertion)
  unfolding single_assertions
  singles_assertions [] map_fd_reg res = ok res
  singles_assertions (arg ∷ args) map_fd_reg res = do
    (res', fd) ← single_assertions arg.kind arg.reg map_fd_reg res
    singles_assertions args fd res'

  -- The switch in the loop over `call.pairs`.
  unfoldable pub pair_access : ArgPairKind → Reg → Reg → Result (List Assertion)
  unfolding make_valid_access
  pair_access ArgPairKind.ptr_to_readable_mem_or_null m size = do
    a ← make_valid_access m (pos 0) (reg size) true AccessType.read
    ok (type_is m TypeGroup.mem_or_num ∷ a ∷ [])
  pair_access ArgPairKind.ptr_to_readable_mem m size = do
    a ← make_valid_access m (pos 0) (reg size) false AccessType.read
    ok (type_is m TypeGroup.mem ∷ a ∷ [])
  pair_access ArgPairKind.ptr_to_writable_mem m size = do
    a ← make_valid_access m (pos 0) (reg size) false AccessType.write
    ok (type_is m TypeGroup.mem ∷ a ∷ [])

  unfoldable pub pairs_assertions : List ArgPair → List Assertion → Result (List Assertion)
  unfolding pair_access
  pairs_assertions [] res = ok res
  pairs_assertions (arg ∷ args) res = do
    as_ ← pair_access arg.kind arg.mem arg.size
    pairs_assertions args (
        res
        ++ type_is arg.size TypeGroup.number
          ∷ Assertion.valid_size (record { reg = arg.size; can_be_zero = arg.can_be_zero })
          ∷ as_)

  unfoldable pub call_assertions : Call → Result (List Assertion)
  unfolding singles_assertions pairs_assertions
  call_assertions c = do
    res ← singles_assertions c.singles none (
        Assertion.valid_call (record { func = c.func; stack_frame_prefix = c.stack_frame_prefix })
        ∷ [])
    pairs_assertions c.pairs res

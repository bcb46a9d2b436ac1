-- ===== src/Assertions/Extractor.antt =====
-- The preconditions of each instruction, `AssertExtractor` and `get_assertions`:
-- verifiers/prevail/src/assertions.cpp.
use linux_dev_env.Base.{
  ℕ, ◌-◌, ◌%◌, ◌^◌, Bool, true, false, not, ◌&&◌, ◌||◌, Option, none, some, List, [], ◌∷◌, ◌++◌,
  ◌==◌, ◌!=◌, if◌then◌else◌,
}
use linux_dev_env.Base.Int.{pos, negsuc, ◌+ℤ◌, ltb_ℤ, to_signed}
use linux_dev_env.Outcome.{Result, ok, err, undefined_behaviour, ◌>>=◌}
use linux_dev_env.Gsl.{Gsl, uint32, narrow_unsigned}
use linux_dev_env.Isa.{r0_return_value, r10_stack_pointer}
use linux_dev_env.Label.{Label, is_empty}
use linux_dev_env.Platform.{ProgramInfo}
use linux_dev_env.Syntax.Op.{Reg, Value, imm, reg, BinOp}
use linux_dev_env.Syntax.Instruction.{Mem, Atomic, Instruction}
use linux_dev_env.Syntax.Assertion.{TypeGroup, AccessType, Assertion}
use linux_dev_env.Assertions.Access.{type_is, zero_offset_ctx, make_valid_access, call_assertions}
use linux_dev_env.Assertions.Condition.{explicate}

abbrev pub ebpf_subprogram_stack_size : ℕ
ebpf_subprogram_stack_size = 512

-- `Exit`, by the label; a missing label is dereferenced.
unfoldable pub exit_assertions : Option Label → Result (List Assertion)
exit_assertions none = err undefined_behaviour
exit_assertions (some l) =
    ok (if is_empty l.stack_frame_prefix then type_is r0_return_value TypeGroup.number ∷ [] else [])

-- `Bin`, by the operator and the operand.
unfoldable pub bin_assertions : BinOp → Reg → Value → Bool → List Assertion
bin_assertions BinOp.mov dst (reg src) is64 = if is64 then [] else type_is src TypeGroup.number ∷ []
bin_assertions BinOp.mov dst (imm _) is64 = []
bin_assertions BinOp.movsx8 dst (reg src) is64 = type_is src TypeGroup.number ∷ []
bin_assertions BinOp.movsx8 dst (imm _) is64 = []
bin_assertions BinOp.movsx16 dst (reg src) is64 = type_is src TypeGroup.number ∷ []
bin_assertions BinOp.movsx16 dst (imm _) is64 = []
bin_assertions BinOp.movsx32 dst (reg src) is64 = type_is src TypeGroup.number ∷ []
bin_assertions BinOp.movsx32 dst (imm _) is64 = []
bin_assertions BinOp.add dst (reg src) is64 =
    type_is dst TypeGroup.ptr_or_num
    ∷ type_is src TypeGroup.ptr_or_num
    ∷ Assertion.addable (record { ptr = src; num = dst })
    ∷ Assertion.addable (record { ptr = dst; num = src })
    ∷ []
bin_assertions BinOp.add dst (imm _) is64 = type_is dst TypeGroup.ptr_or_num ∷ []
bin_assertions BinOp.sub dst (reg src) is64 =
    type_is dst TypeGroup.ptr_or_num
    ∷ Assertion.comparable (record { r1 = dst; r2 = src; or_r2_is_number = true })
    ∷ []
bin_assertions BinOp.sub dst (imm _) is64 = type_is dst TypeGroup.ptr_or_num ∷ []
bin_assertions BinOp.udiv dst (reg src) is64 =
    type_is dst TypeGroup.number
    ∷ Assertion.valid_divisor (record { reg = src; is_signed = false })
    ∷ []
bin_assertions BinOp.umod dst (reg src) is64 =
    type_is dst TypeGroup.number
    ∷ Assertion.valid_divisor (record { reg = src; is_signed = false })
    ∷ []
bin_assertions BinOp.sdiv dst (reg src) is64 =
    type_is dst TypeGroup.number
    ∷ Assertion.valid_divisor (record { reg = src; is_signed = true })
    ∷ []
bin_assertions BinOp.smod dst (reg src) is64 =
    type_is dst TypeGroup.number
    ∷ Assertion.valid_divisor (record { reg = src; is_signed = true })
    ∷ []
bin_assertions _ dst (reg src) is64 =
    type_is dst TypeGroup.number ∷ type_is src TypeGroup.number ∷ []
bin_assertions _ dst (imm _) is64 = type_is dst TypeGroup.number ∷ []

-- What a store of a register needs in an unprivileged program.
unfoldable pub store_assertions : ℕ → Reg → Value → List Assertion
store_assertions width basereg (imm _) = []
store_assertions width basereg (reg r) =
    if width != 8
    then type_is r TypeGroup.number ∷ []
    else Assertion.valid_store (record { mem = basereg; val = r }) ∷ []

module _ (gsl : Gsl) (info : ProgramInfo) (current_label : Option Label) where
  abbrev access_of : Mem → ℕ → Result Assertion
  access_of ins width =
      make_valid_access gsl info current_label ins.access.basereg ins.access.offset (imm width)
        false (if ins.is_load then AccessType.read else AccessType.write)

  -- `Mem`; `static_cast<int>(width.v)` wraps at 32 bits.
  unfoldable pub mem_assertions : Mem → Result (List Assertion)
  unfolding make_valid_access store_assertions
  mem_assertions ins = do
    width ← narrow_unsigned gsl uint32 (pos ins.access.width)
    if ins.access.basereg == r10_stack_pointer
        then (if ltb_ℤ ins.access.offset (negsuc (ebpf_subprogram_stack_size - 1))
              || ltb_ℤ (pos 0) (ins.access.offset +ℤ to_signed (2 ^ 32) (width % 2 ^ 32))
            then (access_of ins width >>= λ a. ok (a ∷ []))
            else ok [])
        else (do
          a ← access_of ins width
          ok (
              (type_is ins.access.basereg TypeGroup.pointer ∷ a ∷ [])
              ++ (if not info.is_privileged && not ins.is_load
                  then store_assertions width ins.access.basereg ins.value
                  else [])))

  unfoldable pub atomic_assertions : Atomic → Result (List Assertion)
  unfolding make_valid_access
  atomic_assertions ins = do
    a ←
        make_valid_access gsl info current_label ins.access.basereg ins.access.offset
          (imm (ins.access.width % 2 ^ 32)) false AccessType.compare
    ok (type_is ins.valreg TypeGroup.number ∷ type_is ins.access.basereg TypeGroup.pointer ∷ a ∷ [])

  -- The visitor.
  unfoldable pub get_assertions : Instruction → Result (List Assertion)
  unfolding exit_assertions bin_assertions mem_assertions atomic_assertions zero_offset_ctx
      call_assertions explicate
  get_assertions (Instruction.undefined _) = ok []
  get_assertions (Instruction.increment_loop_counter i) =
      ok (Assertion.bounded_loop_count (record { name = i.name }) ∷ [])
  get_assertions (Instruction.load_map_fd _) = ok []
  get_assertions (Instruction.packet _) = ok (zero_offset_ctx 6)
  get_assertions (Instruction.exit _) = exit_assertions current_label
  get_assertions (Instruction.call c) = call_assertions gsl info current_label c
  get_assertions (Instruction.call_local _) = ok []
  get_assertions (Instruction.callx c) =
      ok
        (type_is c.func TypeGroup.number ∷ Assertion.func_constraint (record { reg = c.func }) ∷ [])
  get_assertions (Instruction.assume a) =
      if a.is_implicit then ok [] else explicate gsl info current_label a.cond
  get_assertions (Instruction.jmp j) = elim j.cond [
    | none ↦ ok []
    | some c ↦ explicate gsl info current_label c
  ]
  get_assertions (Instruction.mem m) = mem_assertions m
  get_assertions (Instruction.atomic a) = atomic_assertions a
  get_assertions (Instruction.un u) = ok (type_is u.dst TypeGroup.number ∷ [])
  get_assertions (Instruction.bin b) = ok (bin_assertions b.op b.dst b.v b.is64)

-- ===== src/Safety/Defined.antt =====
-- The decoder's assertions hold, and it reads the program inside its bounds only:
-- verifiers/prevail/src/asm_unmarshal.cpp.
use linux_dev_env.Base.{ℕ, ◌+◌, ◌%◌, ◌^◌, ◌≡◌, List, lt-get_elem?, bit_and, arith, [], ◌∷◌}
use linux_dev_env.Base.Int.{ℤ, to_unsigned}
use linux_dev_env.Base.Bits.{bit_and-one, bit_and_parity}
use linux_dev_env.Outcome.{Result, ok, err, ◌>>=◌, Notes, assertion_failed, undefined_behaviour}
use linux_dev_env.Gsl.{Gsl}
use linux_dev_env.Isa.{EbpfInst, opcode_to_width}
use linux_dev_env.Syntax.Instruction.{Call}
use linux_dev_env.Platform.{
  ArgumentType, ReturnType, EbpfHelperPrototype, ConformanceGroup, Platform, ProgramInfo,
}
use linux_dev_env.Unmarshal.Operand.{require_group}
use linux_dev_env.Unmarshal.NoteFree.{
  packet_checks, make_packet_abs, make_packet_ind, get_atomic_op, make_atomic,
}
use linux_dev_env.Unmarshal.Jump.{
  get_jump_target, get_jmp_op, make_call_local, make_callx, make_call_instruction, make_exit,
  check_ja, make_jmp_default, make_jmp,
}
use linux_dev_env.Unmarshal.Helper.{push_single, push_pair, call_arguments, call_of, make_call}
use linux_dev_env.Unmarshal.Memory.{
  make_mem, make_mem_by_mode, make_mem_op, note_stack_access, get_mem_is_load, get_mem_width,
}

-- A result, or an exception that the code throws.
abbrev pub IsDefined : {A : Type 0} → Result A → Type 0
IsDefined (ok _) = Unit
IsDefined (err assertion_failed) = ⊥
IsDefined (err undefined_behaviour) = ⊥
IsDefined (err _) = Unit

-- The opcode of the class `INST_CLS_LDX` is odd.
ldx_odd : (opcode : ℕ) → bit_and opcode 7 ≡ 1 → bit_and opcode 1 ≡ 1
ldx_odd opcode h = omega (arith, bit_and-one opcode, bit_and_parity opcode 3)

note_stack_access-IsDefined :
    (basereg : ℕ) (inst : EbpfInst) (ns : Notes) → IsDefined (note_stack_access basereg inst ns).0
unfolding note_stack_access opcode_to_width
note_stack_access-IsDefined basereg inst ns = grind arith

make_mem-IsDefined :
    (width pc : ℕ) (inst : EbpfInst) (ns : Notes) → IsDefined (make_mem width pc inst ns).0
unfolding make_mem get_mem_is_load
make_mem-IsDefined width pc inst ns =
    grind (arith, ldx_odd inst.opcode, note_stack_access-IsDefined)

make_packet_abs-IsDefined :
    (info : ProgramInfo) (width pc : ℕ) (inst : EbpfInst)
    → IsDefined (make_packet_abs info width pc inst)
unfolding make_packet_abs packet_checks require_group
make_packet_abs-IsDefined info width pc inst = grind arith

make_packet_ind-IsDefined :
    (info : ProgramInfo) (width pc : ℕ) (inst : EbpfInst)
    → IsDefined (make_packet_ind info width pc inst)
unfolding make_packet_ind packet_checks require_group
make_packet_ind-IsDefined info width pc inst = grind arith

get_atomic_op-IsDefined : (pc : ℕ) (inst : EbpfInst) → IsDefined (get_atomic_op pc inst)
unfolding get_atomic_op
get_atomic_op-IsDefined pc inst = grind arith

make_atomic-IsDefined :
    (info : ProgramInfo) (width pc : ℕ) (inst : EbpfInst)
    → IsDefined (make_atomic info width pc inst)
unfolding make_atomic require_group
make_atomic-IsDefined info width pc inst = grind (arith, get_atomic_op-IsDefined)

make_mem_by_mode-IsDefined :
    (info : ProgramInfo) (width pc : ℕ) (inst : EbpfInst) (ns : Notes)
    → IsDefined (make_mem_by_mode info width pc inst ns).0
unfolding make_mem_by_mode
make_mem_by_mode-IsDefined info width pc inst ns = grind (
  arith,
  make_packet_abs-IsDefined info width pc inst,
  make_packet_ind-IsDefined info width pc inst,
  make_mem-IsDefined width pc inst ns,
  make_atomic-IsDefined info width pc inst,
)

get_mem_width-IsDefined : (opcode : ℕ) → IsDefined (get_mem_width opcode)
unfolding get_mem_width
get_mem_width-IsDefined opcode = grind arith

-- Whatever the four fields of a load or store instruction are, decoding it gives an instruction or
-- an exception that the code throws: its assertion holds.
pub make_mem_op-IsDefined :
    (info : ProgramInfo) (pc : ℕ) (inst : EbpfInst) (ns : Notes)
    → IsDefined (make_mem_op info pc inst ns).0
unfolding make_mem_op require_group
make_mem_op-IsDefined info pc inst ns =
    grind (arith, get_mem_width-IsDefined, make_mem_by_mode-IsDefined)

get_jump_target-IsDefined :
    (gsl : Gsl) (offset : ℤ) (insts : List EbpfInst) (pc : ℕ)
    → IsDefined (get_jump_target gsl offset insts pc)
unfolding get_jump_target
get_jump_target-IsDefined gsl offset insts pc =
    grind (arith, lt-get_elem? insts ((pc + 1 + to_unsigned (2 ^ 32) offset) % 2 ^ 32))

push_single-IsDefined :
    (gsl : Gsl) (i : ℕ) (arg : ArgumentType) (res : Call) → IsDefined (push_single gsl i arg res)
unfolding push_single
push_single-IsDefined gsl i arg res = grind arith

push_pair-IsDefined :
    (gsl : Gsl) (i : ℕ) (arg next : ArgumentType) (res : Call)
    → IsDefined (push_pair gsl i arg next res)
unfolding push_pair
push_pair-IsDefined gsl i arg next res = grind arith

bind-IsDefined :
    {A B : Type 0} (r : Result A) (rest : A → Result B)
    → IsDefined r
    → ((a : A) → IsDefined (rest a))
    → IsDefined (r >>= rest)
bind-IsDefined (ok a) rest h k = k a
bind-IsDefined (err assertion_failed) rest h k = h
bind-IsDefined (err undefined_behaviour) rest h k = h
bind-IsDefined (err _) rest h k = tt

call_arguments-IsDefined :
    (gsl : Gsl) (i : ℕ) (args : List ArgumentType) (res : Call)
    → IsDefined (call_arguments gsl i args res)
unfolding call_arguments
call_arguments-IsDefined gsl i [] res = tt
call_arguments-IsDefined gsl i (_ ∷ []) res = tt
call_arguments-IsDefined gsl i (ArgumentType.unsupported ∷ _ ∷ _) res = tt
call_arguments-IsDefined gsl i (ArgumentType.dontcare ∷ _ ∷ _) res = tt
call_arguments-IsDefined gsl i (ArgumentType.const_size ∷ _ ∷ _) res = tt
call_arguments-IsDefined gsl i (ArgumentType.const_size_or_zero ∷ _ ∷ _) res = tt
call_arguments-IsDefined gsl i (ArgumentType.ptr_to_readable_mem_or_null ∷ next ∷ rest) res =
    bind-IsDefined _ _ (push_pair-IsDefined gsl i ArgumentType.ptr_to_readable_mem_or_null next res)
      (call_arguments-IsDefined gsl (i + 2) rest)
call_arguments-IsDefined gsl i (ArgumentType.ptr_to_readable_mem ∷ next ∷ rest) res =
    bind-IsDefined _ _ (push_pair-IsDefined gsl i ArgumentType.ptr_to_readable_mem next res)
      (call_arguments-IsDefined gsl (i + 2) rest)
call_arguments-IsDefined gsl i (ArgumentType.ptr_to_writable_mem ∷ next ∷ rest) res =
    bind-IsDefined _ _ (push_pair-IsDefined gsl i ArgumentType.ptr_to_writable_mem next res)
      (call_arguments-IsDefined gsl (i + 2) rest)
call_arguments-IsDefined gsl i (arg ∷ next ∷ rest) res =
    bind-IsDefined _ _ (push_single-IsDefined gsl i arg res)
      (call_arguments-IsDefined gsl (i + 1) (next ∷ rest))

call_of-IsDefined :
    (gsl : Gsl) (func : ℤ) (proto : EbpfHelperPrototype) (return_type : ReturnType)
    → IsDefined (call_of gsl func proto return_type)
unfolding call_of
call_of-IsDefined gsl func proto ReturnType.unsupported = tt
call_of-IsDefined gsl func proto _ = search call_arguments-IsDefined

make_call-IsDefined :
    (gsl : Gsl) (platform : Platform) (func : ℤ) → IsDefined (make_call gsl platform func)
unfolding make_call
make_call-IsDefined gsl platform func =
    let proto = platform.get_helper_prototype func in
    call_of-IsDefined gsl func proto proto.return_type

pub require_group-IsDefined :
    (info : ProgramInfo) (group : ConformanceGroup) (pc : ℕ) (inst : EbpfInst)
    → IsDefined (require_group info group pc inst)
unfolding require_group
require_group-IsDefined info group pc inst = grind arith

get_jmp_op-IsDefined : (pc opcode : ℕ) → IsDefined (get_jmp_op pc opcode)
unfolding get_jmp_op
get_jmp_op-IsDefined pc opcode = grind arith

make_callx-IsDefined : (gsl : Gsl) (inst : EbpfInst) (pc : ℕ) → IsDefined (make_callx gsl inst pc)
unfolding make_callx
make_callx-IsDefined gsl inst pc = grind arith

make_call_instruction-IsDefined :
    (gsl : Gsl) (info : ProgramInfo) (inst : EbpfInst) (insts : List EbpfInst) (pc : ℕ)
    → IsDefined (make_call_instruction gsl info inst insts pc)
unfolding make_call_instruction make_call_local
make_call_instruction-IsDefined gsl info inst insts pc = grind (
  arith, make_call-IsDefined, make_callx-IsDefined, require_group-IsDefined,
  get_jump_target-IsDefined,
)

make_jmp_default-IsDefined :
    (gsl : Gsl) (info : ProgramInfo) (inst : EbpfInst) (insts : List EbpfInst) (pc : ℕ)
    → IsDefined (make_jmp_default gsl info inst insts pc)
unfolding make_jmp_default
make_jmp_default-IsDefined gsl info inst insts pc =
    grind (arith, require_group-IsDefined, get_jmp_op-IsDefined, get_jump_target-IsDefined)

make_exit-IsDefined :
    (info : ProgramInfo) (inst : EbpfInst) (pc : ℕ) → IsDefined (make_exit info inst pc)
unfolding make_exit require_group
make_exit-IsDefined info inst pc = grind arith

-- Whatever the four fields of a jump, call or exit are, decoding it gives an instruction or an
-- exception that the code throws: it reads the program at slots of the program only.
pub make_jmp-IsDefined :
    (gsl : Gsl) (info : ProgramInfo) (inst : EbpfInst) (insts : List EbpfInst) (pc : ℕ)
    → IsDefined (make_jmp gsl info inst insts pc)
unfolding make_jmp check_ja require_group
make_jmp-IsDefined gsl info inst insts pc =
    grind (arith, make_call_instruction-IsDefined, make_exit-IsDefined, make_jmp_default-IsDefined)

-- ===== src/Unmarshal/Helper.antt =====
-- Calls of helpers, `makeCall`: verifiers/prevail/src/asm_unmarshal.cpp.
use linux_dev_env.Base.{ℕ, ◌+◌, String, Bool, true, false, List, [], ◌∷◌, ◌++◌}
use linux_dev_env.Base.Int.{ℤ, pos}
use linux_dev_env.Outcome.{Result, ok, err, runtime_error, ◌>>=◌}
use linux_dev_env.Gsl.{Gsl, uint8, narrow_unsigned}
use linux_dev_env.Syntax.Op.{ArgSingleKind, ArgPairKind}
use linux_dev_env.Syntax.Instruction.{ArgPair, Call}
use linux_dev_env.Platform.{ReturnType, ArgumentType, EbpfHelperPrototype, Platform}

unfoldable pub to_arg_single_kind : ArgumentType → ArgSingleKind
to_arg_single_kind ArgumentType.anything = ArgSingleKind.anything
to_arg_single_kind ArgumentType.ptr_to_map = ArgSingleKind.map_fd
to_arg_single_kind ArgumentType.ptr_to_map_of_programs = ArgSingleKind.map_fd_programs
to_arg_single_kind ArgumentType.ptr_to_map_key = ArgSingleKind.ptr_to_map_key
to_arg_single_kind ArgumentType.ptr_to_map_value = ArgSingleKind.ptr_to_map_value
to_arg_single_kind ArgumentType.ptr_to_ctx = ArgSingleKind.ptr_to_ctx
to_arg_single_kind _ = ArgSingleKind.map_fd

unfoldable pub to_arg_pair_kind : ArgumentType → ArgPairKind
to_arg_pair_kind ArgumentType.ptr_to_readable_mem_or_null = ArgPairKind.ptr_to_readable_mem_or_null
to_arg_pair_kind ArgumentType.ptr_to_readable_mem = ArgPairKind.ptr_to_readable_mem
to_arg_pair_kind ArgumentType.ptr_to_writable_mem = ArgPairKind.ptr_to_writable_mem
to_arg_pair_kind _ = ArgPairKind.ptr_to_readable_mem

-- `res.singles.push_back({toArgSingleKind(args[i]), Reg{narrow(i)}})`.
unfoldable pub push_single : Gsl → ℕ → ArgumentType → Call → Result Call
unfolding to_arg_single_kind
push_single gsl i arg res = do
  r ← narrow_unsigned gsl uint8 (pos i)
  ok (record res {
    singles = res.singles ++ record { kind = to_arg_single_kind arg; reg = r } ∷ [];
  })

-- The size that must follow a pointer, and whether it may be zero.
abbrev pub size_can_be_zero : String → ArgumentType → Result Bool
size_can_be_zero name ArgumentType.const_size = ok false
size_can_be_zero name ArgumentType.const_size_or_zero = ok true
size_can_be_zero name _ = err (
    runtime_error
      "Pointer argument not followed by EBPF_ARGUMENT_TYPE_CONST_SIZE or EBPF_ARGUMENT_TYPE_CONST_SIZE_OR_ZERO: "
      name)

-- The case of the three pointer types, up to `i++`.
unfoldable pub push_pair : Gsl → ℕ → ArgumentType → ArgumentType → Call → Result Call
unfolding to_arg_pair_kind
push_pair gsl i arg next res = do
  can_be_zero ← size_can_be_zero res.name next
  m ← narrow_unsigned gsl uint8 (pos i)
  s ← narrow_unsigned gsl uint8 (pos (i + 1))
  let pair : ArgPair = record {
    kind = to_arg_pair_kind arg;
    mem = m;
    size = s;
    can_be_zero = can_be_zero;
  }
  ok (record res { pairs = res.pairs ++ pair ∷ [] })

-- The loop from index `i`, over the arguments from `args[i]` on. The last element of `args` is
-- never visited: the loop ends before it.
unfoldable pub call_arguments : Gsl → ℕ → List ArgumentType → Call → Result Call
unfolding push_single push_pair
call_arguments gsl i [] res = ok res
call_arguments gsl i (_ ∷ []) res = ok res
call_arguments gsl i (ArgumentType.unsupported ∷ _ ∷ _) res =
    err (runtime_error "unsupported function: " res.name)
call_arguments gsl i (ArgumentType.dontcare ∷ _ ∷ _) res = ok res
call_arguments gsl i (ArgumentType.const_size ∷ _ ∷ _) res = err (
    runtime_error "mismatched EBPF_ARGUMENT_TYPE_PTR_TO* and EBPF_ARGUMENT_TYPE_CONST_SIZE: "
      res.name)
call_arguments gsl i (ArgumentType.const_size_or_zero ∷ _ ∷ _) res = err (
    runtime_error
      "mismatched EBPF_ARGUMENT_TYPE_PTR_TO* and EBPF_ARGUMENT_TYPE_CONST_SIZE_OR_ZERO: " res.name)
call_arguments gsl i (ArgumentType.ptr_to_readable_mem_or_null ∷ next ∷ rest) res = do
  res' ← push_pair gsl i ArgumentType.ptr_to_readable_mem_or_null next res
  call_arguments gsl (i + 2) rest res'
call_arguments gsl i (ArgumentType.ptr_to_readable_mem ∷ next ∷ rest) res = do
  res' ← push_pair gsl i ArgumentType.ptr_to_readable_mem next res
  call_arguments gsl (i + 2) rest res'
call_arguments gsl i (ArgumentType.ptr_to_writable_mem ∷ next ∷ rest) res = do
  res' ← push_pair gsl i ArgumentType.ptr_to_writable_mem next res
  call_arguments gsl (i + 2) rest res'
call_arguments gsl i (arg ∷ next ∷ rest) res = do
  res' ← push_single gsl i arg res
  call_arguments gsl (i + 1) (next ∷ rest) res'

-- `proto.return_type == EBPF_RETURN_TYPE_PTR_TO_MAP_VALUE_OR_NULL`.
abbrev pub returns_map_value : ReturnType → Bool
returns_map_value ReturnType.ptr_to_map_value_or_null = true
returns_map_value _ = false

-- `makeCall` from the prototype on.
unfoldable pub call_of : Gsl → ℤ → EbpfHelperPrototype → ReturnType → Result Call
unfolding call_arguments
call_of gsl func proto ReturnType.unsupported =
    err (runtime_error "unsupported function: " proto.name)
call_of gsl func proto return_type =
    call_arguments gsl 1
      (proto.argument1 ∷ proto.argument2 ∷ proto.argument3 ∷ proto.argument4 ∷ proto.argument5
        ∷ ArgumentType.dontcare ∷ [])
      (record {
        func = func;
        name = proto.name;
        is_map_lookup = returns_map_value return_type;
        reallocate_packet = proto.reallocate_packet;
        singles = [];
        pairs = [];
        stack_frame_prefix = "";
      })

unfoldable pub make_call : Gsl → Platform → ℤ → Result Call
unfolding call_of
make_call gsl platform func =
    let proto = platform.get_helper_prototype func in call_of gsl func proto proto.return_type

-- ===== src/Platform.antt =====
-- What a program is checked against: helper prototypes, the platform, and the program's
-- information (verifiers/prevail/src/ebpf_base.h, helpers.hpp, platform.hpp,
-- spec_type_descriptors.hpp, config.hpp).
use linux_dev_env.Base.{ℕ, bit_and, String, Bool, List, ◌==◌}
use linux_dev_env.Base.Int.{ℤ}
use linux_dev_env.Syntax.Instruction.{LineInfo}

pub data ReturnType : Type 0 where
  integer ptr_to_map_value_or_null : ReturnType
  integer_or_no_return_if_succeed unsupported : ReturnType

pub data ArgumentType : Type 0 where
  dontcare anything const_size const_size_or_zero ptr_to_ctx ptr_to_map : ArgumentType
  ptr_to_map_of_programs ptr_to_map_key ptr_to_map_value ptr_to_readable_mem : ArgumentType
  ptr_to_readable_mem_or_null ptr_to_writable_mem unsupported : ArgumentType

-- `argument_type` is the array of five, argument by argument.
pub record EbpfHelperPrototype : Type 0 where
  pub name : String
  pub return_type : ReturnType
  pub argument1 : ArgumentType
  pub argument2 : ArgumentType
  pub argument3 : ArgumentType
  pub argument4 : ArgumentType
  pub argument5 : ArgumentType
  pub reallocate_packet : Bool

-- The enumerators of `bpf_conformance_groups_t`, of the library bpf_conformance; their values are
-- a field of the platform.
pub data ConformanceGroup : Type 0 where
  base32 base64 atomic32 atomic64 divmul32 divmul64 packet callx : ConformanceGroup

pub record Platform : Type 0 where
  pub get_helper_prototype : ℤ → EbpfHelperPrototype
  pub is_helper_usable : ℤ → Bool
  pub group_value : ConformanceGroup → ℕ
  pub supported_conformance_groups : ℕ

unfoldable pub supports_group : Platform → ConformanceGroup → Bool
supports_group p group =
    bit_and p.supported_conformance_groups (p.group_value group) == p.group_value group

-- `program_info`, the parts that decoding and assertions read; `is_privileged` is `type`'s, and
-- `allow_division_by_zero` that of `thread_local_options`.
pub record ProgramInfo : Type 0 where
  pub platform : Platform
  pub is_privileged : Bool
  pub line_info : List (ℤ × LineInfo)
  pub allow_division_by_zero : Bool

-- ===== src/Tests/Preconditions.antt =====
-- The preconditions that are extracted, at concrete instructions.
use mathlib.Core.List.{Memᴰ}
use linux_dev_env.Label.{call_stack_depth}
use linux_dev_env.Base.{◌⊎◌, refl, false, some, [], ◌∷◌, arith}
use linux_dev_env.Base.Int.{pos}
use linux_dev_env.Gsl.{checked}
use linux_dev_env.Label.{label_at}
use linux_dev_env.Syntax.Op.{imm, ArgPairKind}
use linux_dev_env.Syntax.Instruction.{ArgPair, Call}
use linux_dev_env.Syntax.Assertion.{TypeGroup, Assertion}
use linux_dev_env.Assertions.Access.{type_is}
use linux_dev_env.Assertions.Extractor.{get_assertions}
use linux_dev_env.Roundtrip.Memory.{Width, mem_of}
use linux_dev_env.Preconditions.Access.{access_of, IsOwnStack, get_assertions-IsChecked}
use linux_dev_env.Preconditions.Call.{buffer_access, IsGuarded, get_assertions-IsGuarded}
use linux_dev_env.Tests.Data.{info}

-- `*(u32 *)(r1 + 4) = 7`.
get_assertions-IsChecked_example :
    Memᴰ (access_of (pos 1) (mem_of Width.w 1 (pos 4) false (imm 7))) (
      type_is 1 TypeGroup.pointer ∷ access_of (pos 1) (mem_of Width.w 1 (pos 4) false (imm 7)) ∷ [])
    ⊎ IsOwnStack (mem_of Width.w 1 (pos 4) false (imm 7))
unfolding get_assertions call_stack_depth
get_assertions-IsChecked_example =
    get_assertions-IsChecked checked info (some (label_at (pos 3)))
      (mem_of Width.w 1 (pos 4) false (imm 7)) (pos 1) (omega arith) refl refl

-- A buffer in r1 of r2 bytes that is read.
abbrev buffer : ArgPair
buffer = record { kind = ArgPairKind.ptr_to_readable_mem; mem = 1; size = 2; can_be_zero = false }

abbrev helper : Call
helper = record {
  func = pos 28;
  name = "csum_diff";
  is_map_lookup = false;
  reallocate_packet = false;
  singles = [];
  pairs = buffer ∷ [];
  stack_frame_prefix = "";
}

get_assertions-IsGuarded_example : IsGuarded (pos 1) buffer (
    Assertion.valid_call (record { func = pos 28; stack_frame_prefix = "" })
    ∷ type_is 2 TypeGroup.number
    ∷ Assertion.valid_size (record { reg = 2; can_be_zero = false })
    ∷ type_is 1 TypeGroup.mem
    ∷ buffer_access (pos 1) buffer
    ∷ [])
unfolding get_assertions call_stack_depth
get_assertions-IsGuarded_example =
    get_assertions-IsGuarded checked info (some (label_at (pos 3))) helper buffer (pos 1) refl
      (Memᴰ.head refl) refl

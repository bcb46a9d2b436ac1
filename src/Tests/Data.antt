-- ===== src/Tests/Data.antt =====
-- A platform that supports every group, and what the tests share.
use linux_dev_env.Base.{ℕ, refl, Bool, true, List, [], ◌∷◌}
use linux_dev_env.Base.Int.{ℤ, pos}
use linux_dev_env.Isa.{EbpfInst}
use linux_dev_env.Platform.{
  ConformanceGroup, base32, base64, atomic32, atomic64, divmul32, divmul64, packet, callx,
  ReturnType, ArgumentType, EbpfHelperPrototype, Platform, ProgramInfo, supports_group,
}
use linux_dev_env.Roundtrip.Alu.{Supports}

-- `bpf_map_update_elem`, for every number.
abbrev pub update_elem : EbpfHelperPrototype
update_elem = record {
  name = "map_update_elem";
  return_type = ReturnType.integer;
  argument1 = ArgumentType.ptr_to_map;
  argument2 = ArgumentType.ptr_to_map_key;
  argument3 = ArgumentType.ptr_to_map_value;
  argument4 = ArgumentType.anything;
  argument5 = ArgumentType.dontcare;
  reallocate_packet = Bool.false;
}

abbrev pub group_bit : ConformanceGroup → ℕ
group_bit base32 = 0x01
group_bit base64 = 0x02
group_bit atomic32 = 0x04
group_bit atomic64 = 0x08
group_bit divmul32 = 0x10
group_bit divmul64 = 0x20
group_bit packet = 0x40
group_bit callx = 0x80

abbrev pub platform : Platform
platform = record {
  get_helper_prototype = λ _. update_elem;
  is_helper_usable = λ _. true;
  group_value = group_bit;
  supported_conformance_groups = 0xff;
}

abbrev pub info : ProgramInfo
info = record {
  platform = platform;
  is_privileged = Bool.false;
  line_info = [];
  allow_division_by_zero = true;
}

pub info-Supports : Supports info
unfolding supports_group
info-Supports base32 = refl
info-Supports _ = refl

abbrev pub inst : ℕ → ℕ → ℕ → ℤ → ℤ → EbpfInst
inst opcode dst src offset imm = record {
  opcode = opcode;
  dst = dst;
  src = src;
  offset = offset;
  imm = imm;
}

-- `r0 = 0; goto +1; r0 = 1; exit`.
abbrev pub program : List EbpfInst
program =
    inst 0xb7 0 0 (pos 0) (pos 0)
    ∷ inst 0x05 0 0 (pos 1) (pos 0)
    ∷ inst 0xb7 0 0 (pos 0) (pos 1)
    ∷ inst 0x95 0 0 (pos 0) (pos 0)
    ∷ []

-- ===== src/Preconditions/Access.antt =====
-- Loads and stores: verifiers/prevail/src/assertions.cpp.
use mathlib.Core.List.{Memᴰ}
use linux_dev_env.Base.{
  ℕ, ◌<◌, ◌^◌, ◌≡◌, refl, ◌⊎◌, inl, inr, Bool, false, not, ◌&&◌, Option, List, [], ◌∷◌,
  if◌then◌else◌, ◌==◌, Bool-cases, arith,
}
use linux_dev_env.Base.Int.{ℤ, pos, negsuc, ◌+ℤ◌, ◌≤ℤ◌}
use linux_dev_env.Outcome.{ok}
use linux_dev_env.Gsl.{Gsl, uint32, narrow_unsigned, narrow_lem}
use linux_dev_env.Isa.{r10_stack_pointer}
use linux_dev_env.Label.{Label}
use linux_dev_env.Platform.{ProgramInfo}
use linux_dev_env.Syntax.Op.{Reg, Value, imm}
use linux_dev_env.Syntax.Instruction.{Mem, Instruction}
use linux_dev_env.Syntax.Assertion.{AccessType, TypeGroup, Assertion}
use linux_dev_env.Assertions.Access.{make_valid_access, depth, type_is}
use linux_dev_env.Assertions.Extractor.{store_assertions, mem_assertions, get_assertions}

-- The access that a load or store makes.
abbrev pub access_of : ℤ → Mem → Assertion
access_of d m = Assertion.valid_access (record {
  call_stack_depth = d;
  reg = m.access.basereg;
  offset = m.access.offset;
  width = imm m.access.width;
  or_null = false;
  access_type = if m.is_load then AccessType.read else AccessType.write;
})

-- An access through r10 to the 512 bytes below it.
abbrev pub IsOwnStack : Mem → Type 0
IsOwnStack m =
    (m.access.basereg ≡ 10)
    × (negsuc 511 ≤ℤ m.access.offset)
    × (m.access.offset +ℤ pos m.access.width ≤ℤ pos 0)

pub first : (a : Assertion) (as_ res : List Assertion) → ok (a ∷ as_) ≡ ok res → Memᴰ a res
first a as_ [] h = cc
first a as_ (r ∷ res) h = Memᴰ.head cc

pub second : (a b : Assertion) (as_ res : List Assertion) → ok (b ∷ a ∷ as_) ≡ ok res → Memᴰ a res
second a b as_ [] h = cc
second a b as_ (r ∷ res) h = Memᴰ.tail (first a as_ res cc)

pub make_valid_access_lem :
    (gsl : Gsl) (info : ProgramInfo) (label : Option Label) (r : Reg) (offset : ℤ) (width : Value)
    (or_null : Bool) (access_type : AccessType) (d : ℤ)
    → depth gsl info label ≡ ok d
    → make_valid_access gsl info label r offset width or_null access_type
      ≡ ok (
          Assertion.valid_access (record {
            call_stack_depth = d;
            reg = r;
            offset = offset;
            width = width;
            or_null = or_null;
            access_type = access_type;
          }))
unfolding make_valid_access
make_valid_access_lem gsl info label r offset width or_null access_type d e = rw e refl

narrow_width : (gsl : Gsl) (w : ℕ) → w < 2 ^ 31 → narrow_unsigned gsl uint32 (pos w) ≡ ok w
narrow_width gsl w h = simp (narrow_lem gsl) (ground arith)

mem_assertions-IsChecked :
    (gsl : Gsl) (info : ProgramInfo) (label : Option Label) (m : Mem) (d : ℤ) {res : List Assertion}
    → m.access.width < 2 ^ 31
    → depth gsl info label ≡ ok d
    → mem_assertions gsl info label m ≡ ok res
    → Memᴰ (access_of d m) res ⊎ IsOwnStack m
unfolding mem_assertions ◌+ℤ◌
mem_assertions-IsChecked gsl info label m d {res} w e h =
    let a =
      make_valid_access_lem gsl info label m.access.basereg m.access.offset (imm m.access.width)
        false (if m.is_load then AccessType.read else AccessType.write) d e in
    elim (Bool-cases (m.access.basereg == r10_stack_pointer)) [
      | inl b ↦
          ground (arith, b, a, narrow_width gsl m.access.width w, first (access_of d m) [] res)
      | inr b ↦ inl (
          second (access_of d m) (type_is m.access.basereg TypeGroup.pointer)
            (if not info.is_privileged && not m.is_load
              then store_assertions m.access.width m.access.basereg m.value
              else [])
            res (ground (arith, b, a, narrow_width gsl m.access.width w)))
    ]

-- The preconditions of a load or store of less than 2 ^ 31 bytes, at a label whose call depth is
-- known, include its access with its register, offset, width and direction, at that depth, unless
-- it goes through r10 and lies within the 512 bytes below it.
pub get_assertions-IsChecked :
    (gsl : Gsl) (info : ProgramInfo) (label : Option Label) (m : Mem) (d : ℤ) {res : List Assertion}
    → m.access.width < 2 ^ 31
    → depth gsl info label ≡ ok d
    → get_assertions gsl info label (Instruction.mem m) ≡ ok res
    → Memᴰ (access_of d m) res ⊎ IsOwnStack m
unfolding get_assertions
get_assertions-IsChecked gsl info label m d w e h =
    mem_assertions-IsChecked gsl info label m d w e h

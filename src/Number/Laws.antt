-- ===== src/Number/Laws.antt =====
-- The value of a number as an integral type of the machine:
-- verifiers/prevail/src/crab_utils/num_big.hpp.
use linux_dev_env.Base.{ℕ, ◌≡◌, refl, arith}
use linux_dev_env.Base.Int
use linux_dev_env.Base.Int.{
  ℤ, pos, negsuc, pos_part, neg_part, ◌-ℤ◌, ◌≤ℤ◌, leb_ℤ, to_unsigned, to_signed, -ℤ_parts,
}
use linux_dev_env.Number.{CppInt, Integral, sint, uint, lowest, highest, wrap, truncate_to}

-- The types of the machine.
pub data IsMachine : Integral → Type 0 where
  sint8 : IsMachine (sint 8)
  sint16 : IsMachine (sint 16)
  sint32 : IsMachine (sint 32)
  sint64 : IsMachine (sint 64)
  uint8 : IsMachine (uint 8)
  uint16 : IsMachine (uint 16)
  uint32 : IsMachine (uint 32)
  uint64 : IsMachine (uint 64)

-- The widths that the conversions take.
pub data IsWidth : ℕ → Type 0 where
  byte : IsWidth 8
  half : IsWidth 16
  word : IsWidth 32
  double : IsWidth 64

pub sint-IsMachine : {w : ℕ} → IsWidth w → IsMachine (sint w)
sint-IsMachine byte = sint8
sint-IsMachine half = sint16
sint-IsMachine word = sint32
sint-IsMachine double = sint64

pub uint-IsMachine : {w : ℕ} → IsWidth w → IsMachine (uint w)
uint-IsMachine byte = uint8
uint-IsMachine half = uint16
uint-IsMachine word = uint32
uint-IsMachine double = uint64

-- A run of numbers that is no longer than the greatest number of a type, and whose ends keep their
-- order when they are wrapped, keeps it throughout.
pub wrap_between :
    {t : Integral}
    → IsMachine t
    → (a z b : ℤ) → a ≤ℤ z
    → z ≤ℤ b
    → (b -ℤ a) ≤ℤ highest t
    → wrap t a ≤ℤ wrap t b
    → (wrap t a ≤ℤ wrap t z) × (wrap t z ≤ℤ wrap t b)
wrap_between sint8 a z b h k s o = ground (arith, -ℤ_parts b a)
wrap_between sint16 a z b h k s o = ground (arith, -ℤ_parts b a)
wrap_between sint32 a z b h k s o = ground (arith, -ℤ_parts b a)
wrap_between sint64 a z b h k s o = ground (arith, -ℤ_parts b a)
wrap_between uint8 a z b h k s o = ground (arith, -ℤ_parts b a)
wrap_between uint16 a z b h k s o = ground (arith, -ℤ_parts b a)
wrap_between uint32 a z b h k s o = ground (arith, -ℤ_parts b a)
wrap_between uint64 a z b h k s o = ground (arith, -ℤ_parts b a)

pub wrap_bounded :
    {t : Integral} → IsMachine t → (z : ℤ) → (lowest t ≤ℤ wrap t z) × (wrap t z ≤ℤ highest t)
unfolding Int.neg
wrap_bounded sint8 z = (ground arith, ground arith)
wrap_bounded sint16 z = (ground arith, ground arith)
wrap_bounded sint32 z = (ground arith, ground arith)
wrap_bounded sint64 z = (ground arith, ground arith)
wrap_bounded uint8 z = (ground arith, ground arith)
wrap_bounded uint16 z = (ground arith, ground arith)
wrap_bounded uint32 z = (ground arith, ground arith)
wrap_bounded uint64 z = (ground arith, ground arith)

pub wrap_lem :
    {t : Integral} → IsMachine t → (z : ℤ) → lowest t ≤ℤ z → z ≤ℤ highest t → wrap t z ≡ z
unfolding Int.neg
wrap_lem sint8 z h k = ground arith
wrap_lem sint16 z h k = ground arith
wrap_lem sint32 z h k = ground arith
wrap_lem sint64 z h k = ground arith
wrap_lem uint8 z h k = ground arith
wrap_lem uint16 z h k = ground arith
wrap_lem uint32 z h k = ground arith
wrap_lem uint64 z h k = ground arith

pub truncate_to_lem : (cpp : CppInt) (t : Integral) (z : ℤ) → truncate_to cpp t z ≡ wrap t z
unfolding truncate_to
truncate_to_lem cpp (sint w) z = rw (cpp.land_mask z w) refl
truncate_to_lem cpp (uint w) z = cpp.land_mask z w

-- ===== src/Roundtrip/Lddw.antt =====
-- The two-slot loads of a 64-bit immediate and of a map.
use linux_dev_env.Base.{
  ℕ, ◌+◌, ◌*◌, ◌/◌, ◌%◌, ◌^◌, ◌≤◌, ◌<◌, ◌≡◌, bit_or, true, List, [], ◌∷◌, ◌++◌, length,
  length-append, get_elem?-append, arith,
}
use mathlib.Core.Path.{ap₂}
use linux_dev_env.Base.Bits.{bit_or_disjoint}
use linux_dev_env.Base.Int.{ℤ, pos, to_unsigned, to_signed, to_unsigned-to_signed32, IsInt32}
use linux_dev_env.Outcome.{ok}
use linux_dev_env.Gsl.{Gsl, narrow_lem}
use linux_dev_env.Isa.{EbpfInst, merge, split}
use linux_dev_env.Syntax.Op.{BinOp, imm}
use linux_dev_env.Syntax.Instruction.{Bin, bin}
use linux_dev_env.Platform.{ProgramInfo}
use linux_dev_env.Unmarshal.Operand.{require_group}
use linux_dev_env.Unmarshal.Lddw.{make_lddw}
use linux_dev_env.Marshal.Visitor.{marshal_bin}
use linux_dev_env.Marshal.Sequence.{marshal}
use linux_dev_env.Roundtrip.Alu.{Supports}

low_half : (h r : ℕ) → r < 2 ^ 32 → bit_or (h * 2 ^ 32 % 2 ^ 64) r ≡ h % 2 ^ 32 * 2 ^ 32 + r
low_half h r lt =
    let e : h * 2 ^ 32 % 2 ^ 64 ≡ h % 2 ^ 32 * 2 ^ 32 = omega arith in
    rw e (bit_or_disjoint 32 (h % 2 ^ 32) r lt)

to_unsigned32-lt : (x : ℤ) → to_unsigned (2 ^ 32) x < 2 ^ 32
to_unsigned32-lt x = ground arith

-- The high part of `merge` is shifted past the low part.
merge_sum :
    (low high : ℤ)
    → merge low high ≡ to_unsigned (2 ^ 64) high % 2 ^ 32 * 2 ^ 32 + to_unsigned (2 ^ 32) low
unfolding merge
merge_sum low high = low_half _ _ (to_unsigned32-lt low)

-- A signed half, widened to 64 bits and cut again.
widened : (x : ℕ) → x < 2 ^ 32 → to_unsigned (2 ^ 64) (to_signed (2 ^ 32) x) % 2 ^ 32 ≡ x
widened x h = ground arith

-- The halves of the sum, as signed numbers.
cut_low :
    (low : ℤ) (q : ℕ)
    → IsInt32 low
    → to_signed (2 ^ 32) ((q * 2 ^ 32 + to_unsigned (2 ^ 32) low) % 2 ^ 32) ≡ low
cut_low low q p = ground arith

cut_high :
    (low high : ℤ)
    → IsInt32 high
    → to_signed
        (2 ^ 32)
        ((to_unsigned (2 ^ 64) high % 2 ^ 32 * 2 ^ 32 + to_unsigned (2 ^ 32) low) / 2 ^ 32 % 2 ^ 32)
      ≡ high
cut_high low high q = ground arith

-- Splitting a 64-bit number into two immediates and merging them gives the number back.
pub merge-split : (v : ℕ) → v < 2 ^ 64 → merge (split v).0 (split v).1 ≡ v
unfolding split
merge-split v h =
    rw
      (
        merge_sum,
        widened (v / 2 ^ 32 % 2 ^ 32) (omega arith),
        to_unsigned-to_signed32 (v % 2 ^ 32) (omega arith),
      )
      (omega arith)

-- Merging two immediates and splitting the number gives the immediates back.
pub split-merge : (low high : ℤ) → IsInt32 low → IsInt32 high → split (merge low high) ≡ (low, high)
unfolding split
split-merge low high p q = rw merge_sum (
    ap₂ (λ (a b : ℤ). (a, b)) (cut_low low (to_unsigned (2 ^ 64) high % 2 ^ 32) p)
      (cut_high low high q))

abbrev pub lddw_of : ℕ → ℕ → Bin
lddw_of dst v = record { op = BinOp.mov; dst = dst; v = imm v; is64 = true; lddw = true }

abbrev lddw_first : ℕ → ℕ → EbpfInst
lddw_first dst v = record { opcode = 0x18; dst = dst; src = 0; offset = pos 0; imm = (split v).0 }

abbrev lddw_second : ℕ → EbpfInst
lddw_second v = record { opcode = 0; dst = 0; src = 0; offset = pos 0; imm = (split v).1 }

-- A 64-bit load of an immediate into r0 to r10 is encoded as two instructions, and these are
-- decoded to it, wherever they stand in a program.
pub make_lddw-marshal :
    (gsl : Gsl) (info : ProgramInfo) (before rest : List EbpfInst) (pc dst v : ℕ)
    → Supports info
    → dst ≤ 10
    → v < 2 ^ 64
    → (inst : EbpfInst) × (next : EbpfInst) × (marshal gsl (bin (lddw_of dst v)) pc
        ≡ ok (inst ∷ next ∷ []))
      × (make_lddw info inst next.imm (before ++ inst ∷ next ∷ rest) (length before)
          ≡ ok (bin (lddw_of dst v)))
unfolding marshal marshal_bin make_lddw require_group
make_lddw-marshal gsl info before rest pc dst v supports fits h = (
  lddw_first dst v,
  lddw_second v,
  simp (narrow_lem gsl) (ground arith),
  simp
      (supports, length-append, get_elem?-append before (lddw_first dst v ∷ lddw_second v ∷ rest) 1)
      (ground (arith, merge-split v h)),
)

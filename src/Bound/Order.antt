-- ===== src/Bound/Order.antt =====
-- Bounds as limits of numbers: verifiers/prevail/src/crab_utils/num_extended.hpp.
use linux_dev_env.Base.{
  ◌≡◌, ◌⊎◌, inl, inr, Bool, true, false, if◌then◌else◌, ◌||◌, ◌&&◌, not, arith,
}
use linux_dev_env.Base.Int.{ℤ, pos, negsuc, ltb_ℤ, leb_ℤ, ◌≤ℤ◌}
use linux_dev_env.Bound.{Bound, finite, le, ge, lt, gt, min, max}

-- The number of an infinity is 1 or -1, as the constructors make it.
pub record IsNormal (b : Bound) : Type 0 where
  pub unit : b.is_infinite ≡ true → (b.n ≡ pos 1) ⊎ (b.n ≡ negsuc 0)

-- A number is on the upper, or on the lower side of a bound.
unfoldable pub at_least : Bound → ℤ → Bool
at_least b z = if b.is_infinite then ltb_ℤ b.n (pos 0) else leb_ℤ b.n z

unfoldable pub at_most : Bound → ℤ → Bool
at_most b z = if b.is_infinite then ltb_ℤ (pos 0) b.n else leb_ℤ z b.n

pub at_least-le :
    (a b : Bound) (z : ℤ)
    → IsNormal a
    → IsNormal b
    → le a b ≡ true
    → at_least b z ≡ true
    → at_least a z ≡ true
unfolding at_least le
at_least-le a b z na nb h k = ground arith

pub at_most-le :
    (a b : Bound) (z : ℤ)
    → IsNormal a
    → IsNormal b
    → le a b ≡ true
    → at_most a z ≡ true
    → at_most b z ≡ true
unfolding at_most le
at_most-le a b z na nb h k = ground arith

pub le_of_between :
    (a b : Bound) (z : ℤ)
    → IsNormal a
    → IsNormal b
    → at_least a z ≡ true
    → at_most b z ≡ true
    → le a b ≡ true
unfolding at_least at_most le
le_of_between a b z na nb h k = ground arith

pub le_trans :
    (a b c : Bound)
    → IsNormal a
    → IsNormal b
    → IsNormal c
    → le a b ≡ true
    → le b c ≡ true
    → le a c ≡ true
unfolding le
le_trans a b c na nb nc h k = ground arith

pub le_refl : (a : Bound) → le a a ≡ true
unfolding le
le_refl a = ground arith

pub le_total : (a b : Bound) → IsNormal a → IsNormal b → le a b ≡ false → le b a ≡ true
unfolding le
le_total a b na nb h = ground arith

-- The other comparisons are read through the first.
pub gt_lem : (a b : Bound) → gt a b ≡ not (le a b)
unfolding gt
gt_lem a b = ground arith

pub ge_lem : (a b : Bound) → IsNormal a → IsNormal b → ge a b ≡ le b a
unfolding ge le
ge_lem a b na nb = ground arith

pub lt_lem : (a b : Bound) → IsNormal a → IsNormal b → lt a b ≡ not (le b a)
unfolding lt
lt_lem a b na nb = ground (arith, ge_lem a b)

-- The least and the greatest of two bounds, as limits.
pub at_least-min :
    (a b : Bound) (z : ℤ)
    → IsNormal a
    → IsNormal b
    → at_least (min a b) z ≡ (at_least a z || at_least b z)
unfolding min
at_least-min a b z na nb =
    ground (arith, lt_lem b a, at_least-le a b z, at_least-le b a z, le_total a b, le_total b a)

pub at_most-max :
    (a b : Bound) (z : ℤ)
    → IsNormal a
    → IsNormal b
    → at_most (max a b) z ≡ (at_most a z || at_most b z)
unfolding max
at_most-max a b z na nb =
    ground (arith, lt_lem a b, at_most-le a b z, at_most-le b a z, le_total a b, le_total b a)

pub at_least-max :
    (a b : Bound) (z : ℤ)
    → IsNormal a
    → IsNormal b
    → at_least (max a b) z ≡ (at_least a z && at_least b z)
unfolding max
at_least-max a b z na nb =
    ground (arith, lt_lem a b, at_least-le a b z, at_least-le b a z, le_total a b, le_total b a)

pub at_most-min :
    (a b : Bound) (z : ℤ)
    → IsNormal a
    → IsNormal b
    → at_most (min a b) z ≡ (at_most a z && at_most b z)
unfolding min
at_most-min a b z na nb =
    ground (arith, lt_lem b a, at_most-le a b z, at_most-le b a z, le_total a b, le_total b a)

pub min-IsNormal : (a b : Bound) → IsNormal a → IsNormal b → IsNormal (min a b)
unfolding min
min-IsNormal a b na nb = record { unit = ground arith }

pub max-IsNormal : (a b : Bound) → IsNormal a → IsNormal b → IsNormal (max a b)
unfolding max
max-IsNormal a b na nb = record { unit = ground arith }

pub finite-IsNormal : (n : ℤ) → IsNormal (finite n)
finite-IsNormal n = record { unit = λ e. cc }

pub at_least-finite' : (b : Bound) (z : ℤ) → le b (finite z) ≡ at_least b z
unfolding at_least le
at_least-finite' b z = ground arith

pub at_most-finite' : (b : Bound) (z : ℤ) → le (finite z) b ≡ at_most b z
unfolding at_most le
at_most-finite' b z = ground arith

pub le-min : (a b c : Bound) → le a b ≡ true → le a c ≡ true → le a (min b c) ≡ true
unfolding min
le-min a b c h k = ground arith

pub max-le : (a b c : Bound) → le b a ≡ true → le c a ≡ true → le (max b c) a ≡ true
unfolding max
max-le a b c h k = ground arith

pub min-le : (a b : Bound) → IsNormal a → IsNormal b → le (min a b) a ≡ true
unfolding min
min-le a b na nb = ground (arith, lt_lem b a, le_refl a, le_total a b)

pub le-max : (a b : Bound) → IsNormal a → IsNormal b → le a (max a b) ≡ true
unfolding max
le-max a b na nb = ground (arith, lt_lem a b, le_refl a, le_total b a)

pub min-le-max :
    (a b c d : Bound)
    → IsNormal a
    → IsNormal b
    → IsNormal c
    → IsNormal d
    → le a b ≡ true
    → le (min a c) (max b d) ≡ true
min-le-max a b c d na nb nc nd h =
    let below = le_trans (min a c) a b (min-IsNormal a c na nc) na nb (min-le a c na nc) h in
    le_trans (min a c) b (max b d) (min-IsNormal a c na nc) nb (max-IsNormal b d nb nd) below
      (le-max b d nb nd)

-- The least of two bounds is below what one of them is below, and the greatest above it.
pub min-le_of :
    (a b c : Bound)
    → IsNormal a
    → IsNormal b
    → IsNormal c
    → (le a c ≡ true) ⊎ (le b c ≡ true)
    → le (min a b) c ≡ true
unfolding min
min-le_of a b c na nb nc h =
    ground (arith, lt_lem b a, le_total a b, le_trans a b c, le_trans b a c)

pub le-max_of :
    (a b c : Bound)
    → IsNormal a
    → IsNormal b
    → IsNormal c
    → (le c a ≡ true) ⊎ (le c b ≡ true)
    → le c (max a b) ≡ true
unfolding max
le-max_of a b c na nb nc h =
    ground (arith, lt_lem a b, le_total a b, le_trans c a b, le_trans c b a)

module _ (a b c d : Bound) (na : IsNormal a) (nb : IsNormal b) (nc : IsNormal c)
    (nd : IsNormal d) where
  pub min_mono : le a c ≡ true → le b d ≡ true → le (min a b) (min c d) ≡ true
  min_mono h k = le-min _ c d (min-le_of a b c na nb nc (inl h)) (min-le_of a b d na nb nd (inr k))

  pub max_mono : le c a ≡ true → le d b ≡ true → le (max c d) (max a b) ≡ true
  max_mono h k = max-le _ c d (le-max_of a b c na nb nc (inl h)) (le-max_of a b d na nb nd (inr k))

pub finite-at_least : (a z : ℤ) → a ≤ℤ z → at_least (finite a) z ≡ true
unfolding at_least
finite-at_least a z h = ground arith

pub finite-at_most : (z b : ℤ) → z ≤ℤ b → at_most (finite b) z ≡ true
unfolding at_most
finite-at_most z b h = ground arith

pub at_least-finite : (a z : ℤ) → at_least (finite a) z ≡ true → a ≤ℤ z
unfolding at_least
at_least-finite a z h = ground arith

pub at_most-finite : (z b : ℤ) → at_most (finite b) z ≡ true → z ≤ℤ b
unfolding at_most
at_most-finite z b h = ground arith

-- A bound is below the least of two where it is below both, and above the greatest where above both.
module _ (a b c : Bound) (na : IsNormal a) (nb : IsNormal b) (nc : IsNormal c) where
  pub le_min_lem : le a (min b c) ≡ (le a b && le a c)
  unfolding min
  le_min_lem = ground (arith, lt_lem c b, le_total b c, le_trans a b c, le_trans a c b)

  pub max_le_lem : le (max b c) a ≡ (le b a && le c a)
  unfolding max
  max_le_lem = ground (arith, lt_lem b c, le_total c b, le_trans b c a, le_trans c b a)

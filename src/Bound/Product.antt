-- ===== src/Bound/Product.antt =====
-- Products of bounds and the order: verifiers/prevail/src/crab_utils/num_extended.hpp.
use linux_dev_env.Base.{◌≡◌, inl, inr, true, arith}
use linux_dev_env.Base.Int.{ℤ, pos, ◌*ℤ◌, ◌≤ℤ◌, eq_of_parts}
use linux_dev_env.Base.Product.{
  *ℤ_comm, *ℤ-le, *ℤ-ge, *ℤ_pos, *ℤ_neg, *ℤ_of_neg, *ℤ_zero, leb_total,
}
use linux_dev_env.Bound.{Bound, finite, le, mul, min, max}
use linux_dev_env.Bound.Order.{IsNormal, min-le_of, le-max_of}

pub mul_comm : (a b : Bound) → IsNormal a → IsNormal b → mul a b ≡ mul b a
unfolding mul
mul_comm a b na nb =
    ground
      (arith, *ℤ_comm a.n b.n, eq_of_parts a.n (pos 0), eq_of_parts b.n (pos 0), na.unit, nb.unit)

-- A product by a bound that is not negative keeps the order.
mul_mono :
    (s t m : Bound)
    → IsNormal s
    → IsNormal t
    → IsNormal m
    → pos 0 ≤ℤ m.n
    → le s t ≡ true
    → le (mul s m) (mul t m) ≡ true
unfolding mul le
mul_mono s t m ns nt nm p h = ground (
  arith,
  ns.unit,
  nt.unit,
  nm.unit,
  *ℤ-le s.n t.n m.n,
  *ℤ_pos s.n m.n,
  *ℤ_neg s.n m.n,
  *ℤ_pos t.n m.n,
  *ℤ_neg t.n m.n,
)

-- A product by a negative one turns it.
mul_turn :
    (s t m : Bound)
    → IsNormal s
    → IsNormal t
    → IsNormal m
    → m.n ≤ℤ pos 0
    → le s t ≡ true
    → le (mul t m) (mul s m) ≡ true
unfolding mul le
mul_turn s t m ns nt nm p h = ground (
  arith,
  ns.unit,
  nt.unit,
  nm.unit,
  *ℤ-ge s.n t.n m.n,
  *ℤ_of_neg s.n m.n,
  *ℤ_of_neg t.n m.n,
  *ℤ_neg m.n s.n,
  *ℤ_neg m.n t.n,
  *ℤ_comm s.n m.n,
  *ℤ_comm t.n m.n,
)

pub mul-IsNormal : (a b : Bound) → IsNormal a → IsNormal b → IsNormal (mul a b)
unfolding mul
mul-IsNormal a b na nb = record { unit = ground arith }

pub mul-finite : (a b : ℤ) → mul (finite a) (finite b) ≡ finite (a *ℤ b)
unfolding mul
mul-finite a b =
    ground
      (arith, *ℤ_zero a b, *ℤ_comm a b, *ℤ_zero b a, eq_of_parts a (pos 0), eq_of_parts b (pos 0))

-- A product of something between two bounds is between the two products.
module _ (l u t m : Bound) (nl : IsNormal l) (nu : IsNormal u) (nt : IsNormal t)
    (nm : IsNormal m) where
  pub min-le-mul : le l t ≡ true → le t u ≡ true → le (min (mul l m) (mul u m)) (mul t m) ≡ true
  min-le-mul h k =
      min-le_of _ _ _ (mul-IsNormal l m nl nm) (mul-IsNormal u m nu nm) (mul-IsNormal t m nt nm)
        (elim (leb_total (pos 0) m.n) [
          | inl e ↦ inl (mul_mono l t m nl nt nm e h)
          | inr e ↦ inr (mul_turn t u m nt nu nm e k)
        ])

  pub mul-le-max : le l t ≡ true → le t u ≡ true → le (mul t m) (max (mul l m) (mul u m)) ≡ true
  mul-le-max h k =
      le-max_of _ _ _ (mul-IsNormal l m nl nm) (mul-IsNormal u m nu nm) (mul-IsNormal t m nt nm)
        (elim (leb_total (pos 0) m.n) [
          | inl e ↦ inr (mul_mono t u m nt nu nm e k)
          | inr e ↦ inl (mul_turn l t m nl nt nm e h)
        ])

-- ===== src/Interval/Lattice.antt =====
-- Intervals as sets of numbers, and the lattice operations: verifiers/prevail/src/crab/interval.hpp.
use linux_dev_env.Base.{◌≡◌, ◌↔◌, ◌⊎◌, inl, inr, true, false, ◌&&◌, Bool-cases, arith}
use linux_dev_env.Base.Int.{ℤ}
use linux_dev_env.Bound
use linux_dev_env.Bound.{Bound, finite, plus_infinity, minus_infinity}
use linux_dev_env.Bound.Order.{
  IsNormal, at_least, at_most, at_least-le, at_most-le, le_of_between, gt_lem, at_least-min,
  at_most-max, at_least-finite', at_most-finite', at_least-max, at_most-min, min-IsNormal,
  max-IsNormal, finite-IsNormal, le_min_lem, max_le_lem, min-le-max,
}
use linux_dev_env.Interval.{Interval, bottom, interval_t, is_bottom, le, join, meet, contains}

-- The numbers of an interval.
abbrev pub Has : Interval → ℤ → Type 0
Has i z = (at_least i.lb z ≡ true) × (at_most i.ub z ≡ true)

-- Both bounds are as the constructors make them.
pub record IsValid (i : Interval) : Type 0 where
  pub lb : IsNormal i.lb
  pub ub : IsNormal i.ub

pub Has-not_bottom : (i : Interval) (z : ℤ) → IsValid i → Has i z → is_bottom i ≡ false
unfolding is_bottom
Has-not_bottom i z v h = ground (arith, gt_lem i.lb i.ub, le_of_between i.lb i.ub z v.lb v.ub)

pub bottom_empty : (z : ℤ) → Has bottom z → ⊥
unfolding at_least at_most
bottom_empty z h = ground arith

-- The numbers of an interval that is made of two bounds.
pub Has-interval_t :
    (l u : Bound) (z : ℤ)
    → IsNormal l
    → IsNormal u
    → Has (interval_t l u) z ↔ ((at_least l z ≡ true) × (at_most u z ≡ true))
unfolding interval_t
Has-interval_t l u z nl nu = (
  λ h. ground (arith, h, gt_lem l u, bottom_empty z),
  λ h. ground (arith, h, gt_lem l u, le_of_between l u z nl nu),
)

bottom-IsValid : IsValid bottom
bottom-IsValid = record { lb = finite-IsNormal _; ub = finite-IsNormal _ }

pub interval_t-IsValid : (l u : Bound) → IsNormal l → IsNormal u → IsValid (interval_t l u)
unfolding interval_t
interval_t-IsValid l u nl nu = elim (Bool-cases (Bound.gt l u)) [
  | inl e ↦ rw e bottom-IsValid
  | inr e ↦ rw e (record { lb = nl; ub = nu })
]

-- A test for a number tells the numbers of the interval.
pub contains_iff : (i : Interval) (z : ℤ) → IsValid i → (contains i z ≡ true) ↔ Has i z
unfolding contains is_bottom
contains_iff i z v = (
  λ h. ground (arith, h, at_least-finite' i.lb z, at_most-finite' i.ub z),
  λ h. ground (
    arith,
    h,
    at_least-finite' i.lb z,
    at_most-finite' i.ub z,
    gt_lem i.lb i.ub,
    le_of_between i.lb i.ub z v.lb v.ub,
  ),
)

module _ (i x : Interval) (z : ℤ) (v : IsValid i) (w : IsValid x) where
  Has-interval_min-max :
      Has (interval_t (Bound.min i.lb x.lb) (Bound.max i.ub x.ub)) z
      ↔ ((at_least (Bound.min i.lb x.lb) z ≡ true) × (at_most (Bound.max i.ub x.ub) z ≡ true))
  Has-interval_min-max =
      Has-interval_t _ _ z (min-IsNormal i.lb x.lb v.lb w.lb) (max-IsNormal i.ub x.ub v.ub w.ub)

  -- The join of two intervals has the numbers of both.
  pub Has-join : Has i z ⊎ Has x z → Has (join i x) z
  unfolding join
  Has-join h = ground (
    arith,
    Has-not_bottom i z v,
    Has-not_bottom x z w,
    Has-interval_min-max.1,
    at_least-min i.lb x.lb z v.lb w.lb,
    at_most-max i.ub x.ub z v.ub w.ub,
  )

  pub le-Has : le i x ≡ true → Has i z → Has x z
  unfolding le
  le-Has h k = ground (
    arith,
    Has-not_bottom i z v,
    at_least-le x.lb i.lb z w.lb v.lb,
    at_most-le i.ub x.ub z v.ub w.ub,
  )

  Has-interval_max-min :
      Has (interval_t (Bound.max i.lb x.lb) (Bound.min i.ub x.ub)) z
      ↔ ((at_least (Bound.max i.lb x.lb) z ≡ true) × (at_most (Bound.min i.ub x.ub) z ≡ true))
  Has-interval_max-min =
      Has-interval_t _ _ z (max-IsNormal i.lb x.lb v.lb w.lb) (min-IsNormal i.ub x.ub v.ub w.ub)

  -- The meet has the numbers that both have.
  Has-meet : Has (meet i x) z ↔ (Has i z × Has x z)
  unfolding meet
  Has-meet = (
    λ h. ground (
      arith,
      h,
      bottom_empty z,
      Has-interval_max-min.0,
      at_least-max i.lb x.lb z v.lb w.lb,
      at_most-min i.ub x.ub z v.ub w.ub,
    ),
    λ h. ground (
      arith,
      h,
      Has-not_bottom i z v,
      Has-not_bottom x z w,
      Has-interval_max-min.1,
      at_least-max i.lb x.lb z v.lb w.lb,
      at_most-min i.ub x.ub z v.ub w.ub,
    ),
  )

pub join-IsValid : (i x : Interval) → IsValid i → IsValid x → IsValid (join i x)
unfolding join
join-IsValid i x v w = elim (Bool-cases (is_bottom i)) [
  | inl e ↦ rw e w
  | inr e ↦ rw e (elim (Bool-cases (is_bottom x)) [
    | inl f ↦ rw f v
    | inr f ↦ rw f (
        interval_t-IsValid _ _ (min-IsNormal i.lb x.lb v.lb w.lb)
          (max-IsNormal i.ub x.ub v.ub w.ub))
  ])
]

-- The join is below exactly the intervals that both are below.
le-join :
    (i x y : Interval) → IsValid i → IsValid x → IsValid y → le (join i x) y ≡ (le i y && le x y)
unfolding join le is_bottom interval_t
le-join i x y u v w = ground (
  arith,
  gt_lem i.lb i.ub,
  gt_lem x.lb x.ub,
  gt_lem y.lb y.ub,
  le_min_lem y.lb i.lb x.lb w.lb u.lb v.lb,
  max_le_lem y.ub i.ub x.ub w.ub u.ub v.ub,
  gt_lem (Bound.min i.lb x.lb) (Bound.max i.ub x.ub),
  min-le-max i.lb i.ub x.lb x.ub u.lb u.ub v.lb v.ub,
)

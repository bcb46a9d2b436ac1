-- ===== src/Interval/Inclusion.antt =====
-- The order of intervals is the inclusion of their numbers:
-- verifiers/prevail/src/crab/interval.hpp.
use linux_dev_env.Base.{◌≡◌, ◌↔◌, inl, inr, true, false, if◌then◌else◌, Bool-cases, arith}
use linux_dev_env.Base.Int.{ℤ, min_ℤ, max_ℤ, pos, negsuc, ◌+ℤ◌, ◌-ℤ◌}
use linux_dev_env.Bound
use linux_dev_env.Bound.{Bound}
use linux_dev_env.Bound.Order.{at_least, at_most}
use linux_dev_env.Interval.{Interval, is_bottom, le}
use linux_dev_env.Interval.Lattice.{Has, IsValid, Has-not_bottom, le-Has}

-- The lower bound is no positive infinity, and the upper bound no negative one.
pub record IsProper (i : Interval) : Type 0 where
  pub valid : IsValid i
  pub lower : i.lb.is_infinite ≡ true → i.lb.n ≡ negsuc 0
  pub upper : i.ub.is_infinite ≡ true → i.ub.n ≡ pos 1

-- A number of `i` that is below the lower bound of `x`, if there is one, and one that is above its
-- upper bound.
low_point : Interval → Interval → ℤ
low_point i x =
    if i.lb.is_infinite
    then (if i.ub.is_infinite then x.lb.n else min_ℤ i.ub.n x.lb.n) -ℤ pos 1
    else i.lb.n

high_point : Interval → Interval → ℤ
high_point i x =
    if i.ub.is_infinite
    then (if i.lb.is_infinite then x.ub.n else max_ℤ i.lb.n x.ub.n) +ℤ pos 1
    else i.ub.n

module _ (i x : Interval) (p : IsProper i) (v : IsValid x) (full : is_bottom i ≡ false) where
  Has-low_point : Has i (low_point i x)
  unfolding low_point is_bottom at_least at_most Bound.gt Bound.le ◌-ℤ◌
  Has-low_point = ground (arith, p.lower, p.upper)

  Has-high_point : Has i (high_point i x)
  unfolding high_point is_bottom at_least at_most Bound.gt Bound.le ◌+ℤ◌
  Has-high_point = ground (arith, p.lower, p.upper)

  le_of_low_point : at_least x.lb (low_point i x) ≡ true → Bound.le x.lb i.lb ≡ true
  unfolding low_point at_least Bound.le ◌-ℤ◌
  le_of_low_point h = ground (arith, p.lower, v.lb.unit)

  le_of_high_point : at_most x.ub (high_point i x) ≡ true → Bound.le i.ub x.ub ≡ true
  unfolding high_point at_most Bound.le ◌+ℤ◌
  le_of_high_point h = ground (arith, p.upper, v.ub.unit)

-- For intervals whose bounds are as the operations make them, the first of them with no infinity on
-- the wrong side, the order holds exactly when every number of the first is one of the second.
pub le_iff :
    (i x : Interval) → IsProper i → IsValid x → (le i x ≡ true) ↔ ((z : ℤ) → Has i z → Has x z)
unfolding le
le_iff i x p v = (
  λ h z. le-Has i x z p.valid v h,
  λ h. elim (Bool-cases (is_bottom i)) [
    | inl e ↦ rw e
    | inr e ↦
        (let low = h (low_point i x) (Has-low_point i x p v e) in
          let high = h (high_point i x) (Has-high_point i x p v e) in
          ground (
            arith,
            e,
            Has-not_bottom x (low_point i x) v,
            le_of_low_point i x p v e low.0,
            le_of_high_point i x p v e high.1,
          ))
  ],
)

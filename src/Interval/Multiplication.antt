-- ===== src/Interval/Multiplication.antt =====
-- Products of intervals: verifiers/prevail/src/crab/interval.hpp.
use linux_dev_env.Base.{◌≡◌, ◌∙◌, sym, ap, true, arith}
use linux_dev_env.Base.Int.{ℤ, ◌*ℤ◌}
use linux_dev_env.Bound
use linux_dev_env.Bound.{Bound, finite}
use linux_dev_env.Bound.Order.{
  IsNormal, at_least, at_most, at_least-finite', at_most-finite', le_trans, finite-IsNormal,
  min-IsNormal, max-IsNormal, min_mono, max_mono,
}
use linux_dev_env.Bound.Product.{mul_comm, mul-IsNormal, mul-finite, min-le-mul, mul-le-max}
use linux_dev_env.Interval.{Interval, mul}
use linux_dev_env.Interval.Lattice.{Has, IsValid, Has-not_bottom, Has-interval_t}

-- A number between two bounds, as a bound.
module _ (l u m : Bound) (b : ℤ) (nl : IsNormal l) (nu : IsNormal u) (nm : IsNormal m)
    (h : at_least l b ≡ true) (k : at_most u b ≡ true) where
  -- The products of a bound by a number between two others.
  below : Bound.le (Bound.min (Bound.mul m l) (Bound.mul m u)) (Bound.mul m (finite b)) ≡ true
  below = rw (mul_comm m l nm nl) (
      rw (mul_comm m u nm nu) (
        rw (mul_comm m (finite b) nm (finite-IsNormal b)) (
          min-le-mul l u (finite b) m nl nu (finite-IsNormal b) nm (at_least-finite' l b ∙ h)
            (at_most-finite' u b ∙ k))))

  above : Bound.le (Bound.mul m (finite b)) (Bound.max (Bound.mul m l) (Bound.mul m u)) ≡ true
  above = rw (mul_comm m l nm nl) (
      rw (mul_comm m u nm nu) (
        rw (mul_comm m (finite b) nm (finite-IsNormal b)) (
          mul-le-max l u (finite b) m nl nu (finite-IsNormal b) nm (at_least-finite' l b ∙ h)
            (at_most-finite' u b ∙ k))))

module _ (i x : Interval) (v : IsValid i) (w : IsValid x) (a b : ℤ) (h : Has i a)
    (k : Has x b) where
  -- The least and the greatest product of two bounds.
  least : Bound
  least =
      Bound.min (Bound.min (Bound.mul i.lb x.lb) (Bound.mul i.lb x.ub))
        (Bound.min (Bound.mul i.ub x.lb) (Bound.mul i.ub x.ub))

  greatest : Bound
  greatest =
      Bound.max (Bound.max (Bound.mul i.lb x.lb) (Bound.mul i.lb x.ub))
        (Bound.max (Bound.mul i.ub x.lb) (Bound.mul i.ub x.ub))

  ll : IsNormal (Bound.mul i.lb x.lb)
  ll = mul-IsNormal _ _ v.lb w.lb

  lu : IsNormal (Bound.mul i.lb x.ub)
  lu = mul-IsNormal _ _ v.lb w.ub

  ul : IsNormal (Bound.mul i.ub x.lb)
  ul = mul-IsNormal _ _ v.ub w.lb

  uu : IsNormal (Bound.mul i.ub x.ub)
  uu = mul-IsNormal _ _ v.ub w.ub

  lb : IsNormal (Bound.mul i.lb (finite b))
  lb = mul-IsNormal _ _ v.lb (finite-IsNormal b)

  ub : IsNormal (Bound.mul i.ub (finite b))
  ub = mul-IsNormal _ _ v.ub (finite-IsNormal b)

  least-IsNormal : IsNormal least
  unfolding least
  least-IsNormal = min-IsNormal _ _ (min-IsNormal _ _ ll lu) (min-IsNormal _ _ ul uu)

  greatest-IsNormal : IsNormal greatest
  unfolding greatest
  greatest-IsNormal = max-IsNormal _ _ (max-IsNormal _ _ ll lu) (max-IsNormal _ _ ul uu)

  at_least-least : at_least least (a *ℤ b) ≡ true
  unfolding least
  at_least-least =
      sym (at_least-finite' least (a *ℤ b))
      ∙ ap (Bound.le least) (sym (mul-finite a b))
      ∙ le_trans least (Bound.min (Bound.mul i.lb (finite b)) (Bound.mul i.ub (finite b)))
          (Bound.mul (finite a) (finite b)) least-IsNormal (min-IsNormal _ _ lb ub)
          (mul-IsNormal _ _ (finite-IsNormal a) (finite-IsNormal b))
          (min_mono _ _ _ _ (min-IsNormal _ _ ll lu) (min-IsNormal _ _ ul uu) lb ub
            (below x.lb x.ub i.lb b w.lb w.ub v.lb k.0 k.1)
            (below x.lb x.ub i.ub b w.lb w.ub v.ub k.0 k.1))
          (min-le-mul i.lb i.ub (finite a) (finite b) v.lb v.ub (finite-IsNormal a)
            (finite-IsNormal b) (at_least-finite' i.lb a ∙ h.0) (at_most-finite' i.ub a ∙ h.1))

  at_most-greatest : at_most greatest (a *ℤ b) ≡ true
  unfolding greatest
  at_most-greatest =
      sym (at_most-finite' greatest (a *ℤ b))
      ∙ ap (λ m. Bound.le m greatest) (sym (mul-finite a b))
      ∙ le_trans (Bound.mul (finite a) (finite b))
          (Bound.max (Bound.mul i.lb (finite b)) (Bound.mul i.ub (finite b))) greatest
          (mul-IsNormal _ _ (finite-IsNormal a) (finite-IsNormal b)) (max-IsNormal _ _ lb ub)
          greatest-IsNormal
          (mul-le-max i.lb i.ub (finite a) (finite b) v.lb v.ub (finite-IsNormal a)
            (finite-IsNormal b) (at_least-finite' i.lb a ∙ h.0) (at_most-finite' i.ub a ∙ h.1))
          (max_mono _ _ _ _ (max-IsNormal _ _ ll lu) (max-IsNormal _ _ ul uu) lb ub
            (above x.lb x.ub i.lb b w.lb w.ub v.lb k.0 k.1)
            (above x.lb x.ub i.ub b w.lb w.ub v.ub k.0 k.1))

  -- Where two intervals have the numbers a and b, their product has a * b.
  pub Has-mul : Has (mul i x) (a *ℤ b)
  unfolding mul least greatest
  Has-mul = ground (
    arith,
    h,
    k,
    Has-not_bottom i a v,
    Has-not_bottom x b w,
    (Has-interval_t least greatest (a *ℤ b) least-IsNormal greatest-IsNormal).1,
    at_least-least,
    at_most-greatest,
  )

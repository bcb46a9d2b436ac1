-- ===== src/Interval/Truncation.antt =====
-- Truncation of intervals to the integral types: verifiers/prevail/src/crab/interval.hpp.
use linux_dev_env.Base.{
  ◌≡◌, refl, ◌∙◌, sym, ap, Bool, true, false, ◌||◌, Option, none, some, if◌then◌else◌, arith,
}
use linux_dev_env.Base.Int
use linux_dev_env.Base.Int.{
  ℤ, pos, negsuc, neg_part, pos_part, ◌+ℤ◌, ◌-ℤ◌, int_laws, neg_parts, ◌≤ℤ◌, leb_ℤ,
}
use linux_dev_env.Outcome.{Result, ok}
use linux_dev_env.Outcome.Inversion.{if-returns}
use linux_dev_env.Number.{CppInt, Integral, highest, wrap, fits}
use linux_dev_env.Number.Laws.{IsMachine, wrap_between, wrap_bounded, wrap_lem, truncate_to_lem}
use linux_dev_env.Bound
use linux_dev_env.Bound.{Bound, finite, number}
use linux_dev_env.Bound.Order.{
  at_least, at_most, finite-IsNormal, finite-at_least, finite-at_most, at_least-finite,
  at_most-finite,
}
use linux_dev_env.Interval.{Interval, range, finite_size}
use linux_dev_env.Interval.Width.{full, truncate_bounds, truncate}
use linux_dev_env.Interval.Lattice.{Has, IsValid, le-Has, Has-interval_t, interval_t-IsValid}
use linux_dev_env.Interval.Inclusion.{IsProper}

pub range-Has : (a b z : ℤ) → a ≤ℤ z → z ≤ℤ b → Has (range a b) z
range-Has a b z h k =
    (Has-interval_t _ _ z (finite-IsNormal a) (finite-IsNormal b)).1
      (finite-at_least a z h, finite-at_most z b k)

full-IsValid : (t : Integral) → IsValid (full t)
unfolding full
full-IsValid t = interval_t-IsValid _ _ (finite-IsNormal _) (finite-IsNormal _)

le_of_leb : (a b : ℤ) → leb_ℤ a b ≡ true → a ≤ℤ b
le_of_leb a b h = ground arith

fits_le : (t : Integral) (s : ℤ) → fits t s ≡ true → s ≤ℤ highest t
unfolding fits
fits_le t s h = ground arith

module _ {t : Integral} (m : IsMachine t) where
  full-Has : (z : ℤ) → Has (full t) (wrap t z)
  unfolding full
  full-Has z = range-Has _ _ _ (wrap_bounded m z).0 (wrap_bounded m z).1

  Has-full : (z : ℤ) → Has (full t) z → wrap t z ≡ z
  unfolding full
  Has-full z h =
      let (low, high) = (Has-interval_t _ _ z (finite-IsNormal _) (finite-IsNormal _)).0 h in
      wrap_lem m z (at_least-finite _ z low) (at_most-finite z _ high)

sum_neg : (a b : ℤ) → a +ℤ Int.neg b ≡ a -ℤ b
sum_neg a b = omega int_laws

-- The size of an interval with no infinity on the wrong side.
finite_size_lem :
    (i : Interval)
    → IsProper i
    → finite_size i
      ≡ ok (if i.ub.is_infinite || i.lb.is_infinite then none else some (i.ub.n -ℤ i.lb.n))
unfolding finite_size Bound.sub Bound.add Bound.neg number
finite_size_lem i p = ground (arith, p.lower, p.upper, sum_neg i.ub.n i.lb.n, neg_parts i.lb.n)

module _ (cpp : CppInt) {t : Integral} (m : IsMachine t) (i : Interval) (z : ℤ) (p : IsProper i)
    (h : Has i z) where
  abbrev Returns : Result Interval → Type 0
  Returns r = (j : Interval) × (r ≡ ok j) × Has j (wrap t z)

  wrapped_Has :
      (l u : ℤ)
      → i.lb ≡ finite l
      → i.ub ≡ finite u
      → (u -ℤ l) ≤ℤ highest t
      → (c : Bool) → leb_ℤ (wrap t l) (wrap t u) ≡ c
      → Has (if c then range (wrap t l) (wrap t u) else full t) (wrap t z)
  wrapped_Has l u e f s false o = full-Has m z
  wrapped_Has l u e f s true o =
      let inside =
        wrap_between m l z u (at_least-finite l z (sym (ap (λ b. at_least b z) e) ∙ h.0))
          (at_most-finite z u (sym (ap (λ b. at_most b z) f) ∙ h.1)) s
          (le_of_leb (wrap t l) (wrap t u) o) in
      range-Has _ _ _ inside.0 inside.1

  truncate_bounds_Has :
      (l u : ℤ)
      → i.lb ≡ finite l
      → i.ub ≡ finite u
      → (u -ℤ l) ≤ℤ highest t
      → Returns (truncate_bounds cpp t i)
  unfolding truncate_bounds number
  truncate_bounds_Has l u e f s = rw e (
      rw f (
        rw (truncate_to_lem cpp t l)
          (rw (truncate_to_lem cpp t u) (_, refl, wrapped_Has l u e f s _ refl))))

  sized_Has :
      (size : Option ℤ)
      → size ≡ (if i.ub.is_infinite || i.lb.is_infinite then none else some (i.ub.n -ℤ i.lb.n))
      → Returns (elim size [
        | none ↦ ok (full t)
        | some s ↦ if fits t s then truncate_bounds cpp t i else ok (full t)
      ])
  sized_Has none e = (full t, refl, full-Has m z)
  sized_Has (some s) e =
      if-returns (fits t s) _ _
        (λ f.
          truncate_bounds_Has i.lb.n i.ub.n (ground arith) (ground arith)
            (ground (arith, fits_le t s f)))
        (λ f. (full t, refl, full-Has m z))

  -- Where an interval with no infinity on the wrong side has a number, truncating it to an integral
  -- type of the machine throws nothing and gives an interval with the number's value in that type.
  pub Has-truncate : (j : Interval) × (truncate cpp t i ≡ ok j) × Has j (wrap t z)
  unfolding truncate
  Has-truncate =
      if-returns _ (ok i) _
        (λ e. (i, refl, rw (Has-full m z (le-Has i (full t) z p.valid (full-IsValid t) e h)) h))
        (λ e. rw (finite_size_lem i p) (sized_Has _ refl))

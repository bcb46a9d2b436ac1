-- ===== src/Interval/Arithmetic.antt =====
-- Sums, differences and negatives of intervals: verifiers/prevail/src/crab/interval.hpp.
use linux_dev_env.Base.{◌≡◌, ◌↔◌, refl, ◌∙◌, inl, inr, true, false, ◌||◌, Bool-cases, arith}
use linux_dev_env.Base.Int
use linux_dev_env.Base.Int.{ℤ, pos, negsuc, ◌+ℤ◌, ◌-ℤ◌, int_laws}
use linux_dev_env.Outcome.{Result, ok}
use linux_dev_env.Bound
use linux_dev_env.Bound.{Bound}
use linux_dev_env.Bound.Order.{IsNormal, at_least, at_most, finite-IsNormal}
use linux_dev_env.Bound.Arithmetic.{
  IsLower, IsUpper, sum, add_lower, add_upper, sum-IsLower, sum-IsUpper, at_least-sum, at_most-sum,
  neg-IsLower, neg-IsUpper, at_least-neg, at_most-neg, sub_lem,
}
use linux_dev_env.Interval.{Interval, bottom, is_bottom, interval_t, add, sub, neg}
use linux_dev_env.Interval.Lattice.{Has, IsValid, Has-not_bottom, bottom_empty, Has-interval_t}
use linux_dev_env.Interval.Inclusion.{IsProper}

pub IsLower-IsNormal : (b : Bound) → IsLower b → IsNormal b
IsLower-IsNormal b p = record { unit = λ e. inr (p.unit e) }

pub IsUpper-IsNormal : (b : Bound) → IsUpper b → IsNormal b
IsUpper-IsNormal b p = record { unit = λ e. inl (p.unit e) }

pub lower : (i : Interval) → IsProper i → IsLower i.lb
lower i p = record { unit = p.lower }

pub upper : (i : Interval) → IsProper i → IsUpper i.ub
upper i p = record { unit = p.upper }

pub bottom-IsProper : IsProper bottom
bottom-IsProper = record {
  valid = record { lb = finite-IsNormal _; ub = finite-IsNormal _ };
  lower = λ e. cc;
  upper = λ e. cc;
}

-- The interval of a lower and an upper bound.
pub interval_t-IsProper : (l u : Bound) → IsLower l → IsUpper u → IsProper (interval_t l u)
unfolding interval_t
interval_t-IsProper l u p q = elim (Bool-cases (Bound.gt l u)) [
  | inl e ↦ rw e bottom-IsProper
  | inr e ↦ rw e (record {
    valid = record { lb = IsLower-IsNormal l p; ub = IsUpper-IsNormal u q };
    lower = p.unit;
    upper = q.unit;
  })
]

pub Has-of_bounds :
    (l u : Bound) (z : ℤ)
    → IsLower l
    → IsUpper u
    → at_least l z ≡ true
    → at_most u z ≡ true
    → Has (interval_t l u) z
Has-of_bounds l u z p q h k =
    (Has-interval_t l u z (IsLower-IsNormal l p) (IsUpper-IsNormal u q)).1 (h, k)

-- What a result says of the numbers of two intervals, for an operation on numbers.
pub record Covers (f : ℤ → ℤ → ℤ) (i x : Interval) (r : Result Interval) : Type 0 where
  pub interval : Interval
  pub returned : r ≡ ok interval
  pub proper : IsProper interval
  pub covered : (a b : ℤ) → Has i a → Has x b → Has interval (f a b)

empty_Has : (i : Interval) (z : ℤ) {A : Type 0} → IsValid i → is_bottom i ≡ true → Has i z → A
empty_Has i z v e h = absurd (ground (arith, Has-not_bottom i z v h))

module _ (i x : Interval) (p : IsProper i) (q : IsProper x) where
  Covers_of_empty : (f : ℤ → ℤ → ℤ) → (is_bottom i || is_bottom x) ≡ true → Covers f i x (ok bottom)
  Covers_of_empty f e = record {
    interval = bottom;
    returned = refl;
    proper = bottom-IsProper;
    covered = λ a b h k.
        absurd (ground (arith, Has-not_bottom i a p.valid h, Has-not_bottom x b q.valid k));
  }

  add_full :
      (is_bottom i || is_bottom x) ≡ false
      → add i x ≡ ok (interval_t (sum i.lb x.lb) (sum i.ub x.ub))
  unfolding add
  add_full e = rw e (
      rw (add_lower i.lb x.lb (lower i p) (lower x q))
        (rw (add_upper i.ub x.ub (upper i p) (upper x q)) refl))

  -- The sum of two intervals has no error and has the sums of their numbers.
  pub add-Covers : Covers ◌+ℤ◌ i x (add i x)
  unfolding add
  add-Covers = elim (Bool-cases (is_bottom i || is_bottom x)) [
    | inl e ↦ rw e (Covers_of_empty ◌+ℤ◌ e)
    | inr e ↦ record {
      interval = interval_t (sum i.lb x.lb) (sum i.ub x.ub);
      returned = add_full e;
      proper =
          interval_t-IsProper _ _ (sum-IsLower _ _ (lower i p) (lower x q))
            (sum-IsUpper _ _ (upper i p) (upper x q));
      covered = λ a b h k.
          Has-of_bounds _ _ _ (sum-IsLower _ _ (lower i p) (lower x q))
            (sum-IsUpper _ _ (upper i p) (upper x q))
            (at_least-sum i.lb x.lb a b (lower i p) (lower x q) h.0 k.0)
            (at_most-sum i.ub x.ub a b (upper i p) (upper x q) h.1 k.1);
    }
  ]

  negated-IsLower : IsLower (Bound.neg x.ub)
  negated-IsLower = neg-IsLower x.ub (upper x q)

  negated-IsUpper : IsUpper (Bound.neg x.lb)
  negated-IsUpper = neg-IsUpper x.lb (lower x q)

  sub_full :
      (is_bottom i || is_bottom x) ≡ false
      → sub i x ≡ ok (interval_t (sum i.lb (Bound.neg x.ub)) (sum i.ub (Bound.neg x.lb)))
  unfolding sub
  sub_full e = rw e (
      rw (sub_lem i.lb x.ub) (
        rw (sub_lem i.ub x.lb) (
          rw (add_lower i.lb _ (lower i p) negated-IsLower)
            (rw (add_upper i.ub _ (upper i p) negated-IsUpper) refl))))

  sub_ℤ_lem : (a b : ℤ) → a -ℤ b ≡ a +ℤ Int.neg b
  sub_ℤ_lem a b = omega int_laws

  -- The difference of two intervals has no error and has the differences of their numbers.
  pub sub-Covers : Covers ◌-ℤ◌ i x (sub i x)
  unfolding sub
  sub-Covers = elim (Bool-cases (is_bottom i || is_bottom x)) [
    | inl e ↦ rw e (Covers_of_empty ◌-ℤ◌ e)
    | inr e ↦ record {
      interval = interval_t (sum i.lb (Bound.neg x.ub)) (sum i.ub (Bound.neg x.lb));
      returned = sub_full e;
      proper =
          interval_t-IsProper _ _ (sum-IsLower _ _ (lower i p) negated-IsLower)
            (sum-IsUpper _ _ (upper i p) negated-IsUpper);
      covered = λ a b h k. rw (sub_ℤ_lem a b) (
          Has-of_bounds _ _ _ (sum-IsLower _ _ (lower i p) negated-IsLower)
            (sum-IsUpper _ _ (upper i p) negated-IsUpper)
            (at_least-sum i.lb _ a (Int.neg b) (lower i p) negated-IsLower h.0
              (at_least-neg x.ub b (upper x q) ∙ k.1))
            (at_most-sum i.ub _ a (Int.neg b) (upper i p) negated-IsUpper h.1
              (at_most-neg x.lb b (lower x q) ∙ k.0)));
    }
  ]

  module _ (a b : ℤ) (h : Has i a) (k : Has x b) where
    -- Where two intervals with no infinity on the wrong side have the numbers a and b, adding and
    -- subtracting them throws nothing, and the results have a + b and a - b and no infinity on the
    -- wrong side.
    pub Has-add-sub :
        ((r : Interval) × (add i x ≡ ok r) × (IsProper r × Has r (a +ℤ b)))
        × ((r : Interval) × (sub i x ≡ ok r) × (IsProper r × Has r (a -ℤ b)))
    Has-add-sub = (
      (add-Covers.interval, add-Covers.returned, (add-Covers.proper, add-Covers.covered a b h k)),
      (sub-Covers.interval, sub-Covers.returned, (sub-Covers.proper, sub-Covers.covered a b h k)),
    )

-- The negative of an interval has the negative of a number exactly when the interval has the number.
pub Has-neg : (i : Interval) (z : ℤ) → IsProper i → Has (neg i) (Int.neg z) ↔ Has i z
unfolding neg
Has-neg i z p =
    let made =
      Has-interval_t (Bound.neg i.ub) (Bound.neg i.lb) (Int.neg z)
        (IsLower-IsNormal _ (neg-IsLower i.ub (upper i p)))
        (IsUpper-IsNormal _ (neg-IsUpper i.lb (lower i p))) in
    (
      λ h. ground (
        arith,
        h,
        made.0,
        bottom_empty (Int.neg z),
        at_least-neg i.ub z (upper i p),
        at_most-neg i.lb z (lower i p),
      ),
      λ h. ground (
        arith,
        h,
        made.1,
        Has-not_bottom i z p.valid,
        at_least-neg i.ub z (upper i p),
        at_most-neg i.lb z (lower i p),
      ),
    )

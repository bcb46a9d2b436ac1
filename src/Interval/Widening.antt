-- ===== src/Interval/Widening.antt =====
-- Widening and narrowing: verifiers/prevail/src/crab/interval.hpp.
use linux_dev_env.Base.{
  ℕ, ◌+◌, ◌≤◌, ◌<◌, ◌≡◌, ◌⊎◌, inl, inr, true, false, if◌then◌else◌, Bool-cases, List, [], ◌∷◌,
  arith,
}
use linux_dev_env.Base.Int.{ℤ}
use linux_dev_env.Bound
use linux_dev_env.Bound.{Bound, plus_infinity, minus_infinity}
use linux_dev_env.Bound.Order.{IsNormal, at_least, at_most}
use linux_dev_env.Interval.{Interval, is_bottom, eq, widen, interval_t}
use linux_dev_env.Interval.Lattice.{Has, IsValid, Has-not_bottom, Has-interval_t}
use linux_dev_env.Interval.Inclusion.{IsProper}

-- The bounds that widening keeps or gives up.
widen_lb : Interval → Interval → Bound
widen_lb i x = if Bound.lt x.lb i.lb then minus_infinity else i.lb

widen_ub : Interval → Interval → Bound
widen_ub i x = if Bound.lt i.ub x.ub then plus_infinity else i.ub

module _ (i x : Interval) (v : IsValid i) (w : IsValid x) where
  widen_lb-IsNormal : IsNormal (widen_lb i x)
  unfolding widen_lb
  widen_lb-IsNormal = record { unit = ground (arith, v.lb.unit) }

  widen_ub-IsNormal : IsNormal (widen_ub i x)
  unfolding widen_ub
  widen_ub-IsNormal = record { unit = ground (arith, v.ub.unit) }

  at_least-widen_lb :
      (z : ℤ)
      → (at_least i.lb z ≡ true) ⊎ (at_least x.lb z ≡ true)
      → at_least (widen_lb i x) z ≡ true
  unfolding widen_lb at_least Bound.lt Bound.ge
  at_least-widen_lb z h = ground (arith, v.lb.unit, w.lb.unit)

  at_most-widen_ub :
      (z : ℤ) → (at_most i.ub z ≡ true) ⊎ (at_most x.ub z ≡ true) → at_most (widen_ub i x) z ≡ true
  unfolding widen_ub at_most Bound.lt Bound.ge
  at_most-widen_ub z h = ground (arith, v.ub.unit, w.ub.unit)

  -- The widening of two intervals has the numbers of both.
  Has-widen : (z : ℤ) → Has i z ⊎ Has x z → Has (widen i x) z
  unfolding widen widen_lb widen_ub
  Has-widen z h = ground (
    arith,
    Has-not_bottom i z v,
    Has-not_bottom x z w,
    (Has-interval_t (widen_lb i x) (widen_ub i x) z widen_lb-IsNormal widen_ub-IsNormal).1,
    at_least-widen_lb z,
    at_most-widen_ub z,
  )

-- How often a widening can still change an interval: once from the empty one, and once for each
-- bound that is finite.
finite_bound : Bound → ℕ
finite_bound b = if b.is_infinite then 0 else 1

unfoldable pub steps : Interval → ℕ
unfolding is_bottom finite_bound
steps i = if is_bottom i then 3 else finite_bound i.lb + finite_bound i.ub

-- The runs of a fixpoint loop: each turn widens the interval so far by the next one.
unfoldable pub changes : Interval → List Interval → ℕ
unfolding widen eq
changes i [] = 0
changes i (x ∷ xs) =
    (let w = widen i x in let rest = changes w xs in if eq i w then rest else 1 + rest)

module _ (i x : Interval) (p : IsProper i) (q : IsProper x) where
  widen_lb_le_ub : is_bottom i ≡ false → Bound.gt (widen_lb i x) (widen_ub i x) ≡ false
  unfolding is_bottom widen_lb widen_ub Bound.gt Bound.le
  widen_lb_le_ub h = ground (arith, p.lower, p.upper, p.valid.lb.unit, p.valid.ub.unit)

  widen-not_bottom :
      is_bottom i ≡ false
      → is_bottom x ≡ false
      → widen i x ≡ record { lb = widen_lb i x; ub = widen_ub i x }
  unfolding widen interval_t widen_lb widen_ub
  widen-not_bottom h k = ground (arith, h, k, widen_lb_le_ub h)

  widen-left_bottom : is_bottom i ≡ true → widen i x ≡ x
  unfolding widen
  widen-left_bottom h = rw h (λ _. x)

  widen-right_bottom : is_bottom i ≡ false → is_bottom x ≡ true → widen i x ≡ i
  unfolding widen
  widen-right_bottom h k = rw h (rw k (λ _. i))

  ends-IsProper : IsProper (record { lb = widen_lb i x; ub = widen_ub i x })
  unfolding widen_lb widen_ub
  ends-IsProper = record {
    valid = record {
      lb = widen_lb-IsNormal i x p.valid q.valid;
      ub = widen_ub-IsNormal i x p.valid q.valid;
    };
    lower = ground (arith, p.lower);
    upper = ground (arith, p.upper);
  }

  widen-IsProper : IsProper (widen i x)
  widen-IsProper = elim (Bool-cases (is_bottom i)) [
    | inl e ↦ rw (widen-left_bottom e) q
    | inr e ↦ elim (Bool-cases (is_bottom x)) [
      | inl f ↦ rw (widen-right_bottom e f) p
      | inr f ↦ rw (widen-not_bottom e f) ends-IsProper
    ]
  ]

  eq_refl : eq i i ≡ true
  unfolding eq is_bottom Bound.eq
  eq_refl = ground arith

  steps_of_ends :
      is_bottom i ≡ false
      → (eq i (record { lb = widen_lb i x; ub = widen_ub i x }) ≡ true)
        ⊎ (steps (record { lb = widen_lb i x; ub = widen_ub i x }) < steps i)
  unfolding steps finite_bound eq is_bottom Bound.eq widen_lb widen_ub
  steps_of_ends e = ground (arith, e, widen_lb_le_ub e)

  eq_of_bottoms : is_bottom i ≡ true → is_bottom x ≡ true → eq i x ≡ true
  unfolding eq
  eq_of_bottoms e f = rw e f

  steps_of_bottom : is_bottom i ≡ true → is_bottom x ≡ false → steps x < steps i
  unfolding steps finite_bound
  steps_of_bottom e f = ground (arith, e, f)

  eq-steps : eq i x ≡ true → steps x ≤ steps i
  unfolding steps finite_bound eq is_bottom Bound.gt Bound.le Bound.eq
  eq-steps h = ground arith

  widen-steps : (eq i (widen i x) ≡ true) ⊎ (steps (widen i x) < steps i)
  widen-steps = elim (Bool-cases (is_bottom i)) [
    | inl e ↦ rw (widen-left_bottom e) (elim (Bool-cases (is_bottom x)) [
      | inl f ↦ inl (eq_of_bottoms e f)
      | inr f ↦ inr (steps_of_bottom e f)
    ])
    | inr e ↦ elim (Bool-cases (is_bottom x)) [
      | inl f ↦ rw (widen-right_bottom e f) (inl eq_refl)
      | inr f ↦ rw (widen-not_bottom e f) (steps_of_ends e)
    ]
  ]

steps_le : (i : Interval) → steps i ≤ 3
unfolding steps finite_bound
steps_le i = ground arith

abbrev pub AllProper : List Interval → Type 0
AllProper [] = Unit
AllProper (x ∷ xs) = IsProper x × AllProper xs

changes_le_steps :
    (i : Interval) (xs : List Interval) → IsProper i → AllProper xs → changes i xs ≤ steps i
unfolding changes
changes_le_steps i [] p ps = omega arith
changes_le_steps i (x ∷ xs) p (q, qs) =
    let again = changes_le_steps (widen i x) xs (widen-IsProper i x p q) qs in
    ground (arith, again, widen-steps i x p q, eq-steps i (widen i x) p (widen-IsProper i x p q))

-- A chain of widenings by intervals with no infinity on the wrong side changes the interval three
-- times at most.
pub changes_le : (i : Interval) (xs : List Interval) → IsProper i → AllProper xs → changes i xs ≤ 3
changes_le i xs p ps = omega (arith, changes_le_steps i xs p ps, steps_le i)

-- ===== src/Interval/Remainder/Signed.antt =====
-- SRem on intervals: verifiers/prevail/src/crab/interval.cpp.
use linux_dev_env.Base.{
  ℕ, suc, ◌≡◌, ◌≢◌, refl, sym, ◌∙◌, ap, ◌⊎◌, inl, inr, true, false, ◌||◌, none, some, if◌then◌else◌,
  Bool-cases, Option-cases, arith,
}
use linux_dev_env.Base.Int.{ℤ, pos, negsuc, ◌≤ℤ◌, eqb_ℤ, eq_of_parts}
use linux_dev_env.Number.{CppInt, truncated_remainder, rem}
use linux_dev_env.Outcome.{ok, ◌>>=◌}
use linux_dev_env.Bound.{finite}
use linux_dev_env.Bound.Order.{finite-at_least, finite-at_most}
use linux_dev_env.Bound.Arithmetic.{IsLower, IsUpper}
use linux_dev_env.Interval.Division.{on_parts}
use linux_dev_env.Interval.Division.Ending.{negative_part, positive_part}
use linux_dev_env.Interval.{
  Interval, bottom, interval_t, contains, is_bottom, join, singleton, singleton_of,
}
use linux_dev_env.Interval.Lattice.{
  Has, IsValid, Has-not_bottom, Has-join, join-IsValid, contains_iff,
}
use linux_dev_env.Interval.Shift.{singleton_of-IsValid, singleton_of-Has, singleton-Has}
use linux_dev_env.Interval.Arithmetic.{
  bottom-IsProper, interval_t-IsProper, lower, upper, Has-of_bounds,
}
use linux_dev_env.Interval.Inclusion.{IsProper}
use linux_dev_env.Interval.Remainder.{both_singletons, srem}
use linux_dev_env.Interval.Remainder.Soundness.{Returned, srem_nonzero_returns}

-- The remainder of the instruction set: the dividend itself if the divisor is 0.
abbrev pub srem_value : ℤ → ℤ → ℤ
srem_value a b = if eqb_ℤ b (pos 0) then a else truncated_remainder a b

rem_lem :
    (cpp : CppInt) (a b : ℤ) → eqb_ℤ b (pos 0) ≡ false → rem cpp a b ≡ ok (truncated_remainder a b)
unfolding rem
rem_lem cpp a b e = rw e (ap ok (cpp.remainder_lem a b (nonzero b e)))
  where
    nonzero : (b : ℤ) → eqb_ℤ b (pos 0) ≡ false → b ≢ pos 0
    nonzero b e f = ground arith

singleton_of_eq : (c v : ℤ) → c ≡ v → Has (singleton_of c) v
singleton_of_eq c v e = rw e (singleton_of-Has v)

srem_value_lem : (a b : ℤ) → eqb_ℤ b (pos 0) ≡ false → srem_value a b ≡ truncated_remainder a b
srem_value_lem a b e = rw e refl

srem_value_zero : (a b : ℤ) → eqb_ℤ b (pos 0) ≡ true → srem_value a b ≡ a
srem_value_zero a b e = rw e refl

not_zero :
    (x : Interval) (b : ℤ)
    → IsValid x
    → contains x (pos 0) ≡ false
    → Has x b
    → eqb_ℤ b (pos 0) ≡ false
not_zero x b v e k = ground (arith, e, (contains_iff x (pos 0) v).1, eq_of_parts b (pos 0))

both_singletons_parts :
    (i x : Interval) (c d : ℤ)
    → both_singletons i x ≡ some (c, d)
    → (singleton i ≡ some c) × (singleton x ≡ some d)
both_singletons_parts i x c d e = ground (arith, e)

module _ (cpp : CppInt) (i x : Interval) (a b : ℤ) (p : IsProper i) (q : IsProper x) where
  empty_returns :
      (is_bottom i || is_bottom x) ≡ true
      → Returned (ok bottom) (Has i a × Has x b) (srem_value a b)
  empty_returns e = (
    bottom,
    refl,
    bottom-IsProper.valid,
    λ hk.
        absurd
          (ground (arith, e, Has-not_bottom i a p.valid hk.0, Has-not_bottom x b q.valid hk.1)),
  )

  -- The case of two singletons.
  singletons_return :
      (c d : ℤ)
      → both_singletons i x ≡ some (c, d)
      → Returned
          (if eqb_ℤ d (pos 0)
            then ok (singleton_of c)
            else (rem cpp c d >>= λ r. ok (singleton_of r)))
          (Has i a × Has x b)
          (srem_value a b)
  singletons_return c d e =
      let (f, g) = both_singletons_parts i x c d e in
      let same = λ (k : Has x b). sym (ap (λ y. eqb_ℤ y (pos 0)) (singleton-Has x b d g k)) in
      elim (Bool-cases (eqb_ℤ d (pos 0))) [
        | inl t ↦ rw t (
          _,
          refl,
          singleton_of-IsValid c,
          λ hk.
              singleton_of_eq c _
                (singleton-Has i a c f hk.0 ∙ sym (srem_value_zero a b (same hk.1 ∙ t))),
        )
        | inr t ↦ rw t (
            rw (rem_lem cpp c d t) (
              _,
              refl,
              singleton_of-IsValid _,
              λ hk. singleton_of_eq _ _ (
                  ap (λ y. truncated_remainder y d) (singleton-Has i a c f hk.0)
                  ∙ (ap (truncated_remainder a) (singleton-Has x b d g hk.1)
                      ∙ sym (srem_value_lem a b (same hk.1 ∙ t)))),
            ))
      ]

  nonzero_divisor_returns :
      (more : ℕ)
      → contains x (pos 0) ≡ false
      → Returned (srem cpp (suc more) i x) (Has i a × Has x b) (srem_value a b)
  unfolding srem
  nonzero_divisor_returns more e = elim (Bool-cases (is_bottom i || is_bottom x)) [
    | inl f ↦ rw (srem, f) (empty_returns f)
    | inr f ↦
        rw (srem, f)
          (elim (Option-cases (both_singletons i x)) [
            | inl g ↦
                rw (g, e)
                  (let (j, r, v, k) = srem_nonzero_returns i x a b p q e in
                    (j, r, v, λ hk. rw (srem_value_lem a b (not_zero x b q.valid e hk.1)) (k hk)))
            | inr ((c, d), g) ↦ rw g (singletons_return c d g)
          ])
  ]

sign_cases : (b : ℤ) → (eqb_ℤ b (pos 0) ≡ true) ⊎ ((b ≤ℤ negsuc 0) ⊎ (pos 1 ≤ℤ b))
sign_cases b = ground arith

finite-IsUpper : (n : ℤ) → IsUpper (finite n)
finite-IsUpper n = record { unit = λ e. cc }

finite-IsLower : (n : ℤ) → IsLower (finite n)
finite-IsLower n = record { unit = λ e. cc }

-- The parts of a divisor below and above 0.
module _ (x : Interval) (q : IsProper x) where
  below_zero : Interval
  below_zero = interval_t x.lb (finite (negsuc 0))

  above_zero : Interval
  above_zero = interval_t (finite (pos 1)) x.ub

  below_zero-IsProper : IsProper below_zero
  unfolding below_zero
  below_zero-IsProper = interval_t-IsProper _ _ (lower x q) (finite-IsUpper _)

  above_zero-IsProper : IsProper above_zero
  unfolding above_zero
  above_zero-IsProper = interval_t-IsProper _ _ (finite-IsLower _) (upper x q)

  Has-below_zero : (b : ℤ) → Has x b → b ≤ℤ negsuc 0 → Has below_zero b
  unfolding below_zero
  Has-below_zero b k s =
      Has-of_bounds _ _ b (lower x q) (finite-IsUpper _) k.0 (finite-at_most b _ s)

  Has-above_zero : (b : ℤ) → Has x b → pos 1 ≤ℤ b → Has above_zero b
  unfolding above_zero
  Has-above_zero b k s =
      Has-of_bounds _ _ b (finite-IsLower _) (upper x q) (finite-at_least _ b s) k.1

module _ (cpp : CppInt) (i x : Interval) (a b : ℤ) (p : IsProper i) (q : IsProper x) (h : Has i a)
    (k : Has x b) where
  part_returns :
      (more : ℕ) (y : Interval)
      → IsProper y
      → contains y (pos 0) ≡ false
      → Returned (srem cpp (suc more) i y) (Has i a × Has y b) (srem_value a b)
  part_returns more y r e = nonzero_divisor_returns cpp i y a b p r more e

  parts_return :
      (more : ℕ)
      → (r : Interval) × (on_parts (srem cpp (suc more) i) x i ≡ ok r) × Has r (srem_value a b)
  unfolding below_zero above_zero
  parts_return more =
      let (l, el, vl, kl) =
        part_returns more (below_zero x q) (below_zero-IsProper x q) (negative_part x.lb) in
      let (u, eu, vu, ku) =
        part_returns more (above_zero x q) (above_zero-IsProper x q) (positive_part x.ub) in
      let both = join-IsValid l u vl vu in
      rw el (
        rw eu (
          _,
          refl,
          elim (sign_cases b) [
            | inl z ↦ Has-join (join l u) i _ both p.valid (inr (rw (srem_value_zero a b z) h))
            | inr (inl n) ↦
                Has-join (join l u) i _ both p.valid
                  (inl (Has-join l u _ vl vu (inl (kl (h, Has-below_zero x q b k n)))))
            | inr (inr n) ↦
                Has-join (join l u) i _ both p.valid
                  (inl (Has-join l u _ vl vu (inr (ku (h, Has-above_zero x q b k n)))))
          ],
        ))

  split_lem :
      (fuel : ℕ)
      → both_singletons i x ≡ none
      → contains x (pos 0) ≡ true
      → srem cpp (suc fuel) i x ≡ on_parts (srem cpp fuel i) x i
  unfolding srem
  split_lem fuel g e =
      let full : (is_bottom i || is_bottom x) ≡ false =
        ground (arith, Has-not_bottom i a p.valid h, Has-not_bottom x b q.valid k) in
      rw (srem, full) (rw (g, e) refl)

  singletons_lem :
      (fuel : ℕ) (c d : ℤ)
      → both_singletons i x ≡ some (c, d)
      → srem cpp (suc fuel) i x ≡ (
          if eqb_ℤ d (pos 0)
          then ok (singleton_of c)
          else (rem cpp c d >>= λ r. ok (singleton_of r)))
  unfolding srem
  singletons_lem fuel c d g =
      let full : (is_bottom i || is_bottom x) ≡ false =
        ground (arith, Has-not_bottom i a p.valid h, Has-not_bottom x b q.valid k) in
      rw (srem, full) (rw g refl)

  -- Where two intervals with no infinity on the wrong side have the numbers a and b, the signed
  -- remainder of the intervals, with a fuel of two or more, is an interval and no error, and has the
  -- remainder of a by b, which is a itself where b is 0.
  pub Has-srem :
      (more : ℕ) → (r : Interval) × (srem cpp (suc (suc more)) i x ≡ ok r) × Has r (srem_value a b)
  Has-srem more = elim (Option-cases (both_singletons i x)) [
    | inr ((c, d), g) ↦
        (let (r, e, v, kept) = singletons_return cpp i x a b p q c d g in
          (r, singletons_lem (suc more) c d g ∙ e, kept (h, k)))
    | inl g ↦ elim (Bool-cases (contains x (pos 0))) [
      | inl e ↦ (let (r, f, kept) = parts_return more in (r, split_lem (suc more) g e ∙ f, kept))
      | inr e ↦
          (let (r, f, v, kept) = nonzero_divisor_returns cpp i x a b p q (suc more) e in
            (r, f, kept (h, k)))
    ]
  ]

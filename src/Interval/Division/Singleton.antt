-- ===== src/Interval/Division/Singleton.antt =====
-- SDiv by a singleton: verifiers/prevail/src/crab/interval.cpp.
use linux_dev_env.Base.{
  ℕ, zero, suc, ◌<◌, ◌≡◌, ◌≢◌, refl, ◌∙◌, ap, true, false, some, if◌then◌else◌, Bool-cases, inl,
  inr, arith,
}
use linux_dev_env.Base.Int
use linux_dev_env.Base.Int.{
  ℤ, pos, negsuc, pos_part, neg_part, magnitude, ◌≤ℤ◌, ◌<ℤ◌, ltb_ℤ, eqb_ℤ, leb_ℤ,
}
use linux_dev_env.Base.Product.{div_le}
use linux_dev_env.Outcome.{ok}
use linux_dev_env.Number.{CppInt, sint, truncated_quotient, quot, fits_cast_to, fits, cast_to}
use linux_dev_env.Bound
use linux_dev_env.Bound.{Bound, finite, abs_div}
use linux_dev_env.Bound.Order.{at_least, at_most}
use linux_dev_env.Bound.Arithmetic.{IsLower, IsUpper}
use linux_dev_env.Interval.{Interval, bottom, interval_t, singleton_of, singleton, is_bottom, range}
use linux_dev_env.Interval.Lattice.{Has, Has-not_bottom}
use linux_dev_env.Interval.Inclusion.{IsProper}
use linux_dev_env.Interval.Arithmetic.{lower, upper, Has-of_bounds}
use linux_dev_env.Interval.Division.{sdiv_by, sdiv}

-- Truncated division by a positive number keeps the order.
quotient_mono :
    (a b : ℤ) (k : ℕ)
    → 0 < k
    → a ≤ℤ b
    → truncated_quotient a (pos k) ≤ℤ truncated_quotient b (pos k)
quotient_mono (pos m) (pos n) k h l = ground (arith, div_le m n k h)
quotient_mono (negsuc m) (pos n) k h l = ground arith
quotient_mono (pos m) (negsuc n) k h l = absurd (omega arith)
quotient_mono (negsuc m) (negsuc n) k h l = ground (arith, div_le (suc n) (suc m) k h)

nonzero_eqb : (c : ℤ) → c ≢ pos 0 → eqb_ℤ c (pos 0) ≡ false
nonzero_eqb (pos zero) h = absurd (h refl)
nonzero_eqb (pos (suc n)) h = ground arith
nonzero_eqb (negsuc n) h = ground arith

-- A bound divided by a number other than 0.
abbrev bound_quotient : Bound → ℤ → Bound
bound_quotient b c = if b.is_infinite then b else finite (truncated_quotient b.n c)

module _ (cpp : CppInt) where
  div_lem : (b : Bound) (c : ℤ) → c ≢ pos 0 → Bound.div cpp b (finite c) ≡ ok (bound_quotient b c)
  unfolding Bound.div abs_div quot
  div_lem b c h = rw (nonzero_eqb c h) (elim (Bool-cases b.is_infinite) [
    | inl e ↦ simp e
    | inr e ↦ simp (e, cpp.quotient_lem b.n c h)
  ])

singleton_of_lem : (c : ℤ) → singleton (singleton_of c) ≡ some c
unfolding singleton is_bottom Bound.gt Bound.le Bound.eq Bound.number
singleton_of_lem c = ground arith

singleton_of-full : (c : ℤ) → is_bottom (singleton_of c) ≡ false
unfolding is_bottom Bound.gt Bound.le
singleton_of-full c = ground arith

cast_lem :
    (c : ℤ)
    → fits (sint 64) c ≡ true
    → (fits_cast_to (sint 64) c ≡ true) × (cast_to (sint 64) c ≡ ok c)
unfolding fits_cast_to cast_to
cast_lem c h = (ground (arith, h), ground (arith, h))

module _ (cpp : CppInt) (fuel : ℕ) (i : Interval) (c : ℤ) (full : is_bottom i ≡ false)
    (nonzero : c ≢ pos 0) (other : eqb_ℤ c (pos 1) ≡ false) (small : fits (sint 64) c ≡ true) where
  sdiv_by_lem : sdiv_by cpp i c ≡ ok (interval_t (bound_quotient i.lb c) (bound_quotient i.ub c))
  unfolding sdiv_by
  sdiv_by_lem = rw other (
      rw (nonzero_eqb c nonzero)
        (rw (div_lem cpp i.lb c nonzero) (rw (div_lem cpp i.ub c nonzero) refl)))

  pub sdiv_singleton :
      sdiv cpp (suc fuel) i (singleton_of c)
      ≡ ok (interval_t (bound_quotient i.lb c) (bound_quotient i.ub c))
  unfolding sdiv interval_t
  sdiv_singleton =
      rw (sdiv, full)
        (rw (singleton_of-full c)
          (rw (singleton_of_lem c) (rw (cast_lem c small).0 (rw (cast_lem c small).1 sdiv_by_lem))))

-- The quotient of a limit is a limit of the quotients.
at_least-quotient :
    (b : Bound) (a : ℤ) (k : ℕ)
    → 0 < k
    → IsLower b
    → at_least b a ≡ true
    → at_least (bound_quotient b (pos k)) (truncated_quotient a (pos k)) ≡ true
unfolding at_least
at_least-quotient b a k h p l = ground (arith, p.unit, quotient_mono b.n a k h)

at_most-quotient :
    (b : Bound) (a : ℤ) (k : ℕ)
    → 0 < k
    → IsUpper b
    → at_most b a ≡ true
    → at_most (bound_quotient b (pos k)) (truncated_quotient a (pos k)) ≡ true
unfolding at_most
at_most-quotient b a k h p l = ground (arith, p.unit, quotient_mono a b.n k h)

quotient-IsLower : (b : Bound) (c : ℤ) → IsLower b → IsLower (bound_quotient b c)
quotient-IsLower b c p = record { unit = ground (arith, p.unit) }

quotient-IsUpper : (b : Bound) (c : ℤ) → IsUpper b → IsUpper (bound_quotient b c)
quotient-IsUpper b c p = record { unit = ground (arith, p.unit) }

quotient_one : (a : ℤ) → truncated_quotient a (pos 1) ≡ a
quotient_one a = ground arith

one_fits : fits (sint 64) (pos 1) ≡ true
unfolding fits Int.neg
one_fits = refl

sdiv_one :
    (cpp : CppInt) (fuel : ℕ) (i : Interval)
    → is_bottom i ≡ false
    → sdiv cpp (suc fuel) i (singleton_of (pos 1)) ≡ ok i
unfolding sdiv sdiv_by
sdiv_one cpp fuel i full =
    rw (sdiv, full)
      (rw (singleton_of-full (pos 1)) (
        rw (singleton_of_lem (pos 1))
          (rw (cast_lem (pos 1) one_fits).0 (rw (cast_lem (pos 1) one_fits).1 refl))))

-- Where an interval with no infinity on the wrong side has the number a, the signed division of the
-- interval by a positive number that an int64_t holds is an interval and no error, and has the
-- quotient of a by the number, rounded towards 0.
pub Has-sdiv :
    (cpp : CppInt) (fuel : ℕ) (i : Interval) (a : ℤ) (k : ℕ)
    → IsProper i
    → Has i a
    → 0 < k
    → fits (sint 64) (pos k) ≡ true
    → (r : Interval) × (sdiv cpp (suc fuel) i (singleton_of (pos k)) ≡ ok r)
      × Has r (truncated_quotient a (pos k))
Has-sdiv cpp fuel i a zero p h g small = absurd (omega arith)
Has-sdiv cpp fuel i a (suc zero) p h g small =
    (i, sdiv_one cpp fuel i (Has-not_bottom i a p.valid h), rw (quotient_one a) h)
Has-sdiv cpp fuel i a (suc (suc n)) p h g small = (
  _,
  sdiv_singleton cpp fuel i (pos (suc (suc n))) (Has-not_bottom i a p.valid h)
      (λ e. absurd (ground arith)) (ground arith) small,
  Has-of_bounds _ _ _ (quotient-IsLower i.lb (pos (suc (suc n))) (lower i p))
      (quotient-IsUpper i.ub (pos (suc (suc n))) (upper i p))
      (at_least-quotient i.lb a _ g (lower i p) h.0) (at_most-quotient i.ub a _ g (upper i p) h.1),
)

range_full : (l u : ℤ) → l ≤ℤ u → is_bottom (record { lb = finite l; ub = finite u }) ≡ false
unfolding is_bottom Bound.gt Bound.le
range_full l u h = ground arith

range_lem : (l u : ℤ) → l ≤ℤ u → range l u ≡ record { lb = finite l; ub = finite u }
unfolding interval_t Bound.gt Bound.le
range_lem l u h = ground arith

crossed_lem : (l u : ℤ) → u <ℤ l → interval_t (finite l) (finite u) ≡ bottom
unfolding interval_t Bound.gt Bound.le
crossed_lem l u h = ground arith

-- The signed division of an interval from l to u by a negative number c that an int64_t holds is
-- empty wherever u / c is less than l / c.
pub sdiv_negative :
    (cpp : CppInt) (fuel : ℕ) (l u c : ℤ)
    → l ≤ℤ u
    → c <ℤ pos 0
    → fits (sint 64) c ≡ true
    → truncated_quotient u c <ℤ truncated_quotient l c
    → sdiv cpp (suc fuel) (range l u) (singleton_of c) ≡ ok bottom
sdiv_negative cpp fuel l u c h neg small crossed =
    let i : Interval = record { lb = finite l; ub = finite u } in
    rw (range_lem l u h) (
      sdiv_singleton cpp fuel i c (range_full l u h) (λ e. absurd (ground arith)) (ground arith)
        small
      ∙ ap ok (crossed_lem (truncated_quotient l c) (truncated_quotient u c) crossed))

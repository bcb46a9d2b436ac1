-- ===== src/Interval/Remainder/Soundness.antt =====
-- The signed remainder of intervals has the remainders of their numbers:
-- verifiers/prevail/src/crab/interval.cpp.
use linux_dev_env.Base.{
  ◌<◌, ◌≡◌, ◌≢◌, refl, sym, ◌∙◌, ap, ◌⊎◌, inl, inr, Bool, true, false, ◌&&◌, if◌then◌else◌,
  Bool-cases, arith,
}
use linux_dev_env.Base.Int
use linux_dev_env.Base.Int.{
  ℤ, min_ℤ, max_ℤ, pos, negsuc, pos_part, neg_part, magnitude, ◌≤ℤ◌, ◌<ℤ◌, ◌-ℤ◌, ltb_ℤ, eqb_ℤ,
  eq_of_parts, int_laws,
}
use linux_dev_env.Number.{truncated_remainder, abs}
use linux_dev_env.Interval.Remainder.Numbers.{
  remainder_parts, remainder_small, keeps_not_negative, keeps_not_positive, remainder_le,
  le_remainder,
}
use linux_dev_env.Outcome.{Result, ok}
use linux_dev_env.Bound
use linux_dev_env.Bound.{Bound, finite}
use linux_dev_env.Bound.Order.{at_least, at_most, finite-IsNormal}
use linux_dev_env.Interval.{Interval, range, contains, is_bottom, join, singleton_of, pair_number}
use linux_dev_env.Interval.Lattice.{
  Has, IsValid, Has-join, join-IsValid, interval_t-IsValid, contains_iff,
}
use linux_dev_env.Interval.Shift.{singleton_of-IsValid, singleton_of-Has}
use linux_dev_env.Base.Product.{leb_total}
use linux_dev_env.Interval.Inclusion.{IsProper}
use linux_dev_env.Interval.Truncation.{range-Has}
use linux_dev_env.Interval.Remainder.{srem_within, srem_nonzero}

-- What the code's tests on bounds say of a number between them.
lt_finite : (u : Bound) (s a : ℤ) → Bound.lt u (finite s) ≡ true → at_most u a ≡ true → a <ℤ s
unfolding Bound.lt Bound.ge at_most
lt_finite u s a h k = ground arith

neg_lt_finite :
    (l : Bound) (s a : ℤ)
    → Bound.lt (Bound.neg l) (finite s) ≡ true
    → at_least l a ≡ true
    → Int.neg a <ℤ s
unfolding Bound.lt Bound.ge Bound.neg Int.neg at_least
neg_lt_finite l s a h k = ground arith

not_negative :
    (l : Bound) (a : ℤ) → Bound.lt l (finite (pos 0)) ≡ false → at_least l a ≡ true → pos 0 ≤ℤ a
unfolding Bound.lt Bound.ge at_least
not_negative l a h k = ground arith

not_positive :
    (u : Bound) (a : ℤ) → Bound.gt u (finite (pos 0)) ≡ false → at_most u a ≡ true → a ≤ℤ pos 0
unfolding Bound.gt Bound.le at_most
not_positive u a h k = ground arith

if-Has :
    (z : ℤ) (c : Bool) (j k : Interval)
    → (c ≡ true → Has j z)
    → (c ≡ false → Has k z)
    → Has (if c then j else k) z
if-Has z true j k f g = f refl
if-Has z false j k f g = g refl

module _ (i : Interval) (a b s l : ℤ) (h : Has i a) (n : b ≢ pos 0) (low : s ≤ℤ pos (magnitude b))
    (high : pos (magnitude b) ≤ℤ l) where
  -- The remainder is between the numbers of the code's ranges.
  above_least : Int.neg (l -ℤ pos 1) ≤ℤ truncated_remainder a b
  above_least = let p = remainder_parts a b n in omega (int_laws, p.0, p.1, p.2, high)

  below_greatest : truncated_remainder a b ≤ℤ (l -ℤ pos 1)
  below_greatest = let p = remainder_parts a b n in omega (int_laws, p.0, p.1, p.2, high)

  small :
      Bound.lt i.ub (finite s) ≡ true
      → Bound.lt (Bound.neg i.lb) (finite s) ≡ true
      → magnitude a < magnitude b
  unfolding Int.neg
  small e f = ground (arith, lt_finite i.ub s a e h.1, neg_lt_finite i.lb s a f h.0, low)

  srem_within-Has : Has (srem_within i s l) (truncated_remainder a b)
  unfolding srem_within
  srem_within-Has =
      if-Has _ (Bound.lt i.ub (finite s) && Bound.lt (Bound.neg i.lb) (finite s)) i _
        (λ e. rw (remainder_small a b (small (ground (arith, e)) (ground (arith, e)))) h)
        (λ e.
          if-Has _ (Bound.lt i.lb (finite (pos 0))) _ _
            (λ f.
              if-Has _ (Bound.gt i.ub (finite (pos 0))) _ _
                (λ g. range-Has _ _ _ above_least below_greatest)
                (λ g.
                  range-Has _ _ _ above_least
                    (keeps_not_positive a b n (not_positive i.ub a g h.1))))
            (λ f.
              range-Has _ _ _ (keeps_not_negative a b n (not_negative i.lb a f h.0))
                below_greatest))

if-IsValid : (c : Bool) (j k : Interval) → IsValid j → IsValid k → IsValid (if c then j else k)
if-IsValid true j k v w = v
if-IsValid false j k v w = w

range-IsValid : (a b : ℤ) → IsValid (range a b)
range-IsValid a b = interval_t-IsValid _ _ (finite-IsNormal a) (finite-IsNormal b)

srem_within-IsValid : (i : Interval) (s l : ℤ) → IsValid i → IsValid (srem_within i s l)
unfolding srem_within
srem_within-IsValid i s l v =
    if-IsValid (Bound.lt i.ub (finite s) && Bound.lt (Bound.neg i.lb) (finite s)) _ _ v (
      if-IsValid (Bound.lt i.lb (finite (pos 0))) _ _
        (if-IsValid (Bound.gt i.ub (finite (pos 0))) _ _ (range-IsValid _ _) (range-IsValid _ _))
        (range-IsValid _ _))

-- An interval has what is between two of its numbers.
between_Has : (j : Interval) (u z w : ℤ) → Has j u → Has j w → u ≤ℤ z → z ≤ℤ w → Has j z
unfolding at_least at_most
between_Has j u z w h k l m = (ground arith, ground arith)

-- A divisor that does not contain 0 has all its numbers on one side.
one_side :
    (x : Interval) (b : ℤ)
    → IsProper x
    → contains x (pos 0) ≡ false
    → Has x b
    → (pos 0 <ℤ x.lb.n × (x.lb.is_infinite ≡ false))
      ⊎ (x.ub.n <ℤ pos 0 × (x.ub.is_infinite ≡ false))
unfolding contains is_bottom Bound.gt Bound.le at_least at_most
one_side x b p e h = ground (arith, p.lower, p.upper)

-- A result that is an interval, and that has a number under a condition.
abbrev pub Returned : Result Interval → Type 0 → ℤ → Type 0
Returned r c z = (j : Interval) × (r ≡ ok j) × IsValid j × (c → Has j z)

module _ (i x : Interval) (a b : ℤ) (p : IsProper i) (q : IsProper x)
    (e : contains x (pos 0) ≡ false) where
  divisor_nonzero : Has x b → b ≢ pos 0
  divisor_nonzero k f = ground (
    arith,
    e,
    (contains_iff x (pos 0) q.valid).1
        (ap (at_least x.lb) (sym f) ∙ k.0, ap (at_most x.ub) (sym f) ∙ k.1),
  )

  least_le :
      Has x b
      → x.lb.is_infinite ≡ false
      → x.ub.is_infinite ≡ false
      → min_ℤ (abs x.lb.n) (abs x.ub.n) ≤ℤ pos (magnitude b)
  unfolding at_least at_most Int.neg
  least_le k f g = ground (arith, one_side x b q e k)

  le_greatest :
      Has x b
      → x.lb.is_infinite ≡ false
      → x.ub.is_infinite ≡ false
      → pos (magnitude b) ≤ℤ max_ℤ (abs x.lb.n) (abs x.ub.n)
  unfolding at_least at_most Int.neg
  le_greatest k f g = ground (arith, one_side x b q e k)

  with_zero_Has : Has i a → Has x b → Has (join i (singleton_of (pos 0))) (truncated_remainder a b)
  with_zero_Has h k =
      let n = divisor_nonzero k in
      let itself = Has-join i (singleton_of (pos 0)) a p.valid (singleton_of-IsValid _) (inl h) in
      let zero_too =
        Has-join i (singleton_of (pos 0)) (pos 0) p.valid (singleton_of-IsValid _)
          (inr (singleton_of-Has _)) in
      elim (leb_total (pos 0) a) [
        | inl c ↦
            between_Has _ _ _ a zero_too itself (keeps_not_negative a b n c) (remainder_le a b n c)
        | inr c ↦
            between_Has _ a _ _ itself zero_too (le_remainder a b n c) (keeps_not_positive a b n c)
      ]

  hull_lem :
      x.ub.is_infinite ≡ true ⊎ x.lb.is_infinite ≡ true
      → srem_nonzero i x ≡ ok (join i (singleton_of (pos 0)))
  unfolding srem_nonzero
  hull_lem f = ground arith

  within_lem :
      x.ub.is_infinite ≡ false
      → x.lb.is_infinite ≡ false
      → srem_nonzero i x
        ≡ ok (srem_within i (min_ℤ (abs x.lb.n) (abs x.ub.n)) (max_ℤ (abs x.lb.n) (abs x.ub.n)))
  unfolding srem_nonzero pair_number Bound.number
  within_lem f g = rw f (rw g refl)

  hull_returns :
      x.ub.is_infinite ≡ true ⊎ x.lb.is_infinite ≡ true
      → Returned (srem_nonzero i x) (Has i a × Has x b) (truncated_remainder a b)
  hull_returns f = (
    _,
    hull_lem f,
    join-IsValid i _ p.valid (singleton_of-IsValid _),
    λ hk. with_zero_Has hk.0 hk.1,
  )

  -- The last case of SRem returns an interval, which has the remainder.
  pub srem_nonzero_returns :
      Returned (srem_nonzero i x) (Has i a × Has x b) (truncated_remainder a b)
  srem_nonzero_returns = elim (Bool-cases x.ub.is_infinite) [
    | inl f ↦ hull_returns (inl f)
    | inr f ↦ elim (Bool-cases x.lb.is_infinite) [
      | inl g ↦ hull_returns (inr g)
      | inr g ↦ (
        _,
        within_lem f g,
        srem_within-IsValid i _ _ p.valid,
        λ hk.
            srem_within-Has i a b _ _ hk.0 (divisor_nonzero hk.1) (least_le hk.1 g f)
              (le_greatest hk.1 g f),
      )
    ]
  ]

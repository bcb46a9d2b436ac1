-- ===== src/Interval/Division/Ending.antt =====
-- When a recursion on fuel that splits intervals at 0 ends: verifiers/prevail/src/crab/interval.cpp.
use linux_dev_env.Base.{
  ℕ, String, suc, ◌≡◌, refl, inl, inr, Bool, true, false, if◌then◌else◌, Bool-cases, arith,
}
use linux_dev_env.Base.Int.{ℤ, pos, negsuc}
use linux_dev_env.Outcome.{Error, Result, ok, err, crab_message, out_of_fuel, ◌>>=◌}
use linux_dev_env.Number.{CppInt, Integral, cast_to, quot}
use linux_dev_env.Bound
use linux_dev_env.Bound.{Bound, finite, abs_div}
use linux_dev_env.Interval.{Interval, interval_t, contains, add, sub}
use linux_dev_env.Interval.Division.{
  on_parts, make_dividend_when_both_nonzero, quotients, divide_nonzero, div_by, sdiv_by, udiv_by,
}

-- The fuel did not run out.
unfoldable pub fuel_left : Error → Bool
fuel_left out_of_fuel = false
fuel_left e = true

unfoldable pub ends : {A : Type 0} → Result A → Bool
unfolding fuel_left
ends (ok a) = true
ends (err e) = fuel_left e

module _ {A B : Type 0} where
  pub >>=-ends :
      (r : Result A) (f : A → Result B)
      → ends r ≡ true
      → ((a : A) → ends (f a) ≡ true)
      → ends (r >>= f) ≡ true
  unfolding ends
  >>=-ends (ok a) f h k = k a
  >>=-ends (err e) f h k = h

module _ {A : Type 0} where
  pub if-ends :
      (c : Bool) (r s : Result A)
      → (c ≡ true → ends r ≡ true)
      → (c ≡ false → ends s ≡ true)
      → ends (if c then r else s) ≡ true
  if-ends true r s f g = f refl
  if-ends false r s f g = g refl

  pub ok-ends : (a : A) → ends (ok a) ≡ true
  unfolding ends
  ok-ends a = refl

pub err-ends : (A : Type 0) (m : String) → ends {A = A} (err (crab_message m)) ≡ true
unfolding ends fuel_left
err-ends A m = refl

pub ruleset ending = (>>=-ends, if-ends, ok-ends, err-ends)

pub add-ends : (i x : Bound) → ends (Bound.add i x) ≡ true
unfolding ends Bound.add fuel_left
add-ends i x = ground arith

pub sub-ends : (i x : Bound) → ends (Bound.sub i x) ≡ true
unfolding Bound.sub
sub-ends i x = add-ends i (Bound.neg x)

pub cast_to-ends : (t : Integral) (a : ℤ) → ends (cast_to t a) ≡ true
unfolding ends cast_to fuel_left
cast_to-ends t a = ground arith

abs_div-ends :
    (b x : Bound) (f : ℤ → ℤ → Result ℤ)
    → ((p q : ℤ) → ends (f p q) ≡ true)
    → ends (abs_div b x f) ≡ true
unfolding abs_div
abs_div-ends b x f h = search (ending, h) depth 8

unsigned_64-ends : (a : ℤ) → ends (Bound.unsigned_64 a) ≡ true
unfolding Bound.unsigned_64
unsigned_64-ends a = search (ending, cast_to-ends) depth 8

module _ (cpp : CppInt) where
  pub quot-ends : (p q : ℤ) → ends (quot cpp p q) ≡ true
  unfolding quot
  quot-ends p q = search ending depth 8

  pub div-ends : (b x : Bound) → ends (Bound.div cpp b x) ≡ true
  unfolding Bound.div
  div-ends b x = abs_div-ends b x (quot cpp) quot-ends

  pub udiv-ends : (b x : Bound) → ends (Bound.udiv cpp b x) ≡ true
  unfolding Bound.udiv
  udiv-ends b x = search (ending, abs_div-ends, unsigned_64-ends, quot-ends) depth 8

interval_add-ends : (i x : Interval) → ends (add i x) ≡ true
unfolding add
interval_add-ends i x = search (ending, add-ends) depth 8

pub interval_sub-ends : (i x : Interval) → ends (sub i x) ≡ true
unfolding sub
interval_sub-ends i x = search (ending, sub-ends) depth 8

dividend-ends : (i x : Interval) → ends (make_dividend_when_both_nonzero i x) ≡ true
unfolding make_dividend_when_both_nonzero
dividend-ends i x = search (ending, interval_add-ends, interval_sub-ends) depth 10

module _ (f : Bound → Bound → Result Bound) (h : (a b : Bound) → ends (f a b) ≡ true) where
  pub divide_nonzero-ends : (i x : Interval) → ends (divide_nonzero f i x) ≡ true
  unfolding divide_nonzero quotients
  divide_nonzero-ends i x = search (ending, h, dividend-ends) depth 12

pub on_parts-ends :
    (g : Interval → Result Interval) (x extra : Interval)
    → ends (g (interval_t x.lb (finite (negsuc 0)))) ≡ true
    → ends (g (interval_t (finite (pos 1)) x.ub)) ≡ true
    → ends (on_parts g x extra) ≡ true
on_parts-ends g x extra p q = search (ending, p, q) depth 8

-- Neither part of an interval contains 0.
pub negative_part : (b : Bound) → contains (interval_t b (finite (negsuc 0))) (pos 0) ≡ false
unfolding contains interval_t Bound.gt Bound.le
negative_part b = ground arith

pub positive_part : (b : Bound) → contains (interval_t (finite (pos 1)) b) (pos 0) ≡ false
unfolding contains interval_t Bound.gt Bound.le
positive_part b = ground arith

-- A division by parts, whose recursive calls end where the intervals contain 0 less often.
module _ (cpp : CppInt) where
  pub sdiv_by-ends : (i : Interval) (c : ℤ) → ends (sdiv_by cpp i c) ≡ true
  unfolding sdiv_by
  sdiv_by-ends i c = search (ending, div-ends) depth 10

  pub udiv_by-ends : (i : Interval) (c : ℤ) → ends (udiv_by cpp i c) ≡ true
  unfolding udiv_by
  udiv_by-ends i c = search (ending, udiv-ends) depth 10

  pub div_by-ends : (i : Interval) (c : ℤ) → ends (div_by cpp i c) ≡ true
  unfolding div_by
  div_by-ends i c = search (ending, div-ends) depth 10

-- The recursive calls of a division of i by x end: of i by a part of x if x has 0, and of a part of i
-- by x if only i has 0.
pub record CallsEnd (again : Interval → Interval → Result Interval) (i x : Interval) : Type 0 where
  pub divisor :
      contains x (pos 0) ≡ true
      → (y : Interval) → contains y (pos 0) ≡ false
      → ends (again i y) ≡ true
  pub dividend :
      contains x (pos 0) ≡ false
      → contains i (pos 0) ≡ true
      → (y : Interval) → contains y (pos 0) ≡ false
      → ends (again y x) ≡ true

pub parts-ends :
    (again : Interval → Interval → Result Interval) (i x on_divisor on_dividend : Interval)
    (last : Result Interval)
    → CallsEnd again i x
    → ends last ≡ true
    → ends (elim (contains x (pos 0)) [
      | true ↦ on_parts (again i) x on_divisor
      | false ↦ elim (contains i (pos 0)) [
        | true ↦ on_parts (λ l. again l x) i on_dividend
        | false ↦ last
      ]
    ])
      ≡ true
parts-ends again i x on_divisor on_dividend last calls h = elim (Bool-cases (contains x (pos 0))) [
  | inl e ↦ rw e (
      on_parts-ends (again i) x on_divisor (calls.divisor e _ (negative_part x.lb))
        (calls.divisor e _ (positive_part x.ub)))
  | inr e ↦ rw e (elim (Bool-cases (contains i (pos 0))) [
    | inl f ↦ rw f (
        on_parts-ends (λ l. again l x) i on_dividend (calls.dividend e f _ (negative_part i.lb))
          (calls.dividend e f _ (positive_part i.ub)))
    | inr f ↦ rw f h
  ])
]

-- A recursion all of whose calls on fuel end if those with one less do.
abbrev pub Steps : (ℕ → Interval → Interval → Result Interval) → Type 0
Steps f = (fuel : ℕ) (i x : Interval) → CallsEnd (f fuel) i x → ends (f (suc fuel) i x) ≡ true

-- Such a recursion ends with a fuel of three: one call splits the divisor, one the dividend.
module _ (f : ℕ → Interval → Interval → Result Interval) (step : Steps f) (fuel : ℕ) where
  neither :
      (i x : Interval)
      → contains x (pos 0) ≡ false
      → contains i (pos 0) ≡ false
      → ends (f (suc fuel) i x) ≡ true
  neither i x e g = step fuel i x (record {
    divisor = λ t. absurd (ground (arith, t));
    dividend = λ t u. absurd (ground (arith, u));
  })

  nonzero_divisor :
      (i x : Interval) → contains x (pos 0) ≡ false → ends (f (suc (suc fuel)) i x) ≡ true
  nonzero_divisor i x e =
      step (suc fuel) i x (record {
        divisor = λ t. absurd (ground (arith, t));
        dividend = λ t u y g. neither y x e g;
      })

  pub three_suffice : (i x : Interval) → ends (f (suc (suc (suc fuel))) i x) ≡ true
  three_suffice i x = step (suc (suc fuel)) i x (record {
    divisor = λ t y g. nonzero_divisor i y g;
    dividend = λ t u y g. nonzero_divisor y x t;
  })

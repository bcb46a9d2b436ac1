-- ===== src/Linear/Constraints.antt =====
-- Which assignments of the variables a constraint holds of:
-- verifiers/prevail/src/crab/linear_constraint.hpp and dsl_syntax.hpp.
use linux_dev_env.Base.{ℕ, ◌≡◌, refl, sym, ap, ◌∙◌, Bool, true, false, not, List, [], arith}
use linux_dev_env.Base.Int.{
  ℤ, pos, negsuc, ◌+ℤ◌, ◌-ℤ◌, ◌*ℤ◌, eqb_ℤ, leb_ℤ, ltb_ℤ, -ℤ_parts, eq_of_parts, int_laws,
}
use linux_dev_env.Base.Product.{*ℤ_parts}
use linux_dev_env.Linear.{
  Expression, Constraint, ConstraintKind, equals_zero, not_zero, less_than_zero,
  less_than_or_equals_zero, expression_of, multiply, plus, subtract, plus_number, subtract_number,
  plus_variable, subtract_variable, negate, compare_zero, negation, less_or_equal, less, equal,
  not_equal, greater, greater_or_equal,
}
use linux_dev_env.Linear.Terms.{
  IsSorted, AllBefore-nil, keep_nonzero-IsSorted, assign-IsSorted, assigned-IsSorted,
  scaled-IsSorted, AreNonzero, keep_nonzero-AreNonzero,
}
use linux_dev_env.Linear.Value.{
  value, value-multiply, value-plus, value-subtract, value-plus_number, value-subtract_number,
  value-plus_variable, value-subtract_variable,
}

-- A constraint holds of an assignment.
abbrev pub holds : (ℕ → ℤ) → Constraint → Bool
holds σ c = compare_zero c.kind (value σ c.expression)

-- The terms of an expression are in order.
abbrev pub IsOrdered : Expression → Type 0
IsOrdered e = IsSorted e.variable_terms

times_minus_one : (a : ℤ) → a *ℤ negsuc 0 ≡ pos 0 -ℤ a
times_minus_one a =
    eq_of_parts (a *ℤ negsuc 0) (pos 0 -ℤ a) (omega (int_laws, *ℤ_parts a (negsuc 0)))

-- An expression stands for a function of the assignment: its terms are in order, none has the
-- coefficient 0, and its value under every assignment is that of the function.
pub record Represents (e : Expression) (f : (ℕ → ℤ) → ℤ) : Type 0 where
  pub ordered : IsOrdered e
  pub nonzero : AreNonzero e.variable_terms
  pub meaning : (σ : ℕ → ℤ) → value σ e ≡ f σ

Represents-same :
    {e : Expression} {f g : (ℕ → ℤ) → ℤ}
    → Represents e f
    → ((σ : ℕ → ℤ) → f σ ≡ g σ)
    → Represents e g
Represents-same r h = record {
  ordered = r.ordered;
  nonzero = r.nonzero;
  meaning = λ σ. r.meaning σ ∙ h σ;
}

expression_of-Represents :
    (terms : List (ℕ × ℤ)) (n : ℤ) {f : (ℕ → ℤ) → ℤ}
    → IsSorted terms
    → ((σ : ℕ → ℤ) → value σ (expression_of terms n) ≡ f σ)
    → Represents (expression_of terms n) f
unfolding expression_of
expression_of-Represents terms n s v = record {
  ordered = keep_nonzero-IsSorted terms [] s tt (AllBefore-nil terms);
  nonzero = keep_nonzero-AreNonzero terms [] tt;
  meaning = v;
}

multiply-Represents :
    (e : Expression) (k : ℤ) → IsOrdered e → Represents (multiply e k) (λ σ. value σ e *ℤ k)
unfolding multiply
multiply-Represents e k s =
    expression_of-Represents _ (e.constant_term *ℤ k)
      (scaled-IsSorted k e.variable_terms [] s tt (AllBefore-nil _)) (λ σ. value-multiply σ e s k)

-- Where the terms of two expressions are in order, what the arithmetic on expressions makes of them
-- has its terms in order, none of coefficient 0, and has under every assignment the value that the
-- operation on numbers gives: the sum and the difference of the two expressions, of the first and a
-- number, and of the first and a variable; the multiple of the first; and its negative.
pub operations-Represents :
    (e x : Expression) (k : ℤ) (v : ℕ)
    → IsOrdered e
    → IsOrdered x
    → Represents (plus e x) (λ σ. value σ e +ℤ value σ x)
      × Represents (subtract e x) (λ σ. value σ e -ℤ value σ x)
      × Represents (plus_number e k) (λ σ. value σ e +ℤ k)
      × Represents (subtract_number e k) (λ σ. value σ e -ℤ k)
      × Represents (plus_variable e v) (λ σ. value σ e +ℤ σ v)
      × Represents (subtract_variable e v) (λ σ. value σ e -ℤ σ v)
      × Represents (multiply e k) (λ σ. value σ e *ℤ k)
      × Represents (negate e) (λ σ. pos 0 -ℤ value σ e)
unfolding plus subtract plus_number subtract_number plus_variable subtract_variable negate
operations-Represents e x k v s t = (
  expression_of-Represents _ _ (assigned-IsSorted ◌+ℤ◌ e x.variable_terms e.variable_terms s)
      (λ σ. value-plus σ e s x t),
  expression_of-Represents _ _ (assigned-IsSorted ◌-ℤ◌ e x.variable_terms e.variable_terms s)
      (λ σ. value-subtract σ e s x t),
  expression_of-Represents _ _ s (λ σ. value-plus_number σ e s k),
  expression_of-Represents _ _ s (λ σ. value-subtract_number σ e s k),
  expression_of-Represents _ _ (assign-IsSorted e.variable_terms v _ s)
      (λ σ. value-plus_variable σ e s v),
  expression_of-Represents _ _ (assign-IsSorted e.variable_terms v _ s)
      (λ σ. value-subtract_variable σ e s v),
  multiply-Represents e k s,
  Represents-same (multiply-Represents e (negsuc 0) s) (λ σ. times_minus_one (value σ e)),
)

-- The signs of a negative and of a difference.
le_negative : (a : ℤ) → leb_ℤ (a *ℤ negsuc 0) (pos 0) ≡ not (ltb_ℤ a (pos 0))
le_negative a = ground (arith, *ℤ_parts a (negsuc 0))

lt_negative : (a : ℤ) → ltb_ℤ (a *ℤ negsuc 0) (pos 0) ≡ not (leb_ℤ a (pos 0))
lt_negative a = ground (arith, *ℤ_parts a (negsuc 0))

not-not : (b : Bool) → not (not b) ≡ b
not-not true = refl
not-not false = refl

module _ (σ : ℕ → ℤ) where
  value-negate : (e : Expression) → IsOrdered e → value σ (negate e) ≡ value σ e *ℤ negsuc 0
  unfolding negate
  value-negate e s = value-multiply σ e s (negsuc 0)

  -- The negation of a constraint on an expression whose terms are in order holds exactly of the
  -- assignments of which the constraint does not.
  pub holds-negation :
      (e : Expression) (k : ConstraintKind)
      → IsOrdered e
      → holds σ (negation (record { expression = e; kind = k }))
        ≡ not (holds σ (record { expression = e; kind = k }))
  holds-negation e equals_zero s = refl
  holds-negation e not_zero s = sym (not-not _)
  holds-negation e less_than_zero s =
      ap (λ v. leb_ℤ v (pos 0)) (value-negate e s) ∙ le_negative (value σ e)
  holds-negation e less_than_or_equals_zero s =
      ap (λ v. ltb_ℤ v (pos 0)) (value-negate e s) ∙ lt_negative (value σ e)

  module _ (e x : Expression) (s : IsOrdered e) (t : IsOrdered x) where
    difference : (f : ℤ → Bool) → f (value σ (subtract e x)) ≡ f (value σ e -ℤ value σ x)
    difference f = ap f (value-subtract σ e s x t)

    difference_back : (f : ℤ → Bool) → f (value σ (subtract x e)) ≡ f (value σ x -ℤ value σ e)
    difference_back f = ap f (value-subtract σ x t e s)

    -- The comparisons of two expressions whose terms are in order hold exactly of the assignments
    -- under which their values compare so.
    pub holds-comparisons :
        (holds σ (less_or_equal e x) ≡ leb_ℤ (value σ e) (value σ x))
        × (holds σ (less e x) ≡ ltb_ℤ (value σ e) (value σ x))
        × (holds σ (greater_or_equal e x) ≡ leb_ℤ (value σ x) (value σ e))
        × (holds σ (greater e x) ≡ ltb_ℤ (value σ x) (value σ e))
        × (holds σ (equal e x) ≡ eqb_ℤ (value σ e) (value σ x))
        × (holds σ (not_equal e x) ≡ not (eqb_ℤ (value σ e) (value σ x)))
    holds-comparisons = (
      difference (λ v. leb_ℤ v (pos 0)) ∙ le_difference (value σ e) (value σ x),
      difference (λ v. ltb_ℤ v (pos 0)) ∙ lt_difference (value σ e) (value σ x),
      difference_back (λ v. leb_ℤ v (pos 0)) ∙ le_difference (value σ x) (value σ e),
      difference_back (λ v. ltb_ℤ v (pos 0)) ∙ lt_difference (value σ x) (value σ e),
      difference (λ v. eqb_ℤ v (pos 0)) ∙ eq_difference (value σ e) (value σ x),
      difference (λ v. not (eqb_ℤ v (pos 0))) ∙ ap not (eq_difference (value σ e) (value σ x)),
    )
      where
        le_difference : (a b : ℤ) → leb_ℤ (a -ℤ b) (pos 0) ≡ leb_ℤ a b
        le_difference a b = ground (arith, -ℤ_parts a b)

        lt_difference : (a b : ℤ) → ltb_ℤ (a -ℤ b) (pos 0) ≡ ltb_ℤ a b
        lt_difference a b = ground (arith, -ℤ_parts a b)

        eq_difference : (a b : ℤ) → eqb_ℤ (a -ℤ b) (pos 0) ≡ eqb_ℤ a b
        eq_difference a b = ground (arith, -ℤ_parts a b)

-- ===== src/Linear/Value.antt =====
-- The value of expressions under an assignment of the variables, and which assignments a constraint
-- holds of: verifiers/prevail/src/crab/linear_expression.hpp and linear_constraint.hpp.
use linux_dev_env.Base.{
  ℕ, ◌<◌, ◌≡◌, refl, sym, ap, ◌∙◌, [], ◌∷◌, ◌++◌, ◌==◌, ltb, Bool-cases, inl, inr, arith,
}
use linux_dev_env.Base.Int.{ℤ, pos, ◌+ℤ◌, ◌-ℤ◌, ◌*ℤ◌, eqb_ℤ, int_laws}
use linux_dev_env.Base.Product.{
  one_times, add_mul, sub_mul, mul_assoc, add_step, plus_step, minus_step, variable_step, zero_add,
  zero_times,
}
use linux_dev_env.Linear.{
  Terms, Expression, coefficient_in, coefficient_of, assign, keep_nonzero, expression_of, scaled,
  multiply, combined, plus, subtract, plus_number, subtract_number, plus_variable,
  subtract_variable,
}
use linux_dev_env.Linear.Terms.{
  After, IsSorted, AllBefore, emplace_last, AllBefore-append, AllBefore-nil, assign-IsSorted,
  assigned-IsSorted, scaled-IsSorted,
}

-- The coefficients of terms are those of an expression, for the variables of other terms.
abbrev Agree : Expression → Terms → Terms → Type 0
Agree e terms [] = Unit
Agree e terms ((v, c) ∷ more) = (coefficient_in terms v ≡ coefficient_of e v) × Agree e terms more

coefficient-assign :
    (terms : Terms) (v w : ℕ) (c : ℤ)
    → v < w
    → coefficient_in (assign v c terms) w ≡ coefficient_in terms w
unfolding coefficient_in assign
coefficient-assign [] v w c l = ground arith
coefficient-assign ((u, d) ∷ terms) v w c l = ground (arith, coefficient-assign terms v w c l)

Agree-assign :
    (e : Expression) (terms more : Terms) (v : ℕ) (c : ℤ)
    → After v more
    → Agree e terms more
    → Agree e (assign v c terms) more
Agree-assign e terms [] v c a h = tt
Agree-assign e terms ((w, d) ∷ more) v c (p, a) (q, h) =
    (coefficient-assign terms v w c p ∙ q, Agree-assign e terms more v c a h)

module _ (σ : ℕ → ℤ) where
  -- The sum of the terms, and of the terms and the constant.
  unfoldable pub sum : Terms → ℤ
  sum [] = pos 0
  sum ((v, c) ∷ terms) = c *ℤ σ v +ℤ sum terms

  unfoldable pub value : Expression → ℤ
  unfolding sum
  value e = sum e.variable_terms +ℤ e.constant_term

  sum-append : (terms : Terms) (v : ℕ) (c : ℤ) → sum (terms ++ (v, c) ∷ []) ≡ sum terms +ℤ c *ℤ σ v
  unfolding sum
  sum-append [] v c = omega int_laws
  sum-append ((w, d) ∷ terms) v c = let again = sum-append terms v c in rw again (omega int_laws)

  -- Terms of coefficient 0 add nothing.
  sum-keep_nonzero :
      (terms kept : Terms)
      → IsSorted terms
      → AllBefore kept terms
      → sum (keep_nonzero terms kept) ≡ sum kept +ℤ sum terms
  unfolding keep_nonzero sum
  sum-keep_nonzero [] kept s h = omega int_laws
  sum-keep_nonzero ((v, c) ∷ terms) kept (a, s) (p, h) = elim (Bool-cases (eqb_ℤ c (pos 0))) [
    | inl e ↦ rw e (sum-keep_nonzero terms kept s h ∙ rw (zero_times c (σ v) e) (omega int_laws))
    | inr e ↦ rw e (
        rw (emplace_last v c kept p) (
          sum-keep_nonzero terms _ s (AllBefore-append kept terms v c h a)
          ∙ rw (sum-append kept v c) (omega int_laws)))
  ]

  -- Assigning a coefficient changes the term of its variable.
  sum-assign :
      (v : ℕ) (c : ℤ) (terms : Terms)
      → sum (assign v c terms) +ℤ coefficient_in terms v *ℤ σ v ≡ sum terms +ℤ c *ℤ σ v
  unfolding assign sum coefficient_in
  sum-assign v c [] = rw (zero_times (pos 0) (σ v) refl) (omega int_laws)
  sum-assign v c ((w, d) ∷ terms) = elim (Bool-cases (w == v)) [
    | inl e ↦ (let q : w ≡ v = ground (arith, e) in rw (e, q) (omega int_laws))
    | inr e ↦ rw e (elim (Bool-cases (ltb v w)) [
      | inl f ↦ rw f (rw (zero_times (pos 0) (σ v) refl) (omega int_laws))
      | inr f ↦ rw f (add_step (d *ℤ σ w) _ _ _ _ (sum-assign v c terms))
    ])
  ]

  -- Assigning a coefficient that is made of the one before adds the rest.
  sum-assign_plus :
      (v : ℕ) (k c : ℤ) (terms : Terms)
      → coefficient_in terms v ≡ k
      → sum (assign v (k +ℤ c) terms) +ℤ k *ℤ σ v ≡ sum terms +ℤ (k *ℤ σ v +ℤ c *ℤ σ v)
  sum-assign_plus v k c terms p =
      ap (λ x. sum (assign v (k +ℤ c) terms) +ℤ x *ℤ σ v) (sym p)
      ∙ (sum-assign v (k +ℤ c) terms ∙ ap (λ x. sum terms +ℤ x) (add_mul k c (σ v)))

  sum-assign_minus :
      (v : ℕ) (k c : ℤ) (terms : Terms)
      → coefficient_in terms v ≡ k
      → sum (assign v (k -ℤ c) terms) +ℤ k *ℤ σ v ≡ sum terms +ℤ (k *ℤ σ v -ℤ c *ℤ σ v)
  sum-assign_minus v k c terms p =
      ap (λ x. sum (assign v (k -ℤ c) terms) +ℤ x *ℤ σ v) (sym p)
      ∙ (sum-assign v (k -ℤ c) terms ∙ ap (λ x. sum terms +ℤ x) (sub_mul k c (σ v)))

  -- What the loops of `plus` and `subtract` add, where each coefficient still is that of the first
  -- expression.
  sum-combined_plus :
      (e : Expression) (more terms : Terms)
      → IsSorted more
      → Agree e terms more
      → sum (combined ◌+ℤ◌ e more terms) ≡ sum terms +ℤ sum more
  unfolding combined sum
  sum-combined_plus e [] terms s h = omega int_laws
  sum-combined_plus e ((v, c) ∷ more) terms (a, s) (p, h) =
      sum-combined_plus e more _ s (Agree-assign e terms more v _ a h)
      ∙ plus_step _ _ _ _ (sum more) (sum-assign_plus v (coefficient_of e v) c terms p)

  sum-combined_minus :
      (e : Expression) (more terms : Terms)
      → IsSorted more
      → Agree e terms more
      → sum (combined ◌-ℤ◌ e more terms) ≡ sum terms -ℤ sum more
  unfolding combined sum
  sum-combined_minus e [] terms s h = omega int_laws
  sum-combined_minus e ((v, c) ∷ more) terms (a, s) (p, h) =
      sum-combined_minus e more _ s (Agree-assign e terms more v _ a h)
      ∙ minus_step _ _ _ _ (sum more) (sum-assign_minus v (coefficient_of e v) c terms p)

  sum-scaled :
      (k : ℤ) (terms made : Terms)
      → IsSorted terms
      → AllBefore made terms
      → sum (scaled k terms made) ≡ sum made +ℤ sum terms *ℤ k
  unfolding scaled sum
  sum-scaled k [] made s h = rw (zero_times (pos 0) k refl) (omega int_laws)
  sum-scaled k ((v, c) ∷ terms) made (a, s) (p, h) = rw (emplace_last v (c *ℤ k) made p) (
      sum-scaled k terms _ s (AllBefore-append made terms v _ h a)
      ∙ rw (sum-append made v (c *ℤ k))
          (rw (add_mul (c *ℤ σ v) (sum terms) k) (rw (mul_assoc c k (σ v)) (omega int_laws))))

  module _ (e : Expression) (s : IsSorted e.variable_terms) where
    Agree-itself : (more : Terms) → Agree e e.variable_terms more
    unfolding coefficient_of
    Agree-itself [] = tt
    Agree-itself ((v, c) ∷ more) = (refl, Agree-itself more)

    coefficient_itself : (v : ℕ) → coefficient_in e.variable_terms v ≡ coefficient_of e v
    unfolding coefficient_of
    coefficient_itself v = refl

    value-expression_of :
        (terms : Terms) (n : ℤ) → IsSorted terms → value (expression_of terms n) ≡ sum terms +ℤ n
    unfolding value expression_of
    value-expression_of terms n t =
        ap (λ x. x +ℤ n) (sum-keep_nonzero terms [] t (AllBefore-nil terms) ∙ zero_add (sum terms))

    pub value-plus_number : (n : ℤ) → value (plus_number e n) ≡ value e +ℤ n
    unfolding plus_number value
    value-plus_number n =
        value-expression_of e.variable_terms (e.constant_term +ℤ n) s ∙ omega int_laws

    pub value-subtract_number : (n : ℤ) → value (subtract_number e n) ≡ value e -ℤ n
    unfolding subtract_number value
    value-subtract_number n =
        value-expression_of e.variable_terms (e.constant_term -ℤ n) s ∙ omega int_laws

    pub value-plus_variable : (v : ℕ) → value (plus_variable e v) ≡ value e +ℤ σ v
    unfolding plus_variable value
    value-plus_variable v =
        let k : ℤ = coefficient_of e v in
        value-expression_of _ e.constant_term (assign-IsSorted e.variable_terms v (k +ℤ pos 1) s)
        ∙ (plus_step _ _ _ _ e.constant_term
              (sum-assign_plus v k (pos 1) e.variable_terms (coefficient_itself v))
            ∙ rw (one_times (σ v)) (omega int_laws))

    pub value-subtract_variable : (v : ℕ) → value (subtract_variable e v) ≡ value e -ℤ σ v
    unfolding subtract_variable value
    value-subtract_variable v =
        let k : ℤ = coefficient_of e v in
        value-expression_of _ e.constant_term (assign-IsSorted e.variable_terms v (k -ℤ pos 1) s)
        ∙ (variable_step _ _ _ _ e.constant_term
              (sum-assign_minus v k (pos 1) e.variable_terms (coefficient_itself v))
            ∙ ap (λ w. (sum e.variable_terms +ℤ e.constant_term) -ℤ w) (one_times (σ v)))

    pub value-multiply : (k : ℤ) → value (multiply e k) ≡ value e *ℤ k
    unfolding multiply value
    value-multiply k =
        value-expression_of _ _ (scaled-IsSorted k e.variable_terms [] s tt (AllBefore-nil _))
        ∙ rw (sum-scaled k e.variable_terms [] s (AllBefore-nil _))
            (rw (add_mul (sum e.variable_terms) e.constant_term k) (omega int_laws))

    module _ (x : Expression) (t : IsSorted x.variable_terms) where
      pub value-plus : value (plus e x) ≡ value e +ℤ value x
      unfolding plus value
      value-plus =
          value-expression_of _ _ (assigned-IsSorted ◌+ℤ◌ e x.variable_terms e.variable_terms s)
          ∙ rw
              (sum-combined_plus e x.variable_terms e.variable_terms t
                (Agree-itself x.variable_terms))
              (omega int_laws)

      pub value-subtract : value (subtract e x) ≡ value e -ℤ value x
      unfolding subtract value
      value-subtract =
          value-expression_of _ _ (assigned-IsSorted ◌-ℤ◌ e x.variable_terms e.variable_terms s)
          ∙ rw
              (sum-combined_minus e x.variable_terms e.variable_terms t
                (Agree-itself x.variable_terms))
              (omega int_laws)

-- ===== src/Linear.antt =====
-- Linear expressions and constraints over them: verifiers/prevail/src/crab/linear_expression.hpp,
-- linear_constraint.hpp and dsl_syntax.hpp. A variable is its number, and a `std::map` from
-- variables to coefficients the list of its pairs, in the order of the variables.
pub mod Terms
pub mod Value
pub mod Constraints
use linux_dev_env.Base.{ℕ, Bool, true, false, not, List, [], ◌∷◌, ◌==◌, ltb, if◌then◌else◌}
use linux_dev_env.Base.Int.{ℤ, pos, negsuc, ◌+ℤ◌, ◌-ℤ◌, ◌*ℤ◌, eqb_ℤ, leb_ℤ, ltb_ℤ}

abbrev pub Terms : Type 0
Terms = List (ℕ × ℤ)

pub record Expression : Type 0 where
  pub constant_term : ℤ
  pub variable_terms : Terms

-- The coefficient of a variable, 0 if it has no term. The search of a map goes by the order of the
-- variables.
unfoldable pub coefficient_in : Terms → ℕ → ℤ
coefficient_in [] v = pos 0
coefficient_in ((w, c) ∷ terms) v =
    let rest = coefficient_in terms v in if w == v then c else if ltb v w then pos 0 else rest

unfoldable pub coefficient_of : Expression → ℕ → ℤ
unfolding coefficient_in
coefficient_of e v = coefficient_in e.variable_terms v

-- `terms[v] = c`.
unfoldable pub assign : ℕ → ℤ → Terms → Terms
assign v c [] = (v, c) ∷ []
assign v c ((w, d) ∷ terms) =
    let rest = assign v c terms in
    if w == v then (v, c) ∷ terms else if ltb v w then (v, c) ∷ (w, d) ∷ terms else (w, d) ∷ rest

-- `terms.emplace(v, c)`, which keeps a term that is there.
unfoldable pub emplace : ℕ → ℤ → Terms → Terms
emplace v c [] = (v, c) ∷ []
emplace v c ((w, d) ∷ terms) =
    let rest = emplace v c terms in
    if w == v then (w, d) ∷ terms else if ltb v w then (v, c) ∷ (w, d) ∷ terms else (w, d) ∷ rest

-- The loop of the constructor from terms and a constant, which drops terms of coefficient 0.
unfoldable pub keep_nonzero : Terms → Terms → Terms
unfolding emplace
keep_nonzero [] kept = kept
keep_nonzero ((v, c) ∷ terms) kept =
    keep_nonzero terms (if eqb_ℤ c (pos 0) then kept else emplace v c kept)

unfoldable pub expression_of : Terms → ℤ → Expression
unfolding keep_nonzero
expression_of terms constant = record {
  constant_term = constant;
  variable_terms = keep_nonzero terms [];
}

abbrev pub constant : ℤ → Expression
constant n = record { constant_term = n; variable_terms = [] }

abbrev pub variable : ℕ → Expression
variable v = record { constant_term = pos 0; variable_terms = (v, pos 1) ∷ [] }

abbrev pub term : ℤ → ℕ → Expression
term c v = record {
  constant_term = pos 0;
  variable_terms = if eqb_ℤ c (pos 0) then [] else (v, c) ∷ [];
}

unfoldable pub is_constant : Expression → Bool
is_constant e = elim e.variable_terms [ [] ↦ true | _ ∷ _ ↦ false ]

-- The loop of `multiply`.
unfoldable pub scaled : ℤ → Terms → Terms → Terms
unfolding emplace
scaled k [] made = made
scaled k ((v, c) ∷ terms) made = scaled k terms (emplace v (c *ℤ k) made)

unfoldable pub multiply : Expression → ℤ → Expression
unfolding scaled expression_of
multiply e k = expression_of (scaled k e.variable_terms []) (e.constant_term *ℤ k)

-- The loops of `plus` and `subtract`; the coefficient is that of the first expression.
unfoldable pub combined : (ℤ → ℤ → ℤ) → Expression → Terms → Terms → Terms
unfolding assign coefficient_of
combined f e [] terms = terms
combined f e ((v, c) ∷ more) terms = combined f e more (assign v (f (coefficient_of e v) c) terms)

unfoldable pub plus : Expression → Expression → Expression
unfolding combined expression_of
plus e x =
    expression_of (combined ◌+ℤ◌ e x.variable_terms e.variable_terms)
      (e.constant_term +ℤ x.constant_term)

unfoldable pub subtract : Expression → Expression → Expression
unfolding combined expression_of
subtract e x =
    expression_of (combined ◌-ℤ◌ e x.variable_terms e.variable_terms)
      (e.constant_term -ℤ x.constant_term)

-- The overloads of `plus` and `subtract` that take a number or a variable.
unfoldable pub plus_number : Expression → ℤ → Expression
unfolding expression_of
plus_number e n = expression_of e.variable_terms (e.constant_term +ℤ n)

unfoldable pub plus_variable : Expression → ℕ → Expression
unfolding expression_of assign coefficient_of
plus_variable e v =
    expression_of (assign v (coefficient_of e v +ℤ pos 1) e.variable_terms) e.constant_term

unfoldable pub subtract_number : Expression → ℤ → Expression
unfolding expression_of
subtract_number e n = expression_of e.variable_terms (e.constant_term -ℤ n)

unfoldable pub subtract_variable : Expression → ℕ → Expression
unfolding expression_of assign coefficient_of
subtract_variable e v =
    expression_of (assign v (coefficient_of e v -ℤ pos 1) e.variable_terms) e.constant_term

unfoldable pub negate : Expression → Expression
unfolding multiply
negate e = multiply e (negsuc 0)

pub data ConstraintKind : Type 0 where
  equals_zero less_than_or_equals_zero less_than_zero not_zero : ConstraintKind

pub record Constraint : Type 0 where
  pub expression : Expression
  pub kind : ConstraintKind

-- A constant against 0.
abbrev pub compare_zero : ConstraintKind → ℤ → Bool
compare_zero equals_zero n = eqb_ℤ n (pos 0)
compare_zero less_than_or_equals_zero n = leb_ℤ n (pos 0)
compare_zero less_than_zero n = ltb_ℤ n (pos 0)
compare_zero not_zero n = not (eqb_ℤ n (pos 0))

unfoldable pub is_tautology : Constraint → Bool
unfolding is_constant
is_tautology c =
    if not (is_constant c.expression) then false else compare_zero c.kind c.expression.constant_term

unfoldable pub is_contradiction : Constraint → Bool
unfolding is_constant is_tautology
is_contradiction c = if not (is_constant c.expression) then false else not (is_tautology c)

abbrev pub negated : Expression → ConstraintKind → Constraint
negated e not_zero = record { expression = e; kind = equals_zero }
negated e equals_zero = record { expression = e; kind = not_zero }
negated e less_than_zero = record { expression = negate e; kind = less_than_or_equals_zero }
negated e less_than_or_equals_zero = record { expression = negate e; kind = less_than_zero }

abbrev pub negation : Constraint → Constraint
negation c = negated c.expression c.kind

abbrev pub false_const : Constraint
false_const = record { expression = constant (pos 0); kind = not_zero }

abbrev pub true_const : Constraint
true_const = record { expression = constant (pos 0); kind = equals_zero }

-- The comparisons of dsl_syntax.hpp.
abbrev pub less_or_equal : Expression → Expression → Constraint
less_or_equal e x = record { expression = subtract e x; kind = less_than_or_equals_zero }

abbrev pub less : Expression → Expression → Constraint
less e x = record { expression = subtract e x; kind = less_than_zero }

abbrev pub greater_or_equal : Expression → Expression → Constraint
greater_or_equal e x = less_or_equal x e

abbrev pub greater : Expression → Expression → Constraint
greater e x = less x e

abbrev pub equal : Expression → Expression → Constraint
equal e x = record { expression = subtract e x; kind = equals_zero }

abbrev pub not_equal : Expression → Expression → Constraint
not_equal e x = record { expression = subtract e x; kind = not_zero }

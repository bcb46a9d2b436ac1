-- ===== src/Tests/Linear.antt =====
-- The theorems on linear expressions and constraints, at 2 * v1 - v3 + 4 and v3 - 1.
use linux_dev_env.Base.{◌≡◌, not, [], ◌∷◌, arith}
use linux_dev_env.Base.Int.{pos, negsuc, ◌+ℤ◌, ◌-ℤ◌, ◌*ℤ◌, leb_ℤ, ltb_ℤ, eqb_ℤ}
use linux_dev_env.Linear.{
  Expression, less_than_zero, plus, subtract, plus_number, subtract_number, plus_variable,
  subtract_variable, multiply, negate, negation, less_or_equal, less, greater_or_equal, greater,
  equal, not_equal,
}
use linux_dev_env.Linear.Value.{value}
use linux_dev_env.Linear.Constraints.{
  holds, IsOrdered, Represents, operations-Represents, holds-negation, holds-comparisons,
}

abbrev first : Expression
first = record { constant_term = pos 4; variable_terms = (1, pos 2) ∷ (3, negsuc 0) ∷ [] }

abbrev second : Expression
second = record { constant_term = negsuc 0; variable_terms = (3, pos 1) ∷ [] }

first-IsOrdered : IsOrdered first
first-IsOrdered = ((omega arith, tt), (tt, tt))

second-IsOrdered : IsOrdered second
second-IsOrdered = (tt, tt)

operations-Represents_example :
    Represents (plus first second) (λ σ. value σ first +ℤ value σ second)
    × Represents (subtract first second) (λ σ. value σ first -ℤ value σ second)
    × Represents (plus_number first (pos 5)) (λ σ. value σ first +ℤ pos 5)
    × Represents (subtract_number first (pos 5)) (λ σ. value σ first -ℤ pos 5)
    × Represents (plus_variable first 3) (λ σ. value σ first +ℤ σ 3)
    × Represents (subtract_variable first 3) (λ σ. value σ first -ℤ σ 3)
    × Represents (multiply first (pos 5)) (λ σ. value σ first *ℤ pos 5)
    × Represents (negate first) (λ σ. pos 0 -ℤ value σ first)
operations-Represents_example =
    operations-Represents first second (pos 5) 3 first-IsOrdered second-IsOrdered

holds-negation_example :
    holds pos (negation (record { expression = first; kind = less_than_zero }))
    ≡ not (holds pos (record { expression = first; kind = less_than_zero }))
holds-negation_example = holds-negation pos first less_than_zero first-IsOrdered

holds-comparisons_example :
    (holds pos (less_or_equal first second) ≡ leb_ℤ (value pos first) (value pos second))
    × (holds pos (less first second) ≡ ltb_ℤ (value pos first) (value pos second))
    × (holds pos (greater_or_equal first second) ≡ leb_ℤ (value pos second) (value pos first))
    × (holds pos (greater first second) ≡ ltb_ℤ (value pos second) (value pos first))
    × (holds pos (equal first second) ≡ eqb_ℤ (value pos first) (value pos second))
    × (holds pos (not_equal first second) ≡ not (eqb_ℤ (value pos first) (value pos second)))
holds-comparisons_example = holds-comparisons pos first second first-IsOrdered second-IsOrdered

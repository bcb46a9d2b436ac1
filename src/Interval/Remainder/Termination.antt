-- ===== src/Interval/Remainder/Termination.antt =====
-- The fuel of the remainders suffices: verifiers/prevail/src/crab/interval.cpp.
use linux_dev_env.Base.{
  ℕ, suc, ◌≡◌, ◌≢◌, ap, inl, inr, true, false, ◌&&◌, ◌||◌, Bool-cases, Option-cases, arith,
}
use linux_dev_env.Base.Int.{ℤ, pos}
use linux_dev_env.Outcome.{Result, err, out_of_fuel}
use linux_dev_env.Number.{CppInt, uint, fits_cast_to, rem}
use linux_dev_env.Interval.{Interval, is_bottom, contains, pair_number}
use linux_dev_env.Interval.Division.{div, sdiv, udiv}
use linux_dev_env.Interval.Division.Termination.{div_step, sdiv_step, udiv_step}
use linux_dev_env.Interval.Division.Ending.{
  fuel_left, ends, ok-ends, ending, cast_to-ends, interval_sub-ends, on_parts-ends, negative_part,
  positive_part, CallsEnd, parts-ends, three_suffice,
}
use linux_dev_env.Interval.Remainder.{
  both_singletons, srem_nonzero, srem, urem_nonzero, urem_numbers, urem,
}

rem-ends : (cpp : CppInt) (a b : ℤ) → ends (rem cpp a b) ≡ true
unfolding rem
rem-ends cpp a b = search ending depth 8

urem_nonzero-ends : (i x : Interval) → ends (urem_nonzero i x) ≡ true
unfolding urem_nonzero
urem_nonzero-ends i x = search (ending, interval_sub-ends, cast_to-ends) depth 14

urem_numbers-ends : (a b : ℤ) → ends (urem_numbers a b) ≡ true
unfolding urem_numbers
urem_numbers-ends a b = search (ending, cast_to-ends) depth 14

urem_step :
    (fuel : ℕ) (i x : Interval) → CallsEnd (urem fuel) i x → ends (urem (suc fuel) i x) ≡ true
unfolding urem
urem_step fuel i x calls =
    let parts = parts-ends (urem fuel) i x _ _ _ calls (urem_nonzero-ends i x) in
    elim (Bool-cases (is_bottom i || is_bottom x)) [
      | inl e ↦ rw (urem, e) (ok-ends _)
      | inr e ↦
          rw (urem, e)
            (elim (Option-cases (both_singletons i x)) [
              | inl g ↦ rw g parts
              | inr ((a, b), g) ↦
                  rw g (elim (Bool-cases (fits_cast_to (uint 64) a && fits_cast_to (uint 64) b)) [
                    | inl h ↦ rw h (urem_numbers-ends a b)
                    | inr h ↦ rw h parts
                  ])
            ])
    ]

srem_nonzero-ends : (i x : Interval) → ends (srem_nonzero i x) ≡ true
unfolding srem_nonzero ends pair_number fuel_left
srem_nonzero-ends i x = ground arith

module _ (cpp : CppInt) where
  -- What ends where the divisor has 0, if the calls on its parts do, and where it has not.
  srem_step :
      (fuel : ℕ) (i x : Interval)
      → (contains x (pos 0) ≡ true
          → (y : Interval) → contains y (pos 0) ≡ false
          → ends (srem cpp fuel i y) ≡ true)
      → ends (srem cpp (suc fuel) i x) ≡ true
  unfolding srem
  srem_step fuel i x calls = elim (Bool-cases (is_bottom i || is_bottom x)) [
    | inl e ↦ rw (srem, e) (ok-ends _)
    | inr e ↦
        rw (srem, e)
          (elim (Option-cases (both_singletons i x)) [
            | inl g ↦ rw g (elim (Bool-cases (contains x (pos 0))) [
              | inl h ↦ rw h (
                  on_parts-ends (srem cpp fuel i) x i (calls h _ (negative_part x.lb))
                    (calls h _ (positive_part x.ub)))
              | inr h ↦ rw h (srem_nonzero-ends i x)
            ])
            | inr ((a, b), g) ↦ rw g (search (ending, rem-ends) depth 8)
          ])
  ]

  srem-ends : (more : ℕ) (i x : Interval) → ends (srem cpp (suc (suc more)) i x) ≡ true
  srem-ends more i x =
      srem_step (suc more) i x (λ h y g. srem_step more i y (λ t. absurd (ground (arith, t))))

not_out : (r : Result Interval) → ends r ≡ true → r ≢ err out_of_fuel
unfolding ends fuel_left
not_out r h e = ground (arith, h, ap ends e)

-- The three divisions and the two remainders of intervals never run out of a fuel of three or more,
-- whatever the intervals are: the calls go no deeper.
pub operators-ends :
    (cpp : CppInt) (more : ℕ) (i x : Interval)
    → (div cpp (suc (suc (suc more))) i x ≢ err out_of_fuel)
      × (sdiv cpp (suc (suc (suc more))) i x ≢ err out_of_fuel)
      × (udiv cpp (suc (suc (suc more))) i x ≢ err out_of_fuel)
      × (srem cpp (suc (suc (suc more))) i x ≢ err out_of_fuel)
      × (urem (suc (suc (suc more))) i x ≢ err out_of_fuel)
operators-ends cpp more i x = (
  not_out _ (three_suffice (div cpp) (div_step cpp) more i x),
  not_out _ (three_suffice (sdiv cpp) (sdiv_step cpp) more i x),
  not_out _ (three_suffice (udiv cpp) (udiv_step cpp) more i x),
  not_out _ (srem-ends cpp (suc more) i x),
  not_out _ (three_suffice urem urem_step more i x),
)

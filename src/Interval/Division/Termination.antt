-- ===== src/Interval/Division/Termination.antt =====
-- The fuel of the divisions suffices: verifiers/prevail/src/crab/interval.cpp.
use linux_dev_env.Base.{ℕ, suc, ◌≡◌, inl, inr, true, ◌||◌, Bool-cases, Option-cases}
use linux_dev_env.Number.{CppInt, sint, uint, fits_cast_to}
use linux_dev_env.Bound
use linux_dev_env.Bound.{Bound, finite, abs_div}
use linux_dev_env.Interval.{Interval, is_bottom, singleton}
use linux_dev_env.Interval.Division.{div, sdiv, udiv}
use linux_dev_env.Interval.Division.Ending.{
  ends, ok-ends, >>=-ends, cast_to-ends, sdiv_by-ends, udiv_by-ends, div_by-ends, div-ends,
  udiv-ends, divide_nonzero-ends, CallsEnd, parts-ends,
}

module _ (cpp : CppInt) (fuel : ℕ) (i x : Interval) where
  pub sdiv_step : CallsEnd (sdiv cpp fuel) i x → ends (sdiv cpp (suc fuel) i x) ≡ true
  unfolding sdiv
  sdiv_step calls =
      let parts =
        parts-ends (sdiv cpp fuel) i x _ _ _ calls
          (divide_nonzero-ends (Bound.div cpp) (div-ends cpp) i x) in
      elim (Bool-cases (is_bottom i || is_bottom x)) [
        | inl e ↦ rw (sdiv, e) (ok-ends _)
        | inr e ↦
            rw (sdiv, e)
              (elim (Option-cases (singleton x)) [
                | inl g ↦ rw g parts
                | inr (n, g) ↦ rw g (elim (Bool-cases (fits_cast_to (sint 64) n)) [
                  | inl h ↦ rw h (>>=-ends _ _ (cast_to-ends (sint 64) n) (sdiv_by-ends cpp i))
                  | inr h ↦ rw h parts
                ])
              ])
      ]

  pub udiv_step : CallsEnd (udiv cpp fuel) i x → ends (udiv cpp (suc fuel) i x) ≡ true
  unfolding udiv
  udiv_step calls =
      let parts =
        parts-ends (udiv cpp fuel) i x _ _ _ calls
          (divide_nonzero-ends (Bound.udiv cpp) (udiv-ends cpp) i x) in
      elim (Bool-cases (is_bottom i || is_bottom x)) [
        | inl e ↦ rw (udiv, e) (ok-ends _)
        | inr e ↦
            rw (udiv, e)
              (elim (Option-cases (singleton x)) [
                | inl g ↦ rw g parts
                | inr (n, g) ↦ rw g (elim (Bool-cases (fits_cast_to (sint 64) n)) [
                  | inl h ↦ rw h (>>=-ends _ _ (cast_to-ends (uint 64) n) (udiv_by-ends cpp i))
                  | inr h ↦ rw h parts
                ])
              ])
      ]

  pub div_step : CallsEnd (div cpp fuel) i x → ends (div cpp (suc fuel) i x) ≡ true
  unfolding div
  div_step calls =
      let parts =
        parts-ends (div cpp fuel) i x _ _ _ calls
          (divide_nonzero-ends (Bound.div cpp) (div-ends cpp) i x) in
      elim (Bool-cases (is_bottom i || is_bottom x)) [
        | inl e ↦ rw (div, e) (ok-ends _)
        | inr e ↦
            rw (div, e)
              (elim (Option-cases (singleton x)) [
                | inl g ↦ rw g parts
                | inr (c, g) ↦ rw g (div_by-ends cpp i c)
              ])
      ]

-- ===== src/Fixpoint/Cycles.antt =====
-- The iterations over a cycle end, and cover what executions reach in it:
-- verifiers/prevail/src/crab/fwd_analyzer.cpp.
use linux_dev_env.Base.{
  ℕ, zero, suc, ◌+◌, ◌≤◌, ◌<◌, ◌≡◌, refl, ◌∙◌, false, ◌||◌, List, ◌∷◌, ltb, ◌==◌, if◌then◌else◌,
  Bool-cases, inl, inr, arith,
}
use linux_dev_env.Outcome.{Result}
use linux_dev_env.Outcome.Ends.{Ends, returns, Ends-bind, Ends-if}
use linux_dev_env.Label.{Label, entry}
use linux_dev_env.Label.Order.{eq_label}
use linux_dev_env.Label.Keyed.{has, find}
use linux_dev_env.Wto.{Component, vertex, Wto}
use linux_dev_env.Fixpoint.Table.{Analyzer, State, extrapolate, refine}
use linux_dev_env.Fixpoint.{round, increase, decrease}
use linux_dev_env.Fixpoint.Interface.{Domain, Meaning, IsSound, Stabilizes}
use linux_dev_env.Fixpoint.Reach.{AreNested, IsNested, Inside, Visits}
use linux_dev_env.Fixpoint.Steps.{Written, with_pre, set_pre-Ends}
use linux_dev_env.Fixpoint.Regions.{Holds, Holds-with_pre}
use linux_dev_env.Fixpoint.Rounds.{IsRound, round-Ends}

-- A step of the increasing iterations leaves enough fuel.
pub rank-extrapolate :
    {D : Type 0} {dom : Domain D} {rank : D → ℕ} {height : ℕ} (stable : Stabilizes dom rank height)
    (fuel iteration : ℕ) (x y : D)
    → 1 ≤ iteration
    → dom.le y x ≡ false
    → (if ltb iteration 2 then height + 2 else rank x) < suc fuel
    → (if ltb (iteration + 1) 2 then height + 2 else rank (extrapolate dom x y iteration)) < fuel
unfolding extrapolate
rank-extrapolate {dom} stable fuel iteration x y one above enough =
    ground (arith, stable.bounded (dom.join x y), stable.descends x y (iteration == 2), above)

module _ {D S : Type 0} {m : Meaning D S} (a : Analyzer D) (sound : IsSound a.dom m) (rank : D → ℕ)
    (height : ℕ) (stable : Stabilizes a.dom rank height) (wto : Wto) (depth : ℕ) (head : Label)
    (body : List Component) (inside ls : List Label) (s₀ : State D)
    (whole : (l : Label) → has l ls ≡ (eq_label l head || has l inside))
    (outside : has head inside ≡ false) (not_entry : eq_label head entry ≡ false)
    (visit : Component → State D → Result (State D))
    (each : (x : Component) (region : List Label) (s : State D)
      → IsNested a.cfg wto depth x region
      → s.skip ≡ false
      → Ends (Visits m a.cfg region s) (visit x s))
    (nested : AreNested a.cfg (IsNested a.cfg wto depth) body inside) where
  -- The table outside the cycle is kept.
  pub record Keeps (s : State D) : Type 0 where
    pub awake : s.skip ≡ false
    pub agrees : (n : Label) → has n ls ≡ false → find n s.inv ≡ find n s₀.inv

  -- The value d at the head covers what executions reach there.
  pub record Reached (d : D) (s : State D) : Type 0 where
    pub keeps : Keeps s
    pub holds : Holds s.inv head d
    pub below : (u : S) → Inside m a.cfg ls s₀.inv head u → m.models d u

  Keeps-Written : {d : D} {s b : State D} → Keeps s → Written (with_pre d) head s b → Keeps b
  Keeps-Written k w = record {
    awake = w.skip ∙ k.awake;
    agrees = λ n h. w.frame n (ground (arith, whole n)) ∙ k.agrees n h;
  }

  round_lem :
      (d : D) (s : State D)
      → Keeps s
      → Holds s.inv head d
      → Ends
          (λ (r : D × State D). IsRound a sound head inside ls s₀ whole outside not_entry d r.0 r.1)
          (round a visit head (vertex head ∷ body) d s)
  round_lem d s k h =
      round-Ends a sound head inside ls s₀ whole outside not_entry wto depth body visit each nested
        d s k.awake k.agrees h

  -- Widening stops the increasing iterations, at a value that covers the head.
  pub increase-Ends :
      (fuel iteration : ℕ) (d : D) (s : State D)
      → Keeps s
      → 1 ≤ iteration
      → (if ltb iteration 2 then height + 2 else rank d) < fuel
      → Ends
          (λ (r : D × State D). Reached r.0 r.1)
          (increase a visit head (vertex head ∷ body) fuel iteration d s)
  unfolding increase
  increase-Ends zero iteration d s k one enough = absurd (omega arith)
  increase-Ends (suc fuel) iteration d s k one enough = Ends-bind _ (set_pre-Ends head d s) λ s₁ w.
      Ends-bind _ (round_lem d s₁ (Keeps-Written k w) (Holds-with_pre w)) λ r is.
        let keeps : Keeps r.1 = record { awake = is.awake; agrees = is.agrees } in
        Ends-if (a.dom.le r.0 d) _ _
          (λ le.
            let below = λ (u : S) (i : Inside m a.cfg ls s₀.inv head u).
              (is.back (λ v _ h. sound.le r.0 d v le h) head u i).0 refl in
            Ends-bind _ (set_pre-Ends head r.0 r.1) λ s₃ w₃.
              returns (record {
                keeps = Keeps-Written keeps w₃;
                holds = Holds-with_pre w₃;
                below = below;
              }))
          (λ not_le.
            increase-Ends fuel (iteration + 1) _ r.1 keeps (omega arith)
              (rank-extrapolate stable fuel iteration d r.0 one not_le enough))

  -- The decreasing iterations keep the head covered, whenever they stop.
  pub decrease-Ends :
      (left iteration : ℕ) (d : D) (s : State D)
      → Reached d s
      → Ends (Visits m a.cfg ls s₀) (decrease a visit head (vertex head ∷ body) left iteration d s)
  unfolding decrease refine
  decrease-Ends zero iteration d s k = Ends-bind _ (round_lem d s k.keeps k.holds) λ r is.
      returns (record {
        frame = is.agrees;
        awake = is.awake;
        covers = λ n u i. (is.back (λ v j _. k.below v j) n u i).1;
      })
  decrease-Ends (suc left) iteration d s k = Ends-bind _ (round_lem d s k.keeps k.holds) λ r is.
      let back = is.back (λ v j _. k.below v j) in
      let keeps : Keeps r.1 = record { awake = is.awake; agrees = is.agrees } in
      Ends-if (a.dom.le d r.0) _ _
        (λ _.
          returns
            (record { frame = is.agrees; awake = is.awake; covers = λ n u i. (back n u i).1 }))
        (λ _. Ends-bind _ (set_pre-Ends head _ r.1) λ s₂ w.
          decrease-Ends left (iteration + 1) _ s₂ (record {
            keeps = Keeps-Written keeps w;
            holds = Holds-with_pre w;
            below = λ u i. refined_lem iteration d r.0 u (k.below u i) ((back head u i).0 refl);
          }))
    where
      refined_lem :
          (n : ℕ) (x y : D) (u : S) → m.models x u → m.models y u → m.models (refine a.dom x y n) u
      refined_lem n x y u h k = elim (Bool-cases (n == 1)) [
        | inl e ↦ rw e (sound.meet x y u h k)
        | inr e ↦ rw e (sound.narrow x y u h k)
      ]

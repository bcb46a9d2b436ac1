-- ===== src/Fixpoint/Components.antt =====
-- Visits of components, with the cycles nested in them: verifiers/prevail/src/crab/fwd_analyzer.cpp.
use linux_dev_env.Base.{
  ℕ, zero, suc, ◌+◌, ◌≤◌, ◌≡◌, ◌≢◌, refl, ap, ◌∙◌, Bool, false, not, ◌&&◌, List, [], ◌∷◌, arith,
}
use linux_dev_env.Outcome.{Result, err, out_of_fuel}
use linux_dev_env.Outcome.Ends.{Ends, returns, Ends-of, Ends-imp, Ends-bind, Ends-if}
use linux_dev_env.Label.{Label}
use linux_dev_env.Label.Keyed.{find}
use linux_dev_env.Wto.{Component, vertex, cycle, Wto, nesting, collect_heads, cycle_head}
use linux_dev_env.Wto.Nesting.{greater}
use linux_dev_env.Fixpoint.Table.{Analyzer, State, descending_iterations}
use linux_dev_env.Fixpoint.{
  nesting_of, join_entering, first_invariant, visit_cycle, visit_component,
}
use linux_dev_env.Fixpoint.Interface.{Meaning, IsSound, Stabilizes}
use linux_dev_env.Fixpoint.Reach.{IsNested, IsCycle, Visits}
use linux_dev_env.Fixpoint.Steps.{get_post-Ends, parents_of-Ends}
use linux_dev_env.Fixpoint.Regions.{visit_vertex-Ends}
use linux_dev_env.Fixpoint.Cycles.{increase-Ends, decrease-Ends}

-- Only the cache of nestings changes.
record IsSame {D : Type 0} (a b : State D) : Type 0 where
  inv : b.inv ≡ a.inv
  skip : b.skip ≡ a.skip

abbrev pub IsShallow : ℕ → Wto → Type 0
IsShallow depth wto =
    (l : Label) (nestings : List (Label × List Label))
    → collect_heads depth l (record wto { nesting = nestings }) ≢ err out_of_fuel

module _ {D S : Type 0} {m : Meaning D S} (a : Analyzer D) (sound : IsSound a.dom m)
    (shallow : IsShallow a.depth a.wto) where
  nesting_of-Ends :
      (l : Label) (s : State D)
      → Ends (λ (r : List Label × State D). IsSame s r.1) (nesting_of a l s)
  unfolding nesting_of nesting
  nesting_of-Ends l s =
      Ends-bind _
        (Ends-of (nesting a.depth l (record a.wto { nesting = s.nestings })) (λ _ _. tt)
          (ground (arith, shallow l s.nestings)))
        λ r _. returns (record { inv = refl; skip = refl })

  join_entering-Ends :
      (inner prevs : List Label) (d : D) (s : State D)
      → Ends (λ (r : D × State D). IsSame s r.1) (join_entering a inner prevs d s)
  unfolding join_entering
  join_entering-Ends inner [] d s = returns (record { inv = refl; skip = refl })
  join_entering-Ends inner (prev ∷ rest) d s = Ends-bind _ (nesting_of-Ends prev s) λ r same.
      Ends-bind {P = λ (_ : D). Unit {0}} _
        (Ends-if (greater r.0 inner) _ _ (λ _. returns tt)
          λ _. Ends-bind _ (get_post-Ends {m = m} prev r.1) λ post _. returns tt)
        λ joined _. Ends-imp (join_entering-Ends inner rest joined r.1) λ q then_same. record {
          inv = then_same.inv ∙ same.inv;
          skip = then_same.skip ∙ same.skip;
        }

  first_invariant-Ends :
      (head : Label) (s : State D)
      → Ends (λ (r : D × State D). IsSame s r.1) (first_invariant a head s)
  unfolding first_invariant
  first_invariant-Ends head s = Ends-bind _ (nesting_of-Ends head s) λ r same.
      Ends-bind _ (parents_of-Ends head a.cfg) λ prevs _.
        Ends-imp (join_entering-Ends r.0 prevs a.dom.bottom r.1) λ q then_same. record {
          inv = then_same.inv ∙ same.inv;
          skip = then_same.skip ∙ same.skip;
        }

  module _ (rank : D → ℕ) (height : ℕ) (stable : Stabilizes a.dom rank height)
      (enough : height + 3 ≤ a.rounds) where
    visit_cycle-Ends :
        (depth : ℕ) (c : ℕ) (ls : List Label) (s : State D)
        (visit : Component → State D → Result (State D))
        → ((x : Component) (region : List Label) (s : State D)
            → IsNested a.cfg a.wto depth x region
            → s.skip ≡ false
            → Ends (Visits m a.cfg region s) (visit x s))
        → IsCycle a.cfg a.wto (IsNested a.cfg a.wto depth) c ls
        → s.skip ≡ false
        → Ends (Visits m a.cfg ls s) (visit_cycle a visit c s)
    unfolding visit_cycle cycle_head
    visit_cycle-Ends depth c ls s visit each k awake =
        rw (k.found, k.starts)
          (Ends-bind {P = λ (here : Bool). here ≡ false} _
            (Ends-if s.skip _ _ (λ e. absurd cc) (λ _. returns refl))
            λ here off.
              Ends-if (s.skip && not here) _ _ (λ e. absurd (ground arith))
                λ _.
                  Ends-bind {P = λ (r : D × State D). IsSame s r.1} _
                    (Ends-if here _ _ (λ e. absurd cc) (λ _. first_invariant-Ends k.head s))
                    λ r same.
                      Ends-bind _
                        (increase-Ends a sound rank height stable a.wto depth k.head k.body k.inside
                          ls s k.whole k.outside k.not_entry visit each k.nested a.rounds 1 r.0 r.1
                          (record {
                            awake = same.skip ∙ awake;
                            agrees = λ n h. ap (λ t. find n t) same.inv;
                          })
                          (omega arith) (ground arith))
                        λ q reached.
                          decrease-Ends a sound rank height stable a.wto depth k.head k.body
                            k.inside ls s k.whole k.outside k.not_entry visit each k.nested
                            descending_iterations 1 q.0 q.1 reached)

    pub visit_component-Ends :
        (depth : ℕ) (x : Component) (ls : List Label) (s : State D)
        → IsNested a.cfg a.wto depth x ls
        → s.skip ≡ false
        → Ends (Visits m a.cfg ls s) (visit_component a depth x s)
    unfolding visit_component
    visit_component-Ends depth (vertex l) ls s nested awake =
        visit_vertex-Ends a sound l ls s nested awake
    visit_component-Ends zero (cycle c) ls s nested awake = absurd nested
    visit_component-Ends (suc depth) (cycle c) ls s nested awake =
        visit_cycle-Ends depth c ls s (visit_component a depth) (visit_component-Ends depth) nested
          awake

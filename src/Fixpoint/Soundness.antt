-- ===== src/Fixpoint/Soundness.antt =====
-- The forward analysis ends, and its table covers every execution:
-- verifiers/prevail/src/crab/fwd_analyzer.cpp.
use linux_dev_env.Base.{
  ℕ, ◌+◌, ◌≤◌, ◌≡◌, ap, sym, ◌∙◌, Bool, true, false, not, ◌&&◌, ◌||◌, some, List, [], ◌∷◌,
  get_elem?, Bool-cases, inl, inr, arith,
}
use linux_dev_env.Outcome.{Result, ok, undefined_behaviour, out_of_range}
use linux_dev_env.Outcome.Ends.{
  Ends, returns, Ends-of, Ends-imp, Ends-bind, Ends-if, Ends-or_throw, Ends-not_out_of_fuel,
}
use linux_dev_env.Label.{Label, entry}
use linux_dev_env.Label.Order.{eq_label, eq_of_eq_label, eq_label_self}
use linux_dev_env.Label.Keyed.{has, find}
use linux_dev_env.Wto.{Component, vertex, cycle, Cycle, Wto, cycle_head, loop_heads}
use linux_dev_env.Wto.Builder.{wto_of}
use linux_dev_env.Fixpoint.Table.{Analyzer, State, InvariantTable, at, get_pre, join_all_prevs}
use linux_dev_env.Fixpoint.{
  visit_vertex, visit_all, visit_component, initial, initialize_loop_counters, entry_invariant,
  analyze, run_forward_analyzer,
}
use linux_dev_env.Fixpoint.Interface.{Meaning, IsSound, Stabilizes}
use linux_dev_env.Fixpoint.Reach.{
  IsOrder, Inside, enters, moves, Reaches, begins, goes, Covers, Visits,
}
use linux_dev_env.Fixpoint.Steps.{set_pre-Ends}
use linux_dev_env.Fixpoint.Regions.{
  Holds, Holds-with_pre, Pre-Holds, Post-along, Holds-along, Transformed, transform-Ends,
  visit_all-Ends,
}
use linux_dev_env.Fixpoint.Components.{visit_component-Ends}

cycle_head-Ends : (k : Cycle) → Ends (λ (_ : Label). Unit {0}) (cycle_head k)
unfolding cycle_head
cycle_head-Ends k = Ends-of (cycle_head k) (λ _ _. tt) (ground arith)

-- The head of each cycle is there, or an exception tells that it is not.
loop_heads-Ends :
    (wto : Wto) (xs : List Component) → Ends (λ (_ : List Label). Unit {0}) (loop_heads wto xs)
unfolding loop_heads
loop_heads-Ends wto [] = returns tt
loop_heads-Ends wto (vertex l ∷ xs) = loop_heads-Ends wto xs
loop_heads-Ends wto (cycle c ∷ xs) =
    Ends-bind _ (Ends-or_throw (get_elem? wto.cycles c) undefined_behaviour (λ h. cc) (λ k e. e))
      λ k _.
        Ends-bind _ (cycle_head-Ends k)
          λ l _. Ends-bind _ (loop_heads-Ends wto xs) λ ls _. returns tt

Ends-same : {A : Type 0} {P : A → Type 0} {r : Result A} → Ends P r → Ends (λ (x : A). r ≡ ok x) r
Ends-same {r} e = Ends-of r (λ x h. h) (Ends-not_out_of_fuel e)

get_pre-Ends :
    {D : Type 0} (l : Label) (d : D) (s : State D)
    → Holds s.inv l d
    → Ends (λ (x : D). x ≡ d) (get_pre l s)
unfolding get_pre at
get_pre-Ends l d s h =
    Ends-bind _ (Ends-or_throw (find l s.inv) out_of_range (λ e. cc) (λ p e. e)) λ p e.
      let same : some p ≡ some h.pair = sym e ∙ h.found in
      let one : p ≡ h.pair = cc in returns (ap (λ x. x.pre) one ∙ h.is_pre)

module _ {D S : Type 0} {m : Meaning D S} (a : Analyzer D) (sound : IsSound a.dom m) where
  -- The entry keeps the value that is set there.
  visit_entry-Ends :
      (d : D) (s : State D)
      → Holds s.inv entry d
      → Ends
          (λ (b : State D). (b.skip ≡ false) × (s' : State D) × Transformed a sound entry d s' b)
          (visit_vertex a entry s)
  unfolding visit_vertex join_all_prevs
  visit_entry-Ends d s h =
      Ends-if (s.skip && not (eq_label entry entry)) _ _
        (λ e. absurd (ground (arith, eq_label_self entry)))
        λ _.
          let s₁ = record s { skip = false } in
          Ends-bind {P = λ (x : D). x ≡ d} _
            (Ends-if (eq_label entry entry) _ _ (λ _. get_pre-Ends entry d s₁ h)
              (λ e. absurd (ground (arith, eq_label_self entry))))
            λ x is. rw is (
              Ends-bind _ (set_pre-Ends entry d s₁) λ s₂ w.
                Ends-imp (transform-Ends a sound entry d s₂ (Holds-with_pre w))
                  λ b k. (k.skip ∙ w.skip, s₂, k))

  module _ (order : IsOrder a.cfg a.wto a.depth) (d : D) (s b c : State D)
      (first : Transformed a sound entry d s b) (rest : Visits m a.cfg order.after b c) where
    record Located (n : Label) (u : S) : Type 0 where
      known : (eq_label n entry || has n order.after) ≡ true
      at_entry : n ≡ entry → m.models d u
      in_rest : has n order.after ≡ true → Inside m a.cfg order.after b.inv n u

    covers-Located : (n : Label) (u : S) → Located n u → Covers m a.cfg c.inv n u
    covers-Located n u k = elim (Bool-cases (has n order.after)) [
      | inl e ↦ rest.covers n u (k.in_rest e)
      | inr e ↦
          let known = k.known in
          let same : n ≡ entry = eq_of_eq_label n entry (ground arith) in
          let kept : find entry c.inv ≡ find entry b.inv = rest.frame entry order.apart in
          let below : m.models d u = k.at_entry same in
          rw same (record {
            pre = Pre-Holds (Holds-along kept first.pre) below;
            post = λ t p. Post-along kept (first.post u t below p);
          })
    ]

    located : (n : Label) (u : S) → Reaches m a.cfg d n u → Located n u
    located n u (begins h) = record {
      known = ground (arith, eq_label_self entry);
      at_entry = λ _. h;
      in_rest = λ e. let off = order.apart in absurd cc;
    }
    located n u (goes {l} {s = v} r passes e) =
        let k : Located l v = located l v r in
        let there : has n order.after ≡ true = order.closed l n k.known e in
        record {
          known = ground arith;
          at_entry = λ same.
              let off = order.apart in let on = ap (λ x. has x order.after) same in absurd cc;
          in_rest = λ h. elim (Bool-cases (has l order.after)) [
            | inl i ↦ moves h i e (k.in_rest i) passes
            | inr i ↦
                enters h i e
                  (Post-along (sym (rest.frame l i)) ((covers-Located l v k).post u passes))
          ];
        }

  module _ (order : IsOrder a.cfg a.wto a.depth) (rank : D → ℕ) (height : ℕ)
      (stable : Stabilizes a.dom rank height) (enough : height + 3 ≤ a.rounds) (d : D) where
    visit_order-Ends :
        (components : List Component) (s : State D)
        → components ≡ vertex entry ∷ order.rest
        → Holds s.inv entry d
        → Ends
            (λ (c : State D).
              (n : Label) (u : S) → Reaches m a.cfg d n u → Covers m a.cfg c.inv n u)
            (visit_all (visit_component a a.depth) components s)
    unfolding visit_all visit_component
    visit_order-Ends components s starts holds = rw starts (
        Ends-bind _ (visit_entry-Ends d s holds) λ b k.
          Ends-imp
            (visit_all-Ends (visit_component a a.depth)
              (visit_component-Ends a sound order.shallow rank height stable enough a.depth)
              order.rest order.after b order.nested k.0)
            λ c v n u r.
              covers-Located order d k.1 b c k.2 v n u (located order d k.1 b c k.2 v n u r))

    -- The analysis over an order ends, at a table that covers what executions reach.
    pub analyze-Ends :
        Ends
          (λ (t : InvariantTable D).
            (n : Label) (u : S) → Reaches m a.cfg d n u → Covers m a.cfg t n u)
          (analyze a d)
    unfolding analyze
    analyze-Ends = Ends-bind _ (set_pre-Ends entry d (initial a)) λ s w.
        Ends-bind _ (visit_order-Ends a.wto.components s order.starts (Holds-with_pre w))
          λ c covers. returns covers

  initialize_loop_counters-Ends :
      (heads : List Label) (d : D)
      → Ends (λ (_ : D). Unit {0}) (initialize_loop_counters a.dom heads d)
  unfolding initialize_loop_counters
  initialize_loop_counters-Ends [] d = returns tt
  initialize_loop_counters-Ends (l ∷ heads) d =
      Ends-bind _ (sound.initialize_loop_counter d l) λ x _. initialize_loop_counters-Ends heads x

  entry_invariant-Ends :
      (check_for_termination : Bool) (d : D)
      → Ends
          (λ (x : D). entry_invariant a check_for_termination d ≡ ok x)
          (entry_invariant a check_for_termination d)
  unfolding entry_invariant
  entry_invariant-Ends check d = Ends-same (
      Ends-if check _ _
        (λ _.
          Ends-bind _ (loop_heads-Ends a.wto a.wto.components)
            λ heads _. initialize_loop_counters-Ends heads d)
        (λ _. returns tt))

-- Where the order of a control-flow graph is a weak topological order of the nodes that the entry
-- leads to, the operations of the abstract domain are sound, widening stabilizes, and there are at
-- least three rounds more than its height, the forward analysis ends: it throws an exception of the
-- code, or returns a table that covers, at each label, every state with which an execution arrives
-- there, before it and after it. Executions begin at the entry with a state of the value given,
-- with the loop counters initialized if termination is checked.
pub run_forward_analyzer-Ends :
    {D S : Type 0} {m : Meaning D S} (fuel : ℕ) (a : Analyzer D) (wto : Wto)
    (check_for_termination : Bool) (entry_inv : D) (rank : D → ℕ) (height : ℕ)
    → wto_of fuel a.cfg ≡ ok wto
    → IsOrder a.cfg wto a.depth
    → IsSound a.dom m
    → Stabilizes a.dom rank height
    → height + 3 ≤ a.rounds
    → Ends
        (λ (t : InvariantTable D).
          (d : D) × (entry_invariant (record a { wto = wto }) check_for_termination entry_inv
            ≡ ok d)
          × ((n : Label) (u : S) → Reaches m a.cfg d n u → Covers m a.cfg t n u))
        (run_forward_analyzer fuel a check_for_termination entry_inv)
unfolding run_forward_analyzer
run_forward_analyzer-Ends fuel a wto check entry_inv rank height made order sound stable enough =
    rw made (
      let b = record a { wto = wto } in
      Ends-bind _ (entry_invariant-Ends b sound check entry_inv) λ d is.
        Ends-imp (analyze-Ends b sound order rank height stable enough d)
          λ t covers. (d, is, covers))

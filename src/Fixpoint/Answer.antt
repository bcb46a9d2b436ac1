-- ===== src/Fixpoint/Answer.antt =====
-- The forward analysis of a well-formed graph returns a table that covers every execution:
-- verifiers/prevail/src/crab/fwd_analyzer.cpp.
use linux_dev_env.Base.{
  ℕ, zero, suc, ◌+◌, ◌≤◌, ◌≡◌, refl, ◌∙◌, Bool, ◌||◌, List, [], ◌∷◌, is_some, arith,
}
use linux_dev_env.Outcome.{Result, ok}
use linux_dev_env.Outcome.Ends.{Ends, Ends-ok}
use linux_dev_env.Outcome.Returns.{Returns, returns, Returns-bind, Returns-if, Returns-imp}
use linux_dev_env.Label.{Label, entry}
use linux_dev_env.Label.Order.{eq_label, eq_label_lem, eq_of_eq_label, eq_label_self}
use linux_dev_env.Label.Keyed.{has, find, emplace}
use linux_dev_env.Label.Keyed.Lookup.{has-keys}
use linux_dev_env.Cfg.{Cfg, labels}
use linux_dev_env.Cfg.Graph.{IsGraph}
use linux_dev_env.Wto.{Component, vertex, cycle, Wto, cycle_head, loop_heads}
use linux_dev_env.Wto.Builder.{wto_of}
use linux_dev_env.Fixpoint.{
  visit_all, visit_component, bottoms, initial, initialize_loop_counters, entry_invariant, analyze,
  run_forward_analyzer,
}
use linux_dev_env.Fixpoint.Table.{Analyzer, State, InvariantTable}
use linux_dev_env.Fixpoint.Interface.{Meaning, IsSound, Stabilizes}
use linux_dev_env.Fixpoint.Reach.{AreNested, followed, IsNested, IsOrder, Reaches, Covers}
use linux_dev_env.Fixpoint.Total.{IsTotal, IsFull, set_pre-IsFull, visit_vertex-Returns}
use linux_dev_env.Fixpoint.Returned.{IsHeaded, visit_component-Returns, visit_all-Returns}
use linux_dev_env.Fixpoint.Soundness.{run_forward_analyzer-Ends}

Returns-Ends : {A : Type 0} {P Q : A → Type 0} {r : Result A} → Returns P r → Ends Q r → Returns Q r
Returns-Ends (returns p) e = returns (Ends-ok e refl)

find-emplace_any :
    {V : Type 0} (x l : Label) (v : V) (map : List (Label × V))
    → is_some (find x (emplace l v map)) ≡ (eq_label x l || is_some (find x map))
unfolding find emplace
find-emplace_any x l v [] = ground arith
find-emplace_any x l v ((m, w) ∷ map) = ground (
  arith,
  find-emplace_any x l v map,
  eq_label_lem l m,
  eq_of_eq_label l m,
  eq_of_eq_label x m,
  eq_of_eq_label x l,
)

find-bottoms :
    {D : Type 0} (bottom : D) (x : Label) (ls : List Label)
    → is_some (find x (bottoms bottom ls)) ≡ has x ls
unfolding find has
find-bottoms bottom x [] = refl
find-bottoms bottom x (l ∷ ls) = ground (
  arith,
  find-bottoms bottom x ls,
  find-emplace_any x l (record { pre = bottom; post = bottom }) (bottoms bottom ls),
)

loop_heads-Returns :
    (cfg : Cfg) (wto : Wto) (depth : ℕ) (xs : List Component) (ls : List Label)
    → AreNested cfg (IsNested cfg wto depth) xs ls
    → Returns (λ (_ : List Label). Unit {0}) (loop_heads wto xs)
unfolding loop_heads cycle_head
loop_heads-Returns cfg wto depth [] ls nested = returns tt
loop_heads-Returns cfg wto depth (vertex l ∷ xs) ls (followed first rest one more union apart on) =
    loop_heads-Returns cfg wto depth xs rest more
loop_heads-Returns cfg wto zero (cycle c ∷ xs) ls (followed first rest one more union apart on) =
    absurd one
loop_heads-Returns cfg wto (suc depth) (cycle c ∷ xs) ls
      (followed first rest one more union apart on) =
    rw (one.found, one.starts)
      (Returns-bind _ (loop_heads-Returns cfg wto (suc depth) xs rest more) λ heads _. returns tt)

module _ {D : Type 0} (a : Analyzer D) (total : IsTotal a.dom) where
  initialize_loop_counters-Returns :
      (heads : List Label) (d : D)
      → Returns (λ (_ : D). Unit {0}) (initialize_loop_counters a.dom heads d)
  unfolding initialize_loop_counters
  initialize_loop_counters-Returns [] d = returns tt
  initialize_loop_counters-Returns (l ∷ heads) d =
      Returns-bind _ (total.initialize_loop_counter d l)
        λ x _. initialize_loop_counters-Returns heads x

  module _ (order : IsOrder a.cfg a.wto a.depth) where
    entry_invariant-Returns :
        (check_for_termination : Bool) (d : D)
        → Returns (λ (_ : D). Unit {0}) (entry_invariant a check_for_termination d)
    unfolding entry_invariant loop_heads
    entry_invariant-Returns check d =
        Returns-if check _ _
          (λ _.
            Returns-bind {P = λ (_ : List Label). Unit {0}} _
              (rw order.starts
                (loop_heads-Returns a.cfg a.wto a.depth order.rest order.after order.nested))
              λ heads _. initialize_loop_counters-Returns heads d)
          (λ _. returns tt)

    module _ (graph : IsGraph a.cfg) (headed : IsHeaded a.depth a.wto) (rank : D → ℕ) (height : ℕ)
        (stable : Stabilizes a.dom rank height) (enough : height + 3 ≤ a.rounds) where
      visit_order-Returns :
          (components : List Component) (s : State D)
          → components ≡ vertex entry ∷ order.rest
          → IsFull a.cfg s.inv
          → Returns (λ (_ : State D). Unit {0}) (visit_all (visit_component a a.depth) components s)
      unfolding visit_all visit_component
      visit_order-Returns components s starts full = rw starts (
          Returns-bind _
            (visit_vertex-Returns a total graph entry s graph.has_entry full
              (ground (arith, eq_label_self entry)))
            λ b k.
              Returns-imp
                (visit_all-Returns a total graph headed rank height stable enough
                  (visit_component a a.depth)
                  (visit_component-Returns a total graph headed rank height stable enough a.depth)
                  entry order.rest order.after b order.nested order.nodes k).0
                λ c _. tt)

      analyze-Returns : (d : D) → Returns (λ (_ : InvariantTable D). Unit {0}) (analyze a d)
      unfolding analyze initial labels
      analyze-Returns d =
          Returns-bind _
            (set_pre-IsFull a total graph entry d (initial a) graph.has_entry
              (λ n h. find-bottoms a.dom.bottom n (labels a.cfg) ∙ has-keys n a.cfg.neighbours ∙ h))
            λ s full.
              Returns-bind _ (visit_order-Returns a.wto.components s order.starts full)
                λ c _. returns tt

returned :
    {D : Type 0} (fuel : ℕ) (a : Analyzer D) (wto : Wto) (check : Bool) (entry_inv : D)
    (rank : D → ℕ) (height : ℕ)
    → wto_of fuel a.cfg ≡ ok wto
    → IsOrder a.cfg wto a.depth
    → IsGraph a.cfg
    → IsHeaded a.depth wto
    → IsTotal a.dom
    → Stabilizes a.dom rank height
    → height + 3 ≤ a.rounds
    → Returns (λ (_ : InvariantTable D). Unit {0}) (run_forward_analyzer fuel a check entry_inv)
unfolding run_forward_analyzer
returned fuel a wto check entry_inv rank height made order graph headed total stable enough =
    rw made (
      let b = record a { wto = wto } in
      Returns-bind _ (entry_invariant-Returns b total order check entry_inv)
        λ d _. analyze-Returns b total order graph headed rank height stable enough d)

-- Where the order of a well-formed control-flow graph is a weak topological order of the nodes that
-- the entry leads to, the heads around each label are found, the operations of the abstract domain
-- are sound and throw nothing, widening stabilizes, and there are at least three rounds more than
-- its height, the forward analysis returns a table that covers, at each label, every state with
-- which an execution arrives there, before it and after it. Executions begin at the entry with a
-- state of the value given, with the loop counters initialized if termination is checked; only those
-- whose assertions hold are counted.
run_forward_analyzer-Returns :
    {D S : Type 0} {m : Meaning D S} (fuel : ℕ) (a : Analyzer D) (wto : Wto)
    (check_for_termination : Bool) (entry_inv : D) (rank : D → ℕ) (height : ℕ)
    → wto_of fuel a.cfg ≡ ok wto
    → IsOrder a.cfg wto a.depth
    → IsGraph a.cfg
    → IsHeaded a.depth wto
    → IsTotal a.dom
    → IsSound a.dom m
    → Stabilizes a.dom rank height
    → height + 3 ≤ a.rounds
    → Returns
        (λ (t : InvariantTable D).
          (d : D) × (entry_invariant (record a { wto = wto }) check_for_termination entry_inv
            ≡ ok d)
          × ((n : Label) (u : S) → Reaches m a.cfg d n u → Covers m a.cfg t n u))
        (run_forward_analyzer fuel a check_for_termination entry_inv)
run_forward_analyzer-Returns fuel a wto check entry_inv rank height made order graph headed total
      sound stable enough =
    Returns-Ends
      (returned fuel a wto check entry_inv rank height made order graph headed total stable enough)
      (run_forward_analyzer-Ends fuel a wto check entry_inv rank height made order sound stable
        enough)

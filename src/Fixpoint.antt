-- ===== src/Fixpoint.antt =====
-- The forward analysis over the weak topological order: verifiers/prevail/src/crab/fwd_analyzer.cpp.
pub mod Interface
pub mod Table
pub mod Reach
pub mod Steps
pub mod Regions
pub mod Rounds
pub mod Cycles
pub mod Components
pub mod Soundness
pub mod Total
pub mod Returned
pub mod Answer
pub mod Checked
use linux_dev_env.Base.{
  ℕ, zero, suc, ◌+◌, Bool, true, false, not, ◌&&◌, List, [], ◌∷◌, if◌then◌else◌,
}
use linux_dev_env.Outcome.{Result, ok, err, out_of_fuel, ◌>>=◌}
use linux_dev_env.Label.{Label, entry}
use linux_dev_env.Label.Order.{eq_label}
use linux_dev_env.Label.Keyed.{emplace}
use linux_dev_env.Cfg.{labels, parents_of}
use linux_dev_env.Wto.{
  Component, cycle, vertex, Wto, cycle_at, cycle_head, nesting, loop_heads, is_component_member,
}
use linux_dev_env.Wto.Builder.{wto_of}
use linux_dev_env.Wto.Nesting.{greater}
use linux_dev_env.Fixpoint.Interface.{Domain}
use linux_dev_env.Fixpoint.Table.{
  Analyzer, InvariantTable, State, descending_iterations, extrapolate, get_post, get_pre,
  join_all_prevs, refine, set_pre, transform_to_post,
}

-- `*plabel != head`, negated.
abbrev pub is_vertex : Label → Component → Bool
is_vertex l (vertex m) = eq_label m l
is_vertex l (cycle c) = false

module _ {D : Type 0} where
  -- `operator()` of a label.
  unfoldable pub visit_vertex : Analyzer D → Label → State D → Result (State D)
  unfolding join_all_prevs set_pre transform_to_post
  visit_vertex a l s = if s.skip && not (eq_label l entry) then ok s else (do
    let s₁ = record s { skip = false }
    pre ← join_all_prevs a l s₁
    s₂ ← set_pre l pre s₁
    transform_to_post a l pre s₂)

  -- `_wto.nesting(l)`, with its cache.
  unfoldable pub nesting_of : Analyzer D → Label → State D → Result (List Label × State D)
  unfolding nesting
  nesting_of a l s = do
    (heads, wto) ← nesting a.depth l (record a.wto { nesting = s.nestings })
    ok (heads, record s { nestings = wto.nesting })

  -- The join of the values that enter a cycle.
  unfoldable pub join_entering :
      Analyzer D → List Label → List Label → D → State D → Result (D × State D)
  unfolding nesting_of get_post greater
  join_entering a inner [] res s = ok (res, s)
  join_entering a inner (prev ∷ rest) res s = do
    (outer, s₁) ← nesting_of a prev s
    joined ←
        if greater outer inner then ok res else (get_post prev s₁ >>= λ d. ok (a.dom.join res d))
    join_entering a inner rest joined s₁

  -- The components of a cycle but for its head.
  unfoldable pub visit_body :
      (Component → State D → Result (State D)) → Label → List Component → State D → Result (State D)
  visit_body visit head [] s = ok s
  visit_body visit head (x ∷ xs) s = do
    s₁ ← if is_vertex head x then ok s else visit x s
    visit_body visit head xs s₁

  -- One round of either loop: the body, and the value at the head after it.
  unfoldable pub round :
      Analyzer D
      → (Component → State D → Result (State D))
      → Label
      → List Component
      → D
      → State D
      → Result (D × State D)
  unfolding transform_to_post visit_body join_all_prevs
  round a visit head components invariant s = do
    s₁ ← transform_to_post a head invariant s
    s₂ ← visit_body visit head components s₁
    new_pre ← join_all_prevs a head s₂
    ok (new_pre, s₂)

  -- The increasing iterations.
  unfoldable pub increase :
      Analyzer D
      → (Component → State D → Result (State D))
      → Label
      → List Component
      → ℕ
      → ℕ
      → D
      → State D
      → Result (D × State D)
  unfolding set_pre round extrapolate
  increase a visit head components zero iteration invariant s = err out_of_fuel
  increase a visit head components (suc fuel) iteration invariant s = do
    s₁ ← set_pre head invariant s
    (new_pre, s₂) ← round a visit head components invariant s₁
    let more =
        increase a visit head components fuel (iteration + 1)
          (extrapolate a.dom invariant new_pre iteration) s₂
    if a.dom.le new_pre invariant
        then (set_pre head new_pre s₂ >>= λ s₃. ok (new_pre, s₃))
        else more

  -- The decreasing iterations, with those left after this one until the limit is exceeded.
  unfoldable pub decrease :
      Analyzer D
      → (Component → State D → Result (State D))
      → Label
      → List Component
      → ℕ
      → ℕ
      → D
      → State D
      → Result (State D)
  unfolding set_pre round refine
  decrease a visit head components zero iteration invariant s = do
    (_, s₁) ← round a visit head components invariant s
    ok s₁
  decrease a visit head components (suc left) iteration invariant s = do
    (new_pre, s₁) ← round a visit head components invariant s
    let refined = refine a.dom invariant new_pre iteration
    let more = λ (s₂ : State D). decrease a visit head components left (iteration + 1) refined s₂
    if a.dom.le invariant new_pre then ok s₁ else (set_pre head refined s₁ >>= more)

  -- Whether to skip the cycle, and the value at its head to begin with.
  unfoldable pub first_invariant : Analyzer D → Label → State D → Result (D × State D)
  unfolding join_entering nesting_of
  first_invariant a head s = do
    (inner, s₁) ← nesting_of a head s
    prevs ← parents_of head a.cfg
    join_entering a inner prevs a.dom.bottom s₁

  -- `operator()` of a cycle, with the visits of its components.
  unfoldable pub visit_cycle :
      Analyzer D → (Component → State D → Result (State D)) → ℕ → State D → Result (State D)
  unfolding get_pre
  visit_cycle a visit c s = do
    this ← cycle_at c a.wto
    head ← cycle_head this
    here ← if s.skip then is_component_member a.depth entry a.wto (cycle c) else ok false
    if s.skip && not here then ok s else (do
      (invariant, s₁) ←
          if here
          then (get_pre entry s >>= λ d. ok (d, record s { skip = false }))
          else first_invariant a head s
      (reached, s₂) ← increase a visit head this.components a.rounds 1 invariant s₁
      decrease a visit head this.components descending_iterations 1 reached s₂)

  unfoldable pub visit_component : Analyzer D → ℕ → Component → State D → Result (State D)
  unfolding visit_vertex visit_cycle
  visit_component a depth (vertex l) s = visit_vertex a l s
  visit_component a zero (cycle c) s = err out_of_fuel
  visit_component a (suc depth) (cycle c) s = visit_cycle a (visit_component a depth) c s

  unfoldable pub visit_all :
      (Component → State D → Result (State D)) → List Component → State D → Result (State D)
  visit_all visit [] s = ok s
  visit_all visit (x ∷ xs) s = visit x s >>= visit_all visit xs

  abbrev bottoms : D → List Label → InvariantTable D
  bottoms bottom [] = []
  bottoms bottom (l ∷ ls) = emplace l (record { pre = bottom; post = bottom }) (bottoms bottom ls)

  -- The constructor of the iterator.
  unfoldable pub initial : Analyzer D → State D
  unfolding labels emplace
  initial a = record {
    inv = bottoms a.dom.bottom (labels a.cfg);
    skip = true;
    nestings = a.wto.nesting;
  }

  unfoldable pub initialize_loop_counters : Domain D → List Label → D → Result D
  initialize_loop_counters dom [] entry_inv = ok entry_inv
  initialize_loop_counters dom (l ∷ ls) entry_inv =
      dom.initialize_loop_counter entry_inv l >>= initialize_loop_counters dom ls

  -- The value at the entry that the analysis begins with.
  unfoldable pub entry_invariant : Analyzer D → Bool → D → Result D
  unfolding initialize_loop_counters loop_heads
  entry_invariant a check_for_termination entry_inv =
      if check_for_termination
      then (do
        heads ← loop_heads a.wto a.wto.components
        initialize_loop_counters a.dom heads entry_inv)
      else ok entry_inv

  -- The analysis over an order.
  unfoldable pub analyze : Analyzer D → D → Result (InvariantTable D)
  unfolding initial set_pre visit_all visit_component
  analyze a d = do
    s ← set_pre entry d (initial a)
    s₁ ← visit_all (visit_component a a.depth) a.wto.components s
    ok s₁.inv

  -- `run_forward_analyzer`
  unfoldable pub run_forward_analyzer : ℕ → Analyzer D → Bool → D → Result (InvariantTable D)
  unfolding entry_invariant analyze wto_of
  run_forward_analyzer fuel a check_for_termination entry_inv = do
    wto ← wto_of fuel a.cfg
    let analyzer = record a { wto = wto }
    d ← entry_invariant analyzer check_for_termination entry_inv
    analyze analyzer d

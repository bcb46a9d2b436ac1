-- ===== src/Fixpoint/Returned.antt =====
-- The visits of components and the whole analysis return: verifiers/prevail/src/crab/fwd_analyzer.cpp.
use linux_dev_env.Base.{
  ℕ, zero, suc, ◌+◌, ◌≤◌, ◌<◌, ◌≡◌, refl, Bool, true, false, not, ◌&&◌, List, [], ◌∷◌, ltb,
  if◌then◌else◌, Option-cases, inl, inr, arith,
}
use linux_dev_env.Outcome.{Result}
use linux_dev_env.Outcome.Returns.{Returns, returns, Returns-bind, Returns-if}
use linux_dev_env.Label.{Label}
use linux_dev_env.Label.Order.{eq_label_self}
use linux_dev_env.Label.Keyed.{has, find}
use linux_dev_env.Cfg.Graph.{IsGraph, is_node}
use linux_dev_env.Wto.{Component, vertex, cycle, Wto, nesting, collect_heads, cycle_head}
use linux_dev_env.Wto.Nesting.{greater}
use linux_dev_env.Fixpoint.{
  is_vertex, visit_body, round, increase, decrease, nesting_of, join_entering, first_invariant,
  visit_cycle, visit_component, visit_all,
}
use linux_dev_env.Fixpoint.Table.{Analyzer, State, descending_iterations}
use linux_dev_env.Fixpoint.Interface.{Stabilizes}
use linux_dev_env.Fixpoint.Reach.{AreNested, followed, IsNested, IsCycle}
use linux_dev_env.Fixpoint.Cycles.{rank-extrapolate}
use linux_dev_env.Fixpoint.Total.{
  IsTotal, IsAlive, AreNodes, set_pre-Returns, get_post-Returns, transform_to_post-Returns,
  parents_of-Returns, join_all_prevs-Returns, visit_vertex-Returns,
}

-- The heads around each label are found.
abbrev pub IsHeaded : ℕ → Wto → Type 0
IsHeaded depth wto =
    (l : Label) (nestings : List (Label × List Label))
    → Returns (λ (_ : List Label). Unit {0})
        (collect_heads depth l (record wto { nesting = nestings }))

nesting-Returns :
    (depth : ℕ) (l : Label) (wto : Wto)
    → Returns (λ (_ : List Label). Unit {0}) (collect_heads depth l wto)
    → Returns (λ (_ : List Label × Wto). Unit {0}) (nesting depth l wto)
unfolding nesting
nesting-Returns depth l wto h = elim (Option-cases (find l wto.nesting)) [
  | inl e ↦ rw (e, nesting) (Returns-bind _ h λ heads _. returns tt)
  | inr (heads, e) ↦ rw (e, nesting) (returns tt)
]

module _ {D : Type 0} (a : Analyzer D) (total : IsTotal a.dom) (graph : IsGraph a.cfg)
    (headed : IsHeaded a.depth a.wto) (rank : D → ℕ) (height : ℕ)
    (stable : Stabilizes a.dom rank height) (enough : height + 3 ≤ a.rounds) where
  nesting_of-Returns :
      (l : Label) (s : State D)
      → IsAlive a.cfg s
      → Returns (λ (r : List Label × State D). IsAlive a.cfg r.1) (nesting_of a l s)
  unfolding nesting_of
  nesting_of-Returns l s k =
      Returns-bind {P = λ (_ : List Label × Wto). Unit {0}} _
        (nesting-Returns a.depth l (record a.wto { nesting = s.nestings }) (headed l s.nestings))
        λ r _. returns (record { full = k.full; awake = k.awake })

  join_entering-Returns :
      (inner prevs : List Label) (d : D) (s : State D)
      → AreNodes a.cfg prevs
      → IsAlive a.cfg s
      → Returns (λ (r : D × State D). IsAlive a.cfg r.1) (join_entering a inner prevs d s)
  unfolding join_entering has
  join_entering-Returns inner [] d s nodes k = returns k
  join_entering-Returns inner (prev ∷ rest) d s nodes k =
      Returns-bind _ (nesting_of-Returns prev s k) λ r k₁.
        Returns-bind {P = λ (_ : D). Unit {0}} _
          (Returns-if (greater r.0 inner) _ _ (λ _. returns tt)
            λ _.
              Returns-bind _
                (get_post-Returns a total graph prev r.1
                  (nodes prev (ground (arith, eq_label_self prev))) k₁)
                λ post _. returns tt)
          λ joined _. join_entering-Returns inner rest joined r.1 (λ l h. nodes l (ground arith)) k₁

  pub visit_all-Returns :
      {Nested : Component → List Label → Type 0} (visit : Component → State D → Result (State D))
      → ((x : Component) (region : List Label) (s : State D)
          → Nested x region
          → AreNodes a.cfg region
          → IsAlive a.cfg s
          → Returns (IsAlive a.cfg) (visit x s))
      → (head : Label) (xs : List Component) (ls : List Label) (s : State D)
      → AreNested a.cfg Nested xs ls
      → AreNodes a.cfg ls
      → IsAlive a.cfg s
      → Returns (IsAlive a.cfg) (visit_all visit xs s)
        × Returns (IsAlive a.cfg) (visit_body visit head xs s)
  unfolding visit_all visit_body
  visit_all-Returns visit each head [] ls s nested nodes k = (returns k, returns k)
  visit_all-Returns visit each head (x ∷ xs) ls s (followed first rest one more union apart on)
        nodes k =
      let here = each x first s one (λ l h. nodes l (ground (arith, union l))) k in
      let later = λ (b : State D) (k₁ : IsAlive a.cfg b).
        visit_all-Returns visit each head xs rest b more (λ l h. nodes l (ground (arith, union l)))
          k₁ in
      (
        Returns-bind _ here λ b k₁. (later b k₁).0,
        Returns-bind _ (Returns-if (is_vertex head x) _ _ (λ _. returns k) (λ _. here))
            λ b k₁. (later b k₁).1,
      )

  module _ (wto : Wto) (depth : ℕ) (head : Label) (body : List Component) (inside : List Label)
      (node : is_node a.cfg head ≡ true) (visit : Component → State D → Result (State D))
      (each : (x : Component) (region : List Label) (s : State D)
        → IsNested a.cfg wto depth x region
        → AreNodes a.cfg region
        → IsAlive a.cfg s
        → Returns (IsAlive a.cfg) (visit x s))
      (nested : AreNested a.cfg (IsNested a.cfg wto depth) body inside)
      (nodes : AreNodes a.cfg inside) where
    body-Returns :
        (s : State D)
        → IsAlive a.cfg s
        → Returns (IsAlive a.cfg) (visit_body visit head (vertex head ∷ body) s)
    unfolding visit_body
    body-Returns s k =
        rw (eq_label_self head) (visit_all-Returns visit each head body inside s nested nodes k).1

    round-Returns :
        (d : D) (s : State D)
        → IsAlive a.cfg s
        → Returns
            (λ (r : D × State D). IsAlive a.cfg r.1)
            (round a visit head (vertex head ∷ body) d s)
    unfolding round
    round-Returns d s k =
        Returns-bind _ (transform_to_post-Returns a total graph head d s node k) λ s₁ k₁.
          Returns-bind _ (body-Returns s₁ k₁) λ b k₂.
            Returns-bind _ (join_all_prevs-Returns a total graph head b node k₂) λ x _. returns k₂

    increase-Returns :
        (fuel iteration : ℕ) (d : D) (s : State D)
        → IsAlive a.cfg s
        → 1 ≤ iteration
        → (if ltb iteration 2 then height + 2 else rank d) < fuel
        → Returns
            (λ (r : D × State D). IsAlive a.cfg r.1)
            (increase a visit head (vertex head ∷ body) fuel iteration d s)
    unfolding increase
    increase-Returns zero iteration d s k one fuelled = absurd (omega arith)
    increase-Returns (suc fuel) iteration d s k one fuelled =
        Returns-bind _ (set_pre-Returns a total graph head d s node k) λ s₁ k₁.
          Returns-bind _ (round-Returns d s₁ k₁) λ r k₂.
            Returns-if (a.dom.le r.0 d) _ _
              (λ _.
                Returns-bind _ (set_pre-Returns a total graph head r.0 r.1 node k₂)
                  λ s₃ k₃. returns k₃)
              (λ above.
                increase-Returns fuel (iteration + 1) _ r.1 k₂ (omega arith)
                  (rank-extrapolate stable fuel iteration d r.0 one above fuelled))

    decrease-Returns :
        (left iteration : ℕ) (d : D) (s : State D)
        → IsAlive a.cfg s
        → Returns (IsAlive a.cfg) (decrease a visit head (vertex head ∷ body) left iteration d s)
    unfolding decrease
    decrease-Returns zero iteration d s k = Returns-bind _ (round-Returns d s k) λ r k₁. returns k₁
    decrease-Returns (suc left) iteration d s k = Returns-bind _ (round-Returns d s k) λ r k₁.
        Returns-if (a.dom.le d r.0) _ _ (λ _. returns k₁)
          λ _.
            Returns-bind _ (set_pre-Returns a total graph head _ r.1 node k₁)
              λ s₂ k₂. decrease-Returns left (iteration + 1) _ s₂ k₂

  visit_cycle-Returns :
      (depth c : ℕ) (ls : List Label) (s : State D) (visit : Component → State D → Result (State D))
      → ((x : Component) (region : List Label) (s : State D)
          → IsNested a.cfg a.wto depth x region
          → AreNodes a.cfg region
          → IsAlive a.cfg s
          → Returns (IsAlive a.cfg) (visit x s))
      → IsCycle a.cfg a.wto (IsNested a.cfg a.wto depth) c ls
      → AreNodes a.cfg ls
      → IsAlive a.cfg s
      → Returns (IsAlive a.cfg) (visit_cycle a visit c s)
  unfolding visit_cycle cycle_head first_invariant
  visit_cycle-Returns depth c ls s visit each k nodes alive =
      let node = nodes k.head (ground (arith, k.whole k.head, eq_label_self k.head)) in
      let inner : AreNodes a.cfg k.inside = λ l h. nodes l (ground (arith, k.whole l)) in
      let off = alive.awake in
      rw (k.found, k.starts)
        (Returns-bind {P = λ (here : Bool). here ≡ false} _
          (Returns-if s.skip _ _ (λ e. absurd cc) (λ _. returns refl))
          λ here no.
            Returns-if (s.skip && not here) _ _ (λ e. absurd (ground arith))
              λ _.
                Returns-bind {P = λ (r : D × State D). IsAlive a.cfg r.1} _
                  (Returns-if here _ _ (λ yes_here. absurd cc)
                    λ _. Returns-bind _ (nesting_of-Returns k.head s alive) λ r k₁.
                      Returns-bind _ (parents_of-Returns a total graph k.head node)
                        λ prevs are. join_entering-Returns r.0 prevs a.dom.bottom r.1 are k₁)
                  λ r k₁.
                    Returns-bind _
                      (increase-Returns a.wto depth k.head k.body k.inside node visit each k.nested
                        inner a.rounds 1 r.0 r.1 k₁ (omega arith) (ground arith))
                      λ q k₂.
                        decrease-Returns a.wto depth k.head k.body k.inside node visit each k.nested
                          inner descending_iterations 1 q.0 q.1 k₂)

  pub visit_component-Returns :
      (depth : ℕ) (x : Component) (ls : List Label) (s : State D)
      → IsNested a.cfg a.wto depth x ls
      → AreNodes a.cfg ls
      → IsAlive a.cfg s
      → Returns (IsAlive a.cfg) (visit_component a depth x s)
  unfolding visit_component
  visit_component-Returns depth (vertex l) ls s (only, no_loop, off) nodes k =
      let awake = k.awake in
      visit_vertex-Returns a total graph l s (nodes l (ground (arith, only l, eq_label_self l)))
        k.full (ground arith)
  visit_component-Returns zero (cycle c) ls s nested nodes k = absurd nested
  visit_component-Returns (suc depth) (cycle c) ls s nested nodes k =
      visit_cycle-Returns depth c ls s (visit_component a depth) (visit_component-Returns depth)
        nested nodes k

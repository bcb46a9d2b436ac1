-- ===== src/Fixpoint/Total.antt =====
-- The forward analysis of a well-formed graph throws nothing, where the operations of the abstract
-- domain do not: verifiers/prevail/src/crab/fwd_analyzer.cpp.
use linux_dev_env.Base.{
  ◌≡◌, refl, sym, ◌∙◌, true, false, not, ◌&&◌, Option, none, some, List, [], ◌∷◌, is_some, arith,
}
use linux_dev_env.Outcome.{Error, out_of_range, or_throw}
use linux_dev_env.Outcome.Returns.{Returns, returns, Returns-bind, Returns-if}
use linux_dev_env.Label.{Label, entry}
use linux_dev_env.Label.Order.{eq_label, eq_label_self}
use linux_dev_env.Label.Keyed.{has, find, update}
use linux_dev_env.Label.Keyed.Lookup.{find-update}
use linux_dev_env.Syntax.Instruction.{Instruction}
use linux_dev_env.Syntax.Assertion.{Assertion}
use linux_dev_env.Cfg.{
  Cfg, GuardedInstruction, guarded_at, get_node, not_found, parents_of, instruction_at,
  assertions_at,
}
use linux_dev_env.Cfg.Graph.{IsGraph, is_node}
use linux_dev_env.Fixpoint.{visit_vertex}
use linux_dev_env.Fixpoint.Table.{
  Analyzer, State, InvariantMapPair, InvariantTable, at, set_pre, set_post, get_pre, get_post,
  assume_all, assumed, transform_to_post, join_posts, join_all_prevs,
}
use linux_dev_env.Fixpoint.Interface.{Domain}

-- The operations of the domain throw nothing.
pub record IsTotal {D : Type 0} (dom : Domain D) : Type 0 where
  pub assume : (x : D) (a : Assertion) → Returns (λ (_ : D). Unit {0}) (dom.assume x a)
  pub transform : (x : D) (i : Instruction) → Returns (λ (_ : D). Unit {0}) (dom.transform x i)
  pub initialize_loop_counter :
      (x : D) (l : Label) → Returns (λ (_ : D). Unit {0}) (dom.initialize_loop_counter x l)

abbrev pub IsFull : {D : Type 0} → Cfg → InvariantTable D → Type 0
IsFull cfg t = (l : Label) → is_node cfg l ≡ true → is_some (find l t) ≡ true

-- The table has an entry for each node, and the analysis does not skip.
pub record IsAlive {D : Type 0} (cfg : Cfg) (s : State D) : Type 0 where
  pub full : IsFull cfg s.inv
  pub awake : s.skip ≡ false

or_throw-Returns :
    {A : Type 0} (o : Option A) (e : Error)
    → is_some o ≡ true
    → Returns (λ (x : A). o ≡ some x) (or_throw o e)
or_throw-Returns none e h = cc
or_throw-Returns (some x) e h = returns refl

abbrev pub AreNodes : Cfg → List Label → Type 0
AreNodes cfg ls = (l : Label) → has l ls ≡ true → is_node cfg l ≡ true

module _ {D : Type 0} (a : Analyzer D) (total : IsTotal a.dom) (graph : IsGraph a.cfg) where
  full-update :
      (l : Label) (p : InvariantMapPair D) (t : InvariantTable D)
      → is_node a.cfg l ≡ true
      → IsFull a.cfg t
      → IsFull a.cfg (update l p t)
  full-update l p t node full n h =
      let there : is_some (find l t) ≡ true = full l node in
      rw (find-update n l p t there) (ground (arith, full n h))

  IsAlive-update :
      (l : Label) (p : InvariantMapPair D) (s : State D)
      → is_node a.cfg l ≡ true
      → IsAlive a.cfg s
      → IsAlive a.cfg (record s { inv = update l p s.inv })
  IsAlive-update l p s node k = record { full = full-update l p s.inv node k.full; awake = k.awake }

  pub set_pre-IsFull :
      (l : Label) (v : D) (s : State D)
      → is_node a.cfg l ≡ true
      → IsFull a.cfg s.inv
      → Returns (λ (b : State D). IsFull a.cfg b.inv) (set_pre l v s)
  unfolding set_pre at
  set_pre-IsFull l v s node full =
      Returns-bind _ (or_throw-Returns (find l s.inv) out_of_range (full l node))
        λ p _. returns (full-update l _ s.inv node full)

  pub set_pre-Returns :
      (l : Label) (v : D) (s : State D)
      → is_node a.cfg l ≡ true
      → IsAlive a.cfg s
      → Returns (IsAlive a.cfg) (set_pre l v s)
  unfolding set_pre at
  set_pre-Returns l v s node k =
      Returns-bind _ (or_throw-Returns (find l s.inv) out_of_range (k.full l node))
        λ p _. returns (IsAlive-update l _ s node k)

  set_post-Returns :
      (l : Label) (v : D) (s : State D)
      → is_node a.cfg l ≡ true
      → IsAlive a.cfg s
      → Returns (IsAlive a.cfg) (set_post l v s)
  unfolding set_post at
  set_post-Returns l v s node k =
      Returns-bind _ (or_throw-Returns (find l s.inv) out_of_range (k.full l node))
        λ p _. returns (IsAlive-update l _ s node k)

  pub get_post-Returns :
      (l : Label) (s : State D)
      → is_node a.cfg l ≡ true
      → IsAlive a.cfg s
      → Returns (λ (_ : D). Unit {0}) (get_post l s)
  unfolding get_post at
  get_post-Returns l s node k =
      Returns-bind _ (or_throw-Returns (find l s.inv) out_of_range (k.full l node))
        λ p _. returns tt

  pub get_pre-Returns :
      (l : Label) (s : State D)
      → is_node a.cfg l ≡ true
      → IsAlive a.cfg s
      → Returns (λ (_ : D). Unit {0}) (get_pre l s)
  unfolding get_pre at
  get_pre-Returns l s node k =
      Returns-bind _ (or_throw-Returns (find l s.inv) out_of_range (k.full l node))
        λ p _. returns tt

  guarded_at-Returns :
      (l : Label)
      → is_node a.cfg l ≡ true
      → Returns
          (λ (g : GuardedInstruction). find l a.cfg.instructions ≡ some g)
          (guarded_at l a.cfg)
  unfolding guarded_at
  guarded_at-Returns l node =
      or_throw-Returns (find l a.cfg.instructions) (not_found l) (sym (graph.filled l) ∙ node)

  assume_all-Returns :
      (as_list : List Assertion) (x : D)
      → Returns (λ (_ : D). Unit {0}) (assume_all a.dom as_list x)
  unfolding assume_all
  assume_all-Returns [] x = returns tt
  assume_all-Returns (c ∷ rest) x =
      Returns-bind _ (total.assume x c) λ y _. assume_all-Returns rest y

  pub transform_to_post-Returns :
      (l : Label) (x : D) (s : State D)
      → is_node a.cfg l ≡ true
      → IsAlive a.cfg s
      → Returns (IsAlive a.cfg) (transform_to_post a l x s)
  unfolding transform_to_post assumed assertions_at instruction_at
  transform_to_post-Returns l x s node k =
      Returns-bind {P = λ (_ : D). Unit {0}} _
        (Returns-if a.assume_assertions _ _
          (λ _.
            Returns-bind {P = λ (_ : List Assertion). Unit {0}} _
              (Returns-bind _ (guarded_at-Returns l node) λ g _. returns tt)
              λ as_list _. assume_all-Returns as_list x)
          (λ _. returns tt))
        λ y _.
          Returns-bind {P = λ (_ : Instruction). Unit {0}} _
            (Returns-bind _ (guarded_at-Returns l node) λ g _. returns tt)
            λ i _. Returns-bind _ (total.transform y i) λ z _. set_post-Returns l z s node k

  join_posts-Returns :
      (ps : List Label) (x : D) (s : State D)
      → AreNodes a.cfg ps
      → IsAlive a.cfg s
      → Returns (λ (_ : D). Unit {0}) (join_posts a.dom s ps x)
  unfolding join_posts has
  join_posts-Returns [] x s nodes k = returns tt
  join_posts-Returns (p ∷ ps) x s nodes k =
      Returns-bind _ (get_post-Returns p s (nodes p (ground (arith, eq_label_self p))) k)
        λ d _. join_posts-Returns ps _ s (λ l h. nodes l (ground arith)) k

  pub parents_of-Returns :
      (l : Label) → is_node a.cfg l ≡ true → Returns (AreNodes a.cfg) (parents_of l a.cfg)
  unfolding parents_of get_node
  parents_of-Returns l node =
      Returns-bind _ (or_throw-Returns (find l a.cfg.neighbours) (not_found l) node)
        λ n e. returns λ p h. ground (arith, graph.symmetric p l, e)

  pub join_all_prevs-Returns :
      (l : Label) (s : State D)
      → is_node a.cfg l ≡ true
      → IsAlive a.cfg s
      → Returns (λ (_ : D). Unit {0}) (join_all_prevs a l s)
  unfolding join_all_prevs
  join_all_prevs-Returns l s node k =
      Returns-if (eq_label l entry) _ _ (λ _. get_pre-Returns l s node k)
        λ _.
          Returns-bind _ (parents_of-Returns l node)
            λ ps nodes. join_posts-Returns ps a.dom.bottom s nodes k

  pub visit_vertex-Returns :
      (l : Label) (s : State D)
      → is_node a.cfg l ≡ true
      → IsFull a.cfg s.inv
      → (s.skip && not (eq_label l entry)) ≡ false
      → Returns (IsAlive a.cfg) (visit_vertex a l s)
  unfolding visit_vertex
  visit_vertex-Returns l s node full here = rw here (
      let s₁ = record s { skip = false } in
      let k : IsAlive a.cfg s₁ = record { full = full; awake = refl } in
      Returns-bind _ (join_all_prevs-Returns l s₁ node k) λ d _.
        Returns-bind _ (set_pre-Returns l d s₁ node k)
          λ s₂ k₂. transform_to_post-Returns l d s₂ node k₂)

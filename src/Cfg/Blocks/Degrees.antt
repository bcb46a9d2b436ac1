-- ===== src/Cfg/Blocks/Degrees.antt =====
-- What the degrees say of the nodes of a well-formed graph: verifiers/prevail/src/crab/cfg.hpp.
use linux_dev_env.Base.{
  ℕ, ◌≡◌, refl, sym, ap, ◌∙◌, Bool, true, false, ◌||◌, some, [], ◌∷◌, length, ◌==◌, Option-cases,
  inl, inr, Bool-cases, arith,
}
use linux_dev_env.Outcome.{ok}
use linux_dev_env.Outcome.Returns.{
  Returns, returns, Returns-of, Returns-ok, Returns-bind, Returns-if,
}
use linux_dev_env.Label.{Label, exit}
use linux_dev_env.Label.Order.{eq_label, eq_label_self}
use linux_dev_env.Label.Keyed.{LabelSet, has, find}
use linux_dev_env.Cfg.{
  Cfg, Adjacent, get_node, in_degree, out_degree, get_child, get_parent, num_siblings,
}
use linux_dev_env.Cfg.Graph.{is_child, is_parent, is_node, IsGraph}
use linux_dev_env.Cfg.Blocks.{stops, is_inner}

-- What a set of one element is.
single : (s : LabelSet) → length s ≡ 1 → (l : Label) × (s ≡ l ∷ [])
single [] h = absurd (ground arith)
single (l ∷ []) h = (l, refl)
single (l ∷ m ∷ s) h = absurd (ground arith)

node-of :
    (cfg : Cfg) (l : Label)
    → is_node cfg l ≡ true
    → (n : Adjacent) × (find l cfg.neighbours ≡ some n)
node-of cfg l h = elim (Option-cases (find l cfg.neighbours)) [
  | inl e ↦ absurd (ground (arith, e, h))
  | inr (n, e) ↦ (n, e)
]

is_node-child : (cfg : Cfg) (a b : Label) → is_child cfg a b ≡ true → is_node cfg a ≡ true
is_node-child cfg a b h = ground (arith, h)

is_node-parent : (cfg : Cfg) (a b : Label) → is_parent cfg a b ≡ true → is_node cfg b ≡ true
is_node-parent cfg a b h = ground (arith, h)

module _ (cfg : Cfg) (l m : Label) (n : Adjacent) (found : find l cfg.neighbours ≡ some n) where
  only_child : n.children ≡ m ∷ [] → is_child cfg l m ≡ true
  unfolding has
  only_child e = ground (arith, found, e, eq_label_self m)

  only_parent : n.parents ≡ m ∷ [] → is_parent cfg m l ≡ true
  unfolding has
  only_parent e = ground (arith, found, e, eq_label_self m)

  get_child-only : n.children ≡ m ∷ [] → get_child l cfg ≡ ok m
  unfolding get_child get_node
  get_child-only e = rw found (rw e refl)

  is_inner-only :
      n.parents ≡ m ∷ [] → (d : ℕ) → out_degree m cfg ≡ ok d → is_inner l cfg ≡ ok (d == 1)
  unfolding is_inner in_degree num_siblings get_parent get_node
  is_inner-only e d h = rw found (rw e (rw h refl))

module _ (cfg : Cfg) where
  pub in_degree-Returns :
      (l : Label)
      → is_node cfg l ≡ true
      → Returns (λ (d : ℕ). in_degree l cfg ≡ ok d) (in_degree l cfg)
  unfolding in_degree get_node
  in_degree-Returns l h =
      let (n, e) = node-of cfg l h in Returns-of {a = length n.parents} (rw e refl) (rw e refl)

  pub out_degree-Returns :
      (l : Label)
      → is_node cfg l ≡ true
      → Returns (λ (d : ℕ). out_degree l cfg ≡ ok d) (out_degree l cfg)
  unfolding out_degree get_node
  out_degree-Returns l h =
      let (n, e) = node-of cfg l h in Returns-of {a = length n.children} (rw e refl) (rw e refl)

  pub stops-Returns :
      (next : Label) (seen : LabelSet)
      → is_node cfg next ≡ true
      → Returns
          (λ (stop : Bool).
            (stop ≡ true
              → in_degree next cfg ≡ ok 1
              → eq_label next exit ≡ false
              → has next seen ≡ true)
            × (stop ≡ false → has next seen ≡ false))
          (stops next seen cfg)
  unfolding stops
  stops-Returns next seen h =
      Returns-if (has next seen || eq_label next exit) _ _
        (λ c. returns ((λ _ _ f. ground (arith, c, f)), (λ e. cc)))
        (λ c.
          Returns-bind _ (in_degree-Returns next h)
            λ d e. returns ((λ s one f. ground (arith, e, one, s, c, f)), (λ s. ground (arith, c))))

  module _ (graph : IsGraph cfg) where
    -- The only child, and the only parent, is a node.
    pub get_child-Returns :
        (l : Label)
        → out_degree l cfg ≡ ok 1
        → Returns
            (λ (c : Label). (get_child l cfg ≡ ok c) × (is_node cfg c ≡ true))
            (get_child l cfg)
    unfolding out_degree get_child get_node has
    get_child-Returns l h = elim (Option-cases (find l cfg.neighbours)) [
      | inl e ↦ absurd (ground (arith, e, h))
      | inr (n, e) ↦
          let (c, one) = single n.children (ground (arith, e, h)) in
          let child : is_child cfg l c ≡ true = only_child cfg l c n e one in
          let is : get_child l cfg ≡ ok c = get_child-only cfg l c n e one in
          Returns-of is (is, is_node-parent cfg l c (sym (graph.symmetric l c) ∙ child))
    ]

    pub is_inner-Returns :
        (l : Label)
        → is_node cfg l ≡ true
        → Returns (λ (b : Bool). is_inner l cfg ≡ ok b) (is_inner l cfg)
    unfolding is_inner in_degree num_siblings get_parent get_node has
    is_inner-Returns l h =
        let (n, e) = node-of cfg l h in
        elim (Bool-cases (length n.parents == 1)) [
          | inl one ↦
              let (p, is) = single n.parents (ground (arith, one)) in
              let parent : is_parent cfg p l ≡ true = only_parent cfg l p n e is in
              let node : is_node cfg p ≡ true =
                is_node-child cfg p l (graph.symmetric p l ∙ parent) in
              let (d, degree, _) = Returns-ok (out_degree-Returns p node) in
              let is_in : is_inner l cfg ≡ ok (d == 1) = is_inner-only cfg l p n e is d degree in
              Returns-of is_in is_in
          | inr other ↦
              (let not_in : is_inner l cfg ≡ ok false = rw e (rw other refl) in
                Returns-of not_in not_in)
        ]

    -- The exit has no only child.
    pub exit-out_degree : out_degree exit cfg ≡ ok 1 → ⊥
    unfolding out_degree get_node
    exit-out_degree h =
        let (n, e) = node-of cfg exit graph.has_exit in
        let (c, one) = single n.children (ground (arith, e, h)) in
        let child : is_child cfg exit c ≡ true = only_child cfg exit c n e one in
        let none : is_child cfg exit c ≡ false = graph.no_way_out c in cc

    pub is_inner-in_degree : (l : Label) → is_inner l cfg ≡ ok true → in_degree l cfg ≡ ok 1
    unfolding is_inner in_degree get_node
    is_inner-in_degree l h = elim (Option-cases (find l cfg.neighbours)) [
      | inl e ↦ absurd (ground (arith, e, h))
      | inr (n, e) ↦ rw e (ap ok (ground (arith, e, h)))
    ]

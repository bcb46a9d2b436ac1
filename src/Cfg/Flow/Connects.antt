-- ===== src/Cfg/Flow/Connects.antt =====
-- What the edges of one instruction make of a graph: verifiers/prevail/src/asm_cfg.cpp.
use linux_dev_env.Base.{
  ℕ, ◌-◌, ◌^◌, ◌<◌, ◌≡◌, ap, true, false, ◌||◌, [], ◌∷◌, ◌++◌, Option-cases, inl, inr, arith, ◌∙◌,
}
use linux_dev_env.Base.Int.{ℤ, pos, negsuc}
use linux_dev_env.Outcome.{ok}
use linux_dev_env.Outcome.Inversion.{Result-cases}
use linux_dev_env.Outcome.Returns.{Returns, returns, Returns-of, Returns-bind, throw_if-Returns}
use linux_dev_env.Label.{Label, label_t, label_at, entry, exit, make_jump}
use linux_dev_env.Label.Order.{eq_label, eq_label_self}
use linux_dev_env.Label.Keyed.{find, put}
use linux_dev_env.Label.Keyed.Lookup.{find-update}
use linux_dev_env.Cfg.{Adjacent, GuardedInstruction, Cfg, contains}
use linux_dev_env.Cfg.Builder.{node_at, add_child, insert, insert_jump, exists}
use linux_dev_env.Cfg.Graph.{is_child, is_node, IsGraph, Inserts}
use linux_dev_env.Cfg.Graph.Edits.{add_child-Adds, insert-Inserts, Adds-IsGraph, Inserts-IsGraph}
use linux_dev_env.Cfg.Flow.{Edges, is_edge, is_edge-append, eq_label-from, eq_label-to, pos-apart}

-- What the edges of the instruction in slot `n` make of a graph.
pub record Connects (n : ℕ) (es : Edges) (cfg cfg' : Cfg) : Type 0 where
  pub graph : IsGraph cfg'
  pub edges : (a b : Label) → is_child cfg' a b ≡ (is_child cfg a b || is_edge es a b)
  pub kept : (l : Label) → is_node cfg l ≡ true → is_node cfg' l ≡ true
  pub later :
      (j : ℕ) (t : ℤ)
      → n < j
      → is_node cfg' (label_t (pos j) t "") ≡ is_node cfg (label_t (pos j) t "")

pub Connects-trans :
    (n : ℕ) (es fs : Edges) (a b c : Cfg)
    → Connects n es a b
    → Connects n fs b c
    → Connects n (es ++ fs) a c
Connects-trans n es fs a b c s t = record {
  graph = t.graph;
  edges = λ x y. ground (arith, s.edges x y, t.edges x y, is_edge-append es fs x y);
  kept = λ l h. t.kept l (s.kept l h);
  later = λ j u h. t.later j u h ∙ s.later j u h;
}

add_child_returns :
    (a b : Label) (cfg : Cfg)
    → is_node cfg a ≡ true
    → is_node cfg b ≡ true
    → eq_label b entry ≡ false
    → eq_label a exit ≡ false
    → (cfg' : Cfg) × (add_child a b cfg ≡ ok cfg')
unfolding add_child node_at
add_child_returns a b cfg ha hb he hx = elim (Result-cases (add_child a b cfg)) [
  | inl (cfg', e) ↦ (cfg', e)
  | inr (e, h) ↦ absurd (elim (Option-cases (find a cfg.neighbours)) [
    | inl e ↦ ground (arith, e, ha)
    | inr (n, e') ↦
        let n' : Adjacent = record n { children = put b n.children } in
        ground (arith, h, e', he, hx, hb, find-update b a n' cfg.neighbours ha)
  ])
]

pub add_child-Connects :
    (n : ℕ) (a b : Label) (cfg : Cfg)
    → is_node cfg a ≡ true
    → is_node cfg b ≡ true
    → eq_label b entry ≡ false
    → eq_label a exit ≡ false
    → IsGraph cfg
    → Returns
        (λ (cfg' : Cfg).
          Connects n ((a, b) ∷ []) cfg cfg' × ((l : Label) → is_node cfg' l ≡ is_node cfg l))
        (add_child a b cfg)
add_child-Connects n a b cfg ha hb he hx g =
    let (cfg', e) = add_child_returns a b cfg ha hb he hx in
    let w = add_child-Adds a b cfg e in
    Returns-of e (
      record {
        graph = Adds-IsGraph a b cfg cfg' w g;
        edges = λ x y. ground (arith, w.children x y);
        kept = λ l h. w.nodes l ∙ h;
        later = λ j t h. w.nodes (label_t (pos j) t "");
      },
      w.nodes,
    )

insert_returns :
    (l : Label) (i : GuardedInstruction) (cfg : Cfg)
    → is_node cfg l ≡ false
    → (cfg' : Cfg) × (insert l i cfg ≡ ok cfg')
unfolding insert
insert_returns l i cfg h = elim (Result-cases (insert l i cfg)) [
  | inl r ↦ r
  | inr (e, h') ↦ absurd (ground (arith, h, h'))
]

-- Inserting a node for the slot `n`.
pub insert-Connects :
    (n : ℕ) (t : ℤ) (i : GuardedInstruction) (cfg : Cfg)
    → is_node cfg (label_t (pos n) t "") ≡ false
    → IsGraph cfg
    → Returns
        (λ (cfg' : Cfg). Connects n [] cfg cfg' × Inserts (label_t (pos n) t "") i cfg cfg')
        (insert (label_t (pos n) t "") i cfg)
insert-Connects n t i cfg fresh g =
    let l = label_t (pos n) t "" in
    let (cfg', e) = insert_returns l i cfg fresh in
    let w = insert-Inserts l i cfg e g in
    Returns-of e (
      record {
        graph = Inserts-IsGraph l i cfg cfg' w g;
        edges = λ x y. ground (arith, w.children x y);
        kept = λ x h. ground (arith, w.nodes x, h);
        later = λ j u h. ground (
          arith,
          w.nodes (label_t (pos j) u ""),
          eq_label-from (pos j) (pos n) u t (pos-apart j n (inr h)),
        );
      },
      w,
    )

-- What a jump from the slot `n` makes of a graph.
pub record Jumps (n t : ℕ) (cfg cfg' : Cfg) : Type 0 where
  pub connects :
      Connects n
        ((label_at (pos n), label_t (pos n) (pos t) "")
          ∷ (label_t (pos n) (pos t) "", label_at (pos t))
          ∷ [])
        cfg
        cfg'
  pub nodes :
      (l : Label) → is_node cfg' l ≡ (eq_label l (label_t (pos n) (pos t) "") || is_node cfg l)

pub insert_jump-Jumps :
    (n t : ℕ) (i : GuardedInstruction) (cfg : Cfg)
    → n < 2 ^ 31 - 1
    → is_node cfg (label_at (pos n)) ≡ true
    → is_node cfg (label_at (pos t)) ≡ true
    → is_node cfg (label_t (pos n) (pos t) "") ≡ false
    → IsGraph cfg
    → Returns
        (λ (r : Label × Cfg). Jumps n t cfg r.1)
        (insert_jump (label_at (pos n)) (label_at (pos t)) i cfg)
unfolding insert_jump make_jump contains
insert_jump-Jumps n t i cfg small hn ht fresh g =
    let a = label_at (pos n) in
    let b = label_at (pos t) in
    let l = label_t (pos n) (pos t) "" in
    Returns-bind _ (throw_if-Returns (contains l cfg) (exists "Jump label " l) fresh) λ _ _.
      Returns-bind _ (insert-Connects n (pos t) i cfg fresh g) λ cfg₁ (c₁, w).
        let found = w.nodes l ∙ ap (λ c. c || is_node cfg l) (eq_label_self l) in
        Returns-bind _
          (add_child-Connects n a l cfg₁ (c₁.kept a hn) found
            (eq_label-to (pos n) (negsuc 0) (pos t) (negsuc 0) (λ h. cc))
            (eq_label-from (pos n) (pos (2 ^ 31 - 1)) (negsuc 0) (negsuc 0)
              (pos-apart n (2 ^ 31 - 1) (inl small)))
            c₁.graph)
          λ cfg₂ (c₂, s₂).
            Returns-bind _
              (add_child-Connects n l b cfg₂ (s₂ l ∙ found) (c₂.kept b (c₁.kept b ht))
                (eq_label-from (pos t) (negsuc 0) (negsuc 0) (negsuc 0) (λ h. cc))
                (eq_label-to (pos n) (pos (2 ^ 31 - 1)) (pos t) (negsuc 0) (λ h. cc)) c₂.graph)
              λ cfg₃ (c₃, s₃). returns (record {
                connects =
                    Connects-trans n ((a, l) ∷ []) ((l, b) ∷ []) cfg cfg₂ cfg₃
                      (Connects-trans n [] ((a, l) ∷ []) cfg cfg₁ cfg₂ c₁ c₂) c₃;
                nodes = λ x. s₃ x ∙ s₂ x ∙ w.nodes x;
              })

-- ===== src/Cfg/Graph/Inlined.antt =====
-- The copies of called code keep the shape of a graph, and making them ends: `add_cfg_nodes` of
-- verifiers/prevail/src/asm_cfg.cpp.
use Prim.Native.String.{◌++◌}
use linux_dev_env.Base.{
  ℕ, zero, suc, ◌+◌, ◌≤◌, ◌<◌, ◌≡◌, ap, String, Bool, true, false, ◌||◌, List, [], ◌∷◌, length,
  is_some, ◌∙◌, if◌then◌else◌, ◌⊎◌, inl, inr, arith, Bool-cases,
}
use linux_dev_env.Outcome.{ok, invalid_control_flow}
use linux_dev_env.Outcome.Ends.{
  Ends, returns, Ends-bind, Ends-imp, Ends-if, throw_if-Ends, invalid_control_flow-apart,
}
use linux_dev_env.Label.{Label, exit}
use linux_dev_env.Label.Order.{eq_label, eq_of_eq_label, eq_label_self, eq_String, eq_String-self}
use linux_dev_env.Label.Keyed.{LabelSet, has}
use linux_dev_env.Label.Text.{to_string}
use linux_dev_env.Cfg.{Cfg, unguarded, contains}
use linux_dev_env.Cfg.Builder.{add_child}
use linux_dev_env.Cfg.Inline.{copy_of, clone, Walk, link_parents, push_children, copy_block, walk}
use linux_dev_env.Cfg.Graph.{is_node, IsGraph}
use linux_dev_env.Cfg.Graph.Edits.{Inserts-IsGraph}
use linux_dev_env.Cfg.Graph.Kept.{
  Rewired, Rewired-self, Rewired-trans, add_child-Rewired, insert-Ends, instruction_at-Ends,
  parents_of-Ends, children_of-Ends,
}

add_child_if-Rewired :
    (c : Bool) (a b : Label) (cfg : Cfg)
    → IsGraph cfg
    → Ends (Rewired cfg) (if c then add_child a b cfg else ok cfg)
add_child_if-Rewired c a b cfg g =
    Ends-if c _ _ (λ _. add_child-Rewired a b cfg g) (λ _. returns (Rewired-self cfg g))

link_parents-Rewired :
    (prefix : String) (label : Label) (parents : LabelSet) (cfg : Cfg)
    → IsGraph cfg
    → Ends (Rewired cfg) (link_parents prefix label parents cfg)
unfolding link_parents
link_parents-Rewired prefix label [] cfg g = returns (Rewired-self cfg g)
link_parents-Rewired prefix label (prev ∷ rest) cfg g =
    Ends-bind _
      (add_child_if-Rewired (contains (copy_of prefix prev) cfg) (copy_of prefix prev) label cfg g)
      λ cfg' r.
        Ends-imp (link_parents-Rewired prefix label rest cfg' r.graph)
          (λ cfg'' r'. Rewired-trans cfg cfg' cfg'' r r')

push_children-Rewired :
    (macro_label label exit_to : Label) (children : LabelSet) (w : Walk)
    → IsGraph w.cfg
    → Ends
        (λ (w' : Walk). Rewired w.cfg w'.cfg)
        (push_children macro_label label exit_to children w)
unfolding push_children
push_children-Rewired m label exit_to [] w g = returns (Rewired-self w.cfg g)
push_children-Rewired m label exit_to (next ∷ rest) w g =
    Ends-bind {P = λ (w' : Walk). Rewired w.cfg w'.cfg} _
      (Ends-if (eq_label next exit) _ _
        (λ _. Ends-bind _ (add_child-Rewired label exit_to w.cfg g) λ cfg' r. returns r)
        (λ _. returns (elim (Bool-cases (has next w.seen_labels)) [
          | inl e ↦ simp e (Rewired-self w.cfg g)
          | inr e ↦ simp e (Rewired-self w.cfg g)
        ])))
      λ w' r.
        Ends-imp (push_children-Rewired m label exit_to rest w' r.graph)
          (λ w'' r'. Rewired-trans w.cfg w'.cfg w''.cfg r r')

-- The graph with the copy of a block, made under a prefix.
record Copied (prefix : String) (m : Label) (cfg cfg' : Cfg) : Type 0 where
  graph : IsGraph cfg'
  original : is_node cfg m ≡ true
  apart : eq_String prefix m.stack_frame_prefix ≡ false
  fresh : is_node cfg (copy_of prefix m) ≡ false
  nodes : (l : Label) → is_node cfg' l ≡ (eq_label l (copy_of prefix m) || is_node cfg l)

copy_block-Copied :
    (caller exit_to : Label) (first : Bool) (m : Label) (w : Walk)
    → IsGraph w.cfg
    → Ends
        (λ (w' : Walk). Copied (to_string caller) m w.cfg w'.cfg)
        (copy_block caller exit_to first m w)
unfolding copy_block
copy_block-Copied caller exit_to first m w g =
    let p = to_string caller in
    let label = copy_of p m in
    Ends-bind _
      (throw_if-Ends (eq_String p m.stack_frame_prefix)
        (invalid_control_flow (p ++ ": illegal recursion")) (invalid_control_flow-apart _))
      λ _ apart. Ends-bind _ (instruction_at-Ends m w.cfg g) λ ins original.
        Ends-bind _ (insert-Ends label (unguarded (clone p ins)) w.cfg g) λ cfg₁ i.
          let g₁ = Inserts-IsGraph label (unguarded (clone p ins)) w.cfg cfg₁ i g in
          Ends-bind _ (add_child_if-Rewired first caller label cfg₁ g₁) λ cfg₂ r₂.
            Ends-bind _ (parents_of-Ends m cfg₂) λ parents _.
              Ends-bind _ (link_parents-Rewired p label parents cfg₂ r₂.graph) λ cfg₃ r₃.
                Ends-bind _ (children_of-Ends m cfg₃) λ children _.
                  Ends-imp
                    (push_children-Rewired m label exit_to children (record w { cfg = cfg₃ })
                      r₃.graph)
                    λ w' r₄. record {
                      graph = r₄.graph;
                      original = original;
                      apart = apart;
                      fresh = ap is_some i.fresh;
                      nodes = λ l. r₄.nodes l ∙ r₃.nodes l ∙ r₂.nodes l ∙ i.nodes l;
                    }

-- The labels of a list that have no copy under the prefix.
abbrev pub uncopied : String → List Label → Cfg → ℕ
uncopied prefix [] cfg = 0
uncopied prefix (l ∷ ls) cfg =
    (if is_node cfg (copy_of prefix l) then 0 else 1) + uncopied prefix ls cfg

pub uncopied-length :
    (prefix : String) (ls : List Label) (cfg : Cfg) → uncopied prefix ls cfg ≤ length ls
uncopied-length prefix [] cfg = omega arith
uncopied-length prefix (l ∷ ls) cfg = ground (arith, uncopied-length prefix ls cfg)

-- Every node stands in a list or has the prefix.
abbrev pub IsFrom : String → List Label → Cfg → Type 0
IsFrom prefix ls cfg =
    (l : Label)
    → is_node cfg l ≡ true
    → (has l ls ≡ true) ⊎ (eq_String prefix l.stack_frame_prefix ≡ true)

module _ (prefix : String) (m : Label) (cfg cfg' : Cfg) (c : Copied prefix m cfg cfg') where
  uncopied-le : (ls : List Label) → uncopied prefix ls cfg' ≤ uncopied prefix ls cfg
  uncopied-le [] = omega arith
  uncopied-le (l ∷ ls) = ground (arith, uncopied-le ls, c.nodes (copy_of prefix l))

  uncopied-lt :
      (ls : List Label) → has m ls ≡ true → uncopied prefix ls cfg' < uncopied prefix ls cfg
  unfolding has
  uncopied-lt [] h = cc
  uncopied-lt (l ∷ ls) h = elim (Bool-cases (eq_label m l)) [
    | inl e ↦
        let same : copy_of prefix m ≡ copy_of prefix l =
          ap (copy_of prefix) (eq_of_eq_label m l e) in
        ground (
          arith,
          uncopied-le ls,
          c.nodes (copy_of prefix l),
          ap (is_node cfg) same,
          ap (λ x. eq_label x (copy_of prefix m)) same,
          eq_label_self (copy_of prefix m),
          c.fresh,
        )
    | inr e ↦ ground (arith, uncopied-lt ls, c.nodes (copy_of prefix l), h, e)
  ]

  Copied-IsFrom : (ls : List Label) → IsFrom prefix ls cfg → IsFrom prefix ls cfg'
  Copied-IsFrom ls f l h = elim (Bool-cases (eq_label l (copy_of prefix m))) [
    | inl e ↦ inr (
        ap (λ (x : Label). eq_String prefix x.stack_frame_prefix)
          (eq_of_eq_label l (copy_of prefix m) e)
        ∙ eq_String-self prefix)
    | inr e ↦ f l (ground (arith, c.nodes l, h, e))
  ]

module _ (caller exit_to : Label) (ls : List Label) where
  -- Each round copies a block that had no copy, so that the walk ends.
  pub walk-Graphs :
      (fuel : ℕ) (first : Bool) (cfg : Cfg) (macro_labels seen_labels : LabelSet)
      → IsGraph cfg
      → IsFrom (to_string caller) ls cfg
      → uncopied (to_string caller) ls cfg < fuel
      → Ends
          (λ (w : Walk). IsGraph w.cfg)
          (walk fuel caller exit_to first
            (record { cfg = cfg; macro_labels = macro_labels; seen_labels = seen_labels }))
  unfolding walk
  walk-Graphs zero first cfg macro seen g f h = absurd (omega arith)
  walk-Graphs (suc fuel) first cfg [] seen g f h = returns g
  walk-Graphs (suc fuel) first cfg (m ∷ rest) seen g f h =
      let w : Walk = record { cfg = cfg; macro_labels = rest; seen_labels = seen } in
      Ends-bind _ (copy_block-Copied caller exit_to first m w g) λ w' c.
        let listed : has m ls ≡ true = ground (arith, f m c.original, c.apart) in
        walk-Graphs fuel false w'.cfg w'.macro_labels w'.seen_labels c.graph
          (Copied-IsFrom (to_string caller) m cfg w'.cfg c ls f)
          (omega (arith, uncopied-lt (to_string caller) m cfg w'.cfg c ls listed))

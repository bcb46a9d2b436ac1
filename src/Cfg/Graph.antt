-- ===== src/Cfg/Graph.antt =====
-- The shape of a control-flow graph, and that the operations of `cfg_builder_t` keep it:
-- verifiers/prevail/src/asm_cfg.cpp.
pub mod Edits
pub mod Kept
pub mod Connected
pub mod Inlined
pub mod Nested
pub mod Built
pub mod Inserted
use linux_dev_env.Base.{
  ◌≡◌, refl, ap, Bool, true, false, not, ◌&&◌, ◌||◌, none, some, List, [], ◌∷◌, is_some, arith,
  Option-cases, inl, inr, if◌then◌else◌,
}
use linux_dev_env.Outcome.{ok, err}
use linux_dev_env.Label.{Label, entry, exit}
use linux_dev_env.Label.Order.{eq_label, eq_of_eq_label, eq_label_self}
use linux_dev_env.Label.Keyed.{LabelSet, has, put, erase, find, emplace, update}
use linux_dev_env.Label.Keyed.Lookup.{has-put, has-erase, find-emplace, find-update}
use linux_dev_env.Cfg.{GuardedInstruction, Adjacent, isolated, Cfg, empty_cfg, get_node}
use linux_dev_env.Cfg.Builder.{set_node, node_at, add_child, remove_child, insert}

-- `b` is among the children of `a`.
abbrev pub is_child : Cfg → Label → Label → Bool
is_child cfg a b = elim (find a cfg.neighbours) [ none ↦ false | some n ↦ has b n.children ]

-- `a` is among the parents of `b`.
abbrev pub is_parent : Cfg → Label → Label → Bool
is_parent cfg a b = elim (find b cfg.neighbours) [ none ↦ false | some n ↦ has a n.parents ]

abbrev pub is_node : Cfg → Label → Bool
is_node cfg l = is_some (find l cfg.neighbours)

abbrev pub has_instruction : Cfg → Label → Bool
has_instruction cfg l = is_some (find l cfg.instructions)

-- Children and parents agree, and the nodes are the labels that have an instruction; nothing leads
-- to the entry or away from the exit, which are nodes.
pub record IsGraph (cfg : Cfg) : Type 0 where
  pub symmetric : (a b : Label) → is_child cfg a b ≡ is_parent cfg a b
  pub filled : (l : Label) → is_node cfg l ≡ has_instruction cfg l
  pub no_way_in : (a : Label) → is_child cfg a entry ≡ false
  pub no_way_out : (b : Label) → is_child cfg exit b ≡ false
  pub has_entry : is_node cfg entry ≡ true
  pub has_exit : is_node cfg exit ≡ true

-- The graph with the one edge more.
pub record Adds (a b : Label) (cfg cfg' : Cfg) : Type 0 where
  pub children :
      (x y : Label) → is_child cfg' x y ≡ (is_child cfg x y || (eq_label x a && eq_label y b))
  pub parents :
      (x y : Label) → is_parent cfg' x y ≡ (is_parent cfg x y || (eq_label x a && eq_label y b))
  pub nodes : (l : Label) → is_node cfg' l ≡ is_node cfg l
  pub instructions : cfg'.instructions ≡ cfg.instructions
  pub not_entry : eq_label b entry ≡ false
  pub not_exit : eq_label a exit ≡ false

-- The graph with the one edge less.
pub record Removes (a b : Label) (cfg cfg' : Cfg) : Type 0 where
  pub children :
      (x y : Label) → is_child cfg' x y ≡ (is_child cfg x y && not (eq_label x a && eq_label y b))
  pub parents :
      (x y : Label) → is_parent cfg' x y ≡ (is_parent cfg x y && not (eq_label x a && eq_label y b))
  pub nodes : (l : Label) → is_node cfg' l ≡ is_node cfg l
  pub instructions : cfg'.instructions ≡ cfg.instructions

-- The graph with the one node more.
pub record Inserts (l : Label) (g : GuardedInstruction) (cfg cfg' : Cfg) : Type 0 where
  pub fresh : find l cfg.neighbours ≡ none
  pub children : (x y : Label) → is_child cfg' x y ≡ is_child cfg x y
  pub parents : (x y : Label) → is_parent cfg' x y ≡ is_parent cfg x y
  pub nodes : (x : Label) → is_node cfg' x ≡ (eq_label x l || is_node cfg x)
  pub instructions :
      (x : Label)
      → find x cfg'.instructions ≡ (if eq_label x l then some g else find x cfg.instructions)

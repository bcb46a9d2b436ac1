-- ===== src/Cfg/Graph/Inserted.antt =====
-- Inserting a node after another keeps the shape of a graph: `insert_after` of
-- verifiers/prevail/src/asm_cfg.cpp.
use Prim.Native.String.{◌++◌}
use linux_dev_env.Base.{◌≡◌, refl, not, ◌&&◌, some, [], ◌∷◌, arith, ◌∙◌}
use linux_dev_env.Outcome.{crab_message}
use linux_dev_env.Outcome.Ends.{
  Ends, returns, Ends-imp, Ends-bind, Ends-or_throw, throw_if-Ends, crab_message-apart,
}
use linux_dev_env.Label.{Label, entry, exit}
use linux_dev_env.Label.Order.{eq_label, eq_of_eq_label}
use linux_dev_env.Label.Keyed.{LabelSet, has, erase, find}
use linux_dev_env.Label.Keyed.Lookup.{has-erase, find-update}
use linux_dev_env.Label.Text.{to_string}
use linux_dev_env.Cfg.{Adjacent, GuardedInstruction, Cfg, get_node, not_found}
use linux_dev_env.Cfg.Builder.{set_node, erase_parent, relink, insert_after}
use linux_dev_env.Cfg.Graph.{is_child, is_parent, is_node, IsGraph}
use linux_dev_env.Cfg.Graph.Kept.{Graphs, add_child-Graphs, insert-Graphs}

pub get_node-Ends :
    (l : Label) (cfg : Cfg)
    → Ends (λ (n : Adjacent). find l cfg.neighbours ≡ some n) (get_node l cfg)
unfolding get_node not_found
get_node-Ends l cfg = Ends-or_throw (find l cfg.neighbours) (not_found l) (λ h. cc) (λ n e. e)

-- What erasing a parent of some nodes makes of a graph.
record Erases (prev : Label) (nexts : LabelSet) (cfg cfg' : Cfg) : Type 0 where
  children : (x y : Label) → is_child cfg' x y ≡ is_child cfg x y
  parents :
      (x y : Label)
      → is_parent cfg' x y ≡ (is_parent cfg x y && not (eq_label x prev && has y nexts))
  nodes : (l : Label) → is_node cfg' l ≡ is_node cfg l
  instructions : cfg'.instructions ≡ cfg.instructions

one_Erases :
    (prev next : Label) (n : Adjacent) (cfg : Cfg)
    → find next cfg.neighbours ≡ some n
    → Erases prev (next ∷ []) cfg (set_node next (record n { parents = erase prev n.parents }) cfg)
unfolding has
one_Erases prev next n cfg e =
    let found = λ (x : Label).
      find-update x next (record n { parents = erase prev n.parents }) cfg.neighbours (rw e refl) in
    record {
      children = λ x y. ground (arith, found x, e, eq_of_eq_label x next);
      parents =
          λ x y. ground (arith, found y, e, eq_of_eq_label y next, has-erase x prev n.parents);
      nodes = λ l. ground (arith, found l, e, eq_of_eq_label l next);
      instructions = refl;
    }

Erases-cons :
    (prev next : Label) (rest : LabelSet) (a b c : Cfg)
    → Erases prev (next ∷ []) a b
    → Erases prev rest b c
    → Erases prev (next ∷ rest) a c
unfolding has
Erases-cons prev next rest a b c e f = record {
  children = λ x y. f.children x y ∙ e.children x y;
  parents = λ x y. ground (arith, f.parents x y, e.parents x y);
  nodes = λ l. f.nodes l ∙ e.nodes l;
  instructions = f.instructions ∙ e.instructions;
}

erase_parent-Erases :
    (prev : Label) (nexts : LabelSet) (cfg : Cfg)
    → Ends (Erases prev nexts cfg) (erase_parent prev nexts cfg)
unfolding erase_parent has
erase_parent-Erases prev [] cfg = returns (record {
  children = λ x y. refl;
  parents = λ x y. ground arith;
  nodes = λ l. refl;
  instructions = refl;
})
erase_parent-Erases prev (next ∷ rest) cfg = Ends-bind _ (get_node-Ends next cfg) λ n e.
    let cfg₁ = set_node next (record n { parents = erase prev n.parents }) cfg in
    Ends-imp (erase_parent-Erases prev rest cfg₁)
      (λ cfg₂ f. Erases-cons prev next rest cfg cfg₁ cfg₂ (one_Erases prev next n cfg e) f)

-- Without the children of a node, the node is the parent of none.
detached-IsGraph :
    (prev : Label) (n : Adjacent) (cfg cfg' : Cfg)
    → find prev cfg.neighbours ≡ some n
    → Erases prev n.children (set_node prev (record n { children = [] }) cfg) cfg'
    → IsGraph cfg
    → IsGraph cfg'
unfolding has
detached-IsGraph prev n cfg cfg' e w g =
    let found =
      λ (x : Label). find-update x prev (record n { children = [] }) cfg.neighbours (rw e refl) in
    record {
      symmetric = λ x y. ground (
        arith,
        w.children x y,
        w.parents x y,
        found x,
        found y,
        e,
        g.symmetric x y,
        eq_of_eq_label x prev,
        eq_of_eq_label y prev,
      );
      filled = λ l.
          ground (arith, w.nodes l, w.instructions, found l, e, g.filled l, eq_of_eq_label l prev);
      no_way_in = λ x. ground (arith, w.children x entry, found x, g.no_way_in x);
      no_way_out = λ y. ground (arith, w.children exit y, found exit, g.no_way_out y);
      has_entry = ground (arith, w.nodes entry, found entry, g.has_entry);
      has_exit = ground (arith, w.nodes exit, found exit, g.has_exit);
    }

relink-Graphs :
    (prev new : Label) (nexts : LabelSet) (cfg : Cfg)
    → IsGraph cfg
    → Graphs (relink prev new nexts cfg)
unfolding relink
relink-Graphs prev new [] cfg g = returns g
relink-Graphs prev new (next ∷ rest) cfg g =
    Ends-bind _ (add_child-Graphs prev new cfg g) λ cfg₁ g₁.
      Ends-bind _ (add_child-Graphs new next cfg₁ g₁) λ cfg₂ g₂. relink-Graphs prev new rest cfg₂ g₂

-- Inserting a node between a node and its children keeps the shape, also where the node is a child
-- of itself.
pub insert_after-Graphs :
    (prev new : Label) (ins : GuardedInstruction) (cfg : Cfg)
    → IsGraph cfg
    → Graphs (insert_after prev new ins cfg)
unfolding insert_after
insert_after-Graphs prev new ins cfg g =
    Ends-bind _
      (throw_if-Ends (eq_label prev new)
        (crab_message ("Cannot insert after the same label " ++ to_string new))
        (crab_message-apart _))
      λ _ _. Ends-bind _ (get_node-Ends prev cfg) λ n e.
        Ends-bind _
          (erase_parent-Erases prev n.children (set_node prev (record n { children = [] }) cfg))
          λ cfg₁ w.
            Ends-bind _ (insert-Graphs new ins cfg₁ (detached-IsGraph prev n cfg cfg₁ e w g))
              λ cfg₂ g₂. relink-Graphs prev new n.children cfg₂ g₂

-- ===== src/Cfg/Graph/Kept.antt =====
-- Every operation of the builder, and the whole construction, keeps the shape of a graph:
-- verifiers/prevail/src/asm_cfg.cpp.
use linux_dev_env.Base.{◌≡◌, ◌≢◌, refl, ◌∙◌, true, is_some, arith, Option-cases, inl, inr}
use linux_dev_env.Outcome.{Result, err, out_of_fuel}
use linux_dev_env.Label.{Label, entry, exit, make_jump}
use linux_dev_env.Label.Order.{eq_label, eq_of_eq_label, eq_label_self}
use linux_dev_env.Label.Keyed.{LabelSet, has, find, update}
use linux_dev_env.Label.Keyed.Lookup.{find-update}
use linux_dev_env.Syntax.Instruction.{Instruction}
use linux_dev_env.Cfg.{
  contains, instruction_at, parents_of, children_of, get_child, get_node, not_found,
  GuardedInstruction, Cfg, empty_cfg, guarded_at, set_instruction,
}
use linux_dev_env.Cfg.Builder.{exists, node_at, add_child, remove_child, insert, insert_jump}
use linux_dev_env.Outcome.Ends.{
  crab_message-apart, Ends, returns, Ends-of, Ends-imp, Ends-bind, throw_if-Ends,
}
use linux_dev_env.Cfg.Graph.{is_node, Adds, Removes, Inserts, IsGraph}
use linux_dev_env.Cfg.Graph.Edits.{
  add_child-Adds, remove_child-Removes, insert-Inserts, Adds-IsGraph, Removes-IsGraph,
  Inserts-IsGraph,
}

-- The graph that an action returns, if it returns one, has the shape too.
abbrev pub Graphs : Result Cfg → Type 0
Graphs = Ends IsGraph

add_child-not_out_of_fuel : (a b : Label) (cfg : Cfg) → add_child a b cfg ≢ err out_of_fuel
unfolding add_child node_at
add_child-not_out_of_fuel a b cfg = ground arith

remove_child-not_out_of_fuel : (a b : Label) (cfg : Cfg) → remove_child a b cfg ≢ err out_of_fuel
unfolding remove_child get_node not_found
remove_child-not_out_of_fuel a b cfg = ground arith

insert-not_out_of_fuel :
    (l : Label) (i : GuardedInstruction) (cfg : Cfg) → insert l i cfg ≢ err out_of_fuel
unfolding insert
insert-not_out_of_fuel l i cfg = ground arith

pub add_child-Ends : (a b : Label) (cfg : Cfg) → Ends (Adds a b cfg) (add_child a b cfg)
add_child-Ends a b cfg =
    Ends-of (add_child a b cfg) (λ cfg' h. add_child-Adds a b cfg h)
      (add_child-not_out_of_fuel a b cfg)

pub remove_child-Ends : (a b : Label) (cfg : Cfg) → Ends (Removes a b cfg) (remove_child a b cfg)
remove_child-Ends a b cfg =
    Ends-of (remove_child a b cfg) (λ cfg' h. remove_child-Removes a b cfg h)
      (remove_child-not_out_of_fuel a b cfg)

pub insert-Ends :
    (l : Label) (i : GuardedInstruction) (cfg : Cfg)
    → IsGraph cfg
    → Ends (Inserts l i cfg) (insert l i cfg)
insert-Ends l i cfg g =
    Ends-of (insert l i cfg) (λ cfg' h. insert-Inserts l i cfg h g) (insert-not_out_of_fuel l i cfg)

pub empty_cfg-IsGraph : IsGraph empty_cfg
unfolding find has
empty_cfg-IsGraph = record {
  symmetric = λ a b. ground (arith, eq_label a entry);
  filled = λ l. ground (arith, eq_label l entry);
  no_way_in = λ a. ground (arith, eq_label a entry);
  no_way_out = λ b. ground (arith, eq_label exit entry);
  has_entry = rw (eq_label_self entry) refl;
  has_exit = ground (arith, eq_label_self exit);
}

-- Adding an edge keeps the shape, whichever edge it is.
pub add_child-Graphs : (a b : Label) (cfg : Cfg) → IsGraph cfg → Graphs (add_child a b cfg)
add_child-Graphs a b cfg g =
    Ends-imp (add_child-Ends a b cfg) (λ cfg' w. Adds-IsGraph a b cfg cfg' w g)

pub remove_child-Graphs : (a b : Label) (cfg : Cfg) → IsGraph cfg → Graphs (remove_child a b cfg)
remove_child-Graphs a b cfg g =
    Ends-imp (remove_child-Ends a b cfg) (λ cfg' w. Removes-IsGraph a b cfg cfg' w g)

pub insert-Graphs :
    (l : Label) (i : GuardedInstruction) (cfg : Cfg) → IsGraph cfg → Graphs (insert l i cfg)
insert-Graphs l i cfg g =
    Ends-imp (insert-Ends l i cfg g) (λ cfg' w. Inserts-IsGraph l i cfg cfg' w g)

pub insert_jump-Graphs :
    (a b : Label) (i : GuardedInstruction) (cfg : Cfg)
    → IsGraph cfg
    → Ends (λ (r : Label × Cfg). IsGraph r.1) (insert_jump a b i cfg)
unfolding insert_jump
insert_jump-Graphs a b i cfg g =
    let l = make_jump a b in
    Ends-bind _ (throw_if-Ends (contains l cfg) (exists "Jump label " l) (crab_message-apart _))
      λ _ _. Ends-bind _ (insert-Graphs l i cfg g) λ cfg₁ g₁.
        Ends-bind _ (add_child-Graphs a l cfg₁ g₁)
          λ cfg₂ g₂. Ends-bind _ (add_child-Graphs l b cfg₂ g₂) λ cfg₃ g₃. returns g₃

-- A graph of the shape with the same nodes.
pub record Rewired (cfg cfg' : Cfg) : Type 0 where
  pub graph : IsGraph cfg'
  pub nodes : (l : Label) → is_node cfg' l ≡ is_node cfg l

pub Rewired-self : (cfg : Cfg) → IsGraph cfg → Rewired cfg cfg
Rewired-self cfg g = record { graph = g; nodes = λ l. refl }

pub Rewired-trans : (a b c : Cfg) → Rewired a b → Rewired b c → Rewired a c
Rewired-trans a b c w v = record { graph = v.graph; nodes = λ l. v.nodes l ∙ w.nodes l }

pub add_child-Rewired :
    (a b : Label) (cfg : Cfg) → IsGraph cfg → Ends (Rewired cfg) (add_child a b cfg)
add_child-Rewired a b cfg g =
    Ends-imp (add_child-Ends a b cfg)
      λ cfg' w. record { graph = Adds-IsGraph a b cfg cfg' w g; nodes = w.nodes }

pub remove_child-Rewired :
    (a b : Label) (cfg : Cfg) → IsGraph cfg → Ends (Rewired cfg) (remove_child a b cfg)
remove_child-Rewired a b cfg g =
    Ends-imp (remove_child-Ends a b cfg)
      λ cfg' w. record { graph = Removes-IsGraph a b cfg cfg' w g; nodes = w.nodes }

-- Reading an instruction.
pub instruction_at-Ends :
    (l : Label) (cfg : Cfg)
    → IsGraph cfg
    → Ends (λ (ins : Instruction). is_node cfg l ≡ true) (instruction_at l cfg)
unfolding instruction_at guarded_at not_found
instruction_at-Ends l cfg g =
    Ends-of (instruction_at l cfg) (λ ins h. ground (arith, g.filled l, h)) (ground arith)

pub set_instruction-Rewired :
    (l : Label) (ins : Instruction) (cfg : Cfg)
    → IsGraph cfg
    → Ends (Rewired cfg) (set_instruction l ins cfg)
unfolding set_instruction guarded_at not_found
set_instruction-Rewired l ins cfg g =
    Ends-of (set_instruction l ins cfg)
      (λ cfg' h. elim (Option-cases (find l cfg.instructions)) [
        | inl e ↦ absurd (ground (arith, h, e))
        | inr (i, e) ↦
            let is : cfg'
                ≡ record cfg { instructions = update l (record i { cmd = ins }) cfg.instructions } =
              ground (arith, h, e) in
            let found : is_some (find l cfg.instructions) ≡ true = rw e refl in
            rw is record {
              graph = record {
                symmetric = g.symmetric;
                filled = λ x. ground (
                  arith,
                  g.filled x,
                  find-update x l (record i { cmd = ins }) cfg.instructions found,
                  found,
                  eq_of_eq_label x l,
                );
                no_way_in = g.no_way_in;
                no_way_out = g.no_way_out;
                has_entry = g.has_entry;
                has_exit = g.has_exit;
              };
              nodes = λ x. refl;
            }
      ])
      (ground arith)

pub parents_of-Ends : (l : Label) (cfg : Cfg) → Ends (λ (_ : LabelSet). Unit) (parents_of l cfg)
unfolding parents_of get_node not_found
parents_of-Ends l cfg = Ends-of (parents_of l cfg) (λ _ _. tt) (ground arith)

pub children_of-Ends : (l : Label) (cfg : Cfg) → Ends (λ (_ : LabelSet). Unit) (children_of l cfg)
unfolding children_of get_node not_found
children_of-Ends l cfg = Ends-of (children_of l cfg) (λ _ _. tt) (ground arith)

pub get_child-Ends : (l : Label) (cfg : Cfg) → Ends (λ (_ : Label). Unit) (get_child l cfg)
unfolding get_child get_node not_found
get_child-Ends l cfg = Ends-of (get_child l cfg) (λ _ _. tt) (ground arith)

-- ===== src/Cfg/Graph/Connected.antt =====
-- The first two loops of `instruction_seq_to_cfg` keep the shape of a graph:
-- verifiers/prevail/src/asm_cfg.cpp.
use Prim.Native.String.{◌++◌}
use linux_dev_env.Base.{not, ◌&&◌, Bool, Option, none, some, List, [], ◌∷◌}
use linux_dev_env.Outcome.{invalid_control_flow}
use linux_dev_env.Outcome.Ends.{
  returns, Ends-bind, throw_if-Ends, Ends-if, invalid_control_flow-apart,
}
use linux_dev_env.Label.{Label, exit}
use linux_dev_env.Label.Order.{eq_label}
use linux_dev_env.Label.Text.{to_string}
use linux_dev_env.Cfg.Reverse.{reverse, has_fall}
use linux_dev_env.Syntax.Instruction.{Instruction, Condition, LabeledInstruction}
use linux_dev_env.Cfg.{Cfg, unguarded, contains}
use linux_dev_env.Cfg.Program.{
  insert_one, assume_implicit, is_undefined, insert_all, connect_jump, connect_one, connect,
}
use linux_dev_env.Cfg.Graph.{IsGraph}
use linux_dev_env.Cfg.Graph.Kept.{Graphs, add_child-Graphs, insert-Graphs, insert_jump-Graphs}

insert_one-Graphs :
    (label : Label) (ins : Instruction) (cfg : Cfg)
    → IsGraph cfg
    → Graphs (insert_one label ins cfg)
insert_one-Graphs label (Instruction.undefined _) cfg g = returns g
insert_one-Graphs label ins cfg g = insert-Graphs label (unguarded ins) cfg g

pub insert_all-Graphs :
    (insts : List LabeledInstruction) (cfg : Cfg) → IsGraph cfg → Graphs (insert_all insts cfg)
unfolding insert_all
insert_all-Graphs [] cfg g = returns g
insert_all-Graphs (l ∷ insts) cfg g =
    Ends-bind _ (insert_one-Graphs l.label l.ins cfg g) (insert_all-Graphs insts)

connect_jump-Graphs :
    (label : Label) (cond : Option Condition) (target next : Label) (cfg : Cfg)
    → IsGraph cfg
    → Graphs (connect_jump label cond target next cfg)
unfolding connect_jump
connect_jump-Graphs label none target next cfg g = add_child-Graphs label target cfg g
connect_jump-Graphs label (some c) target next cfg g =
    Ends-if (eq_label target next) _ _ (λ _. add_child-Graphs label next cfg g)
      (λ _.
        Ends-bind _
          (throw_if-Ends (not (contains target cfg))
            (invalid_control_flow ("jump to undefined label " ++ to_string target))
            (invalid_control_flow-apart _))
          λ _ _. Ends-bind _ (insert_jump-Graphs label target (assume_implicit c) cfg g) λ r₁ g₁.
            Ends-bind _ (insert_jump-Graphs label next (assume_implicit (reverse c)) r₁.1 g₁)
              λ r₂ g₂. returns g₂)

connect_one-Graphs :
    (label : Label) (ins : Instruction) (next : Label) (cfg : Cfg)
    → IsGraph cfg
    → Graphs (connect_one label ins next cfg)
unfolding connect_one
connect_one-Graphs label (Instruction.jmp j) next cfg g =
    connect_jump-Graphs label j.cond j.target next cfg g
connect_one-Graphs label (Instruction.exit e) next cfg g = add_child-Graphs label exit cfg g
connect_one-Graphs label _ next cfg g = add_child-Graphs label next cfg g

pub connect-Graphs :
    (must_have_exit : Bool) (insts : List LabeledInstruction) (cfg : Cfg)
    → IsGraph cfg
    → Graphs (connect must_have_exit insts cfg)
unfolding connect
connect-Graphs must [] cfg g = returns g
connect-Graphs must (l ∷ []) cfg g =
    Ends-if (is_undefined l.ins) _ _ (λ _. returns g)
      λ _.
        Ends-bind _
          (throw_if-Ends (has_fall l.ins && must)
            (invalid_control_flow "fallthrough in last instruction") (invalid_control_flow-apart _))
          λ _ _. connect_one-Graphs l.label l.ins exit cfg g
connect-Graphs must (l ∷ next ∷ insts) cfg g =
    Ends-bind _
      (Ends-if (is_undefined l.ins) _ _ (λ _. returns g)
        (λ _. connect_one-Graphs l.label l.ins next.label cfg g))
      (connect-Graphs must (next ∷ insts))

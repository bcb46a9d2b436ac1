-- ===== src/Cfg/Graph/Built.antt =====
-- The graph of a list of instructions: `instruction_seq_to_cfg` of
-- verifiers/prevail/src/asm_cfg.cpp.
use linux_dev_env.Base.{Bool, List, [], ◌∷◌, arith}
use linux_dev_env.Outcome.Ends.{Ends, returns, throws, Ends-bind, invalid_control_flow-apart}
use linux_dev_env.Label.{Label, entry}
use linux_dev_env.Syntax.Instruction.{Instruction, LabeledInstruction}
use linux_dev_env.Cfg.{Cfg, empty_cfg}
use linux_dev_env.Cfg.Inline.{max_call_stack_frames}
use linux_dev_env.Cfg.Program.{inline_one, inline_calls, instruction_seq_to_cfg}
use linux_dev_env.Cfg.Graph.{IsGraph}
use linux_dev_env.Cfg.Graph.Kept.{Graphs, empty_cfg-IsGraph, add_child-Graphs}
use linux_dev_env.Cfg.Graph.Connected.{insert_all-Graphs, connect-Graphs}
use linux_dev_env.Cfg.Graph.Nested.{add_cfg_nodes-Graphs}

inline_one-Graphs :
    (label : Label) (ins : Instruction) (cfg : Cfg)
    → IsGraph cfg
    → Graphs (inline_one label ins cfg)
inline_one-Graphs label (Instruction.call_local c) cfg g =
    add_cfg_nodes-Graphs max_call_stack_frames label c.target cfg (omega arith, omega arith) g
inline_one-Graphs label ins cfg g = returns g

inline_calls-Graphs :
    (insts : List LabeledInstruction) (cfg : Cfg) → IsGraph cfg → Graphs (inline_calls insts cfg)
unfolding inline_calls
inline_calls-Graphs [] cfg g = returns g
inline_calls-Graphs (l ∷ insts) cfg g =
    Ends-bind _ (inline_one-Graphs l.label l.ins cfg g) (inline_calls-Graphs insts)

-- Building the control-flow graph of any list of instructions ends, the inlining of local calls
-- included: it throws an exception of the code or returns a graph in which children and parents
-- agree, every node has an instruction and every instruction a node, the entry and the exit are
-- nodes, nothing leads to the entry, and nothing away from the exit.
pub instruction_seq_to_cfg-Ends :
    (insts : List LabeledInstruction) (must_have_exit : Bool)
    → Ends IsGraph (instruction_seq_to_cfg insts must_have_exit)
unfolding instruction_seq_to_cfg
instruction_seq_to_cfg-Ends [] must = throws (invalid_control_flow-apart _)
instruction_seq_to_cfg-Ends (l ∷ insts) must =
    Ends-bind _ (insert_all-Graphs (l ∷ insts) empty_cfg empty_cfg-IsGraph) λ cfg₁ g₁.
      Ends-bind _ (add_child-Graphs entry l.label cfg₁ g₁) λ cfg₂ g₂.
        Ends-bind _ (connect-Graphs must (l ∷ insts) cfg₂ g₂)
          λ cfg₃ g₃. inline_calls-Graphs (l ∷ insts) cfg₃ g₃

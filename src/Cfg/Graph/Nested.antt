-- ===== src/Cfg/Graph/Nested.antt =====
-- Replacing local calls, also those inside called code, ends and keeps the shape of a graph:
-- `add_cfg_nodes` of verifiers/prevail/src/asm_cfg.cpp.
use linux_dev_env.Base.{
  ℕ, zero, suc, ◌+◌, ◌≤◌, ◌<◌, ◌≡◌, String, true, false, [], ◌∷◌, length, ◌∙◌, leb, inl, arith,
}
use linux_dev_env.Outcome.{Result, invalid_control_flow}
use linux_dev_env.Outcome.Ends.{Ends, returns, Ends-bind, throw_if-Ends, invalid_control_flow-apart}
use linux_dev_env.Label.{Label, is_empty, count_char, stack_frame_delimiter}
use linux_dev_env.Label.Keyed.{LabelSet, keys}
use linux_dev_env.Label.Keyed.Lookup.{has-keys, length-keys}
use linux_dev_env.Label.Text.{to_string}
use linux_dev_env.Label.Text.Depth.{is_empty-to_string, count_char-to_string}
use linux_dev_env.Syntax.Instruction.{Instruction}
use linux_dev_env.Cfg.{Cfg, size}
use linux_dev_env.Cfg.Inline.{
  max_call_stack_frames, copy_of, set_call_prefix, set_prefix, nested_one, for_nested,
  add_cfg_nodes,
}
use linux_dev_env.Cfg.Graph.{IsGraph}
use linux_dev_env.Cfg.Graph.Kept.{
  Graphs, Rewired, Rewired-self, remove_child-Rewired, instruction_at-Ends, set_instruction-Rewired,
  get_child-Ends,
}
use linux_dev_env.Cfg.Graph.Inlined.{IsFrom, uncopied-length, walk-Graphs}

-- The recursive call is not too deep: the caller's text shows the depth.
abbrev pub IsShallow : ℕ → Label → Type 0
IsShallow fuel caller =
    (0 < fuel)
    × (max_call_stack_frames ≤ fuel + count_char stack_frame_delimiter (to_string caller))

nested_one-Graphs :
    (fuel : ℕ) (add : Label → Label → Cfg → Result Cfg) (prefix : String) (label : Label)
    (ins : Instruction) (cfg : Cfg)
    → ((target : Label) → IsShallow fuel label → Graphs (add label target cfg))
    → max_call_stack_frames ≤ suc fuel + count_char stack_frame_delimiter prefix
    → count_char stack_frame_delimiter prefix + 1
      ≤ count_char stack_frame_delimiter (to_string label)
    → IsGraph cfg
    → Graphs (nested_one add prefix label ins cfg)
nested_one-Graphs fuel add prefix label (Instruction.call_local c) cfg rec h d g =
    Ends-bind _
      (throw_if-Ends (leb max_call_stack_frames (count_char stack_frame_delimiter prefix + 2))
        (invalid_control_flow "too many call stack frames") (invalid_control_flow-apart _))
      λ _ e. rec c.target (ground (arith, h, d, e))
nested_one-Graphs fuel add prefix label ins cfg rec h d g = returns g

for_nested-Graphs :
    (fuel : ℕ) (add : Label → Label → Cfg → Result Cfg) (prefix : String) (seen : LabelSet)
    (cfg : Cfg)
    → ((label target : Label) (cfg : Cfg)
        → IsShallow fuel label
        → IsGraph cfg
        → Graphs (add label target cfg))
    → max_call_stack_frames ≤ suc fuel + count_char stack_frame_delimiter prefix
    → is_empty prefix ≡ false
    → IsGraph cfg
    → Graphs (for_nested add prefix seen cfg)
unfolding for_nested
for_nested-Graphs fuel add prefix [] cfg rec h n g = returns g
for_nested-Graphs fuel add prefix (m ∷ rest) cfg rec h n g =
    let label = copy_of prefix m in
    Ends-bind _ (instruction_at-Ends label cfg g) λ ins _.
      Ends-bind _
        (nested_one-Graphs fuel add prefix label ins cfg (λ target s. rec label target cfg s g) h
          (count_char-to_string label n) g)
        λ cfg' g'. for_nested-Graphs fuel add prefix rest cfg' rec h n g'

set_call_prefix-Rewired :
    (prefix : String) (caller : Label) (ins : Instruction) (cfg : Cfg)
    → IsGraph cfg
    → Ends (Rewired cfg) (set_call_prefix prefix caller ins cfg)
set_call_prefix-Rewired prefix caller (Instruction.call_local c) cfg g =
    set_instruction-Rewired caller
      (Instruction.call_local (record c { stack_frame_prefix = prefix })) cfg g
set_call_prefix-Rewired prefix caller ins cfg g = returns (Rewired-self cfg g)

set_prefix-Rewired :
    (prefix : String) (caller : Label) (cfg : Cfg)
    → IsGraph cfg
    → Ends (Rewired cfg) (set_prefix prefix caller cfg)
unfolding set_prefix
set_prefix-Rewired prefix caller cfg g =
    Ends-bind _ (instruction_at-Ends caller cfg g)
      λ ins _. set_call_prefix-Rewired prefix caller ins cfg g

nodes-IsFrom : (prefix : String) (cfg : Cfg) → IsFrom prefix (keys cfg.neighbours) cfg
nodes-IsFrom prefix cfg l h = inl (has-keys l cfg.neighbours ∙ h)

-- Inlining the calls below a caller of a graph that is shallow enough ends, and keeps the shape.
pub add_cfg_nodes-Graphs :
    (fuel : ℕ) (caller entry_label : Label) (cfg : Cfg)
    → IsShallow fuel caller
    → IsGraph cfg
    → Graphs (add_cfg_nodes fuel caller entry_label cfg)
unfolding add_cfg_nodes size
add_cfg_nodes-Graphs zero caller entry_label cfg s g = absurd (omega arith)
add_cfg_nodes-Graphs (suc fuel) caller entry_label cfg s g =
    let p = to_string caller in
    Ends-bind _ (get_child-Ends caller cfg) λ exit_to _.
      Ends-bind _ (set_prefix-Rewired p caller cfg g) λ cfg₁ r₁.
        Ends-bind _
          (walk-Graphs caller exit_to (keys cfg₁.neighbours) (suc (length cfg₁.neighbours)) true
            cfg₁ (entry_label ∷ []) (entry_label ∷ []) r₁.graph (nodes-IsFrom p cfg₁)
            (omega
              (arith, uncopied-length p (keys cfg₁.neighbours) cfg₁, length-keys cfg₁.neighbours)))
          λ w g₂. Ends-bind _ (remove_child-Rewired caller exit_to w.cfg g₂) λ cfg₃ r₃.
            for_nested-Graphs fuel (add_cfg_nodes fuel) p w.seen_labels cfg₃
              (add_cfg_nodes-Graphs fuel) (omega (arith, s.1)) (is_empty-to_string caller) r₃.graph

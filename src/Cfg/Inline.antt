-- ===== src/Cfg/Inline.antt =====
-- The replacement of local calls by copies of the code that they call, `add_cfg_nodes` of
-- verifiers/prevail/src/asm_cfg.cpp.
use Prim.Native.String.{◌++◌}
use linux_dev_env.Base.{ℕ, zero, suc, ◌+◌, String, Bool, true, false, [], ◌∷◌, leb, if◌then◌else◌}
use linux_dev_env.Outcome.{
  Result, ok, err, invalid_control_flow, out_of_fuel, throw_if, ◌>>=◌, ◌>>◌,
}
use linux_dev_env.Label.{Label, label_t, exit, count_char, stack_frame_delimiter}
use linux_dev_env.Label.Order.{eq_label, eq_String}
use linux_dev_env.Label.Text.{to_string}
use linux_dev_env.Label.Keyed.{LabelSet, has, put}
use linux_dev_env.Syntax.Instruction.{Instruction}
use linux_dev_env.Cfg.{
  Cfg, unguarded, instruction_at, set_instruction, children_of, parents_of, contains, get_child,
  size,
}
use linux_dev_env.Cfg.Builder.{insert, add_child, remove_child}

abbrev pub max_call_stack_frames : ℕ
max_call_stack_frames = 8

-- The label of the copy of a block.
abbrev pub copy_of : String → Label → Label
copy_of prefix l = label_t l.from l.to prefix

-- The instruction of the copy of a block.
unfoldable pub clone : String → Instruction → Instruction
clone prefix (Instruction.exit e) = Instruction.exit (record e { stack_frame_prefix = prefix })
clone prefix (Instruction.call c) = Instruction.call (record c { stack_frame_prefix = prefix })
clone prefix ins = ins

abbrev pub set_call_prefix : String → Label → Instruction → Cfg → Result Cfg
set_call_prefix prefix caller (Instruction.call_local c) cfg =
    set_instruction caller (Instruction.call_local (record c { stack_frame_prefix = prefix })) cfg
set_call_prefix prefix caller ins cfg = ok cfg

-- The prefix that the caller's instruction gets.
unfoldable pub set_prefix : String → Label → Cfg → Result Cfg
unfolding instruction_at set_instruction
set_prefix prefix caller cfg = do
  ins ← instruction_at caller cfg
  set_call_prefix prefix caller ins cfg

-- The walk: the graph, the labels to copy, and the labels seen.
pub record Walk : Type 0 where
  pub cfg : Cfg
  pub macro_labels : LabelSet
  pub seen_labels : LabelSet

-- The edges from the copies of the predecessors.
unfoldable pub link_parents : String → Label → LabelSet → Cfg → Result Cfg
unfolding contains add_child
link_parents prefix label [] cfg = ok cfg
link_parents prefix label (prev ∷ rest) cfg = do
  cfg' ←
      if contains (copy_of prefix prev) cfg
      then add_child (copy_of prefix prev) label cfg
      else ok cfg
  link_parents prefix label rest cfg'

-- The loop over the successors of the block `macro_label`, whose copy is `label`.
unfoldable pub push_children : Label → Label → Label → LabelSet → Walk → Result Walk
unfolding add_child
push_children macro_label label exit_to [] w = ok w
push_children macro_label label exit_to (next ∷ rest) w = do
  w' ←
      if eq_label next exit
      then (add_child label exit_to w.cfg >>= λ cfg. ok (record w { cfg = cfg }))
      else ok (
          if has next w.seen_labels then w else record w {
            macro_labels = put next w.macro_labels;
            seen_labels = put macro_label w.seen_labels;
          })
  push_children macro_label label exit_to rest w'

-- The body of the walk, for a label that has been taken from `macro_labels`.
unfoldable pub copy_block : Label → Label → Bool → Label → Walk → Result Walk
unfolding instruction_at clone insert add_child link_parents push_children children_of parents_of
copy_block caller exit_to first macro_label w = do
  let prefix = to_string caller
  throw_if (eq_String prefix macro_label.stack_frame_prefix)
      (invalid_control_flow (prefix ++ ": illegal recursion"))
  let label = copy_of prefix macro_label
  ins ← instruction_at macro_label w.cfg
  cfg₁ ← insert label (unguarded (clone prefix ins)) w.cfg
  cfg₂ ← if first then add_child caller label cfg₁ else ok cfg₁
  parents ← parents_of macro_label cfg₂
  cfg₃ ← link_parents prefix label parents cfg₂
  children ← children_of macro_label cfg₃
  push_children macro_label label exit_to children (record w { cfg = cfg₃ })

unfoldable pub walk : ℕ → Label → Label → Bool → Walk → Result Walk
unfolding copy_block
walk zero caller exit_to first w = elim w.macro_labels [ [] ↦ ok w | _ ∷ _ ↦ err out_of_fuel ]
walk (suc fuel) caller exit_to first w = elim w.macro_labels [
  | [] ↦ ok w
  | macro_label ∷ rest ↦ (do
    w' ← copy_block caller exit_to first macro_label (record w { macro_labels = rest })
    walk fuel caller exit_to false w')
]

-- What the last loop does with a copy; `add` is the recursive call.
abbrev pub nested_one :
    (Label → Label → Cfg → Result Cfg) → String → Label → Instruction → Cfg → Result Cfg
nested_one add prefix label (Instruction.call_local c) cfg = do
  throw_if (leb max_call_stack_frames (count_char stack_frame_delimiter prefix + 2))
      (invalid_control_flow "too many call stack frames")
  add label c.target cfg
nested_one add prefix label ins cfg = ok cfg

-- The last loop, over the labels seen.
unfoldable pub for_nested :
    (Label → Label → Cfg → Result Cfg) → String → LabelSet → Cfg → Result Cfg
unfolding instruction_at
for_nested add prefix [] cfg = ok cfg
for_nested add prefix (macro_label ∷ rest) cfg = do
  let label = copy_of prefix macro_label
  ins ← instruction_at label cfg
  cfg' ← nested_one add prefix label ins cfg
  for_nested add prefix rest cfg'

-- `fuel` is the depth of the recursion.
unfoldable pub add_cfg_nodes : ℕ → Label → Label → Cfg → Result Cfg
unfolding get_child set_prefix walk remove_child for_nested size
add_cfg_nodes zero caller entry_label cfg = err out_of_fuel
add_cfg_nodes (suc fuel) caller entry_label cfg = do
  exit_to ← get_child caller cfg
  cfg₁ ← set_prefix (to_string caller) caller cfg
  w ←
      walk (suc (size cfg₁)) caller exit_to true
        (record { cfg = cfg₁; macro_labels = entry_label ∷ []; seen_labels = entry_label ∷ [] })
  cfg₂ ← remove_child caller exit_to w.cfg
  for_nested (add_cfg_nodes fuel) (to_string caller) w.seen_labels cfg₂

-- ===== src/Cfg/Builder.antt =====
-- `cfg_builder_t` of verifiers/prevail/src/asm_cfg.cpp.
use Prim.Native.String.{◌++◌}
use linux_dev_env.Base.{String, [], ◌∷◌, is_some}
use linux_dev_env.Outcome.{
  Result, ok, Error, crab_message, assertion_failed, out_of_range, or_throw, throw_if, ◌>>=◌, ◌>>◌,
}
use linux_dev_env.Label.{Label, entry, exit, make_jump}
use linux_dev_env.Label.Order.{eq_label}
use linux_dev_env.Label.Text.{to_string}
use linux_dev_env.Label.Keyed.{LabelSet, put, erase, find, emplace, update}
use linux_dev_env.Cfg.{GuardedInstruction, Adjacent, isolated, Cfg, get_node, contains}

abbrev pub set_node : Label → Adjacent → Cfg → Cfg
set_node l n cfg = record cfg { neighbours = update l n cfg.neighbours }

-- `cfg.neighbours.at(l)`
unfoldable pub node_at : Label → Cfg → Result Adjacent
node_at l cfg = or_throw (find l cfg.neighbours) out_of_range

unfoldable pub add_child : Label → Label → Cfg → Result Cfg
unfolding node_at
add_child a b cfg = do
  throw_if (eq_label b entry) assertion_failed
  throw_if (eq_label a exit) assertion_failed
  n ← node_at a cfg
  let cfg' = set_node a (record n { children = put b n.children }) cfg
  m ← node_at b cfg'
  ok (set_node b (record m { parents = put a m.parents }) cfg')

unfoldable pub remove_child : Label → Label → Cfg → Result Cfg
unfolding get_node
remove_child a b cfg = do
  n ← get_node a cfg
  let cfg' = set_node a (record n { children = erase b n.children }) cfg
  m ← get_node b cfg'
  ok (set_node b (record m { parents = erase a m.parents }) cfg')

abbrev pub exists : String → Label → Error
exists what l = crab_message (what ++ (to_string l ++ " already exists"))

unfoldable pub insert : Label → GuardedInstruction → Cfg → Result Cfg
insert l ins cfg = do
  throw_if (is_some (find l cfg.neighbours)) (exists "Label " l)
  ok (record {
    neighbours = emplace l isolated cfg.neighbours;
    instructions = emplace l ins cfg.instructions;
  })

-- The label that is returned, with the graph after.
unfoldable pub insert_jump : Label → Label → GuardedInstruction → Cfg → Result (Label × Cfg)
unfolding insert add_child contains make_jump
insert_jump from to ins cfg = do
  let jump_label = make_jump from to
  throw_if (contains jump_label cfg) (exists "Jump label " jump_label)
  cfg₁ ← insert jump_label ins cfg
  cfg₂ ← add_child from jump_label cfg₁
  cfg₃ ← add_child jump_label to cfg₂
  ok (jump_label, cfg₃)

-- The loops of `insert_after`, over the former children of `prev_label`.
unfoldable pub erase_parent : Label → LabelSet → Cfg → Result Cfg
unfolding get_node
erase_parent prev [] cfg = ok cfg
erase_parent prev (next ∷ rest) cfg = do
  n ← get_node next cfg
  erase_parent prev rest (set_node next (record n { parents = erase prev n.parents }) cfg)

unfoldable pub relink : Label → Label → LabelSet → Cfg → Result Cfg
unfolding add_child
relink prev new [] cfg = ok cfg
relink prev new (next ∷ rest) cfg = do
  cfg₁ ← add_child prev new cfg
  cfg₂ ← add_child new next cfg₁
  relink prev new rest cfg₂

unfoldable pub insert_after : Label → Label → GuardedInstruction → Cfg → Result Cfg
unfolding get_node erase_parent insert relink
insert_after prev new ins cfg = do
  throw_if (eq_label prev new)
      (crab_message ("Cannot insert after the same label " ++ to_string new))
  n ← get_node prev cfg
  cfg₁ ← erase_parent prev n.children (set_node prev (record n { children = [] }) cfg)
  cfg₂ ← insert new ins cfg₁
  relink prev new n.children cfg₂

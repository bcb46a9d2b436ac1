-- ===== src/Cfg/Program.antt =====
-- The control-flow graph of a list of instructions, `instruction_seq_to_cfg` of
-- verifiers/prevail/src/asm_cfg.cpp, and the annotation with preconditions of `prepare_cfg`.
use Prim.Native.String.{◌++◌}
use linux_dev_env.Base.{
  Bool, true, false, not, ◌&&◌, ◌||◌, Option, none, some, List, [], ◌∷◌, if◌then◌else◌,
}
use linux_dev_env.Base.Int.{pos}
use linux_dev_env.Outcome.{Result, ok, err, invalid_control_flow, throw_if, ◌>>=◌, ◌>>◌}
use linux_dev_env.Gsl.{Gsl}
use linux_dev_env.Label.{Label, entry, exit}
use linux_dev_env.Label.Order.{eq_label}
use linux_dev_env.Label.Text.{to_string}
use linux_dev_env.Syntax.Instruction.{Condition, Instruction, LabeledInstruction}
use linux_dev_env.Platform.{ProgramInfo}
use linux_dev_env.Assertions.Extractor.{get_assertions}
use linux_dev_env.Cfg.{
  Cfg, empty_cfg, GuardedInstruction, unguarded, guarded_at, contains, set_assertions,
}
use linux_dev_env.Cfg.Builder.{insert, insert_jump, add_child}
use linux_dev_env.Cfg.Reverse.{reverse, has_fall}
use linux_dev_env.Cfg.Inline.{add_cfg_nodes, max_call_stack_frames}

abbrev pub insert_one : Label → Instruction → Cfg → Result Cfg
insert_one label (Instruction.undefined _) cfg = ok cfg
insert_one label ins cfg = insert label (unguarded ins) cfg

-- The first loop, which adds the instructions without edges.
unfoldable pub insert_all : List LabeledInstruction → Cfg → Result Cfg
unfolding insert
insert_all [] cfg = ok cfg
insert_all (l ∷ insts) cfg = insert_one l.label l.ins cfg >>= insert_all insts

abbrev pub assume_implicit : Condition → GuardedInstruction
assume_implicit cond = unguarded (Instruction.assume (record { cond = cond; is_implicit = true }))

-- The edges of a jump.
unfoldable pub connect_jump : Label → Option Condition → Label → Label → Cfg → Result Cfg
unfolding contains insert_jump add_child reverse
connect_jump label none target fallthrough cfg = add_child label target cfg
connect_jump label (some cond) target fallthrough cfg =
    if eq_label target fallthrough then add_child label fallthrough cfg else (do
      throw_if (not (contains target cfg))
          (invalid_control_flow ("jump to undefined label " ++ to_string target))
      (_, cfg₁) ← insert_jump label target (assume_implicit cond) cfg
      (_, cfg₂) ← insert_jump label fallthrough (assume_implicit (reverse cond)) cfg₁
      ok cfg₂)

-- The edges of an instruction that is not `Undefined`.
unfoldable pub connect_one : Label → Instruction → Label → Cfg → Result Cfg
unfolding connect_jump has_fall add_child
connect_one label (Instruction.jmp j) fallthrough cfg =
    connect_jump label j.cond j.target fallthrough cfg
connect_one label (Instruction.exit e) fallthrough cfg = add_child label exit cfg
connect_one label ins fallthrough cfg = add_child label fallthrough cfg

abbrev pub is_undefined : Instruction → Bool
is_undefined (Instruction.undefined _) = true
is_undefined _ = false

-- The second loop, which adds the edges and ignores local calls.
unfoldable pub connect : Bool → List LabeledInstruction → Cfg → Result Cfg
unfolding connect_one has_fall
connect must_have_exit [] cfg = ok cfg
connect must_have_exit (l ∷ []) cfg = if is_undefined l.ins then ok cfg else (do
  throw_if (has_fall l.ins && must_have_exit)
      (invalid_control_flow "fallthrough in last instruction")
  connect_one l.label l.ins exit cfg)
connect must_have_exit (l ∷ next ∷ insts) cfg = do
  cfg' ← if is_undefined l.ins then ok cfg else connect_one l.label l.ins next.label cfg
  connect must_have_exit (next ∷ insts) cfg'

abbrev pub inline_one : Label → Instruction → Cfg → Result Cfg
inline_one label (Instruction.call_local c) cfg =
    add_cfg_nodes max_call_stack_frames label c.target cfg
inline_one label ins cfg = ok cfg

-- The third loop, which replaces local calls.
unfoldable pub inline_calls : List LabeledInstruction → Cfg → Result Cfg
unfolding add_cfg_nodes
inline_calls [] cfg = ok cfg
inline_calls (l ∷ insts) cfg = inline_one l.label l.ins cfg >>= inline_calls insts

unfoldable pub instruction_seq_to_cfg : List LabeledInstruction → Bool → Result Cfg
unfolding insert_all connect inline_calls add_child
instruction_seq_to_cfg [] must_have_exit = err (invalid_control_flow "empty instruction sequence")
instruction_seq_to_cfg (l ∷ insts) must_have_exit = do
  cfg₁ ← insert_all (l ∷ insts) empty_cfg
  cfg₂ ← add_child entry l.label cfg₁
  cfg₃ ← connect must_have_exit (l ∷ insts) cfg₂
  inline_calls (l ∷ insts) cfg₃

-- `cfg_from_adjacency_list`; a `std::map` is the list of its entries.
unfoldable pub insert_vertices : List (Label × List Label) → Cfg → Result Cfg
unfolding insert eq_label
insert_vertices [] cfg = ok cfg
insert_vertices ((label, _) ∷ adj_list) cfg = do
  cfg' ←
      if eq_label label entry || eq_label label exit
      then ok cfg
      else insert label (unguarded (Instruction.undefined (record { opcode = pos 0 }))) cfg
  insert_vertices adj_list cfg'

unfoldable pub add_children : Label → List Label → Cfg → Result Cfg
unfolding add_child
add_children label [] cfg = ok cfg
add_children label (child ∷ children) cfg =
    add_child label child cfg >>= add_children label children

unfoldable pub connect_vertices : List (Label × List Label) → Cfg → Result Cfg
unfolding add_children
connect_vertices [] cfg = ok cfg
connect_vertices ((label, children) ∷ adj_list) cfg =
    add_children label children cfg >>= connect_vertices adj_list

unfoldable pub cfg_from_adjacency_list : List (Label × List Label) → Result Cfg
unfolding insert_vertices connect_vertices
cfg_from_adjacency_list adj_list = insert_vertices adj_list empty_cfg >>= connect_vertices adj_list

-- The last loop of `prepare_cfg`, over the labels of the instructions.
unfoldable pub annotate_one : Gsl → ProgramInfo → Label → Cfg → Result Cfg
unfolding get_assertions set_assertions guarded_at
annotate_one gsl info label cfg = do
  g ← guarded_at label cfg
  assertions ← get_assertions gsl info (some label) g.cmd
  set_assertions label assertions cfg

unfoldable pub annotate : Gsl → ProgramInfo → List Label → Cfg → Result Cfg
unfolding annotate_one
annotate gsl info [] cfg = ok cfg
annotate gsl info (label ∷ rest) cfg = annotate_one gsl info label cfg >>= annotate gsl info rest

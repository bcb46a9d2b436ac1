-- ===== src/Cfg.antt =====
-- The control-flow graph: `cfg_t` of verifiers/prevail/src/crab/cfg.hpp.
pub mod Builder
pub mod Reverse
pub mod Negation
pub mod Inline
pub mod Program
pub mod Graph
pub mod Flow
pub mod Prepare
pub mod Blocks
use Prim.Native.String.{◌++◌}
use linux_dev_env.Base.{ℕ, String, Bool, List, [], ◌∷◌, length, is_some}
use linux_dev_env.Base.Int.{pos}
use linux_dev_env.Outcome.{Result, ok, err, Error, crab_message, or_throw, ◌>>=◌}
use linux_dev_env.Label.{Label, entry, exit}
use linux_dev_env.Label.Text.{to_string}
use linux_dev_env.Label.Keyed.{LabelSet, find, update, keys}
use linux_dev_env.Syntax.Instruction.{Instruction}
use linux_dev_env.Syntax.Assertion.{Assertion}

-- `GuardedInstruction` of asm_syntax.hpp.
pub record GuardedInstruction : Type 0 where
  pub cmd : Instruction
  pub preconditions : List Assertion

-- `GuardedInstruction{.cmd = ins}`
abbrev pub unguarded : Instruction → GuardedInstruction
unguarded ins = record { cmd = ins; preconditions = [] }

pub record Adjacent : Type 0 where
  pub parents : LabelSet
  pub children : LabelSet

abbrev pub isolated : Adjacent
isolated = record { parents = []; children = [] }

pub record Cfg : Type 0 where
  pub neighbours : List (Label × Adjacent)
  pub instructions : List (Label × GuardedInstruction)

-- The initializers of the members.
abbrev pub empty_cfg : Cfg
empty_cfg = record {
  neighbours = (entry, isolated) ∷ (exit, isolated) ∷ [];
  instructions =
      (entry, unguarded (Instruction.undefined (record { opcode = pos 0 })))
      ∷ (exit, unguarded (Instruction.undefined (record { opcode = pos 0 })))
      ∷ [];
}

-- The error for a label that has no node, or no instruction.
unfoldable pub not_found : Label → Error
not_found l = crab_message ("Label " ++ (to_string l ++ " not found in the CFG: "))

unfoldable pub get_node : Label → Cfg → Result Adjacent
get_node l cfg = or_throw (find l cfg.neighbours) (not_found l)

unfoldable pub guarded_at : Label → Cfg → Result GuardedInstruction
guarded_at l cfg = or_throw (find l cfg.instructions) (not_found l)

unfoldable pub instruction_at : Label → Cfg → Result Instruction
unfolding guarded_at
instruction_at l cfg = guarded_at l cfg >>= λ g. ok g.cmd

unfoldable pub set_assertions : Label → List Assertion → Cfg → Result Cfg
unfolding guarded_at
set_assertions l assertions cfg = do
  g ← guarded_at l cfg
  ok (record cfg {
    instructions = update l (record g { preconditions = assertions }) cfg.instructions;
  })

unfoldable pub assertions_at : Label → Cfg → Result (List Assertion)
unfolding guarded_at
assertions_at l cfg = guarded_at l cfg >>= λ g. ok g.preconditions

-- An assignment of an instruction through the reference that `instruction_at` returns.
unfoldable pub set_instruction : Label → Instruction → Cfg → Result Cfg
unfolding guarded_at
set_instruction l ins cfg = do
  g ← guarded_at l cfg
  ok (record cfg { instructions = update l (record g { cmd = ins }) cfg.instructions })

unfoldable pub children_of : Label → Cfg → Result LabelSet
unfolding get_node
children_of l cfg = get_node l cfg >>= λ n. ok n.children

unfoldable pub parents_of : Label → Cfg → Result LabelSet
unfolding get_node
parents_of l cfg = get_node l cfg >>= λ n. ok n.parents

unfoldable pub labels : Cfg → List Label
labels cfg = keys cfg.neighbours

unfoldable pub size : Cfg → ℕ
size cfg = length cfg.neighbours

unfoldable pub contains : Label → Cfg → Bool
contains l cfg = is_some (find l cfg.neighbours)

-- The degrees are `int` in the interface; they are sizes of sets of labels.
unfoldable pub in_degree : Label → Cfg → Result ℕ
unfolding get_node
in_degree l cfg = get_node l cfg >>= λ n. ok (length n.parents)

unfoldable pub out_degree : Label → Cfg → Result ℕ
unfolding get_node
out_degree l cfg = get_node l cfg >>= λ n. ok (length n.children)

-- `*s.begin()` of a set that must have one element.
abbrev only : LabelSet → Error → Result Label
only [] e = err e
only (l ∷ []) e = ok l
only (l ∷ m ∷ s) e = err e

abbrev no_single : Label → String → Error
no_single l what = crab_message ("Label " ++ (to_string l ++ what))

unfoldable pub get_child : Label → Cfg → Result Label
unfolding get_node
get_child l cfg = do
  n ← get_node l cfg
  only n.children (no_single l " does not have a single child")

unfoldable pub get_parent : Label → Cfg → Result Label
unfolding get_node
get_parent l cfg = do
  n ← get_node l cfg
  only n.parents (no_single l " does not have a single parent")

unfoldable pub num_siblings : Label → Cfg → Result ℕ
unfolding get_parent out_degree
num_siblings l cfg = get_parent l cfg >>= λ p. out_degree p cfg

-- ===== src/Tests/Cfg.antt =====
-- Control-flow graphs of small programs.
use linux_dev_env.Label.Keyed.{has}
use linux_dev_env.Label.Text.{to_string}
use linux_dev_env.Label.Keyed.{put}
use linux_dev_env.Label.Keyed.{update}
use linux_dev_env.Label.Keyed.{emplace}
use linux_dev_env.Label.Order.{eq_label}
use linux_dev_env.Label.Keyed.{find}
use linux_dev_env.Base.{ℕ, ◌≡◌, refl, true, false, none, some, List, [], ◌∷◌}
use linux_dev_env.Base.Int.{pos}
use linux_dev_env.Outcome.{ok, err, crab_message, out_of_range}
use linux_dev_env.Outcome.Ends.{Ends, Ends-ok}
use linux_dev_env.Label.{Label, label_at, entry}
use linux_dev_env.Syntax.Op.{CondOp, imm, BinOp}
use linux_dev_env.Syntax.Instruction.{Condition, Instruction, LabeledInstruction}
use linux_dev_env.Cfg.Program.{instruction_seq_to_cfg}
use linux_dev_env.Cfg.Graph.{IsGraph, is_child, is_node}
use linux_dev_env.Cfg.{
  Cfg, GuardedInstruction, empty_cfg, labels, in_degree, out_degree, num_siblings, get_parent,
  get_child, get_node,
}
use linux_dev_env.Base.{arith}
use linux_dev_env.Gsl.{checked}
use linux_dev_env.Tests.Data.{info}
use linux_dev_env.Outcome.{Result}
use linux_dev_env.Outcome.Returns.{Returns}
use linux_dev_env.Label.{make_increment_counter}
use linux_dev_env.Label.Keyed.{has, find, keys, erase}
use linux_dev_env.Label.Order.{eq_label}
use linux_dev_env.Cfg.Reverse.{reverse, has_fall}
use linux_dev_env.Cfg.Negation.{satisfied, satisfied-reverse}
use linux_dev_env.Cfg.Prepare.{PrepareCfgOptions, prepare_cfg}
use linux_dev_env.Cfg.Prepare.Annotated.{IsAnnotated, prepare_cfg-IsAnnotated}
use linux_dev_env.Cfg.Flow.{is_edge}
use linux_dev_env.Cfg.Flow.Program.{IsProgram, last, more, labels_of}
use linux_dev_env.Cfg.Flow.Program.Exact.{graph_edges, instruction_seq_to_cfg-Returns}
use linux_dev_env.Cfg.Blocks.{collect_basic_blocks, Blocks, is_inner}
use linux_dev_env.Cfg.Blocks.Chain.{AreBlocks}
use linux_dev_env.Cfg.Blocks.Walk.{FollowParents}
use linux_dev_env.Cfg.Blocks.Growing.{members}
use linux_dev_env.Cfg.Blocks.Covered.{Covers, collect_basic_blocks-Returns}
use linux_dev_env.Cfg.Graph.Built.{instruction_seq_to_cfg-Ends}

abbrev at : ℕ → Instruction → LabeledInstruction
at n ins = record { label = label_at (pos n); ins = ins; line_info = none }

abbrev zero_r1 : Condition
zero_r1 = record { op = CondOp.eq; left = 1; right = imm 0; is64 = true }

abbrev jump_if : ℕ → Instruction
jump_if n = Instruction.jmp (record { cond = some zero_r1; target = label_at (pos n) })

abbrev goto : ℕ → Instruction
goto n = Instruction.jmp (record { cond = none; target = label_at (pos n) })

abbrev call_to : ℕ → Instruction
call_to n = Instruction.call_local (record { target = label_at (pos n); stack_frame_prefix = "" })

abbrev return : Instruction
return = Instruction.exit (record { stack_frame_prefix = "" })

abbrev clear_r0 : Instruction
clear_r0 =
    Instruction.bin (record { op = BinOp.mov; dst = 0; v = imm 0; is64 = true; lddw = false })

-- `call 2; exit; if r1 == 0 goto 5; r0 = 0; exit; goto 4`
abbrev shared_exit : List LabeledInstruction
shared_exit =
    at 0 (call_to 2)
    ∷ at 1 return
    ∷ at 2 (jump_if 5)
    ∷ at 3 clear_r0
    ∷ at 4 return
    ∷ at 5 (goto 4)
    ∷ []

-- The block 4 is copied twice, since its label is not among those seen.
shared_exit-rejected :
    instruction_seq_to_cfg shared_exit true ≡ err (crab_message "Label 0/4 already exists")
unfolding instruction_seq_to_cfg find eq_label emplace update put to_string has
shared_exit-rejected = refl

instruction_seq_to_cfg-Ends_example : Ends IsGraph (instruction_seq_to_cfg shared_exit true)
instruction_seq_to_cfg-Ends_example = instruction_seq_to_cfg-Ends shared_exit true

-- A jump without a condition to a label that no instruction has.
abbrev nowhere : List LabeledInstruction
nowhere = at 0 (goto 7) ∷ []

goto-undefined : instruction_seq_to_cfg nowhere true ≡ err out_of_range
unfolding instruction_seq_to_cfg find eq_label emplace update
goto-undefined = refl

-- `if r1 == 0 goto 2; r0 = 0; exit`
abbrev first : LabeledInstruction
first = at 0 (jump_if 2)

abbrev others : List LabeledInstruction
others = at 1 clear_r0 ∷ at 2 return ∷ []

abbrev branching : List LabeledInstruction
branching = first ∷ others

abbrev all_labels : List Label
all_labels = labels_of branching

others-IsProgram : IsProgram all_labels true 1 others
unfolding has eq_label has_fall
others-IsProgram =
    more
      (record {
        slot = 1;
        labelled = refl;
        next = omega arith;
        small = omega arith;
        listed = refl;
        leads = tt;
      })
      (last
        (record {
          slot = 2;
          labelled = refl;
          next = omega arith;
          small = omega arith;
          listed = refl;
          leads = tt;
        })
        refl)

branching-IsProgram : IsProgram all_labels true 0 branching
unfolding has eq_label
branching-IsProgram =
    more
      (record {
        slot = 0;
        labelled = refl;
        next = omega arith;
        small = omega arith;
        listed = refl;
        leads = (2, refl, refl);
      })
      others-IsProgram

instruction_seq_to_cfg-Returns_example :
    Returns
      (λ (cfg : Cfg). (a b : Label) → is_child cfg a b ≡ is_edge (graph_edges first others) a b)
      (instruction_seq_to_cfg (first ∷ others) true)
instruction_seq_to_cfg-Returns_example =
    instruction_seq_to_cfg-Returns first others true branching-IsProgram

-- `r1 = 5` satisfies neither `r1 == 0` nor its reverse's reverse.
satisfied-reverse_example : satisfied (reverse zero_r1) (λ _. 5) ≡ true
satisfied-reverse_example = satisfied-reverse zero_r1 (λ _. 5)

-- `r0 = 0; goto 0; exit`, a loop that is counted.
abbrev looping : List LabeledInstruction
looping = at 0 clear_r0 ∷ at 1 (goto 0) ∷ at 2 return ∷ []

abbrev options : PrepareCfgOptions
options = record { check_for_termination = true; must_have_exit = true }

abbrev after : Result Cfg → Cfg
after (ok cfg) = cfg
after (err _) = empty_cfg

abbrev looping_cfg : Cfg
looping_cfg = after (prepare_cfg 100 checked info looping options)

prepare_cfg-IsAnnotated_example :
    IsGraph looping_cfg
    × ((l : Label)
        → is_node looping_cfg l ≡ true
        → (g : GuardedInstruction) × (find l looping_cfg.instructions ≡ some g)
          × IsAnnotated checked info l g)
unfolding prepare_cfg find update put
prepare_cfg-IsAnnotated_example = prepare_cfg-IsAnnotated 100 checked info looping options refl

-- The counter stands after the head of the loop.
looping-counted :
    is_child looping_cfg (label_at (pos 0)) (make_increment_counter (label_at (pos 0))) ≡ true
unfolding prepare_cfg find update put has
looping-counted = refl

-- `r0 = 0; r0 = 0; exit`, one block.
abbrev straight : List LabeledInstruction
straight = at 0 clear_r0 ∷ at 1 clear_r0 ∷ at 2 return ∷ []

abbrev straight_cfg : Cfg
straight_cfg = after (instruction_seq_to_cfg straight true)

straight-collected :
    collect_basic_blocks straight_cfg true
    ≡ ok ((label_at (pos 0), label_at (pos 0) ∷ label_at (pos 1) ∷ label_at (pos 2) ∷ []) ∷ [])
unfolding collect_basic_blocks instruction_seq_to_cfg find eq_label emplace update put has keys
    erase
straight-collected = refl

straight-IsGraph : IsGraph straight_cfg
unfolding instruction_seq_to_cfg find update keys put eq_label emplace
straight-IsGraph = Ends-ok (instruction_seq_to_cfg-Ends straight true) refl

straight-FollowParents : FollowParents straight_cfg [] (labels straight_cfg)
unfolding labels keys instruction_seq_to_cfg find update put eq_label emplace has is_inner in_degree
    out_degree num_siblings get_parent get_child get_node
straight-FollowParents = (
  (λ i e. cc),
  (
    (λ i e. record { parent = entry; listed = refl; degree = refl; child = refl }),
    (
      (λ i e. record { parent = label_at (pos 0); listed = refl; degree = refl; child = refl }),
      (
        (λ i e. record { parent = label_at (pos 1); listed = refl; degree = refl; child = refl }),
        ((λ i e. cc), tt),
      ),
    ),
  ),
)

collect_basic_blocks-Returns_example :
    Returns
      (λ (res : Blocks). AreBlocks straight_cfg res × Covers straight_cfg res)
      (collect_basic_blocks straight_cfg true)
collect_basic_blocks-Returns_example =
    collect_basic_blocks-Returns straight_cfg straight-IsGraph straight-FollowParents

-- `if r1 == 0 goto 3; goto 3; exit; goto 2`, where 2 follows its only parent 3 but stands before it.
abbrev backward_cfg : Cfg
backward_cfg = after (
    instruction_seq_to_cfg (at 0 (jump_if 3) ∷ at 1 (goto 3) ∷ at 2 return ∷ at 3 (goto 2) ∷ [])
      true)

abbrev blocks_of : Result Blocks → Blocks
blocks_of (ok res) = res
blocks_of (err _) = []

-- The node 2 is in no block.
backward-lost :
    has (label_at (pos 2)) (members (blocks_of (collect_basic_blocks backward_cfg true))) ≡ false
unfolding collect_basic_blocks instruction_seq_to_cfg find eq_label emplace update put has keys
    erase
backward-lost = refl

backward-collected :
    collect_basic_blocks backward_cfg true ≡ ok (blocks_of (collect_basic_blocks backward_cfg true))
unfolding collect_basic_blocks instruction_seq_to_cfg find eq_label emplace update put has keys
    erase
backward-collected = refl

-- ===== src/Tests/Program.antt =====
-- The control-flow graph of a program with a loop, its weak topological order, and what the forward
-- analysis assumes of a domain, for a domain of one bit.
use linux_dev_env.Base.{ℕ, ◌≡◌, refl, true, false, none, some, List, [], ◌∷◌, ◌++◌}
use linux_dev_env.Base.Int.{pos}
use linux_dev_env.Outcome.{ok}
use linux_dev_env.Outcome.Ends.{Ends-ok}
use linux_dev_env.Outcome.Returns.{returns}
use linux_dev_env.Label.{Label, label_at, entry, exit}
use linux_dev_env.Label.Order.{eq_label}
use linux_dev_env.Label.Keyed.{put, keys, update, find, has, emplace}
use linux_dev_env.Syntax.Op.{CondOp, imm, BinOp}
use linux_dev_env.Syntax.Instruction.{Instruction, LabeledInstruction}
use linux_dev_env.Cfg.{Cfg, labels}
use linux_dev_env.Cfg.Program.{instruction_seq_to_cfg}
use linux_dev_env.Cfg.Graph.{IsGraph}
use linux_dev_env.Cfg.Graph.Built.{instruction_seq_to_cfg-Ends}
use linux_dev_env.Wto.{Wto, Cycle, cycle, vertex, collect_heads}
use linux_dev_env.Wto.Builder.{wto_of}
use linux_dev_env.Cfg.Graph.{is_node}
use linux_dev_env.Fixpoint.Reach.{IsNested, IsOrder}
use linux_dev_env.Fixpoint.Total.{IsTotal, AreNodes}
use linux_dev_env.Fixpoint.Returned.{IsHeaded}
use linux_dev_env.Fixpoint.Checked.{
  has-every, nested_nil, nested_cons, IsVertex-if, cycle_if, closed_if, IsHeaded-if, IsShallow-if,
}
use linux_dev_env.Tests.Fixpoint.{cfg_after, wto_after, reached}

abbrev at : ℕ → Instruction → LabeledInstruction
at n ins = record { label = label_at (pos n); ins = ins; line_info = none }

-- `r0 = 0; if r1 == 0 goto 0; exit`
abbrev counting : List LabeledInstruction
counting =
    at 0
      (Instruction.bin (record { op = BinOp.mov; dst = 0; v = imm 0; is64 = true; lddw = false }))
    ∷ at 1 (
        Instruction.jmp (record {
          cond = some (record { op = CondOp.eq; left = 1; right = imm 0; is64 = true });
          target = label_at (pos 0);
        }))
    ∷ at 2 (Instruction.exit (record { stack_frame_prefix = "" }))
    ∷ []

abbrev cfg : Cfg
cfg = cfg_after (instruction_seq_to_cfg counting true)

abbrev wto : Wto
wto = wto_after (wto_of 100 cfg)

-- A label of a jump.
abbrev jump : ℕ → ℕ → Label
jump m n = record { stack_frame_prefix = ""; from = pos m; to = pos n; special_label = "" }

abbrev v : ℕ → Label
v n = label_at (pos n)

abbrev loop : Cycle
loop = record {
  components = vertex (v 0) ∷ vertex (v 1) ∷ vertex (jump 1 0) ∷ [];
  containing_cycle = none;
}

abbrev inside : List Label
inside = v 0 ∷ v 1 ∷ jump 1 0 ∷ []

loop-IsCycle : IsNested cfg wto 2 (cycle 0) inside
unfolding wto_of instruction_seq_to_cfg find update keys put has eq_label
loop-IsCycle =
    cycle_if wto 0 loop (v 0) (vertex (v 1) ∷ vertex (jump 1 0) ∷ []) (v 1 ∷ jump 1 0 ∷ []) refl
      refl refl refl
      (nested_cons (v 1 ∷ []) (jump 1 0 ∷ []) refl refl (IsVertex-if cfg (v 1) refl refl) (
        nested_cons (jump 1 0 ∷ []) [] refl refl (IsVertex-if cfg (jump 1 0) refl refl) nested_nil))

abbrev after_entry : List Label
after_entry = inside ++ jump 1 2 ∷ v 2 ∷ exit ∷ []

wto-IsHeaded : IsHeaded 2 wto
unfolding wto_of instruction_seq_to_cfg find update keys put has eq_label collect_heads
wto-IsHeaded = IsHeaded-if 1 wto (λ nestings. refl)

after_entry-AreNodes : AreNodes cfg after_entry
unfolding instruction_seq_to_cfg find update keys put has eq_label emplace
after_entry-AreNodes = has-every (is_node cfg) after_entry refl

wto-IsOrder : IsOrder cfg wto 2
unfolding wto_of instruction_seq_to_cfg find update keys put has eq_label labels
wto-IsOrder = record {
  rest = cycle 0 ∷ vertex (jump 1 2) ∷ vertex (v 2) ∷ vertex exit ∷ [];
  after = after_entry;
  starts = refl;
  nested = nested_cons inside (jump 1 2 ∷ v 2 ∷ exit ∷ []) refl refl loop-IsCycle (
      nested_cons (jump 1 2 ∷ []) (v 2 ∷ exit ∷ []) refl refl (IsVertex-if cfg (jump 1 2) refl refl)
        (nested_cons (v 2 ∷ []) (exit ∷ []) refl refl (IsVertex-if cfg (v 2) refl refl)
          (nested_cons (exit ∷ []) [] refl refl (IsVertex-if cfg exit refl refl) nested_nil)));
  no_way_in = λ m. refl;
  apart = refl;
  nodes = after_entry-AreNodes;
  closed = λ m n h e. closed_if cfg (entry ∷ after_entry) after_entry refl m n h e;
  shallow = IsShallow-if 2 wto wto-IsHeaded;
}

made : wto_of 100 cfg ≡ ok wto
unfolding wto_of instruction_seq_to_cfg find update keys put
made = refl

cfg-IsGraph : IsGraph cfg
unfolding instruction_seq_to_cfg find update keys put eq_label emplace
cfg-IsGraph = Ends-ok (instruction_seq_to_cfg-Ends counting true) refl

reached-IsTotal : IsTotal reached
reached-IsTotal = record {
  assume = λ x a. returns tt;
  transform = λ x i. returns tt;
  initialize_loop_counter = λ x l. returns tt;
}

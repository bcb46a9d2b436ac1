-- ===== src/Cfg/Prepare.antt =====
-- `prepare_cfg` of verifiers/prevail/src/asm_cfg.cpp.
pub mod Annotated
use linux_dev_env.Base.{ℕ, Bool, List, [], ◌∷◌, if◌then◌else◌}
use linux_dev_env.Outcome.{Result, ok, ◌>>=◌}
use linux_dev_env.Gsl.{Gsl}
use linux_dev_env.Label.{Label, make_increment_counter}
use linux_dev_env.Label.Keyed.{keys}
use linux_dev_env.Syntax.Instruction.{Instruction, LabeledInstruction}
use linux_dev_env.Platform.{ProgramInfo}
use linux_dev_env.Cfg.{Cfg, unguarded}
use linux_dev_env.Cfg.Builder.{insert_after}
use linux_dev_env.Cfg.Program.{instruction_seq_to_cfg, annotate}
use linux_dev_env.Wto.{loop_heads}
use linux_dev_env.Wto.Builder.{wto_of}

-- `prepare_cfg_options` of config.hpp.
pub record PrepareCfgOptions : Type 0 where
  pub check_for_termination : Bool
  pub must_have_exit : Bool

-- The callable that `for_each_loop_head` invokes, for each head.
unfoldable pub insert_counters : List Label → Cfg → Result Cfg
unfolding insert_after make_increment_counter
insert_counters [] cfg = ok cfg
insert_counters (label ∷ heads) cfg = do
  cfg' ←
      insert_after label (make_increment_counter label)
        (unguarded (Instruction.increment_loop_counter (record { name = label }))) cfg
  insert_counters heads cfg'

-- `fuel` is the number of tasks of the weak topological order.
unfoldable pub count_loops : ℕ → Cfg → Result Cfg
unfolding wto_of loop_heads insert_counters
count_loops fuel cfg = do
  wto ← wto_of fuel cfg
  heads ← loop_heads wto wto.components
  insert_counters heads cfg

unfoldable pub prepare_cfg :
    ℕ → Gsl → ProgramInfo → List LabeledInstruction → PrepareCfgOptions → Result Cfg
unfolding instruction_seq_to_cfg count_loops annotate keys
prepare_cfg fuel gsl info prog options = do
  cfg₁ ← instruction_seq_to_cfg prog options.must_have_exit
  cfg₂ ← if options.check_for_termination then count_loops fuel cfg₁ else ok cfg₁
  annotate gsl info (keys cfg₂.instructions) cfg₂

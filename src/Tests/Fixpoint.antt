-- ===== src/Tests/Fixpoint.antt =====
-- The order and the forward analysis of the graph that wto.hpp draws, over the values reached and not
-- reached.
use linux_dev_env.Base.{
  ℕ, suc, ◌≡◌, refl, Bool, true, false, not, none, some, ◌&&◌, ◌||◌, List, [], ◌∷◌, ◌++◌, arith,
}
use linux_dev_env.Base.Int.{pos}
use linux_dev_env.Outcome.{Result, ok, err, ◌>>=◌}
use linux_dev_env.Outcome.Ends.{returns}
use linux_dev_env.Label.{Label, label_at, entry, exit}
use linux_dev_env.Label.Order.{eq_label}
use linux_dev_env.Label.Keyed.{put, keys, update, find, has, emplace}
use linux_dev_env.Cfg.{Cfg, empty_cfg, labels, assertions_at, instruction_at, parents_of}
use linux_dev_env.Cfg.Program.{cfg_from_adjacency_list}
use linux_dev_env.Wto.{Wto, Cycle, cycle, vertex, collect_heads}
use linux_dev_env.Wto.Builder.{wto_of}
use linux_dev_env.Fixpoint.Table.{Analyzer, InvariantTable, descending_iterations}
use linux_dev_env.Fixpoint.{run_forward_analyzer, first_invariant, increase, decrease}
use linux_dev_env.Fixpoint.Interface.{Domain, Meaning, IsSound, Stabilizes}
use linux_dev_env.Fixpoint.Reach.{IsNested, IsOrder}
use linux_dev_env.Cfg.Graph.{is_node}
use linux_dev_env.Fixpoint.Total.{AreNodes}
use linux_dev_env.Fixpoint.Checked.{
  has-every, nested_nil, nested_cons, IsVertex-if, cycle_if, closed_if, IsHeaded-if, IsShallow-if,
}

abbrev v : ℕ → Label
v n = label_at (pos n)

-- `1 2 (3 4 (5 6) 7) 8`
abbrev adj_list : List (Label × List Label)
adj_list =
    (entry, v 1 ∷ [])
    ∷ (v 1, v 2 ∷ [])
    ∷ (v 2, v 3 ∷ v 8 ∷ [])
    ∷ (v 3, v 4 ∷ [])
    ∷ (v 4, v 5 ∷ v 7 ∷ [])
    ∷ (v 5, v 6 ∷ [])
    ∷ (v 6, v 5 ∷ v 7 ∷ [])
    ∷ (v 7, v 3 ∷ v 8 ∷ [])
    ∷ (v 8, exit ∷ [])
    ∷ (exit, [])
    ∷ []

abbrev pub cfg_after : Result Cfg → Cfg
cfg_after (ok cfg) = cfg
cfg_after (err _) = empty_cfg

abbrev pub wto_after : Result Wto → Wto
wto_after (ok wto) = wto
wto_after (err _) = record { components = []; containing_cycle = []; nesting = []; cycles = [] }

abbrev cfg : Cfg
cfg = cfg_after (cfg_from_adjacency_list adj_list)

abbrev wto : Wto
wto = wto_after (wto_of 100 cfg)

-- Whether a label is reached: `false` is bottom.
abbrev pub reached : Domain Bool
reached = record {
  bottom = false;
  join = ◌||◌;
  meet = ◌&&◌;
  narrow = ◌&&◌;
  widen = λ x y _. x || y;
  le = λ x y. not x || y;
  assume = λ x _. ok x;
  transform = λ x _. ok x;
  initialize_loop_counter = λ x _. ok x;
}

abbrev pub meaning : Meaning Bool Bool
meaning = record { models = λ x _. x ≡ true; runs = λ _ s t. s ≡ t; satisfies = λ _ _. Unit {0} }

pub reached-IsSound : IsSound reached meaning
reached-IsSound = record {
  join_left = λ x y s h. ground arith;
  join_right = λ x y s h. ground arith;
  meet = λ x y s h k. ground arith;
  narrow = λ x y s h k. ground arith;
  le = λ x y s h k. ground arith;
  assume = λ x a. returns λ s h k. h;
  transform = λ x i. returns λ s t h k. h;
  initialize_loop_counter = λ x l. returns tt;
}

-- What is not reached may be reached once.
abbrev pub rank : Bool → ℕ
rank true = 0
rank false = 1

pub reached-Stabilizes : Stabilizes reached rank 1
reached-Stabilizes = record { descends = λ x y b h. ground arith; bounded = λ x. ground arith }

abbrev outer : Cycle
outer = record {
  components = vertex (v 3) ∷ vertex (v 4) ∷ cycle 1 ∷ vertex (v 7) ∷ [];
  containing_cycle = none;
}

abbrev inner : Cycle
inner = record { components = vertex (v 5) ∷ vertex (v 6) ∷ []; containing_cycle = some 0 }

abbrev analyzer : Analyzer Bool
analyzer = record {
  dom = reached;
  cfg = cfg;
  wto = wto;
  assume_assertions = true;
  rounds = 4;
  depth = 3;
}

inner-IsCycle : (depth : ℕ) → IsNested cfg wto (suc depth) (cycle 1) (v 5 ∷ v 6 ∷ [])
unfolding wto_of cfg_from_adjacency_list find update keys put has eq_label
inner-IsCycle depth =
    cycle_if wto 1 inner (v 5) (vertex (v 6) ∷ []) (v 6 ∷ []) refl refl refl refl
      (nested_cons (v 6 ∷ []) [] refl refl (IsVertex-if cfg (v 6) refl refl) nested_nil)

outer-IsCycle :
    (depth : ℕ) → IsNested cfg wto (suc (suc depth)) (cycle 0) (v 3 ∷ v 4 ∷ v 5 ∷ v 6 ∷ v 7 ∷ [])
unfolding wto_of cfg_from_adjacency_list find update keys put has eq_label
outer-IsCycle depth =
    cycle_if wto 0 outer (v 3) (vertex (v 4) ∷ cycle 1 ∷ vertex (v 7) ∷ [])
      (v 4 ∷ v 5 ∷ v 6 ∷ v 7 ∷ []) refl refl refl refl
      (nested_cons (v 4 ∷ []) (v 5 ∷ v 6 ∷ v 7 ∷ []) refl refl (IsVertex-if cfg (v 4) refl refl) (
        nested_cons (v 5 ∷ v 6 ∷ []) (v 7 ∷ []) refl refl (inner-IsCycle depth)
          (nested_cons (v 7 ∷ []) [] refl refl (IsVertex-if cfg (v 7) refl refl) nested_nil)))

abbrev after_entry : List Label
after_entry = v 1 ∷ v 2 ∷ (v 3 ∷ v 4 ∷ v 5 ∷ v 6 ∷ v 7 ∷ []) ++ v 8 ∷ exit ∷ []

after_entry-AreNodes : AreNodes cfg after_entry
unfolding cfg_from_adjacency_list find update keys put has eq_label emplace
after_entry-AreNodes = has-every (is_node cfg) after_entry refl

wto-IsOrder : IsOrder cfg wto 3
unfolding wto_of cfg_from_adjacency_list find update keys put has eq_label labels collect_heads
wto-IsOrder = record {
  rest = vertex (v 1) ∷ vertex (v 2) ∷ cycle 0 ∷ vertex (v 8) ∷ vertex exit ∷ [];
  after = after_entry;
  starts = refl;
  nested =
      nested_cons (v 1 ∷ []) (v 2 ∷ v 3 ∷ v 4 ∷ v 5 ∷ v 6 ∷ v 7 ∷ v 8 ∷ exit ∷ []) refl refl
        (IsVertex-if cfg (v 1) refl refl)
        (nested_cons (v 2 ∷ []) (v 3 ∷ v 4 ∷ v 5 ∷ v 6 ∷ v 7 ∷ v 8 ∷ exit ∷ []) refl refl
          (IsVertex-if cfg (v 2) refl refl)
          (nested_cons (v 3 ∷ v 4 ∷ v 5 ∷ v 6 ∷ v 7 ∷ []) (v 8 ∷ exit ∷ []) refl refl
            (outer-IsCycle 1)
            (nested_cons (v 8 ∷ []) (exit ∷ []) refl refl (IsVertex-if cfg (v 8) refl refl)
              (nested_cons (exit ∷ []) [] refl refl (IsVertex-if cfg exit refl refl) nested_nil))));
  no_way_in = λ m. refl;
  apart = refl;
  nodes = after_entry-AreNodes;
  closed = λ m n h e. closed_if cfg (entry ∷ after_entry) after_entry refl m n h e;
  shallow = IsShallow-if 3 wto (IsHeaded-if 2 wto (λ nestings. refl));
}

abbrev all_reached : InvariantTable Bool → Bool
all_reached [] = true
all_reached ((l, p) ∷ t) = p.pre && p.post && all_reached t

-- Every label is reached.
table_of_paper : (run_forward_analyzer 100 analyzer true true >>= λ t. ok (all_reached t)) ≡ ok true
unfolding run_forward_analyzer wto_of cfg_from_adjacency_list find update keys put has eq_label
    emplace assertions_at instruction_at parents_of first_invariant increase decrease
    descending_iterations
table_of_paper = refl

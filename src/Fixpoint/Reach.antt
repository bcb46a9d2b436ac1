-- ===== src/Fixpoint/Reach.antt =====
-- Weak topological orders as nested regions of a graph, and the states that executions reach:
-- verifiers/prevail/src/crab/fwd_analyzer.cpp.
use linux_dev_env.Base.{ℕ, zero, suc, ◌≡◌, ◌≢◌, true, false, ◌||◌, some, List, [], ◌∷◌, get_elem?}
use linux_dev_env.Outcome.{ok, err, out_of_fuel}
use linux_dev_env.Label.{Label, entry}
use linux_dev_env.Label.Order.{eq_label}
use linux_dev_env.Label.Keyed.{has, find}
use linux_dev_env.Syntax.Assertion.{Assertion}
use linux_dev_env.Cfg.{Cfg, guarded_at, GuardedInstruction}
use linux_dev_env.Cfg.Graph.{is_parent, is_node}
use linux_dev_env.Wto.{Component, cycle, vertex, Cycle, Wto, collect_heads}
use linux_dev_env.Fixpoint.Table.{State, InvariantMapPair, InvariantTable}
use linux_dev_env.Fixpoint.Interface.{Meaning}

-- A list of components over regions of labels: the regions are apart, and no edge leads from a
-- component to an earlier one.
pub data AreNested (cfg : Cfg) (Nested : Component → List Label → Type 0)
    : List Component → List Label → Type 0 where
  none_left : {ls : List Label} → ((l : Label) → has l ls ≡ false) → AreNested cfg Nested [] ls
  followed :
      {x : Component} {xs : List Component} {ls : List Label} (first rest : List Label)
      → Nested x first
      → AreNested cfg Nested xs rest
      → ((l : Label) → has l ls ≡ (has l first || has l rest))
      → ((l : Label) → has l first ≡ true → has l rest ≡ false)
      → ((m n : Label) → has m rest ≡ true → has n first ≡ true → is_parent cfg m n ≡ false)
      → AreNested cfg Nested (x ∷ xs) ls

-- A vertex is no parent of its own; a cycle is its head, and then components without it, in which
-- cycles are nested less deeply.
abbrev pub IsVertex : Cfg → Label → List Label → Type 0
IsVertex cfg l ls =
    ((m : Label) → has m ls ≡ eq_label m l)
    × (is_parent cfg l l ≡ false)
    × (eq_label l entry ≡ false)

pub record IsCycle (cfg : Cfg) (wto : Wto) (Nested : Component → List Label → Type 0) (c : ℕ)
    (ls : List Label) : Type 0 where
  pub this : Cycle
  pub head : Label
  pub body : List Component
  pub inside : List Label
  pub found : get_elem? wto.cycles c ≡ some this
  pub starts : this.components ≡ vertex head ∷ body
  pub nested : AreNested cfg Nested body inside
  pub whole : (l : Label) → has l ls ≡ (eq_label l head || has l inside)
  pub outside : has head inside ≡ false
  pub not_entry : eq_label head entry ≡ false

abbrev pub IsNested : Cfg → Wto → ℕ → Component → List Label → Type 0
IsNested cfg wto depth (vertex l) ls = IsVertex cfg l ls
IsNested cfg wto zero (cycle c) ls = ⊥
IsNested cfg wto (suc depth) (cycle c) ls = IsCycle cfg wto (IsNested cfg wto depth) c ls

-- A weak topological order of the nodes that the entry leads to: the entry, which nothing leads to,
-- and then nested components. The depth suffices to find the heads around each label.
pub record IsOrder (cfg : Cfg) (wto : Wto) (depth : ℕ) : Type 0 where
  pub rest : List Component
  pub after : List Label
  pub starts : wto.components ≡ vertex entry ∷ rest
  pub nested : AreNested cfg (IsNested cfg wto depth) rest after
  pub no_way_in : (m : Label) → is_parent cfg m entry ≡ false
  pub apart : has entry after ≡ false
  pub nodes : (l : Label) → has l after ≡ true → is_node cfg l ≡ true
  pub closed :
      (m n : Label)
      → (eq_label m entry || has m after) ≡ true
      → is_parent cfg m n ≡ true
      → has n after ≡ true
  pub shallow :
      (l : Label) (nestings : List (Label × List Label))
      → collect_heads depth l (record wto { nesting = nestings }) ≢ err out_of_fuel

module _ {D S : Type 0} (m : Meaning D S) where
  pub data All : List Assertion → S → Type 0 where
    all_of_none : {s : S} → All [] s
    all_of_more :
        {a : Assertion} {as_list : List Assertion} {s : S}
        → m.satisfies a s
        → All as_list s
        → All (a ∷ as_list) s

  -- The state s is in a value of the table at a label.
  pub record Pre (a : InvariantTable D) (l : Label) (s : S) : Type 0 where
    pub pair : InvariantMapPair D
    pub found : find l a ≡ some pair
    pub models : m.models pair.pre s

  pub record Post (a : InvariantTable D) (l : Label) (s : S) : Type 0 where
    pub pair : InvariantMapPair D
    pub found : find l a ≡ some pair
    pub models : m.models pair.post s

  -- An execution passes the label: its assertions hold, and its instruction runs.
  pub record Passes (cfg : Cfg) (l : Label) (s t : S) : Type 0 where
    pub instruction : GuardedInstruction
    pub found : guarded_at l cfg ≡ ok instruction
    pub checked : All instruction.preconditions s
    pub runs : m.runs instruction.cmd s t

  -- The states that executions reach inside a region, from what the table has outside it.
  pub data Inside (cfg : Cfg) (ls : List Label) (a : InvariantTable D) : Label → S → Type 0 where
    enters :
        {p n : Label} {s : S}
        → has n ls ≡ true
        → has p ls ≡ false
        → is_parent cfg p n ≡ true
        → Post a p s
        → Inside cfg ls a n s
    moves :
        {l n : Label} {s t : S}
        → has n ls ≡ true
        → has l ls ≡ true
        → is_parent cfg l n ≡ true
        → Inside cfg ls a l s
        → Passes cfg l s t
        → Inside cfg ls a n t

  -- The states that executions reach from those of a value at the entry.
  pub data Reaches (cfg : Cfg) (d : D) : Label → S → Type 0 where
    begins : {s : S} → m.models d s → Reaches cfg d entry s
    goes :
        {l n : Label} {s t : S}
        → Reaches cfg d l s
        → Passes cfg l s t
        → is_parent cfg l n ≡ true
        → Reaches cfg d n t

  -- The table covers a state at a label, and what it passes on.
  pub record Covers (cfg : Cfg) (a : InvariantTable D) (l : Label) (s : S) : Type 0 where
    pub pre : Pre a l s
    pub post : (t : S) → Passes cfg l s t → Post a l t

  -- What a visit of a region does: it keeps the table elsewhere, and covers what executions reach.
  pub record Visits (cfg : Cfg) (ls : List Label) (a b : State D) : Type 0 where
    pub frame : (n : Label) → has n ls ≡ false → find n b.inv ≡ find n a.inv
    pub awake : b.skip ≡ false
    pub covers : (n : Label) (s : S) → Inside cfg ls a.inv n s → Covers cfg b.inv n s

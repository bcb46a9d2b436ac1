-- ===== src/Wto/Builder.antt =====
-- `wto_builder_t` of verifiers/prevail/src/crab/wto.cpp.
use linux_dev_env.Base.{
  ℕ, zero, suc, ◌+◌, ◌-◌, ◌^◌, Bool, true, false, not, ◌&&◌, Option, none, some, List, [], ◌∷◌,
  ◌++◌, length, get_elem?, leb, ◌==◌, if◌then◌else◌,
}
use linux_dev_env.Outcome.{Result, ok, err, undefined_behaviour, out_of_fuel, or_throw, ◌>>=◌}
use linux_dev_env.Label.{Label, entry}
use linux_dev_env.Label.Order.{eq_label}
use linux_dev_env.Label.Keyed.{LabelSet, find, emplace, update}
use linux_dev_env.Cfg.{Cfg, children_of, labels}
use linux_dev_env.Wto.{Component, cycle, vertex, Cycle, Wto}

-- `wto_vertex_data_t`, whose `containing_cycle` only keeps the cycle alive.
pub record VertexData : Type 0 where
  pub dfn : ℕ
  pub head_dfn : ℕ

abbrev pub dfn_inf : ℕ
dfn_inf = 2 ^ 31 - 1

abbrev pub unvisited : VertexData
unvisited = record { dfn = 0; head_dfn = 0 }

pub data VisitTaskType : Type 0 where
  push_successors start_visit continue_visit : VisitTaskType

-- `visit_args_t`; `partition` is the order's own list or that of a cycle.
pub record VisitArgs : Type 0 where
  pub type : VisitTaskType
  pub vertex : Label
  pub partition : Option ℕ
  pub containing_cycle : Option ℕ

pub record Builder : Type 0 where
  pub vertex_data : List (Label × VertexData)
  pub num : ℕ
  pub stack : List Label
  pub visit_stack : List VisitArgs
  pub wto : Wto

-- `_vertex_data[l]`, read.
abbrev pub data_of : Label → List (Label × VertexData) → VertexData
data_of l map = elim (find l map) [ none ↦ unvisited | some d ↦ d ]

-- `_vertex_data[l] = d`
abbrev pub set_data : Label → VertexData → List (Label × VertexData) → List (Label × VertexData)
set_data l d map = update l d (emplace l unvisited map)

abbrev pub set_cycle : ℕ → Cycle → List Cycle → List Cycle
set_cycle c d [] = []
set_cycle zero d (e ∷ cycles) = d ∷ cycles
set_cycle (suc c) d (e ∷ cycles) = e ∷ set_cycle c d cycles

-- `partition.emplace_back(x)`
abbrev pub emplace_back : Option ℕ → Component → Wto → Wto
emplace_back none x wto = record wto { components = x ∷ wto.components }
emplace_back (some c) x wto = elim (get_elem? wto.cycles c) [
  | none ↦ wto
  | some d ↦ record wto {
    cycles = set_cycle c (record d { components = x ∷ d.components }) wto.cycles;
  }
]

-- The tasks for the successors that have no number, the first successor on top.
abbrev pub successor_tasks :
    List (Label × VertexData) → Option ℕ → Option ℕ → LabelSet → List VisitArgs → List VisitArgs
successor_tasks map partition containing [] tasks = tasks
successor_tasks map partition containing (succ ∷ succs) tasks =
    let rest = successor_tasks map partition containing succs tasks in
    if (data_of succ map).dfn == 0
    then record {
      type = push_successors;
      vertex = succ;
      partition = partition;
      containing_cycle = containing;
    }
      ∷ rest
    else rest

-- `++_num` overflows past the greatest `int`.
unfoldable pub visit_push : Cfg → VisitArgs → Builder → Result Builder
unfolding children_of
visit_push cfg args b = if not ((data_of args.vertex b.vertex_data).dfn == 0) then ok b else (do
  num ← if b.num == dfn_inf then err undefined_behaviour else ok (b.num + 1)
  children ← children_of args.vertex cfg
  let d = data_of args.vertex b.vertex_data
  let map = set_data args.vertex (record d { dfn = num }) b.vertex_data
  ok (record b {
    vertex_data = map;
    num = num;
    stack = args.vertex ∷ b.stack;
    visit_stack =
        successor_tasks map args.partition args.containing_cycle children
          (record args { type = start_visit } ∷ b.visit_stack);
  }))

-- The least number among a vertex and its successors, and whether one of these is not above it.
abbrev pub min_dfn : VertexData → ℕ
min_dfn d = if not (d.head_dfn == 0) && not (d.dfn == dfn_inf) then d.head_dfn else d.dfn

abbrev pub find_head : List (Label × VertexData) → LabelSet → ℕ → Bool → ℕ × Bool
find_head map [] head_dfn loop = (head_dfn, loop)
find_head map (succ ∷ succs) head_dfn loop =
    let m = min_dfn (data_of succ map) in
    let c = leb m head_dfn in
    find_head map succs (if c then m else head_dfn) (if c then true else loop)

-- The loop that takes the vertices above the head off the stack, given the one that was on top.
abbrev pub unwind :
    Label
    → Label
    → List Label
    → List (Label × VertexData)
    → Result (List Label × List (Label × VertexData))
unwind v element [] map = if eq_label element v then ok ([], map) else err undefined_behaviour
unwind v element (next ∷ stack) map =
    let rest = unwind v next stack (set_data element unvisited map) in
    if eq_label element v then ok (next ∷ stack, map) else rest

-- The branch of `start_visit` for the head of a loop, with the vertices taken off the stack: a new
-- cycle, and the tasks for its vertices.
abbrev pub open_cycle :
    VisitArgs → LabelSet → ℕ → List Label → List (Label × VertexData) → Builder → Builder
open_cycle args children head_dfn stack map b =
    let d = data_of args.vertex map in
    let map' = set_data args.vertex (record d { head_dfn = head_dfn }) map in
    let c = length b.wto.cycles in
    record b {
      vertex_data = map';
      stack = stack;
      visit_stack =
          successor_tasks map' (some c) (some c) children
            (record args { type = continue_visit; containing_cycle = some c } ∷ b.visit_stack);
      wto = record (b.wto) {
        cycles =
            b.wto.cycles
            ++ record { components = []; containing_cycle = args.containing_cycle } ∷ [];
      };
    }

-- The branch for a vertex that is no head of a loop, with the vertex on top of the stack.
abbrev pub close_vertex : VisitArgs → ℕ → List Label → List (Label × VertexData) → Builder → Builder
close_vertex args head_dfn stack map b =
    let d = data_of args.vertex map in
    let wto' = emplace_back args.partition (vertex args.vertex) b.wto in
    record b {
      vertex_data = set_data args.vertex (record d { head_dfn = head_dfn }) map;
      stack = stack;
      wto = record wto' {
        containing_cycle = emplace args.vertex args.containing_cycle wto'.containing_cycle;
      };
    }

-- `element = _stack.top(); _stack.pop();`
abbrev pub pop_stack : List Label → Result (Label × List Label)
pop_stack [] = err undefined_behaviour
pop_stack (l ∷ stack) = ok (l, stack)

unfoldable pub visit_start : Cfg → VisitArgs → Builder → Result Builder
unfolding children_of eq_label
visit_start cfg args b = do
  children ← children_of args.vertex cfg
  let d = data_of args.vertex b.vertex_data
  let (head_dfn, loop) = find_head b.vertex_data children d.dfn false
  if head_dfn == d.dfn
      then (do
        (element, stack) ← pop_stack b.stack
        let map = set_data args.vertex (record d { dfn = dfn_inf }) b.vertex_data
        if loop
            then (do
              (stack', map') ← unwind args.vertex element stack map
              ok (open_cycle args children head_dfn stack' map' b))
            else ok (close_vertex args head_dfn stack map b))
      else ok (record b {
        vertex_data = set_data args.vertex (record d { head_dfn = head_dfn }) b.vertex_data;
      })

-- `containing_cycle` is the cycle that `start_visit` made.
unfoldable pub visit_continue : VisitArgs → Builder → Result Builder
visit_continue args b = do
  c ← or_throw args.containing_cycle undefined_behaviour
  let wto₁ = emplace_back (some c) (vertex args.vertex) b.wto
  let wto₂ = emplace_back args.partition (cycle c) wto₁
  ok (record b {
    wto = record wto₂ { containing_cycle = emplace args.vertex (some c) wto₂.containing_cycle };
  })

-- One turn of the constructor's loop, for the task that was on top.
unfoldable pub visit : Cfg → VisitArgs → Builder → Result Builder
unfolding visit_push visit_start visit_continue
visit cfg args b = elim args.type [
  | push_successors ↦ visit_push cfg args b
  | start_visit ↦ visit_start cfg args b
  | continue_visit ↦ visit_continue args b
]

unfoldable pub run : ℕ → Cfg → Builder → Result Builder
unfolding visit
run zero cfg b = elim b.visit_stack [ [] ↦ ok b | _ ∷ _ ↦ err out_of_fuel ]
run (suc fuel) cfg b = elim b.visit_stack [
  | [] ↦ ok b
  | args ∷ rest ↦ (visit cfg args (record b { visit_stack = rest }) >>= run fuel cfg)
]

abbrev all_unvisited : List Label → List (Label × VertexData) → List (Label × VertexData)
all_unvisited [] map = map
all_unvisited (l ∷ ls) map = all_unvisited ls (emplace l unvisited map)

unfoldable pub start : Cfg → Builder
unfolding labels emplace
start cfg = record {
  vertex_data = all_unvisited (labels cfg) [];
  num = 0;
  stack = [];
  visit_stack =
      record { type = push_successors; vertex = entry; partition = none; containing_cycle = none }
      ∷ [];
  wto = record { components = []; containing_cycle = []; nesting = []; cycles = [] };
}

-- The constructor.
unfoldable pub wto_of : ℕ → Cfg → Result Wto
unfolding run start
wto_of fuel cfg = run fuel cfg (start cfg) >>= λ b. ok b.wto

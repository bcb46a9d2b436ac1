-- ===== src/Wto.antt =====
-- The weak topological order of a control-flow graph: verifiers/prevail/src/crab/wto.hpp and
-- wto.cpp. A `shared_ptr` to a cycle is the cycle's index among those made, a `weak_ptr` the index
-- or nothing; the vectors of components, which the code stores in reverse, are lists from the last
-- element to the first, as its iterators read them.
pub mod Builder
pub mod Nesting
use linux_dev_env.Base.{
  ℕ, zero, suc, Bool, true, false, ◌||◌, Option, none, some, List, [], ◌∷◌, ◌++◌, length, get_elem?,
  if◌then◌else◌,
}
use linux_dev_env.Outcome.{
  Result, ok, err, crab_message, undefined_behaviour, out_of_fuel, or_throw, ◌>>=◌,
}
use linux_dev_env.Label.{Label}
use linux_dev_env.Label.Order.{eq_label}
use linux_dev_env.Label.Keyed.{find, emplace}

-- `cycle_or_label`
pub data Component : Type 0 where
  cycle : ℕ → Component
  vertex : Label → Component

-- `wto_cycle_t`
pub record Cycle : Type 0 where
  pub components : List Component
  pub containing_cycle : Option ℕ

-- `wto_t`, with the cycles that its pointers lead to.
pub record Wto : Type 0 where
  pub components : List Component
  pub containing_cycle : List (Label × Option ℕ)
  pub nesting : List (Label × List Label)
  pub cycles : List Cycle

abbrev pub cycle_at : ℕ → Wto → Result Cycle
cycle_at c wto = or_throw (get_elem? wto.cycles c) undefined_behaviour

-- `wto_cycle_t::head`
unfoldable pub cycle_head : Cycle → Result Label
cycle_head c = elim c.components [
  | [] ↦ err (crab_message "Empty cycle")
  | first ∷ _ ↦ elim first [
    | vertex label ↦ ok label
    | cycle _ ↦ err (crab_message "Expected label_t at the back of _components")
  ]
]

-- `for_each_loop_head`: the labels that the callable is invoked with, in order.
unfoldable pub loop_heads : Wto → List Component → Result (List Label)
unfolding cycle_head
loop_heads wto [] = ok []
loop_heads wto (vertex _ ∷ components) = loop_heads wto components
loop_heads wto (cycle c ∷ components) = do
  data_of ← cycle_at c wto
  label ← cycle_head data_of
  rest ← loop_heads wto components
  ok (label ∷ rest)

abbrev parent_head : Option ℕ → Wto → Result (Option Label)
parent_head none wto = ok none
parent_head (some c) wto = cycle_at c wto >>= λ parent. cycle_head parent >>= λ h. ok (some h)

abbrev head_in : Label → Option ℕ → Wto → Result (Option Label)
head_in label none wto = ok none
head_in label (some c) wto = do
  data_of ← cycle_at c wto
  first ← cycle_head data_of
  if eq_label first label then parent_head data_of.containing_cycle wto else ok (some first)

-- `wto_t::head`
unfoldable pub head : Label → Wto → Result (Option Label)
unfolding cycle_head eq_label
head label wto = elim (find label wto.containing_cycle) [
  | none ↦ ok none
  | some c ↦ head_in label c wto
]

-- `wto_t::collect_heads`; the number of heads is bounded by the fuel.
unfoldable pub collect_heads : ℕ → Label → Wto → Result (List Label)
unfolding head
collect_heads zero label wto = err out_of_fuel
collect_heads (suc fuel) label wto = do
  h ← head label wto
  elim h [ none ↦ ok [] | some l ↦ (collect_heads fuel l wto >>= λ heads. ok (l ∷ heads)) ]

-- `wto_t::nesting`: the heads, and the order with these in its cache.
unfoldable pub nesting : ℕ → Label → Wto → Result (List Label × Wto)
unfolding collect_heads find
nesting fuel label wto = elim (find label wto.nesting) [
  | some heads ↦ ok (heads, wto)
  | none ↦ do
    heads ← collect_heads fuel label wto
    ok (heads, record wto { nesting = emplace label heads wto.nesting })
]

abbrev any_member : (Component → Result Bool) → List Component → Result Bool
any_member f [] = ok false
any_member f (x ∷ xs) =
    let rest = any_member f xs in f x >>= λ found. if found then ok true else rest

-- `is_component_member`; the depth of the cycles is bounded by the fuel.
unfoldable pub is_component_member : ℕ → Label → Wto → Component → Result Bool
unfolding cycle_head
is_component_member fuel label wto (vertex l) = ok (eq_label l label)
is_component_member zero label wto (cycle c) = err out_of_fuel
is_component_member (suc fuel) label wto (cycle c) = do
  data_of ← cycle_at c wto
  first ← cycle_head data_of
  if eq_label first label
      then ok true
      else any_member (is_component_member fuel label wto) data_of.components

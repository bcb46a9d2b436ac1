-- ===== src/Cfg/Blocks.antt =====
-- Basic blocks: `collect_basic_blocks` of verifiers/prevail/src/asm_cfg.cpp. A block is the list of
-- its labels, and a set of blocks a map from their first labels.
pub mod Chain
pub mod Collected
pub mod Degrees
pub mod Walk
pub mod Growing
pub mod Outer
pub mod Covered
use linux_dev_env.Base.{
  ℕ, zero, suc, Bool, true, false, ◌||◌, List, [], ◌∷◌, ◌++◌, length, ◌==◌, ◌!=◌, if◌then◌else◌,
}
use linux_dev_env.Outcome.{Result, ok, err, undefined_behaviour, out_of_fuel, ◌>>=◌}
use linux_dev_env.Label.{Label, entry, exit}
use linux_dev_env.Label.Order.{eq_label}
use linux_dev_env.Label.Keyed.{LabelSet, has, put, erase, emplace}
use linux_dev_env.Cfg.{Cfg, labels, in_degree, out_degree, get_child, num_siblings}

abbrev pub Blocks : Type 0
Blocks = List (Label × List Label)

-- `first_label` and `last_label`
abbrev pub first_label : List Label → Result Label
first_label [] = err undefined_behaviour
first_label (l ∷ block) = ok l

abbrev pub last_label : List Label → Result Label
last_label [] = err undefined_behaviour
last_label (l ∷ []) = ok l
last_label (l ∷ m ∷ block) = last_label (m ∷ block)

abbrev pub each_label : List Label → Blocks → Blocks
each_label [] res = res
each_label (l ∷ ls) res =
    each_label ls (if eq_label l entry || eq_label l exit then res else emplace l (l ∷ []) res)

-- A block that grows, with the labels still to do and those seen.
pub record Growth : Type 0 where
  pub block : List Label
  pub worklist : LabelSet
  pub seen : LabelSet

-- The test that ends the inner loop; the degree is read only if it decides.
unfoldable pub stops : Label → LabelSet → Cfg → Result Bool
unfolding in_degree
stops next seen cfg =
    if has next seen || eq_label next exit
    then ok true
    else (in_degree next cfg >>= λ d. ok (d != 1))

abbrev pub extend : Label → Label → Growth → Growth
extend first next s = record {
  block = (if eq_label first entry then [] else s.block) ++ next ∷ [];
  worklist = erase next s.worklist;
  seen = put next s.seen;
}

-- The inner loop.
unfoldable pub grow : ℕ → Cfg → Label → Growth → Result Growth
unfolding out_degree get_child stops
grow zero cfg label s = err out_of_fuel
grow (suc fuel) cfg label s = do
  d ← out_degree label cfg
  if d != 1 then ok s else (do
    last ← last_label s.block
    next ← get_child last cfg
    stop ← stops next s.seen cfg
    if stop
        then ok s
        else (first_label s.block >>= λ first. grow fuel cfg next (extend first next s)))

-- The label follows its only parent, which has no other child.
unfoldable pub is_inner : Label → Cfg → Result Bool
unfolding in_degree num_siblings
is_inner label cfg = do
  d ← in_degree label cfg
  if d == 1 then (num_siblings label cfg >>= λ n. ok (n == 1)) else ok false

-- The outer loop.
unfoldable pub collect : ℕ → Cfg → LabelSet → LabelSet → Blocks → Result Blocks
unfolding is_inner grow labels
collect zero cfg worklist seen res = elim worklist [ [] ↦ ok res | _ ∷ _ ↦ err out_of_fuel ]
collect (suc fuel) cfg [] seen res = ok res
collect (suc fuel) cfg (label ∷ rest) seen res =
    if has label seen then collect fuel cfg rest seen res else (do
      inner ← is_inner label cfg
      if inner then collect fuel cfg rest (put label seen) res else (do
        s ←
            grow (suc (length (labels cfg))) cfg label
              (record { block = label ∷ []; worklist = rest; seen = put label seen })
        first ← first_label s.block
        collect fuel cfg s.worklist s.seen (emplace first s.block res)))

unfoldable pub collect_basic_blocks : Cfg → Bool → Result Blocks
unfolding collect labels
collect_basic_blocks cfg simplify =
    if simplify
    then collect (length (labels cfg)) cfg (labels cfg) [] []
    else ok (each_label (labels cfg) [])

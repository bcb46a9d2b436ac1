-- ===== src/Fixpoint/Checked.antt =====
-- Weak topological orders by tests that compute, for orders that are given: the regions of
-- verifiers/prevail/src/crab/wto.hpp.
use linux_dev_env.Base.{
  ℕ, suc, ◌≡◌, ◌≢◌, refl, Bool, true, false, not, ◌&&◌, ◌||◌, some, List, [], ◌∷◌, ◌++◌, get_elem?,
  Bool-cases, inl, inr, arith,
}
use linux_dev_env.Outcome.{Result, ok, err, out_of_fuel}
use linux_dev_env.Label.{Label, entry}
use linux_dev_env.Label.Order.{eq_label, eq_of_eq_label}
use linux_dev_env.Label.Keyed.{has, keys}
use linux_dev_env.Label.Keyed.Lookup.{has-keys}
use linux_dev_env.Cfg.{Cfg, labels}
use linux_dev_env.Cfg.Graph.{is_parent}
use linux_dev_env.Wto.{Component, vertex, Cycle, Wto, head, collect_heads}
use linux_dev_env.Outcome.Returns.{Returns, returns}
use linux_dev_env.Fixpoint.Components.{IsShallow}
use linux_dev_env.Fixpoint.Returned.{IsHeaded}
use linux_dev_env.Fixpoint.Reach.{AreNested, none_left, followed, IsVertex, IsCycle}

abbrev pub every : (Label → Bool) → List Label → Bool
every test [] = true
every test (l ∷ ls) = test l && every test ls

pub has-every :
    (test : Label → Bool) (ls : List Label)
    → every test ls ≡ true
    → (l : Label) → has l ls ≡ true
    → test l ≡ true
unfolding has
has-every test [] h l e = cc
has-every test (m ∷ ls) h l e =
    ground (arith, has-every test ls, eq_of_eq_label l m, has-every test ls (ground arith) l)

has-append :
    (l : Label) (first rest : List Label) → has l (first ++ rest) ≡ (has l first || has l rest)
unfolding has
has-append l [] rest = refl
has-append l (m ∷ first) rest = ground (arith, has-append l first rest)

pub nested_nil : {cfg : Cfg} {Nested : Component → List Label → Type 0} → AreNested cfg Nested [] []
unfolding has
nested_nil = none_left λ l. refl

pub nested_cons :
    {cfg : Cfg} {Nested : Component → List Label → Type 0} {x : Component} {xs : List Component}
    (first rest : List Label)
    → every (λ l. not (has l rest)) first ≡ true
    → every (λ v. every (λ n. not (is_parent cfg v n)) first) rest ≡ true
    → Nested x first
    → AreNested cfg Nested xs rest
    → AreNested cfg Nested (x ∷ xs) (first ++ rest)
nested_cons {cfg} first rest apart on one more =
    followed first rest one more (λ l. has-append l first rest)
      (λ l h. let e = has-every (λ l. not (has l rest)) first apart l h in ground arith)
      (λ v n h k.
        let inner = has-every (λ v. every (λ n. not (is_parent cfg v n)) first) rest on v h in
        let e = has-every (λ n. not (is_parent cfg v n)) first inner n k in ground arith)

pub IsVertex-if :
    (cfg : Cfg) (l : Label)
    → is_parent cfg l l ≡ false
    → eq_label l entry ≡ false
    → IsVertex cfg l (l ∷ [])
unfolding has
IsVertex-if cfg l loop off = (λ m. ground arith, loop, off)

pub cycle_if :
    {cfg : Cfg} {Nested : Component → List Label → Type 0} (wto : Wto) (c : ℕ) (this : Cycle)
    (first : Label) (body : List Component) (inside : List Label)
    → get_elem? wto.cycles c ≡ some this
    → this.components ≡ vertex first ∷ body
    → has first inside ≡ false
    → eq_label first entry ≡ false
    → AreNested cfg Nested body inside
    → IsCycle cfg wto Nested c (first ∷ inside)
unfolding has
cycle_if wto c this first body inside found starts outside off nested = record {
  this = this;
  head = first;
  body = body;
  inside = inside;
  found = found;
  starts = starts;
  nested = nested;
  whole = λ l. refl;
  outside = outside;
  not_entry = off;
}

-- Where all edges from some labels lead to labels in a list, by a test over the nodes.
pub closed_if :
    (cfg : Cfg) (froms tos : List Label)
    → every (λ v. every (λ n. not (is_parent cfg v n) || has n tos) (labels cfg)) froms ≡ true
    → (v n : Label) → has v froms ≡ true
    → is_parent cfg v n ≡ true
    → has n tos ≡ true
unfolding labels
closed_if cfg froms tos h v n e edge =
    let inner =
      has-every (λ v. every (λ n. not (is_parent cfg v n) || has n tos) (labels cfg)) froms h v e in
    let node : has n (labels cfg) ≡ true = ground (arith, has-keys n cfg.neighbours) in
    let test = has-every (λ n. not (is_parent cfg v n) || has n tos) (labels cfg) inner n node in
    ground arith

abbrev pub is_ok : {A : Type 0} → Result A → Bool
is_ok (ok x) = true
is_ok (err _) = false

Returns-ne-err : {A : Type 0} {P : A → Type 0} {r : Result A} → Returns P r → r ≢ err out_of_fuel
Returns-ne-err (returns p) h = cc

Returns-is_ok : {A : Type 0} (r : Result A) → is_ok r ≡ true → Returns (λ (_ : A). Unit {0}) r
Returns-is_ok (ok x) h = returns tt
Returns-is_ok (err e) h = cc

-- The heads around each label are found, by a test of the labels that a cycle contains.
pub IsHeaded-if :
    (depth : ℕ) (wto : Wto)
    → ((nestings : List (Label × List Label))
        → every
            (λ l. is_ok (collect_heads (suc depth) l (record wto { nesting = nestings })))
            (keys wto.containing_cycle)
          ≡ true)
    → IsHeaded (suc depth) wto
unfolding collect_heads head
IsHeaded-if depth wto h l nestings = elim (Bool-cases (has l (keys wto.containing_cycle))) [
  | inl e ↦ Returns-is_ok _ (
      has-every (λ l. is_ok (collect_heads (suc depth) l (record wto { nesting = nestings })))
        (keys wto.containing_cycle) (h nestings) l e)
  | inr e ↦ Returns-is_ok _ (ground (arith, has-keys l wto.containing_cycle))
]

-- Then their number is within the fuel.
pub IsShallow-if : (depth : ℕ) (wto : Wto) → IsHeaded depth wto → IsShallow depth wto
IsShallow-if depth wto headed l nestings = Returns-ne-err (headed l nestings)

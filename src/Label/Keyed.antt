-- ===== src/Label/Keyed.antt =====
-- `std::set` and `std::map` over labels: the elements in the order of the labels.
pub mod Lookup
use Prim.Native.Nat.{Ordering}
use linux_dev_env.Base.{Bool, true, false, Option, none, some, List, [], ◌∷◌, ◌||◌, if◌then◌else◌}
use linux_dev_env.Label.{Label}
use linux_dev_env.Label.Order.{compare_label, eq_label}

abbrev pub LabelSet : Type 0
LabelSet = List Label

-- `contains`
unfoldable pub has : Label → LabelSet → Bool
has l [] = false
has l (m ∷ s) = eq_label l m || has l s

-- `insert`, which keeps an element that is there.
unfoldable pub put : Label → LabelSet → LabelSet
put l [] = l ∷ []
put l (m ∷ s) =
    let rest = put l s in
    elim (compare_label l m) [
      | Ordering.lt ↦ l ∷ m ∷ s
      | Ordering.eq ↦ m ∷ s
      | Ordering.gt ↦ m ∷ rest
    ]

unfoldable pub erase : Label → LabelSet → LabelSet
erase l [] = []
erase l (m ∷ s) = let rest = erase l s in if eq_label l m then rest else m ∷ rest

module _ {V : Type 0} where
  unfoldable pub find : Label → List (Label × V) → Option V
  find l [] = none
  find l ((m, v) ∷ map) = let rest = find l map in if eq_label l m then some v else rest

  -- `emplace`, which keeps an entry that is there.
  unfoldable pub emplace : Label → V → List (Label × V) → List (Label × V)
  emplace l v [] = (l, v) ∷ []
  emplace l v ((m, w) ∷ map) =
      let rest = emplace l v map in
      elim (compare_label l m) [
        | Ordering.lt ↦ (l, v) ∷ (m, w) ∷ map
        | Ordering.eq ↦ (m, w) ∷ map
        | Ordering.gt ↦ (m, w) ∷ rest
      ]

  -- An assignment to the value of a key that is there.
  unfoldable pub update : Label → V → List (Label × V) → List (Label × V)
  update l v [] = []
  update l v ((m, w) ∷ map) =
      let rest = update l v map in if eq_label l m then (m, v) ∷ map else (m, w) ∷ rest

  -- `std::views::keys`
  unfoldable pub keys : List (Label × V) → List Label
  keys [] = []
  keys ((m, _) ∷ map) = m ∷ keys map

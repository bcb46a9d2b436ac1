-- ===== src/Label/Keyed/Lookup.antt =====
-- What sets and maps over labels hold after each operation: verifiers/prevail/src/crab/label.hpp.
use linux_dev_env.Base.{
  suc, ◌≡◌, refl, true, not, ◌&&◌, ◌||◌, none, some, List, [], ◌∷◌, length, is_some, if◌then◌else◌,
  arith, ap,
}
use linux_dev_env.Label.{Label}
use linux_dev_env.Label.Order.{
  eq_label, eq_label_lem, eq_label_self, eq_of_eq_label, eq_of_compare_label,
}
use linux_dev_env.Label.Keyed.{LabelSet, has, put, erase, find, emplace, update, keys}

pub has-put : (x l : Label) (s : LabelSet) → has x (put l s) ≡ (eq_label x l || has x s)
unfolding has put
has-put x l [] = refl
has-put x l (m ∷ s) = ground (arith, has-put x l s, eq_of_compare_label l m)

pub has-erase : (x l : Label) (s : LabelSet) → has x (erase l s) ≡ (has x s && not (eq_label x l))
unfolding has erase
has-erase x l [] = refl
has-erase x l (m ∷ s) = ground (
  arith,
  has-erase x l s,
  eq_of_eq_label l m,
  eq_of_eq_label x m,
  eq_of_eq_label x l,
  eq_label_self l,
)

module _ {V : Type 0} where
  pub find-emplace :
      (x l : Label) (v : V) (map : List (Label × V))
      → find l map ≡ none
      → find x (emplace l v map) ≡ (if eq_label x l then some v else find x map)
  unfolding find emplace
  find-emplace x l v [] h = refl
  find-emplace x l v ((m, w) ∷ map) h =
      ground
        (arith, find-emplace x l v map, eq_label_lem l m, eq_of_eq_label x m, eq_of_eq_label x l)

  pub find-update :
      (x l : Label) (v : V) (map : List (Label × V))
      → is_some (find l map) ≡ true
      → find x (update l v map) ≡ (if eq_label x l then some v else find x map)
  unfolding find update
  find-update x l v [] h = cc
  find-update x l v ((m, w) ∷ map) h = ground (
    arith,
    find-update x l v map,
    eq_of_eq_label l m,
    eq_of_eq_label x m,
    eq_of_eq_label x l,
    eq_label_self l,
  )

  pub has-keys : (x : Label) (map : List (Label × V)) → has x (keys map) ≡ is_some (find x map)
  unfolding has find keys
  has-keys x [] = refl
  has-keys x ((m, w) ∷ map) = ground (arith, has-keys x map)

  pub length-keys : (map : List (Label × V)) → length (keys map) ≡ length map
  unfolding keys
  length-keys [] = refl
  length-keys ((m, w) ∷ map) = ap suc (length-keys map)

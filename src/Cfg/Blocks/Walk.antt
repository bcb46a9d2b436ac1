-- ===== src/Cfg/Blocks/Walk.antt =====
-- The labels that the loops still have to do, in the order of the labels: `collect_basic_blocks` of verifiers/prevail/src/asm_cfg.cpp.
use mathlib.Core.Path.{subst}
use linux_dev_env.Base.{
  ◌≡◌, ◌⊎◌, refl, ap, ◌∙◌, true, false, ◌||◌, List, [], ◌∷◌, Bool-cases, inl, inr, arith,
}
use linux_dev_env.Outcome.{ok}
use linux_dev_env.Label.{Label, exit}
use linux_dev_env.Label.Order.{eq_label, eq_of_eq_label, eq_label_self}
use linux_dev_env.Label.Keyed.{LabelSet, has, put, erase}
use linux_dev_env.Label.Keyed.Lookup.{has-put}
use linux_dev_env.Cfg.{Cfg, out_degree, get_child}
use linux_dev_env.Cfg.Graph.{is_node}
use linux_dev_env.Cfg.Blocks.{is_inner}

-- The only child of one of the labels.
pub record IsOnlyChild (cfg : Cfg) (done : List Label) (l : Label) : Type 0 where
  pub parent : Label
  pub listed : has parent done ≡ true
  pub degree : out_degree parent cfg ≡ ok 1
  pub child : get_child parent cfg ≡ ok l

-- Every label but the exit that follows its only parent, which has no other child, stands after that
-- parent.
abbrev pub FollowParents : Cfg → List Label → List Label → Type 0
FollowParents cfg done [] = Unit
FollowParents cfg done (l ∷ ls) =
    (is_inner l cfg ≡ ok true → eq_label l exit ≡ false → IsOnlyChild cfg done l)
    × FollowParents cfg (l ∷ done) ls

-- What is left of a list, of which the rest has been seen.
abbrev pub Left : LabelSet → LabelSet → List Label → Type 0
Left worklist seen [] = worklist ≡ []
Left worklist seen (x ∷ rem) =
    ((has x seen ≡ true) × Left worklist seen rem)
    ⊎ ((more : LabelSet) × (worklist ≡ x ∷ more) × Left more seen rem)

pub Left-put :
    (l : Label) (worklist seen : LabelSet) (rem : List Label)
    → Left worklist seen rem
    → Left worklist (put l seen) rem
Left-put l worklist seen [] h = h
Left-put l worklist seen (x ∷ rem) (inl (s, h)) =
    inl (ground (arith, has-put x l seen, s), Left-put l worklist seen rem h)
Left-put l worklist seen (x ∷ rem) (inr (more, e, h)) = inr (more, e, Left-put l more seen rem h)

pub Left-erase :
    (l : Label) (worklist seen : LabelSet) (rem : List Label)
    → Left worklist seen rem
    → Left (erase l worklist) (put l seen) rem
unfolding erase
Left-erase l worklist seen [] h = rw h refl
Left-erase l worklist seen (x ∷ rem) (inl (s, h)) =
    inl (ground (arith, has-put x l seen, s), Left-erase l worklist seen rem h)
Left-erase l worklist seen (x ∷ rem) (inr (more, e, h)) = elim (Bool-cases (eq_label l x)) [
  | inl same ↦
      let is : l ≡ x = eq_of_eq_label l x same in
      inl (
        has-put x l seen ∙ rw is (ground (arith, eq_label_self x)),
        rw e (rw same (Left-erase l more seen rem h)),
      )
  | inr other ↦ inr (erase l more, rw e (rw other refl), Left-erase l more seen rem h)
]

pub Left-itself : (seen : LabelSet) (ls : List Label) → Left ls seen ls
Left-itself seen [] = refl
Left-itself seen (l ∷ ls) = inr (ls, refl, Left-itself seen ls)

-- The loops have seen the first labels of the list, and stand before the others.
pub record Stands (cfg : Cfg) (done rem : List Label) (worklist seen : LabelSet) : Type 0 where
  pub past : (x : Label) → has x done ≡ true → has x seen ≡ true
  pub follows : FollowParents cfg done rem
  pub left : Left worklist seen rem
  pub nodes : (x : Label) → has x rem ≡ true → is_node cfg x ≡ true
  pub all : (x : Label) → is_node cfg x ≡ true → (has x done || has x rem) ≡ true

-- The next label still to do.
pub record Popped (cfg : Cfg) (l : Label) (worklist seen : LabelSet) : Type 0 where
  pub done : List Label
  pub rem : List Label
  pub node : is_node cfg l ≡ true
  pub follows : is_inner l cfg ≡ ok true → eq_label l exit ≡ false → IsOnlyChild cfg done l
  pub before : (x : Label) → has x done ≡ true → has x seen ≡ true
  pub rest : FollowParents cfg (l ∷ done) rem
  pub nodes : (x : Label) → has x rem ≡ true → is_node cfg x ≡ true
  pub all : (x : Label) → is_node cfg x ≡ true → (has x (l ∷ done) || has x rem) ≡ true
  pub left : Left worklist seen rem

pub popped :
    (cfg : Cfg) (done rem : List Label) (l : Label) (worklist seen : LabelSet)
    → Stands cfg done rem (l ∷ worklist) seen
    → Popped cfg l worklist seen
unfolding has
popped cfg done [] l worklist seen h = let e : l ∷ worklist ≡ [] = h.left in cc
popped cfg done (x ∷ rem) l worklist seen h = elim h.left [
  | inl (s, left) ↦ popped cfg (x ∷ done) rem l worklist seen record {
    past = λ y e. elim (Bool-cases (eq_label y x)) [
      | inl same ↦ ap (λ z. has z seen) (eq_of_eq_label y x same) ∙ s
      | inr other ↦ h.past y (ground (arith, e, other))
    ];
    follows = h.follows.1;
    left = left;
    nodes = λ y e. h.nodes y (ground (arith, e));
    all = λ y e. ground (arith, h.all y e);
  }
  | inr (more, e, left) ↦
      let is : x ≡ l = cc in
      let same : more ≡ worklist = cc in
      record {
        done = done;
        rem = rem;
        node = h.nodes l (rw is (ground (arith, eq_label_self l)));
        follows =
            subst (λ z. is_inner z cfg ≡ ok true → eq_label z exit ≡ false → IsOnlyChild cfg done z)
              is h.follows.0;
        before = h.past;
        rest = subst (λ z. FollowParents cfg (z ∷ done) rem) is h.follows.1;
        nodes = λ y i. h.nodes y (ground (arith, i));
        all = λ y i.
            subst (λ z. ((eq_label y z || has y done) || has y rem) ≡ true) is
              (ground (arith, h.all y i));
        left = subst (λ w. Left w seen rem) same left;
      }
]

-- ===== src/Cfg/Blocks/Growing.antt =====
-- What the inner loop keeps, and that it throws nothing: `collect_basic_blocks` of verifiers/prevail/src/asm_cfg.cpp.
use mathlib.Core.Path.{subst}
use linux_dev_env.Base.{
  ℕ, zero, suc, ◌<◌, ◌≤◌, ◌≡◌, refl, sym, ap, ◌∙◌, true, false, ◌||◌, List, [], ◌∷◌, ◌++◌, length,
  ◌!=◌, if◌then◌else◌, Bool-cases, inl, inr, arith,
}
use linux_dev_env.Outcome.{ok}
use linux_dev_env.Outcome.Returns.{Returns, returns, Returns-bind, Returns-if}
use linux_dev_env.Label.{Label, entry, exit}
use linux_dev_env.Label.Order.{eq_label, eq_of_eq_label, eq_label_self}
use linux_dev_env.Label.Keyed.{LabelSet, has, put, erase}
use linux_dev_env.Label.Keyed.Lookup.{has-put, has-keys}
use linux_dev_env.Cfg.{Cfg, labels, in_degree, out_degree, get_child}
use linux_dev_env.Cfg.Graph.{is_node, IsGraph}
use linux_dev_env.Cfg.Blocks.{Blocks, first_label, last_label, Growth, extend, grow}
use linux_dev_env.Cfg.Blocks.Collected.{unseen, unseen-lt, length-erase}
use linux_dev_env.Cfg.Blocks.Degrees.{out_degree-Returns, stops-Returns, get_child-Returns}
use linux_dev_env.Cfg.Blocks.Walk.{Left, Left-erase}

-- The labels in the blocks.
abbrev pub members : Blocks → List Label
members [] = []
members ((l, block) ∷ res) = block ++ members res

pub is_node-listed : (cfg : Cfg) (l : Label) → is_node cfg l ≡ true → has l (labels cfg) ≡ true
unfolding labels
is_node-listed cfg l h = has-keys l cfg.neighbours ∙ h

pub has-append : (x : Label) (s t : List Label) → has x (s ++ t) ≡ (has x s || has x t)
unfolding has
has-append x [] t = refl
has-append x (l ∷ s) t = ground (arith, has-append x s t)

-- A label whose only child must be in its block.
pub record Next (cfg : Cfg) (p n : Label) : Type 0 where
  pub degree : out_degree p cfg ≡ ok 1
  pub child : get_child p cfg ≡ ok n
  pub not_exit : eq_label n exit ≡ false
  pub only_parent : in_degree n cfg ≡ ok 1

-- What the inner loop keeps of a block that it makes, where `before` had been seen. The closure is
-- that the only child of a label that has been seen is seen, except for the last label.
pub record Grown (cfg : Cfg) (before : LabelSet) (begun : Label) (res : Blocks) (rem : List Label)
    (size : ℕ) (s : Growth) : Type 0 where
  pub shorter : length s.worklist ≤ size
  pub first : Label
  pub is_first : first_label s.block ≡ ok first
  pub fresh : has first before ≡ false
  pub own : has first s.seen ≡ true
  pub begun_seen : has begun s.seen ≡ true
  pub more : (x : Label) → has x before ≡ true → has x s.seen ≡ true
  pub covered :
      (x : Label)
      → has x s.seen ≡ true
      → eq_label x entry ≡ false
      → eq_label x exit ≡ false
      → (has x s.block || has x (members res)) ≡ true
  pub alone : eq_label first entry ≡ true → s.block ≡ first ∷ []
  pub left : Left s.worklist s.seen rem

-- Whatever has been seen has its only child seen.
abbrev pub Closed : Cfg → LabelSet → Type 0
Closed cfg seen = (p n : Label) → has p seen ≡ true → Next cfg p n → has n seen ≡ true

pub record Growing (cfg : Cfg) (label : Label) (s : Growth) : Type 0 where
  pub node : is_node cfg label ≡ true
  pub is_last : last_label s.block ≡ ok label
  pub closed :
      (p n : Label)
      → has p s.seen ≡ true
      → eq_label p label ≡ false
      → Next cfg p n
      → has n s.seen ≡ true

first_label-snoc :
    (block : List Label) (first next : Label)
    → first_label block ≡ ok first
    → first_label (block ++ next ∷ []) ≡ ok first
first_label-snoc [] first next h = cc
first_label-snoc (l ∷ block) first next h = h

last_label-snoc : (block : List Label) (next : Label) → last_label (block ++ next ∷ []) ≡ ok next
last_label-snoc [] next = refl
last_label-snoc (l ∷ []) next = refl
last_label-snoc (l ∷ m ∷ block) next = last_label-snoc (m ∷ block) next

-- The next label is added.
extend-Grown :
    (cfg : Cfg) (before : LabelSet) (begun : Label) (res : Blocks) (rem : List Label) (size : ℕ)
    (s : Growth) (next : Label)
    → has next s.seen ≡ false
    → (g : Grown cfg before begun res rem size s)
    → Grown cfg before begun res rem size (extend g.first next s)
unfolding has
extend-Grown cfg before begun res rem size s next new g =
    let seen-next : has next (put next s.seen) ≡ true =
      has-put next next s.seen ∙ ground (arith, eq_label_self next) in
    let more : (x : Label) → has x before ≡ true → has x (put next s.seen) ≡ true =
      λ x b. has-put x next s.seen ∙ ground (arith, g.more x b) in
    let covered_with : (block : List Label)
        → ((x : Label) → has x s.block ≡ true → eq_label x entry ≡ false → has x block ≡ true)
        → (x : Label) → has x (put next s.seen) ≡ true
        → eq_label x entry ≡ false
        → eq_label x exit ≡ false
        → (has x (block ++ next ∷ []) || has x (members res)) ≡ true =
      λ block keep x e n m. ground (
        arith,
        has-put x next s.seen,
        has-append x block (next ∷ []),
        g.covered x,
        keep x,
        e,
        n,
        m,
      ) in
    let short : length (erase next s.worklist) ≤ size =
      omega (arith, length-erase next s.worklist, g.shorter) in
    let left = Left-erase next s.worklist s.seen rem g.left in
    elim (Bool-cases (eq_label g.first entry)) [
      | inl e ↦ rw e record {
        shorter = short;
        first = next;
        is_first = refl;
        fresh = ground (arith, g.more next, new);
        own = seen-next;
        begun_seen = has-put begun next s.seen ∙ ground (arith, g.begun_seen);
        more = more;
        covered = covered_with [] (λ x i n.
            let is : x ≡ g.first =
              eq_of_eq_label x g.first (ground (arith, i, ap (λ b. has x b) (g.alone e))) in
            let yes : eq_label x entry ≡ true = ap (λ z. eq_label z entry) is ∙ e in cc);
        alone = λ _. refl;
        left = left;
      }
      | inr e ↦ rw e record {
        shorter = short;
        first = g.first;
        is_first = first_label-snoc s.block g.first next g.is_first;
        fresh = g.fresh;
        own = has-put g.first next s.seen ∙ ground (arith, g.own);
        begun_seen = has-put begun next s.seen ∙ ground (arith, g.begun_seen);
        more = more;
        covered = covered_with s.block (λ x i n. i);
        alone = λ f. cc;
        left = left;
      }
    ]

extend-Growing :
    (cfg : Cfg) (label next first : Label) (s : Growth)
    → is_node cfg next ≡ true
    → get_child label cfg ≡ ok next
    → Growing cfg label s
    → Growing cfg next (extend first next s)
extend-Growing cfg label next first s node child g = record {
  node = node;
  is_last = last_label-snoc (if eq_label first entry then [] else s.block) next;
  closed = λ p n i other h. elim (Bool-cases (eq_label p label)) [
    | inl same ↦
        let is : p ≡ label = eq_of_eq_label p label same in
        let c : get_child label cfg ≡ ok n = sym (ap (λ z. get_child z cfg) is) ∙ h.child in
        let to : n ≡ next = cc in has-put n next s.seen ∙ rw to (ground (arith, eq_label_self next))
    | inr other' ↦
        has-put n next s.seen
        ∙ ground (arith, g.closed p n (ground (arith, has-put p next s.seen, i, other)) other' h)
  ];
}

-- Where the block ends, the closure has no exception.
Closed-Growing :
    (cfg : Cfg) (label : Label) (s : Growth)
    → ((n : Label) → Next cfg label n → has n s.seen ≡ true)
    → Growing cfg label s
    → Closed cfg s.seen
Closed-Growing cfg label s ends g p n i h = elim (Bool-cases (eq_label p label)) [
  | inl same ↦ ends n (subst (λ z. Next cfg z n) (eq_of_eq_label p label same) h)
  | inr other' ↦ g.closed p n i other' h
]

pub grow-Returns :
    (fuel : ℕ) (cfg : Cfg) (graph : IsGraph cfg) (before : LabelSet) (begun : Label) (res : Blocks)
    (rem : List Label) (size : ℕ) (label : Label) (s : Growth)
    → unseen (labels cfg) s.seen < fuel
    → Growing cfg label s
    → Grown cfg before begun res rem size s
    → Returns
        (λ (t : Growth). Grown cfg before begun res rem size t × Closed cfg t.seen)
        (grow fuel cfg label s)
unfolding grow
grow-Returns zero cfg graph before begun res rem size label s h g k = absurd (omega arith)
grow-Returns (suc fuel) cfg graph before begun res rem size label s h g k =
    Returns-bind _ (out_degree-Returns cfg label g.node) λ d degree.
      Returns-if (d != 1) _ _
        (λ e. returns (
          k,
          Closed-Growing cfg label s
              (λ n next.
                let one : out_degree label cfg ≡ ok 1 = next.degree in
                absurd (ground (arith, degree, one, e)))
              g,
        ))
        λ e.
          let one : out_degree label cfg ≡ ok 1 = degree ∙ ap ok (ground (arith, e)) in
          rw g.is_last (
            Returns-bind _ (get_child-Returns cfg graph label one) λ next (child, node).
              Returns-bind _ (stops-Returns cfg next s.seen node) λ stop (why, goes).
                Returns-if stop _ _
                  (λ f. returns (
                    k,
                    Closed-Growing cfg label s
                        (λ n h.
                          let c : get_child label cfg ≡ ok n = h.child in
                          let to : next ≡ n = cc in
                          subst (λ z. has z s.seen ≡ true) to
                            (why f (subst (λ z. in_degree z cfg ≡ ok 1) (sym to) h.only_parent)
                              (subst (λ z. eq_label z exit ≡ false) (sym to) h.not_exit)))
                        g,
                  ))
                  λ f. rw k.is_first (
                    grow-Returns fuel cfg graph before begun res rem size next
                      (extend k.first next s)
                      (omega (
                        arith,
                        unseen-lt (labels cfg) next s.seen (is_node-listed cfg next node) (goes f),
                      ))
                      (extend-Growing cfg label next k.first s node child g)
                      (extend-Grown cfg before begun res rem size s next (goes f) k)))

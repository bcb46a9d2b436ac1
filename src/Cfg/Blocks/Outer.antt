-- ===== src/Cfg/Blocks/Outer.antt =====
-- What the outer loop keeps: `collect_basic_blocks` of verifiers/prevail/src/asm_cfg.cpp.
use mathlib.Core.Path.{subst}
use linux_dev_env.Base.{
  ℕ, ◌≡◌, refl, ap, ◌∙◌, true, false, ◌||◌, List, [], ◌∷◌, ◌++◌, length, Bool-cases, inl, inr,
  arith,
}
use linux_dev_env.Outcome.{ok}
use linux_dev_env.Label.{Label, entry, exit}
use linux_dev_env.Label.Order.{eq_label, eq_label_lem, eq_of_eq_label, eq_label_self}
use linux_dev_env.Label.Keyed.{LabelSet, has, put, emplace, keys}
use linux_dev_env.Label.Keyed.Lookup.{has-put}
use linux_dev_env.Cfg.{Cfg, out_degree}
use linux_dev_env.Cfg.Graph.{is_node, IsGraph}
use linux_dev_env.Cfg.Blocks.{Blocks, Growth, is_inner}
use linux_dev_env.Cfg.Blocks.Degrees.{exit-out_degree, is_inner-in_degree}
use linux_dev_env.Cfg.Blocks.Walk.{Left, Stands, Popped}
use linux_dev_env.Cfg.Blocks.Growing.{members, Grown, Closed, Growing, has-append}

module _ (first : Label) (block : List Label) where
  members-emplace :
      (x : Label) (res : Blocks)
      → has first (keys res) ≡ false
      → has x (members (emplace first block res)) ≡ (has x block || has x (members res))
  unfolding emplace keys has
  members-emplace x [] h = has-append x block []
  members-emplace x ((m, b) ∷ res) h = ground (
    arith,
    members-emplace x res,
    eq_label_lem first m,
    has-append x block (b ++ members res),
    has-append x b (members res),
    has-append x b (members (emplace first block res)),
  )

  keys-emplace :
      (x : Label) (res : Blocks)
      → has first (keys res) ≡ false
      → has x (keys (emplace first block res)) ≡ (eq_label x first || has x (keys res))
  unfolding emplace keys has
  keys-emplace x [] h = refl
  keys-emplace x ((m, b) ∷ res) h = ground (arith, keys-emplace x res, eq_label_lem first m)

-- What the outer loop keeps.
pub record Collected (cfg : Cfg) (seen : LabelSet) (res : Blocks) : Type 0 where
  pub closed : Closed cfg seen
  pub covered :
      (x : Label)
      → has x seen ≡ true
      → eq_label x entry ≡ false
      → eq_label x exit ≡ false
      → has x (members res) ≡ true
  pub keyed : (x : Label) → has x (keys res) ≡ true → has x seen ≡ true

-- An inner label that is popped must be the exit.
pub inner-exit :
    (cfg : Cfg) (graph : IsGraph cfg) (l : Label) (worklist seen : LabelSet) (res : Blocks)
    → Collected cfg seen res
    → Popped cfg l worklist seen
    → has l seen ≡ false
    → is_inner l cfg ≡ ok true
    → eq_label l exit ≡ true
inner-exit cfg graph l worklist seen res c pop new inner = elim (Bool-cases (eq_label l exit)) [
  | inl is ↦ is
  | inr other ↦
      let only = pop.follows inner other in
      let is_seen : has l seen ≡ true =
        c.closed only.parent l (pop.before only.parent only.listed) record {
          degree = only.degree;
          child = only.child;
          not_exit = other;
          only_parent = is_inner-in_degree cfg graph l inner;
        } in
      cc
]

pub Collected-put :
    (cfg : Cfg) (graph : IsGraph cfg) (l : Label) (seen : LabelSet) (res : Blocks)
    → eq_label l exit ≡ true
    → Collected cfg seen res
    → Collected cfg (put l seen) res
Collected-put cfg graph l seen res is c = record {
  closed = λ p n i h. elim (Bool-cases (eq_label p l)) [
    | inl same ↦
        let p_exit : p ≡ exit = eq_of_eq_label p l same ∙ eq_of_eq_label l exit is in
        absurd (exit-out_degree cfg graph (subst (λ z. out_degree z cfg ≡ ok 1) p_exit h.degree))
    | inr other ↦
        has-put n l seen
        ∙ ground (arith, c.closed p n (ground (arith, has-put p l seen, i, other)) h)
  ];
  covered = λ x i n m. elim (Bool-cases (eq_label x l)) [
    | inl same ↦
        let x_exit : eq_label x exit ≡ true =
          ap (λ z. eq_label z exit) (eq_of_eq_label x l same) ∙ is in
        cc
    | inr other ↦ c.covered x (ground (arith, has-put x l seen, i, other)) n m
  ];
  keyed = λ x i. has-put x l seen ∙ ground (arith, c.keyed x i);
}

pub Collected-Grown :
    (cfg : Cfg) (seen : LabelSet) (begun : Label) (res : Blocks) (rem : List Label) (size : ℕ)
    (s : Growth)
    → Collected cfg seen res
    → (g : Grown cfg seen begun res rem size s) → Closed cfg s.seen
    → Collected cfg s.seen (emplace g.first s.block res)
Collected-Grown cfg seen begun res rem size s c g closed =
    let absent : has g.first (keys res) ≡ false = ground (arith, c.keyed g.first, g.fresh) in
    record {
      closed = closed;
      covered = λ x i n m. members-emplace g.first s.block x res absent ∙ g.covered x i n m;
      keyed = λ x i. elim (Bool-cases (eq_label x g.first)) [
        | inl same ↦ ap (λ z. has z s.seen) (eq_of_eq_label x g.first same) ∙ g.own
        | inr other ↦
            g.more x
              (c.keyed x (ground (arith, keys-emplace g.first s.block x res absent, i, other)))
      ];
    }

-- After a label, that has been seen by now, the loop stands before those that follow it.
pub onwards :
    (cfg : Cfg) (l : Label) (worklist seen worklist' seen' : LabelSet)
    → (pop : Popped cfg l worklist seen) → has l seen' ≡ true
    → ((x : Label) → has x seen ≡ true → has x seen' ≡ true)
    → Left worklist' seen' pop.rem
    → Stands cfg (l ∷ pop.done) pop.rem worklist' seen'
unfolding has
onwards cfg l worklist seen worklist' seen' pop own grows left = record {
  past = λ x i. elim (Bool-cases (eq_label x l)) [
    | inl same ↦ ap (λ z. has z seen') (eq_of_eq_label x l same) ∙ own
    | inr other ↦ grows x (pop.before x (ground (arith, i, other)))
  ];
  follows = pop.rest;
  left = left;
  nodes = pop.nodes;
  all = pop.all;
}

module _ (cfg : Cfg) (l : Label) (worklist seen : LabelSet) (res : Blocks)
    (c : Collected cfg seen res) where
  abbrev start : Growth
  start = record { block = l ∷ []; worklist = worklist; seen = put l seen }

  pub starts-Growing : is_node cfg l ≡ true → Growing cfg l start
  starts-Growing node = record {
    node = node;
    is_last = refl;
    closed = λ p n i other h.
        has-put n l seen
        ∙ ground (arith, c.closed p n (ground (arith, has-put p l seen, i, other)) h);
  }

  pub starts-Grown :
      (rem : List Label)
      → has l seen ≡ false
      → Left worklist (put l seen) rem
      → Grown cfg seen l res rem (length worklist) start
  unfolding has
  starts-Grown rem new left = record {
    shorter = omega arith;
    first = l;
    is_first = refl;
    fresh = new;
    own = has-put l l seen ∙ ground (arith, eq_label_self l);
    begun_seen = has-put l l seen ∙ ground (arith, eq_label_self l);
    more = λ x i. has-put x l seen ∙ ground (arith, i);
    covered = λ x i n m. ground (arith, has-put x l seen, c.covered x, i, n, m);
    alone = λ _. refl;
    left = left;
  }

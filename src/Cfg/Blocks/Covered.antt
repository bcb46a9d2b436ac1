-- ===== src/Cfg/Blocks/Covered.antt =====
-- Every node is in a block: `collect_basic_blocks` of verifiers/prevail/src/asm_cfg.cpp.
use linux_dev_env.Base.{
  ℕ, zero, suc, ◌≤◌, ◌≡◌, sym, ap, ◌∙◌, true, false, List, [], ◌∷◌, length, Bool-cases, inl, inr,
  arith,
}
use linux_dev_env.Outcome.{ok}
use linux_dev_env.Outcome.Ends.{Ends-ok}
use linux_dev_env.Outcome.Returns.{
  Returns, returns, Returns-of, Returns-ok, Returns-bind, Returns-if,
}
use linux_dev_env.Label.{Label, entry, exit}
use linux_dev_env.Label.Order.{eq_label, eq_of_eq_label, eq_label_self}
use linux_dev_env.Label.Keyed.{LabelSet, has, put, emplace, keys}
use linux_dev_env.Label.Keyed.Lookup.{has-put, has-keys}
use linux_dev_env.Cfg.{Cfg, labels}
use linux_dev_env.Cfg.Graph.{is_node, IsGraph}
use linux_dev_env.Cfg.Blocks.{Blocks, collect, collect_basic_blocks}
use linux_dev_env.Cfg.Blocks.Chain.{AreBlocks}
use linux_dev_env.Cfg.Blocks.Collected.{collect_basic_blocks-Ends, unseen-length}
use linux_dev_env.Cfg.Blocks.Degrees.{is_inner-Returns}
use linux_dev_env.Cfg.Blocks.Walk.{FollowParents, Left, Left-put, Left-itself, Stands, popped}
use linux_dev_env.Cfg.Blocks.Growing.{members, grow-Returns}
use linux_dev_env.Cfg.Blocks.Outer.{
  Collected, inner-exit, Collected-put, Collected-Grown, onwards, starts-Growing, starts-Grown,
}

Left-nil :
    (seen : LabelSet) (rem : List Label) (x : Label)
    → Left [] seen rem
    → has x rem ≡ true
    → has x seen ≡ true
unfolding has
Left-nil seen [] x h i = cc
Left-nil seen (y ∷ rem) x (inl (s, h)) i = elim (Bool-cases (eq_label x y)) [
  | inl same ↦ ap (λ z. has z seen) (eq_of_eq_label x y same) ∙ s
  | inr other ↦ Left-nil seen rem x h (ground (arith, i, other))
]
Left-nil seen (y ∷ rem) x (inr (more, e, h)) i = cc

-- Every label but the entry and the exit is in a block.
abbrev pub Covers : Cfg → Blocks → Type 0
Covers cfg res =
    (l : Label)
    → is_node cfg l ≡ true
    → eq_label l entry ≡ false
    → eq_label l exit ≡ false
    → has l (members res) ≡ true

covers :
    (cfg : Cfg) (done rem : List Label) (seen : LabelSet) (res : Blocks)
    → Stands cfg done rem [] seen
    → Collected cfg seen res
    → Covers cfg res
covers cfg done rem seen res st c l node n m =
    let is_seen : has l seen ≡ true = elim (Bool-cases (has l done)) [
      | inl i ↦ st.past l i
      | inr i ↦ Left-nil seen rem l st.left (ground (arith, st.all l node, i))
    ] in
    c.covered l is_seen n m

collect-Returns :
    (fuel : ℕ) (cfg : Cfg) (graph : IsGraph cfg) (done rem : List Label) (worklist seen : LabelSet)
    (res : Blocks)
    → length worklist ≤ fuel
    → Stands cfg done rem worklist seen
    → Collected cfg seen res
    → Returns (Covers cfg) (collect fuel cfg worklist seen res)
unfolding collect
collect-Returns zero cfg graph done rem [] seen res h st c =
    returns (covers cfg done rem seen res st c)
collect-Returns zero cfg graph done rem (l ∷ worklist) seen res h st c = absurd (omega arith)
collect-Returns (suc fuel) cfg graph done rem [] seen res h st c =
    returns (covers cfg done rem seen res st c)
collect-Returns (suc fuel) cfg graph done rem (l ∷ worklist) seen res h st c =
    let pop = popped cfg done rem l worklist seen st in
    Returns-if (has l seen) _ _
      (λ is_seen.
        collect-Returns fuel cfg graph (l ∷ pop.done) pop.rem worklist seen res (omega arith)
          (onwards cfg l worklist seen worklist seen pop is_seen (λ x i. i) pop.left) c)
      λ new.
        let own : has l (put l seen) ≡ true = has-put l l seen ∙ ground (arith, eq_label_self l) in
        let left = Left-put l worklist seen pop.rem pop.left in
        let grows : (x : Label) → has x seen ≡ true → has x (put l seen) ≡ true =
          λ x i. has-put x l seen ∙ ground (arith, i) in
        Returns-bind _ (is_inner-Returns cfg graph l pop.node) λ inner is_in.
          Returns-if inner _ _
            (λ e.
              collect-Returns fuel cfg graph (l ∷ pop.done) pop.rem worklist (put l seen) res
                (omega arith) (onwards cfg l worklist seen worklist (put l seen) pop own grows left)
                (Collected-put cfg graph l seen res
                  (inner-exit cfg graph l worklist seen res c pop new (is_in ∙ ap ok e)) c))
            λ _.
              Returns-bind _
                (grow-Returns (suc (length (labels cfg))) cfg graph seen l res pop.rem
                  (length worklist) l
                  (record { block = l ∷ []; worklist = worklist; seen = put l seen })
                  (omega (arith, unseen-length (labels cfg) (put l seen)))
                  (starts-Growing cfg l worklist seen res c pop.node)
                  (starts-Grown cfg l worklist seen res c pop.rem new left))
                λ s (g, closed). rw g.is_first (
                  collect-Returns fuel cfg graph (l ∷ pop.done) pop.rem s.worklist s.seen
                    (emplace g.first s.block res) (omega (arith, g.shorter))
                    (onwards cfg l worklist seen s.worklist s.seen pop g.begun_seen g.more g.left)
                    (Collected-Grown cfg seen l res pop.rem (length worklist) s c g closed))

before_all :
    (cfg : Cfg) → FollowParents cfg [] (labels cfg) → Stands cfg [] (labels cfg) (labels cfg) []
unfolding has labels
before_all cfg follows = record {
  past = λ x i. cc;
  follows = follows;
  left = Left-itself [] (labels cfg);
  nodes = λ x i. sym (has-keys x cfg.neighbours) ∙ i;
  all = λ x i. has-keys x cfg.neighbours ∙ i;
}

nothing_seen : (cfg : Cfg) → Collected cfg [] []
unfolding has keys
nothing_seen cfg = record { closed = λ p n i h. cc; covered = λ x i n m. cc; keyed = λ x i. i }

-- Collecting the basic blocks of a well-formed graph, in which every label but the exit that follows
-- its only parent, which has no other child, stands after that parent in the order of the labels,
-- throws nothing: it returns blocks, each under its first label, in which each label is the only child
-- of the one before it and has no other parent, and every node but the entry and the exit is in a
-- block.
pub collect_basic_blocks-Returns :
    (cfg : Cfg)
    → IsGraph cfg
    → FollowParents cfg [] (labels cfg)
    → Returns (λ (res : Blocks). AreBlocks cfg res × Covers cfg res) (collect_basic_blocks cfg true)
unfolding collect_basic_blocks
collect_basic_blocks-Returns cfg graph follows =
    let (res, made, covered) = Returns-ok (
      collect-Returns (length (labels cfg)) cfg graph [] (labels cfg) (labels cfg) [] []
        (omega arith) (before_all cfg follows) (nothing_seen cfg)) in
    Returns-of made (Ends-ok (collect_basic_blocks-Ends cfg true) made, covered)

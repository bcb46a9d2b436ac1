-- ===== src/Fixpoint/Regions.antt =====
-- Visits of single vertices and of components one after another:
-- verifiers/prevail/src/crab/fwd_analyzer.cpp.
use linux_dev_env.Base.{
  ◌≡◌, refl, ap, sym, ◌∙◌, true, false, not, ◌&&◌, ◌||◌, some, List, [], ◌∷◌, Bool-cases, inl, inr,
  arith,
}
use linux_dev_env.Outcome.{Result}
use linux_dev_env.Outcome.Ends.{Ends, returns, Ends-imp, Ends-bind, Ends-if}
use linux_dev_env.Label.{Label, entry}
use linux_dev_env.Label.Order.{eq_label, eq_of_eq_label}
use linux_dev_env.Label.Keyed.{has, find}
use linux_dev_env.Cfg.{Cfg}
use linux_dev_env.Cfg.Graph.{is_parent}
use linux_dev_env.Wto.{Component}
use linux_dev_env.Fixpoint.Table.{
  Analyzer, State, InvariantMapPair, InvariantTable, transform_to_post,
}
use linux_dev_env.Fixpoint.{visit_vertex, visit_all}
use linux_dev_env.Fixpoint.Interface.{Meaning, IsSound}
use linux_dev_env.Fixpoint.Reach.{
  AreNested, none_left, followed, IsVertex, Passes, Pre, Post, Inside, enters, moves, Covers,
  Visits,
}
use linux_dev_env.Fixpoint.Steps.{
  Written, with_pre, with_post, set_pre-Ends, transform_to_post-Ends, join_all_prevs-Ends,
}

module _ {D : Type 0} where
  -- The table has d before a label.
  pub record Holds (t : InvariantTable D) (l : Label) (d : D) : Type 0 where
    pub pair : InvariantMapPair D
    pub found : find l t ≡ some pair
    pub is_pre : pair.pre ≡ d

  pub Holds-with_pre :
      {l : Label} {d : D} {a b : State D} → Written (with_pre d) l a b → Holds b.inv l d
  Holds-with_pre {d = d} w = record { pair = with_pre d w.pair; found = w.written; is_pre = refl }

  pub Holds-with_post :
      {l : Label} {d y : D} {a b : State D}
      → Written (with_post y) l a b
      → Holds a.inv l d
      → Holds b.inv l d
  Holds-with_post {y = y} w h =
      let same : some w.pair ≡ some h.pair = sym w.before ∙ h.found in
      let one : w.pair ≡ h.pair = cc in
      record {
        pair = with_post y w.pair;
        found = w.written;
        is_pre = ap (λ p. p.pre) one ∙ h.is_pre;
      }

  pub Holds-along :
      {t u : InvariantTable D} {l : Label} {d : D} → find l u ≡ find l t → Holds t l d → Holds u l d
  Holds-along e h = record { pair = h.pair; found = e ∙ h.found; is_pre = h.is_pre }

module _ {D S : Type 0} {m : Meaning D S} where
  pub Post-along :
      {t u : InvariantTable D} {l : Label} {s : S}
      → find l u ≡ find l t
      → Post m t l s
      → Post m u l s
  Post-along e p = record { pair = p.pair; found = e ∙ p.found; models = p.models }

  pub Pre-Holds :
      {t : InvariantTable D} {l : Label} {d : D} {s : S} → Holds t l d → m.models d s → Pre m t l s
  Pre-Holds h k = record { pair = h.pair; found = h.found; models = rw h.is_pre k }

  pub Covers-along :
      {cfg : Cfg} {t u : InvariantTable D} {l : Label} {s : S}
      → find l u ≡ find l t
      → Covers m cfg t l s
      → Covers m cfg u l s
  Covers-along e c = record {
    pre = record { pair = c.pre.pair; found = e ∙ c.pre.found; models = c.pre.models };
    post = λ v p. Post-along e (c.post v p);
  }

  pub Inside-has :
      {cfg : Cfg} {ls : List Label} {t : InvariantTable D} (n : Label) (s : S)
      → Inside m cfg ls t n s
      → has n ls ≡ true
  Inside-has n s (enters hn hp e post) = hn
  Inside-has n s (moves hn hl e i passes) = hn

  -- Visits of two regions, in an order that no edge goes against.
  module _ (cfg : Cfg) {ls first rest : List Label} {a b c : State D} (one : Visits m cfg first a b)
      (two : Visits m cfg rest b c) (union : (l : Label) → has l ls ≡ (has l first || has l rest))
      (apart : (l : Label) → has l first ≡ true → has l rest ≡ false)
      (onwards : (v n : Label)
        → has v rest ≡ true
        → has n first ≡ true
        → is_parent cfg v n ≡ false) where
    Inside-first :
        (n : Label) (s : S)
        → Inside m cfg ls a.inv n s
        → has n first ≡ true
        → Inside m cfg first a.inv n s
    Inside-first n s (enters {p} hn hp e post) h = enters h (ground (arith, union p)) e post
    Inside-first n s (moves {l} hn hl e i passes) h =
        let here : has l first ≡ true = ground (arith, union l, onwards l n) in
        moves h here e (Inside-first l _ i here) passes

    Inside-rest :
        (n : Label) (s : S)
        → Inside m cfg ls a.inv n s
        → has n rest ≡ true
        → Inside m cfg rest b.inv n s
    Inside-rest n s (enters {p} hn hp e post) h =
        let off : has p first ≡ false = ground (arith, union p) in
        enters h (ground (arith, union p)) e (Post-along (one.frame p off) post)
    Inside-rest n s (moves {l} hn hl e i passes) h = elim (Bool-cases (has l first)) [
      | inl f ↦ enters h (apart l f) e ((one.covers l _ (Inside-first l _ i f)).post s passes)
      | inr f ↦
          let r : has l rest ≡ true = ground (arith, union l) in
          moves h r e (Inside-rest l _ i r) passes
    ]

    pub Visits-followed : Visits m cfg ls a c
    Visits-followed = record {
      frame = λ n h. two.frame n (ground (arith, union n)) ∙ one.frame n (ground (arith, union n));
      awake = two.awake;
      covers = λ n s i. elim (Bool-cases (has n first)) [
        | inl f ↦ Covers-along (two.frame n (apart n f)) (one.covers n s (Inside-first n s i f))
        | inr f ↦ two.covers n s (Inside-rest n s i (ground (arith, union n, Inside-has n s i)))
      ];
    }

  pub visit_all-Ends :
      {cfg : Cfg} {Nested : Component → List Label → Type 0}
      (visit : Component → State D → Result (State D))
      → ((x : Component) (ls : List Label) (s : State D)
          → Nested x ls
          → s.skip ≡ false
          → Ends (Visits m cfg ls s) (visit x s))
      → (xs : List Component) (ls : List Label) (s : State D) → AreNested cfg Nested xs ls
      → s.skip ≡ false
      → Ends (Visits m cfg ls s) (visit_all visit xs s)
  unfolding visit_all
  visit_all-Ends {cfg} visit each [] ls s (none_left empty) awake =
      returns
        (record { frame = λ n h. refl; awake = awake; covers = λ n u i. absurd (no_inside n u i) })
    where
      no_inside : (n : Label) (u : S) → Inside m cfg ls s.inv n u → ⊥
      no_inside n u (enters hn hp e post) = let h : has n ls ≡ false = empty n in cc
      no_inside n u (moves hn hl e i passes) = let h : has n ls ≡ false = empty n in cc
  visit_all-Ends visit each (x ∷ xs) ls s (followed first rest nested more union apart onwards)
        awake =
      Ends-bind _ (each x first s nested awake) λ b one.
        Ends-imp (visit_all-Ends visit each xs rest b more one.awake)
          λ c two. Visits-followed _ one two union apart onwards

  module _ (a : Analyzer D) (sound : IsSound a.dom m) where
    -- A value written before a label and the transformer's after it.
    pub record Transformed (l : Label) (d : D) (s b : State D) : Type 0 where
      pub frame : (n : Label) → eq_label n l ≡ false → find n b.inv ≡ find n s.inv
      pub skip : b.skip ≡ s.skip
      pub pre : Holds b.inv l d
      pub post : (u t : S) → m.models d u → Passes m a.cfg l u t → Post m b.inv l t

    pub transform-Ends :
        (l : Label) (d : D) (s : State D)
        → Holds s.inv l d
        → Ends (Transformed l d s) (transform_to_post a l d s)
    transform-Ends l d s h = Ends-imp (transform_to_post-Ends a sound l d s) λ b k.
        let w = k.1 in
        record {
          frame = w.frame;
          skip = w.skip;
          pre = Holds-with_post w h;
          post = λ u t v p. record {
            pair = with_post k.0 w.pair;
            found = w.written;
            models = k.2 u t v p;
          };
        }

    vertex-covers :
        {d : D} {s₂ b : State D} (l : Label) (ls : List Label) (s : State D)
        → IsVertex a.cfg l ls
        → Transformed l d s₂ b
        → ((p : Label) (u : S) → is_parent a.cfg p l ≡ true → Post m s.inv p u → m.models d u)
        → (n : Label) (u : S) → Inside m a.cfg ls s.inv n u
        → Covers m a.cfg b.inv n u
    vertex-covers l ls s (only, no_loop, not_entry) k joined n u (enters {p} hn hp e post) =
        let same : n ≡ l = eq_of_eq_label n l (sym (only n) ∙ hn) in
        let inside : m.models _ u =
          joined p u (sym (ap (λ x. is_parent a.cfg p x) same) ∙ e) post in
        rw same (record { pre = Pre-Holds k.pre inside; post = λ t v. k.post u t inside v })
    vertex-covers l ls s (only, no_loop, not_entry) k joined n u
          (moves {l = from} hn hl e i passes) =
        let same : n ≡ l = eq_of_eq_label n l (sym (only n) ∙ hn) in
        let back : from ≡ l = eq_of_eq_label from l (sym (only from) ∙ hl) in
        let loop : is_parent a.cfg from n ≡ is_parent a.cfg l l =
          ap (λ x. is_parent a.cfg x n) back ∙ ap (λ x. is_parent a.cfg l x) same in
        cc

    pub visit_vertex-Ends :
        (l : Label) (ls : List Label) (s : State D)
        → IsVertex a.cfg l ls
        → s.skip ≡ false
        → Ends (Visits m a.cfg ls s) (visit_vertex a l s)
    unfolding visit_vertex
    visit_vertex-Ends l ls s (only, no_loop, not_entry) awake =
        Ends-if (s.skip && not (eq_label l entry)) _ _ (λ h. absurd (ground arith))
          λ _.
            let s₁ = record s { skip = false } in
            Ends-bind _ (join_all_prevs-Ends a sound l s₁ not_entry) λ d joined.
              Ends-bind _ (set_pre-Ends l d s₁) λ s₂ w.
                Ends-imp (transform-Ends l d s₂ (Holds-with_pre w)) λ b k. record {
                  frame = λ n h. k.frame n (sym (only n) ∙ h) ∙ w.frame n (sym (only n) ∙ h);
                  awake = k.skip ∙ w.skip;
                  covers = vertex-covers l ls s (only, no_loop, not_entry) k joined;
                }

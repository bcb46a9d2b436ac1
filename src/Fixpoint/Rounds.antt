-- ===== src/Fixpoint/Rounds.antt =====
-- One round of the iterations over a cycle: verifiers/prevail/src/crab/fwd_analyzer.cpp.
use mathlib.Core.Path.{fun_ext}
use linux_dev_env.Base.{
  ℕ, ◌≡◌, refl, ap, sym, ◌∙◌, true, false, ◌||◌, List, [], ◌∷◌, Bool-cases, inl, inr, arith,
}
use linux_dev_env.Outcome.{Result, ◌>>=◌}
use linux_dev_env.Outcome.Ends.{Ends, returns, Ends-bind}
use linux_dev_env.Label.{Label, entry}
use linux_dev_env.Label.Order.{eq_label, eq_of_eq_label, eq_label_self}
use linux_dev_env.Label.Keyed.{has, find}
use linux_dev_env.Cfg.{Cfg}
use linux_dev_env.Cfg.Graph.{is_parent}
use linux_dev_env.Wto.{Component, vertex, cycle, Wto}
use linux_dev_env.Fixpoint.Table.{Analyzer, State}
use linux_dev_env.Fixpoint.{visit_all, visit_body, round}
use linux_dev_env.Fixpoint.Interface.{Meaning, IsSound}
use linux_dev_env.Fixpoint.Reach.{
  AreNested, followed, IsNested, Passes, Post, Inside, enters, moves, Covers, Visits,
}
use linux_dev_env.Fixpoint.Steps.{join_all_prevs-Ends}
use linux_dev_env.Fixpoint.Regions.{
  Holds, Holds-along, Post-along, Pre-Holds, transform-Ends, visit_all-Ends, Inside-has,
}

-- No component of a region without the head is the head.
visit_body-visit_all :
    {D : Type 0} {cfg : Cfg} (wto : Wto) (depth : ℕ)
    (visit : Component → State D → Result (State D)) (head : Label) (xs : List Component)
    (ls : List Label) (s : State D)
    → AreNested cfg (IsNested cfg wto depth) xs ls
    → has head ls ≡ false
    → visit_body visit head xs s ≡ visit_all visit xs s
unfolding visit_body visit_all
visit_body-visit_all wto depth visit head [] ls s nested h = refl
visit_body-visit_all wto depth visit head (vertex l ∷ xs) ls s
      (followed first rest (only, no_loop, not_entry) more union apart on) h =
    let off : eq_label l head ≡ false =
      ground (arith, union head, only head, eq_label_self head, eq_of_eq_label l head) in
    rw off (
      ap (λ k. visit (vertex l) s >>= k)
        (fun_ext λ s₁.
          visit_body-visit_all wto depth visit head xs rest s₁ more (ground (arith, union head))))
visit_body-visit_all wto depth visit head (cycle c ∷ xs) ls s
      (followed first rest nested more union apart on) h =
    ap (λ k. visit (cycle c) s >>= k)
      (fun_ext λ s₁.
        visit_body-visit_all wto depth visit head xs rest s₁ more (ground (arith, union head)))

module _ {D S : Type 0} {m : Meaning D S} (a : Analyzer D) (sound : IsSound a.dom m) (head : Label)
    (inside ls : List Label) (s₀ : State D)
    (whole : (l : Label) → has l ls ≡ (eq_label l head || has l inside))
    (outside : has head inside ≡ false) (not_entry : eq_label head entry ≡ false) where
  -- The table is the one at the beginning, outside the cycle.
  abbrev pub Agrees : State D → Type 0
  Agrees s = (n : Label) → has n ls ≡ false → find n s.inv ≡ find n s₀.inv

  -- A round from d has a value after it that covers what comes back to the head.
  pub record IsRound (d x : D) (b : State D) : Type 0 where
    pub awake : b.skip ≡ false
    pub agrees : Agrees b
    pub holds : Holds b.inv head d
    pub back :
        ((u : S) → Inside m a.cfg ls s₀.inv head u → m.models x u → m.models d u)
        → (n : Label) (u : S) → Inside m a.cfg ls s₀.inv n u
        → ((n ≡ head) → m.models x u) × Covers m a.cfg b.inv n u

  module _ {d x : D} {s b : State D} (agrees : Agrees s)
      (post : (u v : S) → m.models d u → Passes m a.cfg head u v → Post m s.inv head v)
      (holds : Holds s.inv head d) (body : Visits m a.cfg inside s b)
      (joined : (p : Label) (u : S)
        → is_parent a.cfg p head ≡ true
        → Post m b.inv p u
        → m.models x u)
      (below : (u : S) → Inside m a.cfg ls s₀.inv head u → m.models x u → m.models d u) where
    -- What executions reach in the cycle is below the head's value, or reached inside the body.
    record Located (n : Label) (u : S) : Type 0 where
      at_head : n ≡ head → m.models x u
      in_body : has n inside ≡ true → Inside m a.cfg inside s.inv n u

    covers-Located :
        (n : Label) (u : S)
        → Inside m a.cfg ls s₀.inv n u
        → has n ls ≡ true
        → Located n u
        → Covers m a.cfg b.inv n u
    covers-Located n u i h k = elim (Bool-cases (has n inside)) [
      | inl e ↦ body.covers n u (k.in_body e)
      | inr e ↦
          let same : n ≡ head = eq_of_eq_label n head (ground (arith, whole n)) in
          let kept : find head b.inv ≡ find head s.inv = body.frame head outside in
          let below_d : m.models d u = below u (rw (← same) i) (k.at_head same) in
          rw same (record {
            pre = Pre-Holds (Holds-along kept holds) below_d;
            post = λ v p. Post-along kept (post u v below_d p);
          })
    ]

    located : (n : Label) (u : S) → Inside m a.cfg ls s₀.inv n u → Located n u
    located n u (enters {p} hn hp e from) =
        let off : has p inside ≡ false = ground (arith, whole p) in
        let there : Post m s.inv p u = Post-along (agrees p hp) from in
        record {
          at_head = λ same.
              joined p u (sym (ap (λ y. is_parent a.cfg p y) same) ∙ e)
                (Post-along (body.frame p off) there);
          in_body = λ h. enters h off e there;
        }
    located n u (moves {l} {s = v} hn hl e i passes) =
        let k : Located l v = located l v i in
        let c : Covers m a.cfg b.inv l v = covers-Located l v i hl k in
        record {
          at_head =
              λ same. joined l u (sym (ap (λ y. is_parent a.cfg l y) same) ∙ e) (c.post u passes);
          in_body = λ h. elim (Bool-cases (has l inside)) [
            | inl r ↦ moves h r e (k.in_body r) passes
            | inr r ↦ enters h r e (Post-along (sym (body.frame l r)) (c.post u passes))
          ];
        }

  -- A round of either loop, with the visits of the body.
  pub round-Ends :
      (wto : Wto) (depth : ℕ) (body : List Component)
      (visit : Component → State D → Result (State D))
      → ((x : Component) (region : List Label) (s : State D)
          → IsNested a.cfg wto depth x region
          → s.skip ≡ false
          → Ends (Visits m a.cfg region s) (visit x s))
      → AreNested a.cfg (IsNested a.cfg wto depth) body inside
      → (d : D) (s : State D) → s.skip ≡ false
      → Agrees s
      → Holds s.inv head d
      → Ends (λ (r : D × State D). IsRound d r.0 r.1) (round a visit head (vertex head ∷ body) d s)
  unfolding round visit_body
  round-Ends wto depth body visit each nested d s awake agrees holds =
      Ends-bind _ (transform-Ends a sound head d s holds) λ s₁ k.
        rw
          (
            eq_label_self head,
            visit_body-visit_all wto depth visit head body inside s₁ nested outside,
          )
          (Ends-bind _ (visit_all-Ends visit each body inside s₁ nested (k.skip ∙ awake)) λ b v.
            Ends-bind _ (join_all_prevs-Ends a sound head b not_entry) λ x joined.
              let agrees₁ : Agrees s₁ = λ n h. k.frame n (ground (arith, whole n)) ∙ agrees n h in
              returns (record {
                awake = v.awake;
                agrees = λ n h. v.frame n (ground (arith, whole n)) ∙ agrees₁ n h;
                holds = Holds-along (v.frame head outside) k.pre;
                back = λ below n u i.
                    let o = located agrees₁ k.post k.pre v joined below n u i in
                    (
                      o.at_head,
                      covers-Located agrees₁ k.post k.pre v joined below n u i (Inside-has n u i) o,
                    );
              }))

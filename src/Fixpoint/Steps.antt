-- ===== src/Fixpoint/Steps.antt =====
-- What the accesses to the table, the transformer and the joins of the analysis do:
-- verifiers/prevail/src/crab/fwd_analyzer.cpp.
use linux_dev_env.Base.{
  ◌≡◌, refl, ap, sym, ◌∙◌, true, false, some, List, [], ◌∷◌, is_some, Bool-cases, inl, inr, arith,
}
use linux_dev_env.Outcome.{Result, ok, out_of_range}
use linux_dev_env.Outcome.Ends.{Ends, returns, Ends-of, Ends-imp, Ends-bind, Ends-if, Ends-or_throw}
use linux_dev_env.Label.{Label, entry}
use linux_dev_env.Label.Order.{eq_label, eq_of_eq_label, eq_label_self}
use linux_dev_env.Label.Keyed.{has, find, update}
use linux_dev_env.Label.Keyed.Lookup.{find-update}
use linux_dev_env.Syntax.Instruction.{Instruction}
use linux_dev_env.Syntax.Assertion.{Assertion}
use linux_dev_env.Cfg.{
  Cfg, GuardedInstruction, guarded_at, get_node, not_found, parents_of, instruction_at,
  assertions_at,
}
use linux_dev_env.Cfg.Graph.{is_parent}
use linux_dev_env.Fixpoint.Table.{
  Analyzer, State, InvariantMapPair, at, set_pre, set_post, get_post, assume_all, assumed,
  transform_to_post, join_posts, join_all_prevs,
}
use linux_dev_env.Fixpoint.Interface.{Domain, Meaning, IsSound}
use linux_dev_env.Fixpoint.Reach.{All, all_of_more, Passes, Post}

-- The entry at a label is changed by f, and nothing else.
pub record Written {D : Type 0} (f : InvariantMapPair D → InvariantMapPair D) (l : Label)
    (a b : State D) : Type 0 where
  pub pair : InvariantMapPair D
  pub before : find l a.inv ≡ some pair
  pub written : find l b.inv ≡ some (f pair)
  pub frame : (n : Label) → eq_label n l ≡ false → find n b.inv ≡ find n a.inv
  pub skip : b.skip ≡ a.skip

module _ {D : Type 0} where
  abbrev pub with_pre : D → InvariantMapPair D → InvariantMapPair D
  with_pre v p = record p { pre = v }

  abbrev pub with_post : D → InvariantMapPair D → InvariantMapPair D
  with_post v p = record p { post = v }

  Written-update :
      (f : InvariantMapPair D → InvariantMapPair D) (l : Label) (a : State D)
      (p : InvariantMapPair D)
      → find l a.inv ≡ some p
      → Written f l a (record a { inv = update l (f p) a.inv })
  Written-update f l a p h =
      let there : is_some (find l a.inv) ≡ true = rw h refl in
      record {
        pair = p;
        before = h;
        written = rw (find-update l l (f p) a.inv there, eq_label_self l) refl;
        frame = λ n e. rw (find-update n l (f p) a.inv there, e) refl;
        skip = refl;
      }

  pub set_pre-Ends :
      (l : Label) (v : D) (a : State D) → Ends (Written (with_pre v) l a) (set_pre l v a)
  unfolding set_pre at
  set_pre-Ends l v a =
      Ends-bind _ (Ends-or_throw (find l a.inv) out_of_range (λ h. cc) (λ p h. h))
        λ p h. returns (Written-update (with_pre v) l a p h)

  pub set_post-Ends :
      (l : Label) (v : D) (a : State D) → Ends (Written (with_post v) l a) (set_post l v a)
  unfolding set_post at
  set_post-Ends l v a =
      Ends-bind _ (Ends-or_throw (find l a.inv) out_of_range (λ h. cc) (λ p h. h))
        λ p h. returns (Written-update (with_post v) l a p h)

same_of : {A : Type 0} {r : Result A} {x y : A} → r ≡ ok x → r ≡ ok y → x ≡ y
same_of e f = cc

guarded_at-Ends :
    (l : Label) (cfg : Cfg)
    → Ends (λ (g : GuardedInstruction). guarded_at l cfg ≡ ok g) (guarded_at l cfg)
unfolding guarded_at not_found
guarded_at-Ends l cfg = Ends-of (guarded_at l cfg) (λ g h. h) (ground arith)

assertions_at-Ends :
    (l : Label) (cfg : Cfg)
    → Ends
        (λ (as_list : List Assertion).
          (g : GuardedInstruction) → guarded_at l cfg ≡ ok g → as_list ≡ g.preconditions)
        (assertions_at l cfg)
unfolding assertions_at
assertions_at-Ends l cfg =
    Ends-bind _ (guarded_at-Ends l cfg)
      λ h e. returns λ g f. ap (λ x. x.preconditions) (same_of e f)

instruction_at-Ends :
    (l : Label) (cfg : Cfg)
    → Ends
        (λ (i : Instruction). (g : GuardedInstruction) → guarded_at l cfg ≡ ok g → i ≡ g.cmd)
        (instruction_at l cfg)
unfolding instruction_at
instruction_at-Ends l cfg =
    Ends-bind _ (guarded_at-Ends l cfg) λ h e. returns λ g f. ap (λ x. x.cmd) (same_of e f)

pub parents_of-Ends :
    (l : Label) (cfg : Cfg)
    → Ends
        (λ (ps : List Label). (p : Label) → is_parent cfg p l ≡ true → has p ps ≡ true)
        (parents_of l cfg)
unfolding parents_of get_node not_found
parents_of-Ends l cfg = Ends-of (parents_of l cfg) (λ ps h p e. ground arith) (ground arith)

module _ {D S : Type 0} {m : Meaning D S} where
  assume_all-Ends :
      {dom : Domain D} (sound : IsSound dom m) (as_list : List Assertion) (x : D)
      → Ends
          (λ (y : D). (s : S) → m.models x s → All m as_list s → m.models y s)
          (assume_all dom as_list x)
  unfolding assume_all
  assume_all-Ends sound [] x = returns λ s h c. h
  assume_all-Ends sound (a ∷ rest) x =
      Ends-bind _ (sound.assume x a) λ y now.
        Ends-imp (assume_all-Ends sound rest y) λ z later s h c. later_of y z now later s h c
    where
      later_of :
          (y z : D)
          → ((s : S) → m.models x s → m.satisfies a s → m.models y s)
          → ((s : S) → m.models y s → All m rest s → m.models z s)
          → (s : S) → m.models x s
          → All m (a ∷ rest) s
          → m.models z s
      later_of y z now later s h (all_of_more c cs) = later s (now s h c) cs

  pub get_post-Ends :
      (l : Label) (s : State D)
      → Ends (λ (d : D). (u : S) → Post m s.inv l u → m.models d u) (get_post l s)
  unfolding get_post at
  get_post-Ends l s =
      Ends-bind _ (Ends-or_throw (find l s.inv) out_of_range (λ h. cc) (λ q h. h)) λ q f.
        returns λ u post.
          let same : some q ≡ some post.pair = sym f ∙ post.found in
          let one : q ≡ post.pair = cc in rw one post.models

  module _ (a : Analyzer D) (sound : IsSound a.dom m) where
    assumed-Ends :
        (l : Label) (x : D)
        → Ends
            (λ (y : D).
              (g : GuardedInstruction) (s : S)
              → guarded_at l a.cfg ≡ ok g
              → m.models x s
              → All m g.preconditions s
              → m.models y s)
            (assumed a l x)
    unfolding assumed assertions_at
    assumed-Ends l x =
        Ends-if a.assume_assertions _ _
          (λ _. Ends-bind _ (assertions_at-Ends l a.cfg) λ as_list e.
            Ends-imp (assume_all-Ends sound as_list x) λ y k g s f h c. k s h (rw (e g f) c))
          (λ _. returns λ g s f h c. h)

    -- What the transformer writes after a label covers the states that pass it.
    pub transform_to_post-Ends :
        (l : Label) (x : D) (s : State D)
        → Ends
            (λ (b : State D).
              (y : D) × Written (with_post y) l s b
              × ((u t : S) → m.models x u → Passes m a.cfg l u t → m.models y t))
            (transform_to_post a l x s)
    unfolding transform_to_post
    transform_to_post-Ends l x s = Ends-bind _ (assumed-Ends l x) λ x' kept.
        Ends-bind _ (instruction_at-Ends l a.cfg) λ i is.
          Ends-bind _ (sound.transform x' i) λ y runs. Ends-imp (set_post-Ends l y s) λ b w. (
            y,
            w,
            λ u t h p.
                runs u t (kept p.instruction u p.found h p.checked)
                  (rw (is p.instruction p.found) p.runs),
          )

    join_posts-Ends :
        (s : State D) (ps : List Label) (x : D)
        → Ends
            (λ (y : D).
              ((u : S) → m.models x u → m.models y u)
              × ((p : Label) (u : S) → has p ps ≡ true → Post m s.inv p u → m.models y u))
            (join_posts a.dom s ps x)
    unfolding join_posts has
    join_posts-Ends s [] x = returns (λ u h. h, λ p u h. cc)
    join_posts-Ends s (p ∷ ps) x = Ends-bind _ (get_post-Ends p s) λ d there.
        Ends-imp (join_posts-Ends s ps (a.dom.join x d)) λ y k. (
          λ u h. k.0 u (sound.join_left x d u h),
          λ n u h post. elim (Bool-cases (eq_label n p)) [
            | inl e ↦ k.0 u (
                sound.join_right x d u
                  (there u (let same : n ≡ p = eq_of_eq_label n p e in rw (← same) post)))
            | inr e ↦ k.1 n u (ground arith) post
          ],
        )

    -- The join at a label covers what its parents pass on to it.
    pub join_all_prevs-Ends :
        (l : Label) (s : State D)
        → eq_label l entry ≡ false
        → Ends
            (λ (d : D).
              (p : Label) (u : S) → is_parent a.cfg p l ≡ true → Post m s.inv p u → m.models d u)
            (join_all_prevs a l s)
    unfolding join_all_prevs
    join_all_prevs-Ends l s e = rw e (
        Ends-bind _ (parents_of-Ends l a.cfg) λ ps are.
          Ends-imp (join_posts-Ends s ps a.dom.bottom) λ d k p u h post. k.1 p u (are p h) post)

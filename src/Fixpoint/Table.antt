-- ===== src/Fixpoint/Table.antt =====
-- The table of invariants, and the transformer and joins on it:
-- verifiers/prevail/src/crab/fwd_analyzer.cpp.
use linux_dev_env.Base.{ℕ, Bool, List, [], ◌∷◌, ltb, ◌==◌, if◌then◌else◌}
use linux_dev_env.Outcome.{Result, ok, out_of_range, or_throw, ◌>>=◌}
use linux_dev_env.Label.{Label, entry}
use linux_dev_env.Label.Order.{eq_label}
use linux_dev_env.Label.Keyed.{find, update}
use linux_dev_env.Syntax.Assertion.{Assertion}
use linux_dev_env.Cfg.{Cfg, parents_of, instruction_at, assertions_at}
use linux_dev_env.Wto.{Wto}
use linux_dev_env.Fixpoint.Interface.{Domain}

-- `invariant_map_pair`
pub record InvariantMapPair (D : Type 0) : Type 0 where
  pub pre : D
  pub post : D

abbrev pub InvariantTable : Type 0 → Type 0
InvariantTable D = List (Label × InvariantMapPair D)

-- What an `interleaved_fwd_fixpoint_iterator_t` does not change, with the options: `rounds` bounds
-- the increasing iterations, `depth` the nesting of cycles.
pub record Analyzer (D : Type 0) : Type 0 where
  pub dom : Domain D
  pub cfg : Cfg
  pub wto : Wto
  pub assume_assertions : Bool
  pub rounds : ℕ
  pub depth : ℕ

-- What it does change: `nestings` is the cache in `_wto`.
pub record State (D : Type 0) : Type 0 where
  pub inv : InvariantTable D
  pub skip : Bool
  pub nestings : List (Label × List Label)

unfoldable pub descending_iterations : ℕ
descending_iterations = 2000000

module _ {D : Type 0} where
  -- `_inv.at(label)`
  unfoldable pub at : Label → State D → Result (InvariantMapPair D)
  at l s = or_throw (find l s.inv) out_of_range

  unfoldable pub set_pre : Label → D → State D → Result (State D)
  unfolding at
  set_pre l v s = do p ← at l s; ok (record s { inv = update l (record p { pre = v }) s.inv })

  unfoldable pub set_post : Label → D → State D → Result (State D)
  unfolding at
  set_post l v s = do p ← at l s; ok (record s { inv = update l (record p { post = v }) s.inv })

  unfoldable pub get_pre : Label → State D → Result D
  unfolding at
  get_pre l s = at l s >>= λ p. ok p.pre

  unfoldable pub get_post : Label → State D → Result D
  unfolding at
  get_post l s = at l s >>= λ p. ok p.post

  unfoldable pub assume_all : Domain D → List Assertion → D → Result D
  assume_all dom [] pre = ok pre
  assume_all dom (a ∷ rest) pre = dom.assume pre a >>= assume_all dom rest

  -- The value that the transformer is applied to.
  unfoldable pub assumed : Analyzer D → Label → D → Result D
  unfolding assume_all
  assumed a l pre =
      if a.assume_assertions
      then (assertions_at l a.cfg >>= λ as_list. assume_all a.dom as_list pre)
      else ok pre

  unfoldable pub transform_to_post : Analyzer D → Label → D → State D → Result (State D)
  unfolding assumed set_post
  transform_to_post a l pre s = do
    x ← assumed a l pre
    i ← instruction_at l a.cfg
    y ← a.dom.transform x i
    set_post l y s

  unfoldable pub join_posts : Domain D → State D → List Label → D → Result D
  unfolding get_post
  join_posts dom s [] res = ok res
  join_posts dom s (prev ∷ rest) res = do
    post ← get_post prev s
    join_posts dom s rest (dom.join res post)

  unfoldable pub join_all_prevs : Analyzer D → Label → State D → Result D
  unfolding get_pre join_posts
  join_all_prevs a l s =
      if eq_label l entry
      then get_pre l s
      else (parents_of l a.cfg >>= λ prevs. join_posts a.dom s prevs a.dom.bottom)

  unfoldable pub extrapolate : Domain D → D → D → ℕ → D
  extrapolate dom before after iteration =
      if ltb iteration 2 then dom.join before after else dom.widen before after (iteration == 2)

  unfoldable pub refine : Domain D → D → D → ℕ → D
  refine dom before after iteration =
      if iteration == 1 then dom.meet before after else dom.narrow before after

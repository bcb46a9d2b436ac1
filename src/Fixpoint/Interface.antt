-- ===== src/Fixpoint/Interface.antt =====
-- The interface between the fixpoint iteration and the abstract domain: what
-- verifiers/prevail/src/crab/fwd_analyzer.cpp calls of `ebpf_domain_t`, and the laws that it relies
-- on, for states of the program that abstract values stand for.
use linux_dev_env.Base.{ℕ, ◌<◌, ◌≤◌, ◌≡◌, Bool, true, false}
use linux_dev_env.Outcome.{Result}
use linux_dev_env.Outcome.Ends.{Ends}
use linux_dev_env.Label.{Label}
use linux_dev_env.Syntax.Instruction.{Instruction}
use linux_dev_env.Syntax.Assertion.{Assertion}

-- `widen` has the flag `to_constants`; `assume`, `transform` and `initialize_loop_counter` are
-- `ebpf_domain_assume`, `ebpf_domain_transform` and `ebpf_domain_initialize_loop_counter`.
pub record Domain (D : Type 0) : Type 0 where
  pub bottom : D
  pub join : D → D → D
  pub meet : D → D → D
  pub narrow : D → D → D
  pub widen : D → D → Bool → D
  pub le : D → D → Bool
  pub assume : D → Assertion → Result D
  pub transform : D → Instruction → Result D
  pub initialize_loop_counter : D → Label → Result D

-- The states that a value stands for, the runs of an instruction, and the states that satisfy an
-- assertion.
pub record Meaning (D S : Type 0) : Type 1 where
  pub models : D → S → Type 0
  pub runs : Instruction → S → S → Type 0
  pub satisfies : Assertion → S → Type 0

pub record IsSound {D S : Type 0} (dom : Domain D) (m : Meaning D S) : Type 0 where
  pub join_left : (x y : D) (s : S) → m.models x s → m.models (dom.join x y) s
  pub join_right : (x y : D) (s : S) → m.models y s → m.models (dom.join x y) s
  pub meet : (x y : D) (s : S) → m.models x s → m.models y s → m.models (dom.meet x y) s
  pub narrow : (x y : D) (s : S) → m.models x s → m.models y s → m.models (dom.narrow x y) s
  pub le : (x y : D) (s : S) → dom.le x y ≡ true → m.models x s → m.models y s
  pub assume :
      (x : D) (a : Assertion)
      → Ends (λ (y : D). (s : S) → m.models x s → m.satisfies a s → m.models y s) (dom.assume x a)
  pub transform :
      (x : D) (i : Instruction)
      → Ends (λ (y : D). (s t : S) → m.models x s → m.runs i s t → m.models y t) (dom.transform x i)
  pub initialize_loop_counter :
      (x : D) (l : Label) → Ends (λ (_ : D). Unit {0}) (dom.initialize_loop_counter x l)

-- Widening stabilises: each step that it takes lowers a rank, which is at most the height.
pub record Stabilizes {D : Type 0} (dom : Domain D) (rank : D → ℕ) (height : ℕ) : Type 0 where
  pub descends : (x y : D) (b : Bool) → dom.le y x ≡ false → rank (dom.widen x y b) < rank x
  pub bounded : (x : D) → rank x ≤ height

-- ===== src/Cfg/Flow.antt =====
-- The edges that the graph of a list of instructions has: verifiers/prevail/src/asm_cfg.cpp.
pub mod Connects
pub mod Complete
pub mod Program
use linux_dev_env.Base.{
  ℕ, suc, ◌+◌, ◌-◌, ◌^◌, ◌≤◌, ◌<◌, ◌≡◌, ◌≢◌, refl, ap, Bool, true, false, ◌&&◌, ◌||◌, Option, none,
  some, List, [], ◌∷◌, ◌++◌, is_some, if◌then◌else◌, Bool-cases, Option-cases, ◌⊎◌, inl, inr, arith,
  ◌∙◌,
}
use linux_dev_env.Base.Int.{ℤ, pos, negsuc, pos_part}
use linux_dev_env.Outcome.{ok}
use linux_dev_env.Outcome.Inversion.{Result-cases}
use linux_dev_env.Outcome.Returns.{
  Returns, returns, Returns-of, Returns-imp, Returns-bind, throw_if-Returns,
}
use linux_dev_env.Label.{Label, label_t, label_at, entry, exit, make_jump}
use linux_dev_env.Label.Order.{eq_label, eq_of_eq_label, eq_label_self}
use linux_dev_env.Label.Keyed.{find, put}
use linux_dev_env.Label.Keyed.Lookup.{find-update}
use linux_dev_env.Syntax.Instruction.{Condition, Instruction, LabeledInstruction}
use linux_dev_env.Cfg.{Adjacent, GuardedInstruction, Cfg, contains}
use linux_dev_env.Cfg.Builder.{node_at, add_child, insert, insert_jump, exists}
use linux_dev_env.Cfg.Graph.{is_child, is_node, IsGraph, Adds, Inserts}
use linux_dev_env.Cfg.Graph.Edits.{add_child-Adds, insert-Inserts, Adds-IsGraph, Inserts-IsGraph}

abbrev pub Edges : Type 0
Edges = List (Label × Label)

abbrev pub is_edge : Edges → Label → Label → Bool
is_edge [] a b = false
is_edge ((x, y) ∷ es) a b = eq_label a x && eq_label b y || is_edge es a b

-- The edges of a jump: a condition stands between the jump and each of the labels that it leads to,
-- unless they are the same.
abbrev pub jump_edges : Label → Option Condition → Label → Label → Edges
jump_edges l none target next = (l, target) ∷ []
jump_edges l (some c) target next =
    if eq_label target next
    then (l, next) ∷ []
    else (l, make_jump l target)
      ∷ (make_jump l target, target)
      ∷ (l, make_jump l next)
      ∷ (make_jump l next, next)
      ∷ []

-- The edges of an instruction, with the label after it.
abbrev pub instruction_edges : Label → Instruction → Label → Edges
instruction_edges l (Instruction.jmp j) next = jump_edges l j.cond j.target next
instruction_edges l (Instruction.exit _) next = (l, exit) ∷ []
instruction_edges l _ next = (l, next) ∷ []

-- The edges of the instructions, the last of which is followed by the exit.
abbrev pub program_edges : List LabeledInstruction → Edges
program_edges [] = []
program_edges (l ∷ []) = instruction_edges l.label l.ins exit
program_edges (l ∷ next ∷ insts) =
    instruction_edges l.label l.ins next.label ++ program_edges (next ∷ insts)

pub is_edge-append :
    (es fs : Edges) (a b : Label) → is_edge (es ++ fs) a b ≡ (is_edge es a b || is_edge fs a b)
is_edge-append [] fs a b = refl
is_edge-append ((x, y) ∷ es) fs a b = ground (arith, is_edge-append es fs a b)

pub pos-apart : (i j : ℕ) → (i < j) ⊎ (j < i) → pos i ≢ pos j
pos-apart i j (inl h) e = omega (arith, ap pos_part e)
pos-apart i j (inr h) e = omega (arith, ap pos_part e)

-- Labels from different slots, or to different slots, are different.
pub eq_label-from : (f g t u : ℤ) → f ≢ g → eq_label (label_t f t "") (label_t g u "") ≡ false
eq_label-from f g t u n = elim (Bool-cases (eq_label (label_t f t "") (label_t g u ""))) [
  | inl e ↦
      absurd (n (ap (λ (l : Label). l.from) (eq_of_eq_label (label_t f t "") (label_t g u "") e)))
  | inr e ↦ e
]

pub eq_label-to : (f g t u : ℤ) → t ≢ u → eq_label (label_t f t "") (label_t g u "") ≡ false
eq_label-to f g t u n = elim (Bool-cases (eq_label (label_t f t "") (label_t g u ""))) [
  | inl e ↦
      absurd (n (ap (λ (l : Label). l.to) (eq_of_eq_label (label_t f t "") (label_t g u "") e)))
  | inr e ↦ e
]

-- ===== src/Cfg/Flow/Program.antt =====
-- Programs whose jumps lead to their own instructions, and the edges that the second loop of
-- `instruction_seq_to_cfg` gives them: verifiers/prevail/src/asm_cfg.cpp.
pub mod Filled
pub mod Exact
use linux_dev_env.Base.{
  ℕ, suc, ◌+◌, ◌-◌, ◌^◌, ◌≤◌, ◌<◌, ◌≡◌, ◌≢◌, refl, ap, sym, Bool, true, false, ◌&&◌, ◌||◌, List, [],
  ◌∷◌, ◌++◌, if◌then◌else◌, Bool-cases, ◌⊎◌, inl, inr, arith, ◌∙◌,
}
use linux_dev_env.Base.Int.{ℤ, pos, negsuc}
use linux_dev_env.Outcome.{ok, invalid_control_flow}
use linux_dev_env.Outcome.Returns.{
  Returns, returns, Returns-imp, Returns-bind, Returns-if, throw_if-Returns,
}
use linux_dev_env.Label.{Label, label_t, label_at, entry, exit}
use linux_dev_env.Label.Order.{eq_label, eq_of_eq_label, eq_label_self}
use linux_dev_env.Label.Keyed.{find, has}
use linux_dev_env.Syntax.Instruction.{Instruction, LabeledInstruction}
use linux_dev_env.Cfg.{GuardedInstruction, Cfg, unguarded, empty_cfg}
use linux_dev_env.Cfg.Reverse.{has_fall}
use linux_dev_env.Cfg.Program.{
  insert_one, insert_all, connect_one, is_undefined, connect, inline_one, inline_calls,
  instruction_seq_to_cfg,
}
use linux_dev_env.Cfg.Graph.{is_child, is_node, IsGraph}
use linux_dev_env.Cfg.Graph.Kept.{empty_cfg-IsGraph}
use linux_dev_env.Cfg.Flow.{
  Edges, is_edge, is_edge-append, instruction_edges, program_edges, eq_label-from, eq_label-to,
  pos-apart,
}
use linux_dev_env.Cfg.Flow.Connects.{Connects, add_child-Connects, insert-Connects}
use linux_dev_env.Cfg.Flow.Complete.{Leads, Holds, connect_one-Connects}

-- An instruction of a list with the given labels, in a slot from `k` on.
pub record IsPlaced (ls : List Label) (k : ℕ) (l : LabeledInstruction) : Type 0 where
  pub slot : ℕ
  pub labelled : l.label ≡ label_at (pos slot)
  pub next : k ≤ slot
  pub small : slot < 2 ^ 31 - 1
  pub listed : has l.label ls ≡ true
  pub leads : Leads ls l.ins

-- A list of instructions in increasing slots whose jumps lead to the given labels; the last one does
-- not fall through if there must be an exit.
pub data IsProgram (ls : List Label) (must_have_exit : Bool)
    : ℕ → List LabeledInstruction → Type 0 where
  last :
      {k : ℕ} {l : LabeledInstruction}
      → IsPlaced ls k l
      → (has_fall l.ins && must_have_exit) ≡ false
      → IsProgram ls must_have_exit k (l ∷ [])
  more :
      {k : ℕ} {l next : LabeledInstruction} {insts : List LabeledInstruction} (p : IsPlaced ls k l)
      → IsProgram ls must_have_exit (p.slot + 1) (next ∷ insts)
      → IsProgram ls must_have_exit k (l ∷ next ∷ insts)

pub IsProgram-head :
    {ls : List Label} {must : Bool} {k : ℕ} {l : LabeledInstruction}
    {insts : List LabeledInstruction}
    → IsProgram ls must k (l ∷ insts)
    → IsPlaced ls k l
IsProgram-head (last p fall) = p
IsProgram-head (more p rest) = p

abbrev pub labels_of : List LabeledInstruction → List Label
labels_of [] = []
labels_of (l ∷ insts) = l.label ∷ labels_of insts

-- What a loop over the instructions makes of a graph.
pub record Built (es : Edges) (cfg cfg' : Cfg) : Type 0 where
  pub graph : IsGraph cfg'
  pub edges : (a b : Label) → is_child cfg' a b ≡ (is_child cfg a b || is_edge es a b)

-- The jumps of the slots from `k` on have no nodes.
abbrev pub UnusedFrom : ℕ → Cfg → Type 0
UnusedFrom k cfg = (j t : ℕ) → k ≤ j → is_node cfg (label_t (pos j) (pos t) "") ≡ false

is_undefined-false : (ls : List Label) (ins : Instruction) → Leads ls ins → is_undefined ins ≡ false
is_undefined-false ls (Instruction.undefined _) lead = absurd lead
is_undefined-false ls _ lead = refl

one_Returns :
    (ls : List Label) (k m : ℕ) (l : LabeledInstruction) (next : Label) (cfg : Cfg)
    (p : IsPlaced ls k l)
    → next ≡ label_at (pos m)
    → is_node cfg next ≡ true
    → Holds ls cfg
    → UnusedFrom k cfg
    → IsGraph cfg
    → Returns
        (Connects p.slot (instruction_edges l.label l.ins next) cfg)
        (connect_one l.label l.ins next cfg)
one_Returns ls k m l next cfg p e hm holds unused g =
    rw (p.labelled, e)
      (connect_one-Connects p.slot m ls l.ins cfg p.small p.leads holds
        (rw (← p.labelled) (holds l.label p.listed)) (rw (← e) hm) (λ t. unused p.slot t p.next) g)

pub connect-Built :
    (ls : List Label) (must : Bool) (k : ℕ) (insts : List LabeledInstruction) (cfg : Cfg)
    → IsProgram ls must k insts
    → Holds ls cfg
    → UnusedFrom k cfg
    → IsGraph cfg
    → Returns (Built (program_edges insts) cfg) (connect must insts cfg)
unfolding connect
connect-Built ls must k (l ∷ []) cfg (last p fall) holds unused g =
    Returns-if (is_undefined l.ins) _ _
      (λ e. absurd (ground (arith, e, is_undefined-false ls l.ins p.leads)))
      λ _.
        Returns-bind _
          (throw_if-Returns (has_fall l.ins && must)
            (invalid_control_flow "fallthrough in last instruction") fall)
          λ _ _.
            Returns-imp (one_Returns ls k (2 ^ 31 - 1) l exit cfg p refl g.has_exit holds unused g)
              (λ cfg' c. record { graph = c.graph; edges = c.edges })
connect-Built ls must k (l ∷ next ∷ insts) cfg (more p rest) holds unused g =
    let q = IsProgram-head rest in
    Returns-bind _
      (Returns-if (is_undefined l.ins) _ _
        (λ e. absurd (ground (arith, e, is_undefined-false ls l.ins p.leads)))
        (λ _.
          one_Returns ls k q.slot l next.label cfg p q.labelled (holds next.label q.listed) holds
            unused g))
      λ cfg₁ c.
        Returns-imp
          (connect-Built ls must (p.slot + 1) (next ∷ insts) cfg₁ rest (λ x h. c.kept x (holds x h))
            (λ j t h. c.later j (pos t) (omega arith) ∙ unused j t (omega (arith, p.next))) c.graph)
          λ cfg₂ b. record {
            graph = b.graph;
            edges = λ x y. ground (
              arith,
              c.edges x y,
              b.edges x y,
              is_edge-append (instruction_edges l.label l.ins next.label)
                  (program_edges (next ∷ insts)) x y,
            );
          }
connect-Built ls must k [] cfg p holds unused g = elim p [ ]

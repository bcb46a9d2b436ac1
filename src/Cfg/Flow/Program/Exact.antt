-- ===== src/Cfg/Flow/Program/Exact.antt =====
-- The graph of a whole program: `instruction_seq_to_cfg` of verifiers/prevail/src/asm_cfg.cpp.
use linux_dev_env.Base.{
  ℕ, ◌+◌, ◌-◌, ◌^◌, ◌≡◌, refl, ap, Bool, false, List, [], ◌∷◌, inl, arith, ◌∙◌,
}
use linux_dev_env.Base.Int.{pos, negsuc}
use linux_dev_env.Outcome.{ok}
use linux_dev_env.Outcome.Returns.{Returns, Returns-of, Returns-bind}
use linux_dev_env.Label.{Label, label_t, entry}
use linux_dev_env.Label.Order.{eq_label}
use linux_dev_env.Label.Keyed.{find, has}
use linux_dev_env.Syntax.Instruction.{Instruction, LabeledInstruction}
use linux_dev_env.Cfg.{Cfg, empty_cfg}
use linux_dev_env.Cfg.Program.{inline_one, inline_calls, instruction_seq_to_cfg}
use linux_dev_env.Cfg.Graph.{is_child}
use linux_dev_env.Cfg.Graph.Kept.{empty_cfg-IsGraph}
use linux_dev_env.Cfg.Flow.{Edges, is_edge, program_edges, eq_label-from, eq_label-to, pos-apart}
use linux_dev_env.Cfg.Flow.Connects.{add_child-Connects}
use linux_dev_env.Cfg.Flow.Complete.{Leads}
use linux_dev_env.Cfg.Flow.Program.{
  IsProgram, last, more, labels_of, UnusedFrom, connect-Built, IsProgram-head,
}
use linux_dev_env.Cfg.Flow.Program.Filled.{FreeFrom, insert_all-Filled}

inline_one_Returns :
    (ls : List Label) (l : Label) (ins : Instruction) (cfg : Cfg)
    → Leads ls ins
    → inline_one l ins cfg ≡ ok cfg
inline_one_Returns ls l (Instruction.undefined _) cfg lead = absurd lead
inline_one_Returns ls l (Instruction.call_local _) cfg lead = absurd lead
inline_one_Returns ls l ins cfg lead = refl

-- There are no local calls to replace.
inline_calls-program :
    (ls : List Label) (must : Bool) (k : ℕ) (insts : List LabeledInstruction) (cfg : Cfg)
    → IsProgram ls must k insts
    → inline_calls insts cfg ≡ ok cfg
unfolding inline_calls
inline_calls-program ls must k (l ∷ []) cfg (last p fall) =
    rw (inline_one_Returns ls l.label l.ins cfg p.leads) refl
inline_calls-program ls must k (l ∷ next ∷ insts) cfg (more p rest) =
    rw (inline_one_Returns ls l.label l.ins cfg p.leads)
      (inline_calls-program ls must (p.slot + 1) (next ∷ insts) cfg rest)
inline_calls-program ls must k [] cfg p = elim p [ ]

empty_cfg-FreeFrom : FreeFrom 0 empty_cfg
unfolding find
empty_cfg-FreeFrom j b small = ground (
  arith,
  eq_label-from (pos j) (negsuc 0) (negsuc 0) (negsuc 0) (λ h. cc),
  eq_label-from (pos j) (pos (2 ^ 31 - 1)) (negsuc 0) (negsuc 0)
      (pos-apart j (2 ^ 31 - 1) (inl small)),
)

empty_cfg-UnusedFrom : UnusedFrom 0 empty_cfg
unfolding find
empty_cfg-UnusedFrom j t b = ground (
  arith,
  eq_label-to (pos j) (negsuc 0) (pos t) (negsuc 0) (λ h. cc),
  eq_label-to (pos j) (pos (2 ^ 31 - 1)) (pos t) (negsuc 0) (λ h. cc),
)

empty_cfg-edges : (a b : Label) → is_child empty_cfg a b ≡ false
unfolding find has
empty_cfg-edges a b = ground (arith, eq_label a entry)

-- The edges of a program's graph: from the entry to the first instruction, and those of the
-- instructions.
abbrev pub graph_edges : LabeledInstruction → List LabeledInstruction → Edges
graph_edges l insts = (entry, l.label) ∷ program_edges (l ∷ insts)

-- A program without local calls and undefined instructions, in increasing slots below 2 ^ 31 - 1,
-- whose jumps lead to instructions of the program and whose last instruction does not fall through
-- if there must be an exit, gets a graph, and the edges of the graph are exactly these: from the
-- entry to the first instruction, from an exit instruction to the exit, from a jump without a
-- condition to its target, from a jump with a condition through one node each to its target and to
-- the next instruction, or to that instruction if they are the same, and from any other
-- instruction to the next one, where the exit is next to the last.
pub instruction_seq_to_cfg-Returns :
    (l : LabeledInstruction) (insts : List LabeledInstruction) (must_have_exit : Bool)
    → IsProgram (labels_of (l ∷ insts)) must_have_exit 0 (l ∷ insts)
    → Returns
        (λ (cfg : Cfg). (a b : Label) → is_child cfg a b ≡ is_edge (graph_edges l insts) a b)
        (instruction_seq_to_cfg (l ∷ insts) must_have_exit)
unfolding instruction_seq_to_cfg
instruction_seq_to_cfg-Returns l insts must program =
    let ls = labels_of (l ∷ insts) in
    let q = IsProgram-head program in
    Returns-bind _
      (insert_all-Filled ls must 0 (l ∷ insts) empty_cfg program empty_cfg-FreeFrom
        empty_cfg-IsGraph)
      λ cfg₁ f.
        Returns-bind _
          (add_child-Connects 0 entry l.label cfg₁ f.graph.has_entry (f.nodes l.label q.listed)
            (ap (λ m. eq_label m entry) q.labelled
              ∙ eq_label-from (pos q.slot) (negsuc 0) (negsuc 0) (negsuc 0) (λ h. cc))
            (eq_label-from (negsuc 0) (pos (2 ^ 31 - 1)) (negsuc 0) (negsuc 0) (λ h. cc)) f.graph)
          λ cfg₂ (c, nodes).
            Returns-bind _
              (connect-Built ls must 0 (l ∷ insts) cfg₂ program (λ x h. nodes x ∙ f.nodes x h)
                (λ j t h.
                  nodes (label_t (pos j) (pos t) "") ∙ f.jumps j t ∙ empty_cfg-UnusedFrom j t h)
                c.graph)
              λ cfg₃ b.
                Returns-of (inline_calls-program ls must 0 (l ∷ insts) cfg₃ program)
                  λ x y. ground (arith, b.edges x y, c.edges x y, f.edges x y, empty_cfg-edges x y)

-- ===== src/Cfg/Flow/Program/Filled.antt =====
-- The nodes that the first loop of `instruction_seq_to_cfg` makes:
-- verifiers/prevail/src/asm_cfg.cpp.
use linux_dev_env.Base.{
  ℕ, ◌+◌, ◌-◌, ◌^◌, ◌≤◌, ◌<◌, ◌≡◌, Bool, true, false, ◌||◌, List, [], ◌∷◌, inr, arith, ◌∙◌,
}
use linux_dev_env.Base.Int.{pos, negsuc}
use linux_dev_env.Outcome.Returns.{Returns, returns, Returns-imp, Returns-bind}
use linux_dev_env.Label.{Label, label_t, label_at}
use linux_dev_env.Label.Order.{eq_label}
use linux_dev_env.Label.Keyed.{has}
use linux_dev_env.Syntax.Instruction.{Instruction, LabeledInstruction}
use linux_dev_env.Cfg.{Cfg, unguarded}
use linux_dev_env.Cfg.Program.{insert_one, insert_all}
use linux_dev_env.Cfg.Graph.{is_child, is_node, IsGraph}
use linux_dev_env.Cfg.Flow.{eq_label-from, eq_label-to, pos-apart}
use linux_dev_env.Cfg.Flow.Connects.{insert-Connects}
use linux_dev_env.Cfg.Flow.Complete.{Leads}
use linux_dev_env.Cfg.Flow.Program.{IsPlaced, IsProgram, last, more, labels_of}

-- What the first loop makes of a graph.
pub record Filled (insts : List LabeledInstruction) (cfg cfg' : Cfg) : Type 0 where
  pub graph : IsGraph cfg'
  pub edges : (a b : Label) → is_child cfg' a b ≡ is_child cfg a b
  pub nodes : (l : Label) → has l (labels_of insts) ≡ true → is_node cfg' l ≡ true
  pub kept : (l : Label) → is_node cfg l ≡ true → is_node cfg' l ≡ true
  pub jumps :
      (j t : ℕ)
      → is_node cfg' (label_t (pos j) (pos t) "") ≡ is_node cfg (label_t (pos j) (pos t) "")

-- The slots from `k` on have no nodes.
abbrev pub FreeFrom : ℕ → Cfg → Type 0
FreeFrom k cfg = (j : ℕ) → k ≤ j → j < 2 ^ 31 - 1 → is_node cfg (label_at (pos j)) ≡ false

-- What the node of one instruction makes of a graph.
record Placed (n : ℕ) (cfg cfg' : Cfg) : Type 0 where
  graph : IsGraph cfg'
  edges : (a b : Label) → is_child cfg' a b ≡ is_child cfg a b
  nodes : (l : Label) → is_node cfg' l ≡ (eq_label l (label_at (pos n)) || is_node cfg l)

insert_one-Placed :
    (ls : List Label) (n : ℕ) (ins : Instruction) (cfg : Cfg)
    → Leads ls ins
    → is_node cfg (label_at (pos n)) ≡ false
    → IsGraph cfg
    → Returns (Placed n cfg) (insert_one (label_at (pos n)) ins cfg)
insert_one-Placed ls n (Instruction.undefined _) cfg lead fresh g = absurd lead
insert_one-Placed ls n ins cfg lead fresh g =
    Returns-imp (insert-Connects n (negsuc 0) (unguarded ins) cfg fresh g)
      λ cfg' (c, w). record { graph = c.graph; edges = w.children; nodes = w.nodes }

Placed-Returns :
    (ls : List Label) (k : ℕ) (l : LabeledInstruction) (cfg : Cfg) (p : IsPlaced ls k l)
    → FreeFrom k cfg
    → IsGraph cfg
    → Returns (Placed p.slot cfg) (insert_one l.label l.ins cfg)
Placed-Returns ls k l cfg p free g =
    rw p.labelled (insert_one-Placed ls p.slot l.ins cfg p.leads (free p.slot p.next p.small) g)

module _ (n : ℕ) (cfg cfg' : Cfg) (p : Placed n cfg cfg') where
  Placed-FreeFrom : (k : ℕ) → k ≤ n → FreeFrom k cfg → FreeFrom (n + 1) cfg'
  Placed-FreeFrom k h free j b small = ground (
    arith,
    p.nodes (label_at (pos j)),
    eq_label-from (pos j) (pos n) (negsuc 0) (negsuc 0) (pos-apart j n (inr (omega arith))),
    free j (omega arith) small,
  )

  Placed-jumps :
      (j t : ℕ)
      → is_node cfg' (label_t (pos j) (pos t) "") ≡ is_node cfg (label_t (pos j) (pos t) "")
  Placed-jumps j t = ground (
    arith,
    p.nodes (label_t (pos j) (pos t) ""),
    eq_label-to (pos j) (pos n) (pos t) (negsuc 0) (λ h. cc),
  )

pub insert_all-Filled :
    (ls : List Label) (must : Bool) (k : ℕ) (insts : List LabeledInstruction) (cfg : Cfg)
    → IsProgram ls must k insts
    → FreeFrom k cfg
    → IsGraph cfg
    → Returns (Filled insts cfg) (insert_all insts cfg)
unfolding insert_all has
insert_all-Filled ls must k (l ∷ []) cfg (last p fall) free g =
    Returns-bind _ (Placed-Returns ls k l cfg p free g) λ cfg' c. returns (record {
      graph = c.graph;
      edges = c.edges;
      nodes = λ x h. ground (arith, c.nodes x, h, p.labelled);
      kept = λ x h. ground (arith, c.nodes x, h);
      jumps = Placed-jumps p.slot cfg cfg' c;
    })
insert_all-Filled ls must k (l ∷ next ∷ insts) cfg (more p rest) free g =
    Returns-bind _ (Placed-Returns ls k l cfg p free g) λ cfg₁ c.
      Returns-imp
        (insert_all-Filled ls must (p.slot + 1) (next ∷ insts) cfg₁ rest
          (Placed-FreeFrom p.slot cfg cfg₁ c k p.next free) c.graph)
        λ cfg₂ f. record {
          graph = f.graph;
          edges = λ x y. f.edges x y ∙ c.edges x y;
          nodes = λ x h. ground (arith, c.nodes x, f.nodes x, f.kept x, h, p.labelled);
          kept = λ x h. ground (arith, c.nodes x, f.kept x, h);
          jumps = λ j t. f.jumps j t ∙ Placed-jumps p.slot cfg cfg₁ c j t;
        }
insert_all-Filled ls must k [] cfg p free g = elim p [ ]

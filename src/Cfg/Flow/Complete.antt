-- ===== src/Cfg/Flow/Complete.antt =====
-- A program whose jumps lead to its own instructions gets its graph, with exactly the edges of its
-- instructions: `instruction_seq_to_cfg` of verifiers/prevail/src/asm_cfg.cpp.
use Prim.Native.String.{◌++◌ as ◌+++◌}
use linux_dev_env.Base.{
  ℕ, ◌-◌, ◌^◌, ◌<◌, ◌≡◌, ◌≢◌, ap, true, false, not, Option, none, some, List, [], ◌∷◌,
  if◌then◌else◌, inl, arith, ◌∙◌,
}
use linux_dev_env.Base.Int.{pos, negsuc}
use linux_dev_env.Outcome.{invalid_control_flow}
use linux_dev_env.Outcome.Returns.{
  Returns, returns, Returns-imp, Returns-bind, Returns-test, throw_if-Returns,
}
use linux_dev_env.Label.{Label, label_t, label_at, make_jump}
use linux_dev_env.Label.Order.{eq_label, eq_label_self}
use linux_dev_env.Label.Keyed.{has}
use linux_dev_env.Label.Text.{to_string}
use linux_dev_env.Syntax.Instruction.{Condition, Instruction}
use linux_dev_env.Cfg.{Cfg, contains}
use linux_dev_env.Cfg.Builder.{add_child}
use linux_dev_env.Cfg.Reverse.{reverse}
use linux_dev_env.Cfg.Program.{assume_implicit, connect_jump, connect_one}
use linux_dev_env.Cfg.Graph.{is_node, IsGraph}
use linux_dev_env.Cfg.Flow.{jump_edges, instruction_edges, eq_label-from, eq_label-to, pos-apart}
use linux_dev_env.Cfg.Flow.Connects.{
  Connects, Connects-trans, add_child-Connects, Jumps, insert_jump-Jumps,
}

-- No jump of the slot `n` has a node yet.
abbrev Unused : ℕ → Cfg → Type 0
Unused n cfg = (t : ℕ) → is_node cfg (label_t (pos n) (pos t) "") ≡ false

link-Connects :
    (n m : ℕ) (cfg : Cfg)
    → n < 2 ^ 31 - 1
    → is_node cfg (label_at (pos n)) ≡ true
    → is_node cfg (label_at (pos m)) ≡ true
    → IsGraph cfg
    → Returns
        (Connects n ((label_at (pos n), label_at (pos m)) ∷ []) cfg)
        (add_child (label_at (pos n)) (label_at (pos m)) cfg)
link-Connects n m cfg small hn hm g =
    Returns-imp
      (add_child-Connects n (label_at (pos n)) (label_at (pos m)) cfg hn hm
        (eq_label-from (pos m) (negsuc 0) (negsuc 0) (negsuc 0) (λ h. cc))
        (eq_label-from (pos n) (pos (2 ^ 31 - 1)) (negsuc 0) (negsuc 0)
          (pos-apart n (2 ^ 31 - 1) (inl small)))
        g)
      (λ cfg' (c, _). c)

second_fresh :
    (n t m : ℕ) (cfg cfg' : Cfg)
    → eq_label (label_at (pos t)) (label_at (pos m)) ≡ false
    → Unused n cfg
    → Jumps n t cfg cfg'
    → is_node cfg' (label_t (pos n) (pos m) "") ≡ false
second_fresh n t m cfg cfg' apart unused j =
    let differ : pos m ≢ pos t = λ h.
      let same =
        ap (λ z. eq_label (label_at (pos t)) (label_at z)) h ∙ eq_label_self (label_at (pos t)) in
      cc in
    ground (
      arith,
      j.nodes (label_t (pos n) (pos m) ""),
      eq_label-to (pos n) (pos n) (pos m) (pos t) differ,
      unused m,
    )

connect_jump-Connects :
    (n t m : ℕ) (cond : Option Condition) (cfg : Cfg)
    → n < 2 ^ 31 - 1
    → is_node cfg (label_at (pos n)) ≡ true
    → is_node cfg (label_at (pos t)) ≡ true
    → is_node cfg (label_at (pos m)) ≡ true
    → Unused n cfg
    → IsGraph cfg
    → Returns
        (Connects n (jump_edges (label_at (pos n)) cond (label_at (pos t)) (label_at (pos m))) cfg)
        (connect_jump (label_at (pos n)) cond (label_at (pos t)) (label_at (pos m)) cfg)
unfolding connect_jump make_jump contains
connect_jump-Connects n t m none cfg small hn ht hm unused g = link-Connects n t cfg small hn ht g
connect_jump-Connects n t m (some c) cfg small hn ht hm unused g =
    let a = label_at (pos n) in
    let target = label_at (pos t) in
    let next = label_at (pos m) in
    Returns-test
      (λ same cfg'.
        Connects n
          (if same
            then (a, next) ∷ []
            else (a, make_jump a target)
              ∷ (make_jump a target, target)
              ∷ (a, make_jump a next)
              ∷ (make_jump a next, next)
              ∷ [])
          cfg cfg')
      (eq_label target next) _ _ (λ _. link-Connects n m cfg small hn hm g)
      λ apart.
        Returns-bind _
          (throw_if-Returns (not (contains target cfg))
            (invalid_control_flow ("jump to undefined label " +++ to_string target)) (ap not ht))
          λ _ _.
            Returns-bind _ (insert_jump-Jumps n t (assume_implicit c) cfg small hn ht (unused t) g)
              λ r₁ j₁.
                let k₁ = j₁.connects in
                Returns-bind _
                  (insert_jump-Jumps n m (assume_implicit (reverse c)) r₁.1 small (k₁.kept a hn)
                    (k₁.kept next hm) (second_fresh n t m cfg r₁.1 apart unused j₁) k₁.graph)
                  λ r₂ j₂. returns (Connects-trans n _ _ cfg r₁.1 r₂.1 k₁ j₂.connects)

-- The instruction is one that the first two loops handle alone, and its jump leads to a label of the
-- list.
abbrev pub Leads : List Label → Instruction → Type 0
Leads ls (Instruction.undefined _) = ⊥
Leads ls (Instruction.call_local _) = ⊥
Leads ls (Instruction.jmp j) = (t : ℕ) × (j.target ≡ label_at (pos t)) × (has j.target ls ≡ true)
Leads ls _ = Unit

-- The list's labels are nodes of the graph.
abbrev pub Holds : List Label → Cfg → Type 0
Holds ls cfg = (l : Label) → has l ls ≡ true → is_node cfg l ≡ true

pub connect_one-Connects :
    (n m : ℕ) (ls : List Label) (ins : Instruction) (cfg : Cfg)
    → n < 2 ^ 31 - 1
    → Leads ls ins
    → Holds ls cfg
    → is_node cfg (label_at (pos n)) ≡ true
    → is_node cfg (label_at (pos m)) ≡ true
    → Unused n cfg
    → IsGraph cfg
    → Returns
        (Connects n (instruction_edges (label_at (pos n)) ins (label_at (pos m))) cfg)
        (connect_one (label_at (pos n)) ins (label_at (pos m)) cfg)
unfolding connect_one
connect_one-Connects n m ls (Instruction.undefined _) cfg small lead holds hn hm unused g =
    absurd lead
connect_one-Connects n m ls (Instruction.jmp j) cfg small (t, e, listed) holds hn hm unused g =
    rw e (
      connect_jump-Connects n t m j.cond cfg small hn (rw (← e) (holds j.target listed)) hm unused
        g)
connect_one-Connects n m ls (Instruction.exit _) cfg small lead holds hn hm unused g =
    link-Connects n (2 ^ 31 - 1) cfg small hn g.has_exit g
connect_one-Connects n m ls _ cfg small lead holds hn hm unused g =
    link-Connects n m cfg small hn hm g

-- ===== src/Cfg/Prepare/Annotated.antt =====
-- The graph that the verifier works on: `prepare_cfg` of verifiers/prevail/src/asm_cfg.cpp.
use linux_dev_env.Base.{
  ℕ, sym, ◌≡◌, refl, ap, Bool, true, false, some, List, [], ◌∷◌, is_some, ◌⊎◌, inl, inr, arith, ◌∙◌,
  Bool-cases, if◌then◌else◌, Option-cases,
}
use linux_dev_env.Outcome.{ok, ◌>>=◌}
use linux_dev_env.Outcome.Inversion.{>>=-eq-ok, Result-cases}
use linux_dev_env.Outcome.Ends.{Ends-ok}
use linux_dev_env.Gsl.{Gsl}
use linux_dev_env.Label.{Label, make_increment_counter}
use linux_dev_env.Label.Order.{eq_label, eq_label_self, eq_of_eq_label}
use linux_dev_env.Label.Keyed.{has, find, update, keys}
use linux_dev_env.Label.Keyed.Lookup.{find-update, has-keys}
use linux_dev_env.Syntax.Instruction.{Instruction, LabeledInstruction}
use linux_dev_env.Platform.{ProgramInfo}
use linux_dev_env.Assertions.Extractor.{get_assertions}
use linux_dev_env.Cfg.{GuardedInstruction, Cfg, guarded_at, set_assertions, not_found, unguarded}
use linux_dev_env.Cfg.Builder.{insert_after}
use linux_dev_env.Cfg.Program.{annotate_one, annotate, instruction_seq_to_cfg}
use linux_dev_env.Cfg.Prepare.{PrepareCfgOptions, insert_counters, count_loops, prepare_cfg}
use linux_dev_env.Cfg.Graph.{IsGraph, is_node, has_instruction}
use linux_dev_env.Cfg.Graph.Built.{instruction_seq_to_cfg-Ends}
use linux_dev_env.Cfg.Graph.Inserted.{insert_after-Graphs}
use linux_dev_env.Wto.{loop_heads}
use linux_dev_env.Wto.Builder.{wto_of}

module _ (gsl : Gsl) (info : ProgramInfo) where
  -- The instruction has the preconditions that are extracted from it under its label.
  abbrev pub IsAnnotated : Label → GuardedInstruction → Type 0
  IsAnnotated l g = get_assertions gsl info (some l) g.cmd ≡ ok g.preconditions

  -- One round of the loop.
  record Annotates (l : Label) (cfg cfg' : Cfg) : Type 0 where
    neighbours : cfg'.neighbours ≡ cfg.neighbours
    filled : (x : Label) → has_instruction cfg' x ≡ has_instruction cfg x
    here : (g : GuardedInstruction) → find l cfg'.instructions ≡ some g → IsAnnotated l g
    others : (x : Label) → eq_label x l ≡ false → find x cfg'.instructions ≡ find x cfg.instructions

  annotate_one-Annotates :
      (l : Label) (cfg : Cfg) {cfg' : Cfg}
      → annotate_one gsl info l cfg ≡ ok cfg'
      → Annotates l cfg cfg'
  unfolding annotate_one guarded_at set_assertions not_found
  annotate_one-Annotates l cfg {cfg'} h = elim (Option-cases (find l cfg.instructions)) [
    | inl e ↦ absurd (ground (arith, h, e))
    | inr (g, e) ↦ elim (Result-cases (get_assertions gsl info (some l) g.cmd)) [
      | inr (x, e') ↦ absurd (ground (arith, h, e, e'))
      | inl (assertions, e') ↦
          let g' : GuardedInstruction = record g { preconditions = assertions } in
          let is : cfg' ≡ record cfg { instructions = update l g' cfg.instructions } =
            ground (arith, h, e, e') in
          let found = λ (x : Label). find-update x l g' cfg.instructions (rw e refl) in
          rw is record {
            neighbours = refl;
            filled = λ x. ground (arith, found x, e, eq_of_eq_label x l);
            here = λ k h'.
                let same : g' ≡ k = ground (arith, found l, eq_label_self l, h') in rw (← same) e';
            others = λ x n. ground (arith, found x, n);
          }
    ]
  ]

  -- The instruction that stands under a label, if there is one, has its preconditions.
  abbrev pub AnnotatedAt : Cfg → Label → Type 0
  AnnotatedAt cfg l = (g : GuardedInstruction) → find l cfg.instructions ≡ some g → IsAnnotated l g

  Annotates-AnnotatedAt :
      (l x : Label) (rest : List Label) (cfg cfg' : Cfg)
      → Annotates l cfg cfg'
      → (has x (l ∷ rest) ≡ true) ⊎ AnnotatedAt cfg x
      → (has x rest ≡ true) ⊎ AnnotatedAt cfg' x
  unfolding has
  Annotates-AnnotatedAt l x rest cfg cfg' w h = elim (Bool-cases (eq_label x l)) [
    | inl e ↦ inr (rw (eq_of_eq_label x l e) w.here)
    | inr e ↦ elim h [
      | inl listed ↦ inl (ground (arith, listed, e))
      | inr a ↦ inr (λ g f. a g (sym (w.others x e) ∙ f))
    ]
  ]

  record Annotated (ls : List Label) (cfg cfg' : Cfg) : Type 0 where
    neighbours : cfg'.neighbours ≡ cfg.neighbours
    filled : (x : Label) → has_instruction cfg' x ≡ has_instruction cfg x
    annotated : (x : Label) → (has x ls ≡ true) ⊎ AnnotatedAt cfg x → AnnotatedAt cfg' x

  annotate-Annotated :
      (ls : List Label) (cfg : Cfg) {cfg' : Cfg}
      → annotate gsl info ls cfg ≡ ok cfg'
      → Annotated ls cfg cfg'
  unfolding annotate has
  annotate-Annotated [] cfg {cfg'} h =
      let same : cfg ≡ cfg' = cc in
      rw (← same) record {
        neighbours = refl;
        filled = λ x. refl;
        annotated = λ x a. elim a [ inl e ↦ absurd cc | inr f ↦ f ];
      }
  annotate-Annotated (l ∷ rest) cfg {cfg'} h =
      let (cfg₁, e, h') = >>=-eq-ok (annotate_one gsl info l cfg) (annotate gsl info rest) h in
      let w = annotate_one-Annotates l cfg e in
      let a = annotate-Annotated rest cfg₁ h' in
      record {
        neighbours = a.neighbours ∙ w.neighbours;
        filled = λ x. a.filled x ∙ w.filled x;
        annotated = λ x b. a.annotated x (Annotates-AnnotatedAt l x rest cfg cfg₁ w b);
      }

  Annotated-IsGraph :
      (ls : List Label) (cfg cfg' : Cfg) → Annotated ls cfg cfg' → IsGraph cfg → IsGraph cfg'
  Annotated-IsGraph ls cfg cfg' a g = record {
    symmetric = λ x y. ground (arith, a.neighbours, g.symmetric x y);
    filled = λ l. ground (arith, a.neighbours, a.filled l, g.filled l);
    no_way_in = λ x. ground (arith, a.neighbours, g.no_way_in x);
    no_way_out = λ y. ground (arith, a.neighbours, g.no_way_out y);
    has_entry = ground (arith, a.neighbours, g.has_entry);
    has_exit = ground (arith, a.neighbours, g.has_exit);
  }

  -- All labels of the graph that is annotated are annotated.
  all-AnnotatedAt :
      (cfg cfg' : Cfg)
      → Annotated (keys cfg.instructions) cfg cfg'
      → (l : Label) → AnnotatedAt cfg' l
  all-AnnotatedAt cfg cfg' a l g h =
      a.annotated l (inl (has-keys l cfg.instructions ∙ (sym (a.filled l) ∙ ap is_some h))) g h

  insert_counters-IsGraph :
      (heads : List Label) (cfg : Cfg) {cfg' : Cfg}
      → insert_counters heads cfg ≡ ok cfg'
      → IsGraph cfg
      → IsGraph cfg'
  unfolding insert_counters
  insert_counters-IsGraph [] cfg {cfg'} h g = let same : cfg ≡ cfg' = cc in rw (← same) g
  insert_counters-IsGraph (l ∷ heads) cfg h g =
      let counter = unguarded (Instruction.increment_loop_counter (record { name = l })) in
      let insert_counter = insert_after l (make_increment_counter l) counter in
      let (cfg₁, e, h') = >>=-eq-ok (insert_counter cfg) (insert_counters heads) h in
      insert_counters-IsGraph heads cfg₁ h'
        (Ends-ok (insert_after-Graphs l (make_increment_counter l) counter cfg g) e)

  counted-IsGraph :
      (fuel : ℕ) (check : Bool) (cfg : Cfg) {cfg' : Cfg}
      → (if check then count_loops fuel cfg else ok cfg) ≡ ok cfg'
      → IsGraph cfg
      → IsGraph cfg'
  unfolding count_loops
  counted-IsGraph fuel false cfg {cfg'} h g = let same : cfg ≡ cfg' = cc in rw (← same) g
  counted-IsGraph fuel true cfg h g =
      let (wto, e, h') =
        >>=-eq-ok (wto_of fuel cfg)
          (λ wto. loop_heads wto wto.components >>= λ heads. insert_counters heads cfg) h in
      let (heads, e', h'') =
        >>=-eq-ok (loop_heads wto wto.components) (λ heads. insert_counters heads cfg) h' in
      insert_counters-IsGraph heads cfg h'' g

-- If the graph of a program is prepared, with or without loop counters, then children and parents
-- agree, nothing leads to the entry or away from the exit, and every node has an instruction whose
-- preconditions are exactly those that are extracted from it under its label, also the copies of
-- called code and the assumptions and counters that the construction adds.
pub prepare_cfg-IsAnnotated :
    (fuel : ℕ) (gsl : Gsl) (info : ProgramInfo) (prog : List LabeledInstruction)
    (options : PrepareCfgOptions) {cfg : Cfg}
    → prepare_cfg fuel gsl info prog options ≡ ok cfg
    → IsGraph cfg
      × ((l : Label)
          → is_node cfg l ≡ true
          → (g : GuardedInstruction) × (find l cfg.instructions ≡ some g)
            × IsAnnotated gsl info l g)
unfolding prepare_cfg
prepare_cfg-IsAnnotated fuel gsl info prog options {cfg} h =
    let check = λ (c : Cfg). if options.check_for_termination then count_loops fuel c else ok c in
    let last = λ (c : Cfg). annotate gsl info (keys c.instructions) c in
    let (cfg₁, e₁, h₁) =
      >>=-eq-ok (instruction_seq_to_cfg prog options.must_have_exit) (λ c. check c >>= last) h in
    let (cfg₂, e₂, h₂) = >>=-eq-ok (check cfg₁) last h₁ in
    let g₁ = Ends-ok (instruction_seq_to_cfg-Ends prog options.must_have_exit) e₁ in
    let g₂ = counted-IsGraph gsl info fuel options.check_for_termination cfg₁ e₂ g₁ in
    let a = annotate-Annotated gsl info (keys cfg₂.instructions) cfg₂ h₂ in
    let g₃ = Annotated-IsGraph gsl info (keys cfg₂.instructions) cfg₂ cfg a g₂ in
    (
      g₃,
      λ l n. elim (Option-cases (find l cfg.instructions)) [
        | inl e ↦ absurd (ground (arith, e, n, g₃.filled l))
        | inr (g, e) ↦ (g, e, all-AnnotatedAt gsl info cfg₂ cfg a l g e)
      ],
    )

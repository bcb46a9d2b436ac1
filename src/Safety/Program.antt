-- ===== src/Safety/Program.antt =====
-- The labels of a decoded program, and where its jumps lead: `Unmarshaller::unmarshal` of
-- verifiers/prevail/src/asm_unmarshal.cpp.
use linux_dev_env.Base.{
  ℕ, ◌+◌, ◌≤◌, ◌<◌, ◌≡◌, true, false, List, [], ◌∷◌, ◌++◌, length, arith, ◌==◌, if◌then◌else◌,
  Bool-cases, inl, inr,
}
use mathlib.Core.List.{append-nil, append_assoc}
use linux_dev_env.Base.Int.{pos}
use linux_dev_env.Outcome.{
  Result, ok, err, invalid_instruction, Notes, lift, tell, note_if, note_next_pc,
}
use linux_dev_env.Outcome.Inversion.{and_then-eq-ok}
use linux_dev_env.Outcome.Noting.{◌>>=◌, ◌>>◌}
use linux_dev_env.Gsl.{Gsl, int32, narrow_lem}
use linux_dev_env.Isa.{EbpfInst}
use linux_dev_env.Label.{label_at}
use linux_dev_env.Syntax.Instruction.{LabeledInstruction}
use linux_dev_env.Platform.{ProgramInfo}
use linux_dev_env.Unmarshal.Program.{
  Decoded, turn, decode, append, unmarshal_from, unmarshal_program, current_line_info, caught,
  unmarshal, instruction_seq,
}
use linux_dev_env.Safety.Target.{LandsIn}
use linux_dev_env.Safety.Flow.{decode-LandsIn}

-- The instruction is labelled by the slot `pc`, and leads only to slots of the program.
pub record Placed (insts : List EbpfInst) (pc : ℕ) (l : LabeledInstruction) : Type 0 where
  pub labelled : l.label ≡ label_at (pos pc)
  pub lands : LandsIn insts l.ins

-- From the slot `pc` on, every instruction is labelled by the slot after its predecessor's or by
-- the one after that, and the last one reaches the end of the program.
pub data Covers (insts : List EbpfInst) : ℕ → List LabeledInstruction → Type 0 where
  done : {pc : ℕ} → length insts ≤ pc → Covers insts pc []
  one :
      {pc : ℕ} {l : LabeledInstruction} {ls : List LabeledInstruction}
      → pc < length insts
      → Placed insts pc l
      → Covers insts (pc + 1) ls
      → Covers insts pc (l ∷ ls)
  two :
      {pc : ℕ} {l : LabeledInstruction} {ls : List LabeledInstruction}
      → pc < length insts
      → Placed insts pc l
      → Covers insts (pc + 2) ls
      → Covers insts pc (l ∷ ls)

append-Placed :
    (gsl : Gsl) (info : ProgramInfo) (insts : List EbpfInst) (pc : ℕ) (d : Decoded) (ns : Notes)
    {l : LabeledInstruction}
    → LandsIn insts d.new_ins
    → (append gsl info insts pc d ns).0 ≡ ok l
    → Placed insts pc l
unfolding append current_line_info
append-Placed gsl info insts pc d ns lands h = record {
  labelled = ground (arith, narrow_lem gsl int32 (pos pc));
  lands = ground (arith, lands);
}

turn-Placed :
    (gsl : Gsl) (info : ProgramInfo) (insts : List EbpfInst) (pc : ℕ) (inst : EbpfInst) (ns : Notes)
    {d : Decoded} {l : LabeledInstruction}
    → (turn gsl info insts pc inst ns).0 ≡ ok (d, l)
    → Placed insts pc l
unfolding turn
turn-Placed gsl info insts pc inst ns {d} {l} h =
    let ns' = (decode gsl info insts pc inst ns).1 in
    let (d', e, h') =
      and_then-eq-ok (decode gsl info insts pc inst ns)
        (λ d'. append gsl info insts pc d' >>= λ l'. lift (ok (d', l'))) h in
    let (l', e', h'') =
      and_then-eq-ok (append gsl info insts pc d' ns') (λ l'. lift (ok (d', l'))) h' in
    let placed =
      append-Placed gsl info insts pc d' ns' (decode-LandsIn gsl info insts pc inst ns e) e' in
    let same : l' ≡ l = cc in
    record { labelled = rw (← same) placed.labelled; lands = rw (← same) placed.lands }

-- What is known of the instructions that are still to be decoded.
abbrev IsRest : List EbpfInst → ℕ → List EbpfInst → Type 0
IsRest insts pc rest = length insts ≡ pc + length rest

unmarshal_from-Covers :
    (gsl : Gsl) (info : ProgramInfo) (insts : List EbpfInst) (pc exits : ℕ)
    (prog : List LabeledInstruction) (rest : List EbpfInst) (ns : Notes) {exits' : ℕ}
    {prog' : List LabeledInstruction}
    → IsRest insts pc rest
    → (unmarshal_from gsl info insts pc exits prog rest ns).0 ≡ ok (exits', prog')
    → (ls : List LabeledInstruction) × (prog' ≡ prog ++ ls) × Covers insts pc ls
unfolding unmarshal_from
unmarshal_from-Covers gsl info insts pc exits prog [] ns r h =
    ([], cc (append-nil prog), done (omega arith))
unmarshal_from-Covers gsl info insts pc exits prog (i ∷ []) ns r h =
    let ((d, l), e, h') =
      and_then-eq-ok (turn gsl info insts pc i ns)
        (λ x.
          tell (λ ns. if x.0.skip_instruction then note_next_pc ns else ns)
          >> lift (ok (exits + x.0.exits, prog ++ x.1 ∷ [])))
        h in
    (l ∷ [], cc, one (omega arith) (turn-Placed gsl info insts pc i ns e) (done (omega arith)))
unmarshal_from-Covers gsl info insts pc exits prog (i ∷ n ∷ rest) ns {exits'} {prog'} r h =
    let ((d, l), e, h') =
      and_then-eq-ok (turn gsl info insts pc i ns)
        (λ x. elim x.0.skip_instruction [
          | true ↦
              tell note_next_pc
              >> unmarshal_from gsl info insts (pc + 2) (exits + x.0.exits) (prog ++ x.1 ∷ []) rest
          | false ↦
              unmarshal_from gsl info insts (pc + 1) (exits + x.0.exits) (prog ++ x.1 ∷ [])
                (n ∷ rest)
        ])
        h in
    let ns' = (turn gsl info insts pc i ns).1 in
    let placed = turn-Placed gsl info insts pc i ns e in
    elim (Bool-cases d.skip_instruction) [
      | inl b ↦
          (let (ls, e', c) =
              unmarshal_from-Covers gsl info insts (pc + 2) (exits + d.exits) (prog ++ l ∷ []) rest
                (note_next_pc ns') {exits' = exits'} {prog' = prog'} (omega arith)
                (ground (arith, b, h')) in
            (l ∷ ls, cc (append_assoc prog (l ∷ []) ls), two (omega arith) placed c))
      | inr b ↦
          (let (ls, e', c) =
              unmarshal_from-Covers gsl info insts (pc + 1) (exits + d.exits) (prog ++ l ∷ [])
                (n ∷ rest) ns' {exits' = exits'} {prog' = prog'} (omega arith)
                (ground (arith, b, h')) in
            (l ∷ ls, cc (append_assoc prog (l ∷ []) ls), one (omega arith) placed c))
    ]

caught-instruction_seq :
    (r : Result (List LabeledInstruction)) {prog : List LabeledInstruction}
    → caught r ≡ ok (instruction_seq prog)
    → r ≡ ok prog
unfolding caught
caught-instruction_seq (ok prog) h = cc
caught-instruction_seq (err (invalid_instruction pc what)) h = cc
caught-instruction_seq (err _) h = cc

unmarshal_program-Covers :
    (gsl : Gsl) (info : ProgramInfo) (insts : List EbpfInst) (ns : Notes)
    {prog : List LabeledInstruction}
    → (unmarshal_program gsl info insts ns).0 ≡ ok prog
    → (0 < length insts) × Covers insts 0 prog
unfolding unmarshal_program
unmarshal_program-Covers gsl info [] ns h = cc
unmarshal_program-Covers gsl info (i ∷ insts) ns {prog} h =
    let ((exits, prog'), e, h') =
      and_then-eq-ok (unmarshal_from gsl info (i ∷ insts) 0 0 [] (i ∷ insts) (note_next_pc ns))
        (λ x. note_if (x.0 == 0) "no exit instruction" >> lift (ok x.1)) h in
    let (ls, e', c) =
      unmarshal_from-Covers gsl info (i ∷ insts) 0 0 [] (i ∷ insts) (note_next_pc ns) (omega arith)
        e in
    let same : ls ≡ prog = ground (arith, e', h') in (omega arith, rw (← same) c)

-- If decoding returns a program, the program has at least one slot; its instructions are labelled
-- by slots from 0 on, each by the slot after its predecessor's or by the one after that, until the
-- end of the program is reached; and its jumps and local calls lead to slots of the program that
-- are not the second half of a `lddw`.
pub unmarshal-Covers :
    (gsl : Gsl) (info : ProgramInfo) (insts : List EbpfInst) (ns : Notes)
    {prog : List LabeledInstruction}
    → (unmarshal gsl info insts ns).0 ≡ ok (instruction_seq prog)
    → (0 < length insts) × Covers insts 0 prog
unfolding unmarshal
unmarshal-Covers gsl info insts ns h =
    unmarshal_program-Covers gsl info insts ns
      (caught-instruction_seq (unmarshal_program gsl info insts ns).0 h)

-- ===== src/Marshal/Sequence.antt =====
-- Encoding of one instruction and of a sequence, `marshal`: verifiers/prevail/src/asm_marshal.cpp.
use linux_dev_env.Base.{
  ℕ, ◌+◌, ◌%◌, ◌^◌, Bool, Option, none, some, List, [], ◌∷◌, ◌++◌, length, if◌then◌else◌,
}
use linux_dev_env.Base.Int.{pos}
use linux_dev_env.Outcome.{
  Result, ok, err, invalid_argument, assertion_failed, out_of_range, or_throw, ◌>>=◌,
}
use linux_dev_env.Gsl.{Gsl, int32, narrow}
use linux_dev_env.Isa
use linux_dev_env.Isa.{EbpfInst}
use linux_dev_env.Label.{Label, label_at}
use linux_dev_env.Label.Order.{eq_label}
use linux_dev_env.Syntax.Instruction.{Instruction, LabeledInstruction}
use linux_dev_env.Marshal.Visitor.{
  lddw_insts, marshal_bin, marshal_un, marshal_call, marshal_call_local, marshal_callx,
}
use linux_dev_env.Marshal.Jump.{marshal_jmp}
use linux_dev_env.Marshal.Memory.{marshal_mem, marshal_packet, marshal_atomic}

-- `marshal(const Instruction&, pc_t)`: the dispatch of the visitor.
unfoldable pub marshal : Gsl → Instruction → ℕ → Result (List EbpfInst)
unfolding lddw_insts
marshal gsl (Instruction.undefined a) pc = err assertion_failed
marshal gsl (Instruction.load_map_fd b) pc = lddw_insts gsl b.dst Bool.true b.mapfd (pos 0)
marshal gsl (Instruction.bin b) pc = marshal_bin gsl b
marshal gsl (Instruction.un b) pc = marshal_un gsl b.op b.dst b.is64
marshal gsl (Instruction.call b) pc = marshal_call gsl b
marshal gsl (Instruction.call_local b) pc = marshal_call_local gsl pc b
marshal gsl (Instruction.callx b) pc = marshal_callx gsl b
marshal gsl (Instruction.exit b) pc =
    ok (record { opcode = Isa.inst_op_exit; dst = 0; src = 0; offset = pos 0; imm = pos 0 } ∷ [])
marshal gsl (Instruction.assume b) pc = err (invalid_argument "Cannot marshal assumptions")
marshal gsl (Instruction.jmp b) pc = marshal_jmp gsl pc b.cond b.target
marshal gsl (Instruction.mem b) pc = marshal_mem gsl b
marshal gsl (Instruction.packet b) pc = marshal_packet gsl b
marshal gsl (Instruction.atomic b) pc = marshal_atomic gsl b
marshal gsl (Instruction.increment_loop_counter b) pc = ok []

unfoldable pub size : Instruction → ℕ
size (Instruction.bin b) = if b.lddw then 2 else 1
size (Instruction.load_map_fd _) = 2
size _ = 1

-- `std::map<label_t, pc_t>`, as an association list: `m[label] = pc` and `m.at(label)`.
abbrev pub PcOfLabel : Type 0
PcOfLabel = List (Label × ℕ)

unfoldable pub insert : Label → ℕ → PcOfLabel → PcOfLabel
insert label pc [] = (label, pc) ∷ []
insert label pc ((l, p) ∷ m) = if eq_label l label then (l, pc) ∷ m else (l, p) ∷ insert label pc m

unfoldable pub lookup : Label → PcOfLabel → Option ℕ
lookup label [] = none
lookup label ((l, p) ∷ m) = if eq_label l label then some p else lookup label m

-- The loop of `get_labels` from `pc`.
unfoldable pub labels_from : ℕ → PcOfLabel → List LabeledInstruction → PcOfLabel
unfolding insert size
labels_from pc m [] = m
labels_from pc m (i ∷ insts) = labels_from ((pc + size i.ins) % 2 ^ 32) (insert i.label pc m) insts

unfoldable pub get_labels : List LabeledInstruction → PcOfLabel
unfolding labels_from
get_labels insts = labels_from 0 [] insts

-- A jump's target becomes the label of the position of its label.
unfoldable pub retarget : Gsl → PcOfLabel → Instruction → Result Instruction
unfolding lookup
retarget gsl m (Instruction.jmp j) = do
  pc ← or_throw (lookup j.target m) out_of_range
  index ← narrow gsl int32 (pos pc)
  ok (Instruction.jmp (record j { target = label_at index }))
retarget gsl m ins = ok ins

-- The loop of `marshal` over a sequence, from `pc`, with the instructions so far.
unfoldable pub marshal_from :
    Gsl → PcOfLabel → ℕ → List EbpfInst → List LabeledInstruction → Result (List EbpfInst)
unfolding retarget marshal
marshal_from gsl m pc res [] = ok res
marshal_from gsl m pc res (i ∷ insts) = do
  ins ← retarget gsl m i.ins
  es ← marshal gsl ins pc
  marshal_from gsl m ((pc + length es) % 2 ^ 32) (res ++ es) insts

unfoldable pub marshal_sequence : Gsl → List LabeledInstruction → Result (List EbpfInst)
unfolding marshal_from get_labels
marshal_sequence gsl insts = marshal_from gsl (get_labels insts) 0 [] insts

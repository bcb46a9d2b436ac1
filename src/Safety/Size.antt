-- ===== src/Safety/Size.antt =====
-- How many slots the encoding takes: `size` and `marshal` of
-- verifiers/prevail/src/asm_marshal.cpp.
use linux_dev_env.Base.{
  ℕ, ◌+◌, ◌%◌, ◌^◌, ◌≡◌, Bool, true, Option, none, some, List, [], ◌∷◌, ◌++◌, length, length-append,
  arith,
}
use linux_dev_env.Base.Int.{ℤ, pos}
use linux_dev_env.Outcome.{ok, ◌>>=◌}
use linux_dev_env.Outcome.Inversion.{>>=-eq-ok}
use linux_dev_env.Gsl.{Gsl}
use linux_dev_env.Isa.{EbpfInst}
use linux_dev_env.Label.{Label}
use linux_dev_env.Syntax.Op.{Reg, Value, UnOp}
use linux_dev_env.Syntax.Instruction.{
  Instruction, LabeledInstruction, Condition, Bin, Mem, Packet, Atomic,
}
use linux_dev_env.Marshal.Visitor.{
  lddw_insts, marshal_lddw, with_operand, marshal_bin, marshal_un, marshal_call, marshal_call_local,
  marshal_callx,
}
use linux_dev_env.Marshal.Jump.{marshal_jmp}
use linux_dev_env.Marshal.Memory.{mem_operand, marshal_mem, marshal_packet, marshal_atomic}
use linux_dev_env.Marshal.Sequence.{
  marshal, size, retarget, marshal_from, marshal_sequence, PcOfLabel, get_labels,
}

module _ (gsl : Gsl) {es : List EbpfInst} where
  lddw_insts-length :
      (dst : Reg) (is_fd : Bool) (low high : ℤ)
      → lddw_insts gsl dst is_fd low high ≡ ok es
      → length es ≡ 2
  unfolding lddw_insts
  lddw_insts-length dst is_fd low high h = grind arith

  with_operand-length :
      (res : EbpfInst) (v : Value) → with_operand gsl res v ≡ ok es → length es ≡ 1
  unfolding with_operand
  with_operand-length res v h = grind arith

  marshal_bin-length : (b : Bin) → marshal_bin gsl b ≡ ok es → length es ≡ size (Instruction.bin b)
  unfolding marshal_bin marshal_lddw size
  marshal_bin-length b h = grind (arith, lddw_insts-length, with_operand-length)

  marshal_un-length :
      (op : UnOp) (dst : Reg) (is64 : Bool) → marshal_un gsl op dst is64 ≡ ok es → length es ≡ 1
  unfolding marshal_un
  marshal_un-length UnOp.neg dst is64 h = grind arith
  marshal_un-length _ dst is64 h = grind arith

  marshal_jmp-length :
      (pc : ℕ) (cond : Option Condition) (target : Label)
      → marshal_jmp gsl pc cond target ≡ ok es
      → length es ≡ 1
  unfolding marshal_jmp
  marshal_jmp-length pc none target h = grind arith
  marshal_jmp-length pc (some c) target h = grind (arith, with_operand-length)

  marshal_mem-length : (b : Mem) → marshal_mem gsl b ≡ ok es → length es ≡ 1
  unfolding marshal_mem mem_operand
  marshal_mem-length b h = grind arith

  marshal_packet-length : (b : Packet) → marshal_packet gsl b ≡ ok es → length es ≡ 1
  unfolding marshal_packet
  marshal_packet-length b h = grind arith

  marshal_atomic-length : (b : Atomic) → marshal_atomic gsl b ≡ ok es → length es ≡ 1
  unfolding marshal_atomic
  marshal_atomic-length b h = grind arith

-- The pseudo-instruction of the loop counter has no encoding.
abbrev pub IsEncoded : Instruction → Type 0
IsEncoded (Instruction.increment_loop_counter _) = ⊥
IsEncoded _ = Unit

-- Whatever an instruction is encoded to takes `size` slots, for every instruction but the
-- pseudo-instruction that counts loops.
pub length-marshal :
    (gsl : Gsl) (ins : Instruction) (pc : ℕ) {es : List EbpfInst}
    → IsEncoded ins
    → marshal gsl ins pc ≡ ok es
    → length es ≡ size ins
unfolding marshal size marshal_call marshal_call_local marshal_callx
length-marshal gsl (Instruction.undefined a) pc n h = cc
length-marshal gsl (Instruction.load_map_fd b) pc n h =
    lddw_insts-length gsl b.dst true b.mapfd (pos 0) h
length-marshal gsl (Instruction.bin b) pc n h = marshal_bin-length gsl b h
length-marshal gsl (Instruction.un b) pc n h = marshal_un-length gsl b.op b.dst b.is64 h
length-marshal gsl (Instruction.call b) pc n h = grind arith
length-marshal gsl (Instruction.call_local b) pc n h = grind arith
length-marshal gsl (Instruction.callx b) pc n h = grind arith
length-marshal gsl (Instruction.exit b) pc n h = grind arith
length-marshal gsl (Instruction.assume b) pc n h = cc
length-marshal gsl (Instruction.jmp b) pc n h = marshal_jmp-length gsl pc b.cond b.target h
length-marshal gsl (Instruction.mem b) pc n h = marshal_mem-length gsl b h
length-marshal gsl (Instruction.packet b) pc n h = marshal_packet-length gsl b h
length-marshal gsl (Instruction.atomic b) pc n h = marshal_atomic-length gsl b h
length-marshal gsl (Instruction.increment_loop_counter b) pc n h = absurd n

pub retarget-size :
    (gsl : Gsl) (m : PcOfLabel) (i : Instruction) {ins : Instruction}
    → retarget gsl m i ≡ ok ins
    → IsEncoded i
    → (size ins ≡ size i) × IsEncoded ins
unfolding retarget size
retarget-size gsl m (Instruction.jmp j) h n = grind arith
retarget-size gsl m _ h n = ground (arith, n)

abbrev pub AreEncoded : List LabeledInstruction → Type 0
AreEncoded [] = Unit
AreEncoded (i ∷ insts) = IsEncoded i.ins × AreEncoded insts

abbrev pub total_size : List LabeledInstruction → ℕ
total_size [] = 0
total_size (i ∷ insts) = size i.ins + total_size insts

marshal_from-length :
    (gsl : Gsl) (m : PcOfLabel) (pc : ℕ) (res : List EbpfInst) (insts : List LabeledInstruction)
    {es : List EbpfInst}
    → AreEncoded insts
    → marshal_from gsl m pc res insts ≡ ok es
    → length es ≡ length res + total_size insts
unfolding marshal_from
marshal_from-length gsl m pc res [] n h = grind arith
marshal_from-length gsl m pc res (i ∷ insts) (n, ns) h =
    let (ins, e, h') =
      >>=-eq-ok (retarget gsl m i.ins)
        (λ ins. marshal gsl ins pc >>= λ es.
          marshal_from gsl m ((pc + length es) % 2 ^ 32) (res ++ es) insts)
        h in
    let (es', e', h'') =
      >>=-eq-ok (marshal gsl ins pc)
        (λ es. marshal_from gsl m ((pc + length es) % 2 ^ 32) (res ++ es) insts) h' in
    let (same, n') = retarget-size gsl m i.ins e n in
    omega (
      arith,
      length-append res es',
      same,
      length-marshal gsl ins pc n' e',
      marshal_from-length gsl m ((pc + length es') % 2 ^ 32) (res ++ es') insts ns h'',
    )

-- Whatever a sequence without the pseudo-instruction that counts loops is encoded to takes the sum
-- of the sizes of its instructions.
length-marshal_sequence :
    (gsl : Gsl) (insts : List LabeledInstruction) {es : List EbpfInst}
    → AreEncoded insts
    → marshal_sequence gsl insts ≡ ok es
    → length es ≡ total_size insts
unfolding marshal_sequence
length-marshal_sequence gsl insts n h =
    omega (arith, marshal_from-length gsl (get_labels insts) 0 [] insts n h)

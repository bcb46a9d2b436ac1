-- ===== src/Syntax/Instruction.antt =====
-- Instructions: verifiers/prevail/src/asm_syntax.hpp. `Instruction` is the variant of the structs.
use linux_dev_env.Base.{ℕ, String, Bool, false, ◌&&◌, Option, List, ◌==◌, eq_Bool}
use linux_dev_env.Base.Int.{ℤ}
use linux_dev_env.Label.{Label}
use linux_dev_env.Syntax.Op.{
  Reg, Value, imm, reg, BinOp, eq_BinOp, UnOp, CondOp, AtomicOp, ArgSingleKind, ArgPairKind,
}

pub record Bin : Type 0 where
  pub op : BinOp
  pub dst : Reg
  pub v : Value
  pub is64 : Bool
  pub lddw : Bool

pub record Un : Type 0 where
  pub op : UnOp
  pub dst : Reg
  pub is64 : Bool

pub record LoadMapFd : Type 0 where
  pub dst : Reg
  pub mapfd : ℤ

pub record Condition : Type 0 where
  pub op : CondOp
  pub left : Reg
  pub right : Value
  pub is64 : Bool

pub record Jmp : Type 0 where
  pub cond : Option Condition
  pub target : Label

pub record ArgSingle : Type 0 where
  pub kind : ArgSingleKind
  pub reg : Reg

pub record ArgPair : Type 0 where
  pub kind : ArgPairKind
  pub mem : Reg
  pub size : Reg
  pub can_be_zero : Bool

pub record Call : Type 0 where
  pub func : ℤ
  pub name : String
  pub is_map_lookup : Bool
  pub reallocate_packet : Bool
  pub singles : List ArgSingle
  pub pairs : List ArgPair
  pub stack_frame_prefix : String

pub record CallLocal : Type 0 where
  pub target : Label
  pub stack_frame_prefix : String

pub record Exit : Type 0 where
  pub stack_frame_prefix : String

pub record Callx : Type 0 where
  pub func : Reg

pub record Deref : Type 0 where
  pub width : ℕ
  pub basereg : Reg
  pub offset : ℤ

pub record Mem : Type 0 where
  pub access : Deref
  pub value : Value
  pub is_load : Bool

pub record Packet : Type 0 where
  pub width : ℕ
  pub offset : ℤ
  pub regoffset : Option Reg

pub record Atomic : Type 0 where
  pub op : AtomicOp
  pub fetch : Bool
  pub access : Deref
  pub valreg : Reg

pub record Undefined : Type 0 where
  pub opcode : ℤ

pub record Assume : Type 0 where
  pub cond : Condition
  pub is_implicit : Bool

pub record IncrementLoopCounter : Type 0 where
  pub name : Label

pub data Instruction : Type 0 where
  undefined : Undefined → Instruction
  bin : Bin → Instruction
  un : Un → Instruction
  load_map_fd : LoadMapFd → Instruction
  call : Call → Instruction
  call_local : CallLocal → Instruction
  callx : Callx → Instruction
  exit : Exit → Instruction
  jmp : Jmp → Instruction
  mem : Mem → Instruction
  packet : Packet → Instruction
  atomic : Atomic → Instruction
  assume : Assume → Instruction
  increment_loop_counter : IncrementLoopCounter → Instruction

-- `btf_line_info_t` of spec_type_descriptors.hpp.
pub record LineInfo : Type 0 where
  pub file_name : String
  pub source_line : String
  pub line_number : ℕ
  pub column_number : ℕ

pub record LabeledInstruction : Type 0 where
  pub label : Label
  pub ins : Instruction
  pub line_info : Option LineInfo

abbrev pub eq_Value : Value → Value → Bool
eq_Value (imm a) (imm b) = a == b
eq_Value (reg a) (reg b) = a == b
eq_Value _ _ = false

abbrev pub eq_Bin : Bin → Bin → Bool
eq_Bin a b =
    eq_BinOp a.op b.op
    && (a.dst == b.dst && (eq_Value a.v b.v && (eq_Bool a.is64 b.is64 && eq_Bool a.lddw b.lddw)))

-- `ins == Instruction{b}`.
abbrev pub is_bin : Instruction → Bin → Bool
is_bin (bin a) b = eq_Bin a b
is_bin _ b = false

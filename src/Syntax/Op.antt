-- ===== src/Syntax/Op.antt =====
-- Operands and the operators of instructions: verifiers/prevail/src/asm_syntax.hpp.
use linux_dev_env.Base.{ℕ, Bool, ◌==◌}

-- `Reg` and `Imm` wrap a byte and a 64-bit number.
abbrev pub Reg : Type 0
Reg = ℕ

abbrev pub Imm : Type 0
Imm = ℕ

pub data Value : Type 0 where
  imm : Imm → Value
  reg : Reg → Value

-- `Bin::Op`.
pub data BinOp : Type 0 where
  mov add sub mul udiv umod or and lsh rsh arsh xor sdiv smod movsx8 movsx16 movsx32 : BinOp

-- The number of an enumerator, by which two are compared.
abbrev pub bin_op_index : BinOp → ℕ
bin_op_index mov = 0
bin_op_index add = 1
bin_op_index sub = 2
bin_op_index mul = 3
bin_op_index udiv = 4
bin_op_index umod = 5
bin_op_index or = 6
bin_op_index and = 7
bin_op_index lsh = 8
bin_op_index rsh = 9
bin_op_index arsh = 10
bin_op_index xor = 11
bin_op_index sdiv = 12
bin_op_index smod = 13
bin_op_index movsx8 = 14
bin_op_index movsx16 = 15
bin_op_index movsx32 = 16

abbrev pub eq_BinOp : BinOp → BinOp → Bool
eq_BinOp a b = bin_op_index a == bin_op_index b

-- `Un::Op`.
pub data UnOp : Type 0 where
  be16 be32 be64 le16 le32 le64 swap16 swap32 swap64 neg : UnOp

-- `Condition::Op`.
pub data CondOp : Type 0 where
  eq ne set nset lt le gt ge slt sle sgt sge : CondOp

-- `Atomic::Op`.
pub data AtomicOp : Type 0 where
  add or and xor xchg cmpxchg : AtomicOp

abbrev pub atomic_op_value : AtomicOp → ℕ
atomic_op_value AtomicOp.add = 0x00
atomic_op_value AtomicOp.or = 0x40
atomic_op_value AtomicOp.and = 0x50
atomic_op_value AtomicOp.xor = 0xa0
atomic_op_value xchg = 0xe0
atomic_op_value cmpxchg = 0xf0

-- `ArgSingle::Kind`.
pub data ArgSingleKind : Type 0 where
  map_fd map_fd_programs ptr_to_map_key ptr_to_map_value ptr_to_ctx anything : ArgSingleKind

-- `ArgPair::Kind`.
pub data ArgPairKind : Type 0 where
  ptr_to_readable_mem ptr_to_readable_mem_or_null ptr_to_writable_mem : ArgPairKind

-- ===== src/Marshal/Code.antt =====
-- The codes of the operators: verifiers/prevail/src/asm_marshal.cpp. An `assert` that fails ends
-- the program, as in a build that checks assertions.
use linux_dev_env.Base.{ℕ}
use linux_dev_env.Base.Int.{ℤ, pos}
use linux_dev_env.Outcome.{Result, ok, err, assertion_failed}
use linux_dev_env.Syntax.Op.{BinOp, UnOp, CondOp}

-- `op(Condition::Op)`.
unfoldable pub cond_op_code : CondOp → Result ℕ
cond_op_code CondOp.eq = ok 0x1
cond_op_code CondOp.gt = ok 0x2
cond_op_code CondOp.ge = ok 0x3
cond_op_code CondOp.set = ok 0x4
cond_op_code CondOp.nset = err assertion_failed
cond_op_code CondOp.ne = ok 0x5
cond_op_code CondOp.sgt = ok 0x6
cond_op_code CondOp.sge = ok 0x7
cond_op_code CondOp.lt = ok 0xa
cond_op_code CondOp.le = ok 0xb
cond_op_code CondOp.slt = ok 0xc
cond_op_code CondOp.sle = ok 0xd

-- `op(Bin::Op)`.
unfoldable pub bin_op_code : BinOp → ℕ
bin_op_code BinOp.add = 0x0
bin_op_code BinOp.sub = 0x1
bin_op_code BinOp.mul = 0x2
bin_op_code BinOp.sdiv = 0x3
bin_op_code BinOp.udiv = 0x3
bin_op_code BinOp.or = 0x4
bin_op_code BinOp.and = 0x5
bin_op_code BinOp.lsh = 0x6
bin_op_code BinOp.rsh = 0x7
bin_op_code BinOp.smod = 0x9
bin_op_code BinOp.umod = 0x9
bin_op_code BinOp.xor = 0xa
bin_op_code BinOp.mov = 0xb
bin_op_code BinOp.movsx8 = 0xb
bin_op_code BinOp.movsx16 = 0xb
bin_op_code BinOp.movsx32 = 0xb
bin_op_code BinOp.arsh = 0xc

-- `offset(Bin::Op)`.
unfoldable pub bin_op_offset : BinOp → ℤ
bin_op_offset BinOp.sdiv = pos 1
bin_op_offset BinOp.smod = pos 1
bin_op_offset BinOp.movsx8 = pos 8
bin_op_offset BinOp.movsx16 = pos 16
bin_op_offset BinOp.movsx32 = pos 32
bin_op_offset _ = pos 0

unfoldable pub imm_endian : UnOp → Result ℕ
imm_endian UnOp.neg = err assertion_failed
imm_endian UnOp.be16 = ok 16
imm_endian UnOp.le16 = ok 16
imm_endian UnOp.swap16 = ok 16
imm_endian UnOp.be32 = ok 32
imm_endian UnOp.le32 = ok 32
imm_endian UnOp.swap32 = ok 32
imm_endian UnOp.be64 = ok 64
imm_endian UnOp.le64 = ok 64
imm_endian UnOp.swap64 = ok 64

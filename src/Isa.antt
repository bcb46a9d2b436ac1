-- ===== src/Isa.antt =====
-- The eBPF instruction format: verifiers/prevail/src/ebpf_vm_isa.hpp, with the width tables of
-- verifiers/prevail/src/asm_unmarshal.cpp. An opcode is a byte, `dst` and `src` are four bits
-- each, `offset` and `imm` are the signed values of their 16 and 32 bits.
use linux_dev_env.Base.{ℕ, ◌*◌, ◌/◌, ◌%◌, ◌^◌, ◌<◌, bit_and, bit_or, ◌==◌, if◌then◌else◌}
use linux_dev_env.Base.Int.{ℤ, to_unsigned, to_signed, IsInt16, IsInt32}
use linux_dev_env.Outcome.{Result, ok, err, crab_error}

pub record EbpfInst : Type 0 where
  pub opcode : ℕ
  pub dst : ℕ
  pub src : ℕ
  pub offset : ℤ
  pub imm : ℤ

-- The values that the bit widths of the struct hold.
pub record IsInst (inst : EbpfInst) : Type 0 where
  pub opcode_fits : inst.opcode < 256
  pub dst_fits : inst.dst < 16
  pub src_fits : inst.src < 16
  pub offset_fits : IsInt16 inst.offset
  pub imm_fits : IsInt32 inst.imm

-- Assigning a byte to a four-bit field.
abbrev pub u4 : ℕ → ℕ
u4 n = n % 16

abbrev pub inst_cls_mask : ℕ
inst_cls_mask = 0x07

abbrev pub inst_cls_ld : ℕ
inst_cls_ld = 0x00

abbrev pub inst_cls_ldx : ℕ
inst_cls_ldx = 0x01

abbrev pub inst_cls_st : ℕ
inst_cls_st = 0x02

abbrev pub inst_cls_stx : ℕ
inst_cls_stx = 0x03

abbrev pub inst_cls_alu : ℕ
inst_cls_alu = 0x04

abbrev pub inst_cls_jmp : ℕ
inst_cls_jmp = 0x05

abbrev pub inst_cls_jmp32 : ℕ
inst_cls_jmp32 = 0x06

abbrev pub inst_cls_alu64 : ℕ
inst_cls_alu64 = 0x07

abbrev pub inst_src_imm : ℕ
inst_src_imm = 0x00

abbrev pub inst_src_reg : ℕ
inst_src_reg = 0x08

abbrev pub inst_end_le : ℕ
inst_end_le = 0x00

abbrev pub inst_end_be : ℕ
inst_end_be = 0x08

abbrev pub inst_size_w : ℕ
inst_size_w = 0x00

abbrev pub inst_size_h : ℕ
inst_size_h = 0x08

abbrev pub inst_size_b : ℕ
inst_size_b = 0x10

abbrev pub inst_size_dw : ℕ
inst_size_dw = 0x18

abbrev pub inst_size_mask : ℕ
inst_size_mask = 0x18

abbrev pub inst_mode_mask : ℕ
inst_mode_mask = 0xe0

abbrev pub inst_mode_imm : ℕ
inst_mode_imm = 0x00

abbrev pub inst_mode_abs : ℕ
inst_mode_abs = 0x20

abbrev pub inst_mode_ind : ℕ
inst_mode_ind = 0x40

abbrev pub inst_mode_mem : ℕ
inst_mode_mem = 0x60

abbrev pub inst_mode_atomic : ℕ
inst_mode_atomic = 0xc0

abbrev pub inst_op_lddw_imm : ℕ
inst_op_lddw_imm = bit_or (bit_or inst_cls_ld inst_src_imm) inst_size_dw

abbrev pub inst_fetch : ℕ
inst_fetch = 0x1

abbrev pub inst_ja : ℕ
inst_ja = 0x0

abbrev pub inst_call : ℕ
inst_call = 0x8

abbrev pub inst_exit : ℕ
inst_exit = 0x9

abbrev pub inst_op_ja32 : ℕ
inst_op_ja32 = bit_or (inst_ja * 2 ^ 4) inst_cls_jmp32

abbrev pub inst_op_ja16 : ℕ
inst_op_ja16 = bit_or (inst_ja * 2 ^ 4) inst_cls_jmp

abbrev pub inst_op_call : ℕ
inst_op_call = bit_or (bit_or (inst_call * 2 ^ 4) inst_src_imm) inst_cls_jmp

abbrev pub inst_op_callx : ℕ
inst_op_callx = bit_or (bit_or (inst_call * 2 ^ 4) inst_src_reg) inst_cls_jmp

abbrev pub inst_op_exit : ℕ
inst_op_exit = bit_or (inst_exit * 2 ^ 4) inst_cls_jmp

abbrev pub inst_call_static_helper : ℕ
inst_call_static_helper = 0x0

abbrev pub inst_call_local : ℕ
inst_call_local = 0x1

abbrev pub inst_call_btf_helper : ℕ
inst_call_btf_helper = 0x2

abbrev pub inst_alu_op_add : ℕ
inst_alu_op_add = 0x00

abbrev pub inst_alu_op_sub : ℕ
inst_alu_op_sub = 0x10

abbrev pub inst_alu_op_mul : ℕ
inst_alu_op_mul = 0x20

abbrev pub inst_alu_op_div : ℕ
inst_alu_op_div = 0x30

abbrev pub inst_alu_op_or : ℕ
inst_alu_op_or = 0x40

abbrev pub inst_alu_op_and : ℕ
inst_alu_op_and = 0x50

abbrev pub inst_alu_op_lsh : ℕ
inst_alu_op_lsh = 0x60

abbrev pub inst_alu_op_rsh : ℕ
inst_alu_op_rsh = 0x70

abbrev pub inst_alu_op_neg : ℕ
inst_alu_op_neg = 0x80

abbrev pub inst_alu_op_mod : ℕ
inst_alu_op_mod = 0x90

abbrev pub inst_alu_op_xor : ℕ
inst_alu_op_xor = 0xa0

abbrev pub inst_alu_op_mov : ℕ
inst_alu_op_mov = 0xb0

abbrev pub inst_alu_op_arsh : ℕ
inst_alu_op_arsh = 0xc0

abbrev pub inst_alu_op_end : ℕ
inst_alu_op_end = 0xd0

abbrev pub inst_alu_op_mask : ℕ
inst_alu_op_mask = 0xf0

abbrev pub r0_return_value : ℕ
r0_return_value = 0

abbrev pub r10_stack_pointer : ℕ
r10_stack_pointer = 10

unfoldable pub opcode_to_width : ℕ → Result ℕ
opcode_to_width opcode =
    let size = bit_and opcode inst_size_mask in
    if size == inst_size_b
    then ok 1
    else if size == inst_size_h
    then ok 2
    else if size == inst_size_w
    then ok 4
    else if size == inst_size_dw
    then ok 8
    else err (crab_error "unexpected opcode" opcode)

unfoldable pub width_to_opcode : ℕ → Result ℕ
width_to_opcode width =
    if width == 1
    then ok inst_size_b
    else if width == 2
    then ok inst_size_h
    else if width == 4
    then ok inst_size_w
    else if width == 8
    then ok inst_size_dw
    else err (crab_error "unexpected width" width)

-- The two immediates of a `lddw` as one 64-bit number, and back.
unfoldable pub merge : ℤ → ℤ → ℕ
merge imm next_imm =
    bit_or (to_unsigned (2 ^ 64) next_imm * 2 ^ 32 % 2 ^ 64) (to_unsigned (2 ^ 32) imm)

unfoldable pub split : ℕ → ℤ × ℤ
split v = (to_signed (2 ^ 32) (v % 2 ^ 32), to_signed (2 ^ 32) (v / 2 ^ 32 % 2 ^ 32))

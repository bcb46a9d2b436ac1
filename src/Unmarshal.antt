-- ===== src/Unmarshal.antt =====
-- Decoding of eBPF bytecode: verifiers/prevail/src/asm_unmarshal.cpp.
pub mod Operand
pub mod AluOp
pub mod Alu
pub mod NoteFree
pub mod Memory
pub mod Lddw
pub mod Helper
pub mod Jump
pub mod Program

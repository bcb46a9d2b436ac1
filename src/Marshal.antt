-- ===== src/Marshal.antt =====
-- Encoding of instructions as bytecode: verifiers/prevail/src/asm_marshal.cpp.
pub mod Code
pub mod Visitor
pub mod Jump
pub mod Memory
pub mod Sequence

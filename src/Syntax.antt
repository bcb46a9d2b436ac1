-- ===== src/Syntax.antt =====
-- The assembly syntax: verifiers/prevail/src/asm_syntax.hpp.
pub mod Op
pub mod Instruction
pub mod Assertion

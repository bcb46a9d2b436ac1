-- ===== src/Assertions.antt =====
-- The preconditions of instructions: verifiers/prevail/src/assertions.cpp.
pub mod Access
pub mod Condition
pub mod Extractor

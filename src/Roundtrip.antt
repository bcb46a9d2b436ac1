-- ===== src/Roundtrip.antt =====
-- Encoding and then decoding an instruction gives the instruction back.
pub mod Alu
pub mod Unary
pub mod Lddw
pub mod Memory
pub mod Special
pub mod Jump
pub mod Goto

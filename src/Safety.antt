-- ===== src/Safety.antt =====
-- What every decoded program satisfies, whatever the bytes were.
pub mod Registers
pub mod Target
pub mod Flow
pub mod Program
pub mod Size
pub mod Position
pub mod Call
pub mod Defined
pub mod Escape

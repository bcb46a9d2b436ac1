-- ===== src/Preconditions.antt =====
-- What the extracted preconditions cover.
pub mod Access
pub mod Call

-- ===== src/Tests.antt =====
-- Runs of the code at concrete inputs, and each theorem at an input that meets its hypotheses.
mod Digits
mod Data
mod Roundtrip
mod Safety
mod Preconditions
mod Interval
mod Bitset
mod Cfg
mod Wto
mod Fixpoint
mod Program
mod Linear

-- ===== src/Digital.antt =====
-- pacsys/digital_status.py: the bits of a status word and their texts. Positions, words and masks are natural numbers.
pub mod Status
pub mod Arrays
pub mod Database
pub mod Dicts
pub mod Lookup
pub mod Raw
pub mod Sorted
mod Runs

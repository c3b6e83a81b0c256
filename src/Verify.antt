-- ===== src/Verify.antt =====
-- pacsys/verify.py, and the writes of pacsys/device.py that are verified by reading back.
pub mod Context
pub mod Readback
pub mod Control
pub mod Honest
mod Runs

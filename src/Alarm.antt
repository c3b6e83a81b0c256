-- ===== src/Alarm.antt =====
-- pacsys/alarm_block.py: the 20-byte alarm blocks, their flag bits, and the read-modify-write
-- context. `Block` is the block and its bytes, `Flags` its accessors, `Modify` the context.
pub mod Ftd
pub mod Block
pub mod RoundTrip
pub mod Flags
pub mod Modify
mod Runs

-- ===== src/Ftp.antt =====
-- pacsys/acnet/ftp.py: the messages of fast time plots, and the state of a snapshot.
pub mod Wire
pub mod Tables
pub mod Device
pub mod Build
pub mod Parse
pub mod Snapshot
mod Runs

-- ===== src/Drf.antt =====
-- pacsys/drf3 and pacsys/drf_utils.py: device requests, the texts that name what is read or written.
pub mod Property
pub mod Field
pub mod Extra
pub mod Range
pub mod Device
pub mod Event
pub mod Pattern
pub mod Request
pub mod Utils
pub mod Names
pub mod Written
pub mod Canonical
pub mod Requested
pub mod Write
pub mod Prepare
pub mod Runs

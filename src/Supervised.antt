-- ===== src/Supervised.antt =====
-- pacsys/supervised: the proxy server that checks every request against policies before a backend
-- sees it.
pub mod Context
pub mod Glob
pub mod Access
pub mod RateLimit
pub mod Limits
pub mod Chain
pub mod Reorder
pub mod Server
pub mod Handlers
pub mod Reading
pub mod Runs

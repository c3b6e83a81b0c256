-- ===== src/Subscription.antt =====
-- pacsys/backends/_subscription.py and pacsys/aio/_subscription.py: the buffers between the thread that
-- receives readings and those that iterate over them.
pub mod Buffer
pub mod Trace
pub mod Wakeups
pub mod Order
pub mod Drain
pub mod Queue
mod Runs

-- ===== src/Tasks.antt =====
-- Coroutines that return a value: include/arc/coro/task.h and src/coro/task.cc.
pub mod Promise
pub mod Handle
pub mod Awaiting
pub mod CleanUp
pub mod Lifetime
pub mod Steps
pub mod Ending
pub mod Detached

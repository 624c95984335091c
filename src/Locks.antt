-- ===== src/Locks.antt =====
-- Locks between coroutines of any event loop.
pub mod Core
pub mod Handover
pub mod Exclusion

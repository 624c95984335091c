-- ===== src/Conditions.antt =====
-- Conditions that coroutines wait for, and the tokens that cancel waits.
pub mod Cancellation
pub mod Core
pub mod Broadcast
pub mod Waiting
pub mod Notify

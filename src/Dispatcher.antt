-- ===== src/Dispatcher.antt =====
-- arc::coro::CoroutineDispatcher, of include/arc/coro/dispatcher.h.
pub mod Queue
pub mod Core
pub mod Rotation
pub mod Consumers
pub mod Delivery
pub mod Departure

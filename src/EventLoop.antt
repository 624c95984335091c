-- ===== src/EventLoop.antt =====
-- `EventLoop` of include/arc/coro/eventloop.h and src/coro/eventloop.cc.
pub mod Production
pub mod Core
pub mod Conservation
pub mod Held
pub mod Moves
pub mod Sends
pub mod Run

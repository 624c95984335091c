-- ===== src/Poller.antt =====
-- arc::coro::Poller, of include/arc/coro/poller/epoll.h and src/coro/poller/epoll.cc.
pub mod State
pub mod Kernel
pub mod IoEvents
pub mod UserEvents
pub mod BoundEvents
pub mod Trim
pub mod Wait
pub mod Timers
pub mod Count
pub mod Registry

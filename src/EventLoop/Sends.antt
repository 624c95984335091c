-- ===== src/EventLoop/Sends.antt =====
-- What an event loop hands to the dispatcher (`ProduceCoroutine` of src/coro/eventloop.cc), whatever
-- the queues have room for: where the coroutines stand afterwards.
use libarc.Dispatcher.Core.{Dispatcher}
use libarc.EventLoop.Production.{Production}
use libarc.EventLoop.Moves.{Moves}

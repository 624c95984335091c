-- ===== src/Tests/CountRuns.antt =====
-- Counting IO events, with descriptors below 2000.
use libarc.Prelude.{ℕ, ◌+◌, ◌≡◌, refl, true, false, some, List, [], ◌∷◌, ok, arith, take_out}
use libarc.Prelude.Int.{pos}
use libarc.Events.{IoType, IoEvent}
use libarc.Poller.State.{Poller, is_poller_done, init, add_io_event, queues}
use libarc.Poller.BoundEvents.{pop_bound_io, find_io}
use libarc.Poller.IoEvents.{drop_all}
use libarc.Poller.Count.Runs.{IsRight}
use libarc.Poller.Count.Reach.{
  Reachable, adds_io, begins, drops, Reachable-IsRight, is_poller_done_lem,
}
use libarc.Tests.Concrete.{kernel}
use libarc.Poller.Count.{
  queued, init-IsCounted, IsCounted, add_io_event-IsCounted, pop_bound_io_leaks,
}

abbrev read_of : (fd : ℕ) → IoEvent
read_of fd = record {
  event_id = 0;
  fd = fd;
  io_type = IoType.read;
  handle = 70;
  is_interrupted = false;
}

abbrev reads : List IoEvent → ℕ → IoEvent
reads [] id = read_of 0
reads (e ∷ es) id = e

-- A coroutine that waits to read from a descriptor beyond the array.
abbrev large_waits : Poller
large_waits = (add_io_event (init 3) (read_of 1500)).0

large_waits-IsCounted : IsCounted 2000 large_waits
large_waits-IsCounted =
    add_io_event-IsCounted 2000 (init 3) (read_of 1500) (omega arith) (init-IsCounted 2000 3)

large_is_found : find_io (queues large_waits 1500) 0 ≡ some (IoType.read, read_of 1500, [])
unfolding find_io add_io_event init take_out
large_is_found = refl

pop_bound_io_leaks_example :
    (pop_bound_io reads large_waits 1500 0).0.total_io_events
    ≡ pos (queued 2000 (pop_bound_io reads large_waits 1500 0).0 + 1)
pop_bound_io_leaks_example =
    pop_bound_io_leaks reads 2000 large_waits 1500 0 (omega arith) large_waits-IsCounted
      (omega arith) large_is_found

-- A coroutine waits to read from descriptor 7, and the descriptor is dropped.
abbrev small_waits : Poller
small_waits = (add_io_event (init 3) (read_of 7)).0

small_waits_reached : Reachable kernel reads 1024 small_waits
small_waits_reached = adds_io (init 3) (read_of 7) (omega arith) (begins 3)

abbrev dropped : Poller
dropped = drop_all small_waits 7

dropped_reached : Reachable kernel reads 1024 dropped
dropped_reached = drops small_waits 7 (omega arith) small_waits_reached

Reachable-IsRight_example : IsRight 1024 small_waits
Reachable-IsRight_example =
    Reachable-IsRight kernel reads 1024 small_waits (omega arith) small_waits_reached

is_done : is_poller_done dropped ≡ true
unfolding is_poller_done drop_all add_io_event init libarc.Prelude.Int.◌+ℤ◌ libarc.Prelude.Int.◌-ℤ◌
is_done = refl

is_poller_done_lem_example :
    ((fd : ℕ) (t : IoType) → queues dropped fd t ≡ [])
    × (dropped.time_events ≡ [])
    × (dropped.pending_user_events ≡ [])
    × (dropped.triggered_user_events ≡ [])
    × (dropped.pending_bound_events ≡ [])
    × (dropped.triggered_bound_events ≡ [])
    × (dropped.is_dispatcher_registered ≡ false)
is_poller_done_lem_example =
    is_poller_done_lem kernel reads 1024 dropped (omega arith) dropped_reached is_done

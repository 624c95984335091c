-- ===== src/Tests/PollerRuns.antt =====
-- A wait, a trigger and a cancellation.
use libarc.Prelude.{
  ℕ, zero, suc, ap, ◌+◌, ◌<◌, ◌≡◌, ◌≢◌, refl, true, false, List, [], ◌∷◌, length, Outcome, ok,
  throws, undefined, count, arith,
}
use libarc.Events.{IoType, IoEvent, UserEvent, Todo}
use libarc.Poller.State.{Poller, init, add_io_event, add_user_event}
use libarc.Poller.UserEvents.{trigger_user_event, user_id}
use libarc.Poller.BoundEvents.{remove_bound_event, unbind}
use libarc.Poller.IoEvents.{pop_io_event, popped}
use libarc.Poller.Wait.{
  Ready, Answers, WaitState, wait_events, io_phase, io_round, take_io, time_phase, time_loop,
  user_phase, drain_if, user_loop, bound_loop,
}
use libarc.Poller.Wait.Bounds.{io_phase_overflows, AllBoth}
use libarc.Poller.Registry.{
  IsRegistered, init-IsRegistered, add_user_event-IsRegistered, trigger_user_event_pending,
  trigger_user_event_twice, wait_events-IsRegistered,
}

abbrev read_event : (fd : ℕ) → IoEvent
read_event fd = record {
  event_id = 0;
  fd = fd;
  io_type = IoType.read;
  handle = 70;
  is_interrupted = false;
}

abbrev user_event : UserEvent
user_event = record { event_id = 0; handle = 71; is_interrupted = false }

abbrev first_of : List IoEvent → ℕ → IoEvent
first_of [] id = read_event 0
first_of (e ∷ es) id = e

-- An eventfd 3, and a coroutine that waits for a user event.
abbrev one_pending : Poller
one_pending = (add_user_event (init 3) user_event).0

one_pending-IsRegistered : IsRegistered one_pending
unfolding init
one_pending-IsRegistered =
    add_user_event-IsRegistered (init 3) user_event (omega arith) (init-IsRegistered 3)

one_waits : 0 < count user_id 0 one_pending.pending_user_events
unfolding add_user_event init count
one_waits = omega arith

trigger_user_event_pending_example :
    (p' : Poller) × (trigger_user_event one_pending 0 true ≡ ok (p', true))
    × IsRegistered p'
    × (count user_id 0 p'.pending_user_events ≡ 0)
    × (count user_id 0 p'.triggered_user_events ≡ 1)
    × (length p'.pending_user_events + 1 ≡ length one_pending.pending_user_events)
    × ((j : ℕ)
        → 0 ≢ j
        → count user_id j p'.pending_user_events ≡ count user_id j one_pending.pending_user_events)
    × (p'.user_events ≡ one_pending.user_events)
trigger_user_event_pending_example =
    trigger_user_event_pending one_pending 0 one_pending-IsRegistered one_waits

-- The event has been triggered.
abbrev one_triggered : Poller
one_triggered = record one_pending {
  pending_user_events = [];
  triggered_user_events = user_event ∷ [];
}

one_triggered-IsRegistered : IsRegistered one_triggered
unfolding add_user_event init count
one_triggered-IsRegistered = record {
  once = λ i. ground arith;
  named = λ i e h. ground arith;
  fresh = λ i h. ground arith;
}

one_is_triggered : 0 < count user_id 0 one_triggered.triggered_user_events
unfolding count
one_is_triggered = omega arith

trigger_user_event_twice_example : trigger_user_event one_triggered 0 true ≡ undefined
trigger_user_event_twice_example =
    trigger_user_event_twice one_triggered 0 true one_triggered-IsRegistered one_is_triggered

-- Descriptor 7 has become readable while the user event was triggered.
abbrev busy : Poller
busy = (add_io_event one_triggered (read_event 7)).0

busy-IsRegistered : IsRegistered busy
unfolding add_io_event add_user_event init count
busy-IsRegistered = record {
  once = λ i. ground arith;
  named = λ i e h. ground arith;
  fresh = λ i h. ground arith;
}

abbrev answers : Answers
answers = record {
  ready = record { fd = 7; events = 1 } ∷ record { fd = 3; events = 1 } ∷ [];
  now = 0;
  read_ok = true;
  trigger_ok = λ i. true;
  write_ok = true;
}

-- What is left of a wait that returned.
abbrev after_wait : Outcome (Poller × List Todo) → Poller
after_wait (ok (p, todo)) = p
after_wait (throws e) = init 3
after_wait undefined = init 3

abbrev handed_out : Outcome (Poller × List Todo) → List Todo
handed_out (ok (p, todo)) = todo
handed_out (throws e) = []
handed_out undefined = []

busy_wait :
    wait_events first_of busy answers
    ≡ ok (
      after_wait (wait_events first_of busy answers),
      handed_out (wait_events first_of busy answers),
    )
unfolding add_io_event add_user_event init wait_events io_phase io_round take_io pop_io_event popped
    time_phase time_loop user_phase drain_if remove_bound_event user_loop unbind bound_loop
busy_wait = refl

wait_events-IsRegistered_example : IsRegistered (after_wait (wait_events first_of busy answers))
wait_events-IsRegistered_example =
    wait_events-IsRegistered first_of busy answers busy_wait busy-IsRegistered

both_are_handed_out : length (handed_out (wait_events first_of busy answers)) ≡ 2
unfolding add_io_event add_user_event init wait_events io_phase io_round take_io pop_io_event popped
    time_phase time_loop user_phase drain_if remove_bound_event user_loop unbind bound_loop
both_are_handed_out = refl

-- More descriptors than the array of identifiers has room for, each ready in both directions.
abbrev both_ways : (n : ℕ) → List Ready
both_ways zero = []
both_ways (suc n) = record { fd = n + 10; events = 5 } ∷ both_ways n

both_ways-AllBoth : (n : ℕ) → AllBoth 3 (both_ways n)
both_ways-AllBoth zero = tt
both_ways-AllBoth (suc n) = ((omega arith, refl, refl), both_ways-AllBoth n)

length-both_ways : (n : ℕ) → length (both_ways n) ≡ n
length-both_ways zero = refl
length-both_ways (suc n) = ap suc (length-both_ways n)

abbrev idle : WaitState
idle = record {
  poller = record one_pending { user_event_fd = 3 };
  todo = [];
  is_user_event_triggered = false;
}

io_phase_overflows_example : io_phase idle (both_ways 513) ≡ undefined
io_phase_overflows_example =
    io_phase_overflows (both_ways 513) idle (both_ways-AllBoth 513)
      (omega (arith, length-both_ways 513)) (omega arith)

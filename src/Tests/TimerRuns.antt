-- ===== src/Tests/TimerRuns.antt =====
-- Time events of a poller: two that sleep, and a timeout for an event that waits.
use libarc.Prelude.{
  ℕ, zero, suc, ap, ◌+◌, ◌^◌, ◌≡◌, refl, true, false, List, [], ◌∷◌, length, count, ok, inr, arith,
}
use libarc.Events.{TimeEvent, BoundEvent, IoEvent, IoType, Todo, time, sleep, timeout, timeout_io}
use libarc.Poller.State.{
  Poller, init, add_time_event, add_bound_event, push_time, max_events_size_per_wait,
}
use libarc.Poller.Wait.{Answers, WaitState, time_phase}
use libarc.Poller.Trim.{trim_time_events}
use libarc.Poller.Timers.{IsSorted, due}
use libarc.Poller.Timers.Wake.{taken, time_phase_wakes, AllHeld, Woken}
use libarc.Poller.Timers.Sleep.{trim_time_events_sleeps, live, AllWithin, SleepsUntilFirst}

abbrev read_of : IoEvent
read_of = record {
  event_id = 0;
  fd = 7;
  io_type = IoType.read;
  handle = 70;
  is_interrupted = false;
}

abbrev limit : BoundEvent
limit = timeout_io 500 1005 read_of

abbrev sleepers : Poller
sleepers = add_bound_event (add_time_event (add_time_event (init 3) 1030 71) 1010 72) limit

abbrev in_order : List TimeEvent
in_order = timeout limit ∷ sleep 1 1010 72 ∷ sleep 0 1030 71 ∷ []

sleepers_order : sleepers.time_events ≡ in_order
unfolding add_bound_event add_time_event init push_time
sleepers_order = refl

sleepers-IsSorted : IsSorted sleepers.time_events
unfolding add_bound_event add_time_event init push_time
sleepers-IsSorted = ((omega arith, (omega arith, tt)), ((omega arith, tt), (tt, tt)))

-- The time at which all are due.
abbrev answers : Answers
answers = record { ready = []; now = 1035; read_ok = true; trigger_ok = λ i. true; write_ok = true }

-- With room for one event: the timeout goes off, the first sleeper is handed out, and the other, which
-- is due too, stays.
abbrev repeat : ℕ → Todo → List Todo
repeat zero t = []
repeat (suc n) t = let rest = repeat n t in t ∷ rest

length-repeat : (n : ℕ) (t : Todo) → length (repeat n t) ≡ n
length-repeat zero t = refl
length-repeat (suc n) t = ap suc (length-repeat n t)

abbrev nearly_full : List Todo
nearly_full = repeat 1023 (time 9 0 70)

abbrev waiting : WaitState
waiting = record { poller = sleepers; todo = nearly_full; is_user_event_triggered = false }

sleepers-AllHeld : AllHeld sleepers (taken 1 (due sleepers.is_valid 1035 sleepers.time_events))
unfolding add_bound_event add_time_event init push_time count
sleepers-AllHeld = (inr (omega arith), tt, tt)

sleepers_fit : length nearly_full + 1 ≡ max_events_size_per_wait
sleepers_fit = ap (λ n. n + 1) (length-repeat 1023 (time 9 0 70))

time_phase_wakes_example :
    (w' : WaitState) × (time_phase answers waiting ≡ ok w')
    × IsSorted w'.poller.time_events
    × Woken sleepers.is_valid 1035 1 sleepers.time_events waiting w'
time_phase_wakes_example =
    time_phase_wakes answers waiting 1 sleepers_fit sleepers-IsSorted (λ i. refl) sleepers-AllHeld

sleepers_soon : AllWithin (1000 + 2 ^ 31) (live sleepers sleepers.time_events)
unfolding add_bound_event add_time_event init push_time
sleepers_soon = (omega arith, (omega arith, (omega arith, tt)))

trim_time_events_sleeps_example :
    SleepsUntilFirst 1000
      (live sleepers sleepers.time_events)
      (trim_time_events sleepers 1000).next_wait_timeout
trim_time_events_sleeps_example =
    trim_time_events_sleeps sleepers 1000 sleepers-IsSorted sleepers_soon

-- ===== src/Poller/Timers/Sleep.antt =====
-- How long the poller of src/coro/poller/epoll.cc sleeps.
use libarc.Prelude.{
  ℕ, ◌+◌, ◌-◌, ◌^◌, ◌<◌, ◌≡◌, refl, Option, none, some, List, [], ◌∷◌, Bool-cases, inl, inr,
  if◌then◌else◌, arith,
}
use libarc.Events.{TimeEvent, get_wakeup_time}
use libarc.Poller.State.{Poller}
use libarc.Poller.Trim.{drop_invalid, next_timeout, trim_time_events, is_valid_time}
use libarc.Poller.Timers.{AllFrom, IsSorted}

-- The valid events, in their order.
abbrev pub live : Poller → List TimeEvent → List TimeEvent
live p [] = []
live p (t ∷ ts) = let rest = live p ts in if is_valid_time p t then t ∷ rest else rest

-- The first of the valid events is due after this time at the latest, and nothing before.
abbrev pub SleepsUntilFirst : (now : ℕ) → List TimeEvent → Option ℕ → Type 0
SleepsUntilFirst now [] o = o ≡ none
SleepsUntilFirst now (t ∷ ts) o =
    (o ≡ some (get_wakeup_time t - now)) × AllFrom (get_wakeup_time t) ts

abbrev pub AllWithin : (end : ℕ) → List TimeEvent → Type 0
AllWithin end [] = Unit
AllWithin end (t ∷ ts) = (get_wakeup_time t < end) × AllWithin end ts

live-AllFrom : (p : Poller) (w : ℕ) (ts : List TimeEvent) → AllFrom w ts → AllFrom w (live p ts)
live-AllFrom p w [] all = tt
live-AllFrom p w (t ∷ ts) (here, all) =
    let rest = live-AllFrom p w ts all in
    elim (Bool-cases (is_valid_time p t)) [
      | inl is ↦ rw is (here, rest)
      | inr is_not ↦ rw is_not rest
    ]

next_timeout-first :
    (p : Poller) (now : ℕ) (ts : List TimeEvent)
    → IsSorted ts
    → AllWithin (now + 2 ^ 31) (live p ts)
    → SleepsUntilFirst now (live p ts) (next_timeout now (drop_invalid p ts))
unfolding drop_invalid
next_timeout-first p now [] sorted soon = refl
next_timeout-first p now (t ∷ ts) (below, sorted) soon = elim (Bool-cases (is_valid_time p t)) [
  | inl is ↦
      let within : get_wakeup_time t < now + 2 ^ 31 = (rw is at soon).0 in
      rw is (ground arith, live-AllFrom p (get_wakeup_time t) ts below)
  | inr is_not ↦ rw is_not (next_timeout-first p now ts sorted (rw is_not at soon))
]

-- If the time events are in order, and the valid ones are due within 2 ^ 31 milliseconds, the next
-- wait lasts until the first of them at the most, not at all if that is due already, and without an
-- end if there is none.
pub trim_time_events_sleeps :
    (p : Poller) (now : ℕ)
    → IsSorted p.time_events
    → AllWithin (now + 2 ^ 31) (live p p.time_events)
    → SleepsUntilFirst now (live p p.time_events) (trim_time_events p now).next_wait_timeout
unfolding trim_time_events
trim_time_events_sleeps p now sorted soon = next_timeout-first p now p.time_events sorted soon

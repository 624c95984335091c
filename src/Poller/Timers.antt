-- ===== src/Poller/Timers.antt =====
-- The time events of src/coro/poller/epoll.cc: which are due when a wait ends, and in which order they
-- are kept.
pub mod Wake
pub mod Sleep
use libarc.Prelude.{
  ℕ, ◌+◌, ◌<◌, ◌≤◌, ◌≡◌, ◌⊎◌, inl, inr, refl, sym, ap, ◌∙◌, Bool, true, false, not, ◌&&◌, ◌||◌,
  Option, none, some, List, [], ◌∷◌, ◌++◌, ltb, leb, ◌==◌, ==_iff, if◌then◌else◌, length, count,
  update, erase_key, take_out, take_out-TakesOut, Bool-cases, Option-cases, Outcome, ok, ◌>>=◌,
  defined, require, arith,
}
use libarc.Events.{TimeEvent, BoundEvent, sleep, timeout, get_wakeup_time, Todo, time}
use libarc.Poller.State.{Poller, push_time, max_events_size_per_wait}
use libarc.Poller.BoundEvents.{address_of, bound_triggered, trigger_bound_event}
use libarc.Poller.Trim.{is_valid_time}
use libarc.Poller.Wait.{WaitState, Answers, set_time_events, fire, time_loop, time_phase}

-- In the order of their times.
abbrev pub AllFrom : (wakeup : ℕ) → List TimeEvent → Type 0
AllFrom w [] = Unit
AllFrom w (t ∷ ts) = (w ≤ get_wakeup_time t) × AllFrom w ts

abbrev pub IsSorted : List TimeEvent → Type 0
IsSorted [] = Unit
IsSorted (t ∷ ts) = AllFrom (get_wakeup_time t) ts × IsSorted ts

AllFrom-le : (v w : ℕ) (ts : List TimeEvent) → v ≤ w → AllFrom w ts → AllFrom v ts
AllFrom-le v w [] le all = tt
AllFrom-le v w (t ∷ ts) le (here, all) = (omega (arith, le, here), AllFrom-le v w ts le all)

push_time-AllFrom :
    (w : ℕ) (e : TimeEvent) (ts : List TimeEvent)
    → w ≤ get_wakeup_time e
    → AllFrom w ts
    → AllFrom w (push_time e ts)
unfolding push_time
push_time-AllFrom w e [] le all = (le, tt)
push_time-AllFrom w e (t ∷ ts) le (here, all) =
    let rest = push_time-AllFrom w e ts le all in
    elim (Bool-cases (ltb (get_wakeup_time e) (get_wakeup_time t))) [
      | inl before ↦ rw before (le, (here, all))
      | inr after ↦ rw after (here, rest)
    ]

-- A new time event goes behind those that are due no later than it.
pub push_time-IsSorted :
    (e : TimeEvent) (ts : List TimeEvent) → IsSorted ts → IsSorted (push_time e ts)
unfolding push_time
push_time-IsSorted e [] sorted = (tt, tt)
push_time-IsSorted e (t ∷ ts) (below, sorted) =
    elim (Bool-cases (ltb (get_wakeup_time e) (get_wakeup_time t))) [
      | inl before ↦
          let lt : get_wakeup_time e ≤ get_wakeup_time t = ground arith in
          rw before ((lt, AllFrom-le _ _ ts lt below), (below, sorted))
      | inr after ↦
          rw after (push_time-AllFrom _ e ts (ground arith) below, push_time-IsSorted e ts sorted)
    ]

-- Which events are valid; the others are timeouts whose event has come before.
module _ (is_valid : ℕ → Bool) (now : ℕ) where
  abbrev pub valid : TimeEvent → Bool
  valid (sleep i w h) = true
  valid (timeout b) = is_valid b.address

  -- The valid events that are due, and those that are not, in their order.
  abbrev pub due : List TimeEvent → List TimeEvent
  due [] = []
  due (t ∷ ts) =
      let rest = due ts in if valid t && leb (get_wakeup_time t) now then t ∷ rest else rest

  abbrev pub later : List TimeEvent → List TimeEvent
  later [] = []
  later (t ∷ ts) =
      let rest = later ts in if valid t && ltb now (get_wakeup_time t) then t ∷ rest else rest

  pub none_due : (ts : List TimeEvent) (w : ℕ) → now < w → AllFrom w ts → due ts ≡ []
  none_due [] w lt all = refl
  none_due (t ∷ ts) w lt (here, all) =
      let rest = none_due ts w lt all in
      elim (Bool-cases (valid t)) [ inl is ↦ ground arith | inr is_not ↦ ground arith ]

-- ===== src/Tests/LockRuns.antt =====
-- Two coroutines on one event loop over one lock: the first takes it, the second waits.
use libarc.Prelude.{
  ℕ, ◌≡◌, ◌≤◌, refl, true, false, some, [], ◌∷◌, ◌==◌, ok, Bool-cases, inl, inr, arith,
}
use libarc.Events.{UserEvent}
use libarc.Poller.State.{Poller, init, add_user_event}
use libarc.Poller.UserEvents.{trigger_user_event}
use libarc.Poller.Registry.{init-IsRegistered}
use libarc.EventLoopGroup.{
  EventLoopGroup, get_event_loop, put_event_loop, new_group, register_event_loop,
}
use libarc.Locks.Core.{LockCore, new_lock, unlock, acquire, add_pending_event_pair, try_lock}
use libarc.Locks.Handover.{IsOrderly, AllRegistered, unlock_hands_over}
use libarc.Locks.Exclusion.{
  System, Reach, start, later, takes, waits, mutual_exclusion, Reach-IsExclusive,
}

abbrev one_loop : EventLoopGroup
one_loop = (register_event_loop new_group (init 3)).0

one_loop-AllRegistered : AllRegistered one_loop
unfolding register_event_loop new_group
one_loop-AllRegistered l p h = elim (Bool-cases (0 == l)) [
  | inl first ↦ let same : init 3 ≡ p = ground arith in rw (← same) (init-IsRegistered 3)
  | inr other ↦ absurd (ground arith)
]

abbrev second : UserEvent
second = record { event_id = 0; handle = 72; is_interrupted = false }

abbrev taken : LockCore
taken = record { pending_event_pairs = []; is_locked = true }

abbrev waited_for : LockCore
waited_for = record { pending_event_pairs = (0, 0) ∷ []; is_locked = true }

abbrev after_queueing : EventLoopGroup
after_queueing = put_event_loop one_loop 0 (add_user_event (init 3) second).0

first_takes : acquire new_lock one_loop 0 second ≡ ok (taken, one_loop, true)
unfolding acquire new_lock try_lock
first_takes = refl

second_waits : acquire taken one_loop 0 second ≡ ok (waited_for, after_queueing, false)
unfolding acquire add_pending_event_pair register_event_loop new_group add_user_event init
second_waits = refl

loop_is_there : get_event_loop one_loop 0 ≡ some (init 3)
unfolding register_event_loop new_group
loop_is_there = refl

abbrev contended : System
contended = record { core = waited_for; group = after_queueing; inside = 1 }

contended-Reach : Reach contended
unfolding init
contended-Reach =
    later (later (start one_loop one_loop-AllRegistered) (takes 0 second first_takes))
      (waits 0 second (init 3) loop_is_there (omega arith) second_waits)

mutual_exclusion_example :
    (1 ≤ 1)
    × (◌≡◌ {A = ℕ} 1 0 → waited_for.pending_event_pairs ≡ [])
    × ((r : LockCore × EventLoopGroup) × (unlock waited_for after_queueing true ≡ ok r))
mutual_exclusion_example = mutual_exclusion contended-Reach

contended-IsOrderly : IsOrderly waited_for after_queueing
contended-IsOrderly = (Reach-IsExclusive contended-Reach).orderly

unlock_hands_over_example :
    (p : Poller) × (p' : Poller) × (get_event_loop after_queueing 0 ≡ some p)
    × (trigger_user_event p 0 true ≡ ok (p', true))
    × (unlock waited_for after_queueing true ≡ ok (taken, put_event_loop after_queueing 0 p'))
    × IsOrderly taken (put_event_loop after_queueing 0 p')
unlock_hands_over_example =
    unlock_hands_over waited_for after_queueing 0 0 [] refl contended-IsOrderly

taken-IsOrderly : IsOrderly taken one_loop
taken-IsOrderly =
    (Reach-IsExclusive
      (later (start one_loop one_loop-AllRegistered) (takes 0 second first_takes))).orderly

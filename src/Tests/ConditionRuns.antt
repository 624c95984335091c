-- ===== src/Tests/ConditionRuns.antt =====
-- Two coroutines that wait for a condition; the wait of a third was cut short.
use libarc.Prelude.{
  ◌<◌, ◌≡◌, refl, inl, inr, true, false, some, [], ◌∷◌, if◌then◌else◌, ◌==◌, ok, elem, count, arith,
}
use libarc.Events.{UserEvent}
use libarc.Poller.State.{Poller, init, add_user_event}
use libarc.EventLoopGroup.{
  EventLoopGroup, new_group, register_event_loop, get_event_loop, put_event_loop,
}
use libarc.Poller.UserEvents.{user_id}
use libarc.Poller.Registry.{IsRegistered, init-IsRegistered, add_user_event-IsRegistered}
use libarc.Conditions.Waiting.{notify_one}
use libarc.Conditions.Notify.{AllPassed, KeepsOthers, notify_one_wakes}
use libarc.Conditions.Core.{ConditionCore, trigger_all}
use libarc.Conditions.Broadcast.{trigger_each, trigger_all_runs}

abbrev waiter : UserEvent
waiter = record { event_id = 0; handle = 73; is_interrupted = false }

abbrev waiting_loop : Poller
waiting_loop = (add_user_event (add_user_event (init 3) waiter).0 waiter).0

abbrev waiting_group : EventLoopGroup
waiting_group = (register_event_loop new_group waiting_loop).0

abbrev awaited : ConditionCore
awaited = record {
  pending_events = (0, 0) ∷ (5, 0) ∷ (1, 0) ∷ [];
  pending_events_pairs = λ l. if l == 0 then 0 ∷ 1 ∷ [] else [];
}

trigger_all_runs_example :
    trigger_all awaited waiting_group true
    ≡ trigger_each ((0, 0) ∷ (5, 0) ∷ (1, 0) ∷ []) awaited.pending_events_pairs waiting_group true
trigger_all_runs_example = trigger_all_runs awaited waiting_group true

-- The first wait was cut short and its task went on; the second was cut short just now.
abbrev cut_short : ConditionCore
cut_short = record {
  pending_events = (0, 0) ∷ (5, 0) ∷ (1, 0) ∷ [];
  pending_events_pairs = λ l. if l == 0 then 5 ∷ 1 ∷ [] else [];
}

loop_is_there : get_event_loop waiting_group 0 ≡ some waiting_loop
unfolding register_event_loop new_group
loop_is_there = refl

waiting_loop-IsRegistered : IsRegistered waiting_loop
unfolding add_user_event init
waiting_loop-IsRegistered =
    add_user_event-IsRegistered (add_user_event (init 3) waiter).0 waiter (omega arith)
      (add_user_event-IsRegistered (init 3) waiter (omega arith) (init-IsRegistered 3))

one_passed : AllPassed cut_short.pending_events_pairs waiting_group ((0, 0) ∷ (5, 0) ∷ [])
unfolding add_user_event init
one_passed = (inl refl, (inr (inr (waiting_loop, loop_is_there, refl)), tt))

one_waits : 0 < count user_id 1 waiting_loop.pending_user_events
unfolding add_user_event init count
one_waits = omega arith

notify_one_wakes_example :
    (core' : ConditionCore) × (p' : Poller) × (notify_one cut_short waiting_group true
      ≡ ok (core', put_event_loop waiting_group 0 p'))
    × (core'.pending_events ≡ [])
    × (elem 1 (core'.pending_events_pairs 0) ≡ false)
    × KeepsOthers waiting_group 1 0 cut_short.pending_events_pairs core'.pending_events_pairs
    × IsRegistered p'
    × (count user_id 1 p'.pending_user_events ≡ 0)
    × (count user_id 1 p'.triggered_user_events ≡ 1)
notify_one_wakes_example =
    notify_one_wakes cut_short waiting_group waiting_loop ((0, 0) ∷ (5, 0) ∷ []) [] 1 0 refl
      one_passed refl loop_is_there waiting_loop-IsRegistered one_waits

-- ===== src/Conditions/Core.antt =====
-- `ConditionCore` and `ConditionAwaiter` of include/arc/coro/awaiter/condition_awaiter.h.
use libarc.Prelude.{
  ℕ, zero, suc, length, undefined, Bool, true, false, Option, none, some, List, [], ◌∷◌, ◌++◌,
  Outcome, ok, ◌>>=◌, defined, update, elem, set_insert, set_erase,
}
use libarc.Events.{UserEvent, cancel_user, timeout_user}
use libarc.Poller.State.{add_user_event, add_bound_event}
use libarc.Poller.UserEvents.{trigger_user_event}
use libarc.EventLoopGroup.{EventLoopGroup, get_event_loop, put_event_loop}
use libarc.Conditions.Cancellation.{AbortHandle, monostate, token, wakeup, set_event_and_loop}
use libarc.Locks.Core.{LockCore, unlock}

-- The set of a loop that has none is empty, as is that of a loop whose last event is erased.
pub record ConditionCore : Type 0 where
  pub pending_events : List (ℕ × ℕ)
  pub pending_events_pairs : ℕ → List ℕ

unfoldable pub new_condition : ConditionCore
new_condition = record { pending_events = []; pending_events_pairs = λ loop_id. [] }

-- With the event as it is afterwards.
unfoldable pub register :
    ConditionCore
    → EventLoopGroup
    → (loop_id : ℕ) → UserEvent
    → Outcome (ConditionCore × EventLoopGroup × UserEvent)
register core g loop_id event = do
  loop ← defined (get_event_loop g loop_id)
  let added = add_user_event loop event
  ok (
    record {
      pending_events = core.pending_events ++ (added.1.event_id, loop_id) ∷ [];
      pending_events_pairs =
          update core.pending_events_pairs loop_id
            (set_insert added.1.event_id (core.pending_events_pairs loop_id));
    },
    put_event_loop g loop_id added.0,
    added.1,
  )

-- `pending_events_` keeps the entry, which is passed over later.
unfoldable pub deregister : ConditionCore → (loop_id event_id : ℕ) → ConditionCore
deregister core loop_id event_id = record core {
  pending_events_pairs =
      update core.pending_events_pairs loop_id
        (set_erase event_id (core.pending_events_pairs loop_id));
}

-- Triggering the event in its loop; false if there is no such loop, or no such event in it.
unfoldable pub trigger_in :
    EventLoopGroup → (loop_id event_id : ℕ) → (wrote : Bool) → Outcome (EventLoopGroup × Bool)
trigger_in g loop_id event_id wrote = elim (get_event_loop g loop_id) [
  | none ↦ ok (g, false)
  | some loop ↦
      trigger_user_event loop event_id wrote >>= λ r. ok (put_event_loop g loop_id r.0, r.1)
]

-- Over `pending_events_`, until an event is triggered. Entries whose event is not registered any
-- more are passed over.
unfoldable pub trigger_internal :
    List (ℕ × ℕ)
    → (pairs : ℕ → List ℕ) → EventLoopGroup
    → (wrote : Bool) → Outcome (ConditionCore × EventLoopGroup)
trigger_internal [] pairs g wrote =
    ok (record { pending_events = []; pending_events_pairs = pairs }, g)
trigger_internal ((event_id, loop_id) ∷ rest) pairs g wrote = elim (elem event_id (pairs loop_id)) [
  | false ↦ trigger_internal rest pairs g wrote
  | true ↦
      let pairs' = update pairs loop_id (set_erase event_id (pairs loop_id)) in
      trigger_in g loop_id event_id wrote >>= λ r. elim r.1 [
        | true ↦ ok (record { pending_events = rest; pending_events_pairs = pairs' }, r.0)
        | false ↦ trigger_internal rest pairs' r.0 wrote
      ]
]

unfoldable pub trigger_one :
    ConditionCore → EventLoopGroup → (wrote : Bool) → Outcome (ConditionCore × EventLoopGroup)
trigger_one core g wrote = trigger_internal core.pending_events core.pending_events_pairs g wrote

-- The loop of `TriggerAll`, with fuel; `undefined` is a loop that still runs.
unfoldable pub trigger_loop :
    (fuel : ℕ)
    → List (ℕ × ℕ)
    → (pairs : ℕ → List ℕ) → EventLoopGroup
    → (wrote : Bool) → Outcome (ConditionCore × EventLoopGroup)
trigger_loop fuel [] pairs g wrote =
    ok (record { pending_events = []; pending_events_pairs = pairs }, g)
trigger_loop zero (p ∷ ps) pairs g wrote = undefined
trigger_loop (suc fuel) (p ∷ ps) pairs g wrote = trigger_internal (p ∷ ps) pairs g wrote >>= λ r.
    trigger_loop fuel r.0.pending_events r.0.pending_events_pairs r.1 wrote

-- As many rounds as there are entries are enough (`trigger_all_runs`).
unfoldable pub trigger_all :
    ConditionCore → EventLoopGroup → (wrote : Bool) → Outcome (ConditionCore × EventLoopGroup)
trigger_all core g wrote =
    trigger_loop (length core.pending_events) core.pending_events core.pending_events_pairs g wrote

-- What cuts the wait for `event` short is bound to it; the bound event is an object at `address`.
unfoldable pub bind_abort_handle :
    AbortHandle
    → EventLoopGroup
    → (loop_id address : ℕ) → UserEvent
    → Outcome (AbortHandle × EventLoopGroup)
bind_abort_handle monostate g loop_id address event = ok (monostate, g)
bind_abort_handle (token t) g loop_id address event =
    set_event_and_loop t g (cancel_user address event) loop_id >>= λ r. ok (token r.0, r.1)
bind_abort_handle (wakeup w) g loop_id address event =
    defined (get_event_loop g loop_id) >>= λ loop.
    ok (wakeup w, put_event_loop g loop_id (add_bound_event loop (timeout_user address w event)))

-- `lock_core_`, which may be null.
abbrev unlock_if :
    Option LockCore → EventLoopGroup → (wrote : Bool) → Outcome (Option LockCore × EventLoopGroup)
unlock_if none g wrote = ok (none, g)
unlock_if (some l) g wrote = unlock l g wrote >>= λ x. ok (some x.0, x.1)

-- `await_suspend`, on the event loop `loop_id`; the lock, if there is one, is released at last.
unfoldable pub await_suspend :
    ConditionCore
    → EventLoopGroup
    → (loop_id address : ℕ) → UserEvent
    → AbortHandle
    → Option LockCore
    → (wrote : Bool) → Outcome (ConditionCore × EventLoopGroup × AbortHandle × Option LockCore)
await_suspend core g loop_id address event handle lock wrote = do
  r ← register core g loop_id event
  h ← bind_abort_handle handle r.1 loop_id address r.2
  l ← unlock_if lock h.1 wrote
  ok (r.0, l.1, h.0, l.0)

-- `await_resume`, when the wait was cut short.
unfoldable pub await_resume : ConditionCore → (loop_id : ℕ) → UserEvent → ConditionCore
await_resume core loop_id event = elim event.is_interrupted [
  | true ↦ deregister core loop_id event.event_id
  | false ↦ core
]

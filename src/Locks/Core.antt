-- ===== src/Locks/Core.antt =====
-- `LockCore` and `LockAwaiter` of include/arc/coro/awaiter/lock_awaiter.h, and with them `Lock` of
-- include/arc/coro/locks/lock.h. `await_ready` takes the core's mutex and `await_suspend` gives it
-- back, so that both are one step.
use libarc.Prelude.{
  ℕ, Bool, true, false, List, [], ◌∷◌, ◌++◌, Outcome, ok, undefined, ◌>>=◌, defined,
}
use libarc.Events.{UserEvent}
use libarc.Poller.State.{add_user_event}
use libarc.Poller.UserEvents.{trigger_user_event}
use libarc.EventLoopGroup.{EventLoopGroup, get_event_loop, put_event_loop}

pub record LockCore : Type 0 where
  -- The identifiers of an event and of its event loop.
  pub pending_event_pairs : List (ℕ × ℕ)
  pub is_locked : Bool

unfoldable pub new_lock : LockCore
new_lock = record { pending_event_pairs = []; is_locked = false }

-- `assert(success)`
abbrev pub asserted : Bool → Outcome (Unit {0})
asserted true = ok tt
asserted false = undefined

-- The lock goes to the first coroutine in the queue, whose event loop is woken.
unfoldable pub unlock_next :
    LockCore → EventLoopGroup → List (ℕ × ℕ) → (wrote : Bool) → Outcome (LockCore × EventLoopGroup)
unlock_next core g [] wrote = ok (record core { is_locked = false }, g)
unlock_next core g ((event_id, loop_id) ∷ rest) wrote = do
  loop ← defined (get_event_loop g loop_id)
  (loop', success) ← trigger_user_event loop event_id wrote
  _ ← asserted success
  ok (record { pending_event_pairs = rest; is_locked = true }, put_event_loop g loop_id loop')

unfoldable pub unlock :
    LockCore → EventLoopGroup → (wrote : Bool) → Outcome (LockCore × EventLoopGroup)
unlock core g wrote = unlock_next core g core.pending_event_pairs wrote

unfoldable pub add_pending_event_pair :
    LockCore → EventLoopGroup → (loop_id : ℕ) → UserEvent → Outcome (LockCore × EventLoopGroup)
add_pending_event_pair core g loop_id event = defined (get_event_loop g loop_id) >>= λ loop.
    let (loop', e) = add_user_event loop event in
    ok (
      record core { pending_event_pairs = core.pending_event_pairs ++ (e.event_id, loop_id) ∷ [] },
      put_event_loop g loop_id loop',
    )

unfoldable pub try_lock : LockCore → LockCore × Bool
try_lock core = elim core.is_locked [
  | true ↦ (core, false)
  | false ↦ (record core { is_locked = true }, true)
]

-- `co_await lock.Acquire()` on the event loop `loop_id`: whether the coroutine goes on at once.
unfoldable pub acquire :
    LockCore
    → EventLoopGroup
    → (loop_id : ℕ) → UserEvent
    → Outcome (LockCore × EventLoopGroup × Bool)
acquire core g loop_id event = elim core.is_locked [
  | false ↦ ok ((try_lock core).0, g, true)
  | true ↦ add_pending_event_pair core g loop_id event >>= λ r. ok (r.0, r.1, false)
]

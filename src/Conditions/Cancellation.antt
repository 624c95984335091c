-- ===== src/Conditions/Cancellation.antt =====
-- `CancellationTokenCore` and `CancellationToken` of include/arc/coro/utils/cancellation_token.h.
use libarc.Prelude.{ℕ, Bool, none, some, List, [], ◌∷◌, ◌++◌, Outcome, ok, ◌>>=◌, defined}
use libarc.Events.{BoundEvent}
use libarc.Poller.State.{add_bound_event}
use libarc.Poller.BoundEvents.{trigger_bound_event}
use libarc.EventLoopGroup.{EventLoopGroup, get_event_loop, put_event_loop}

-- The identifier of the bound event is one of its fields.
pub record CancellationTokenCore : Type 0 where
  pub registered_events_pairs : List (BoundEvent × ℕ)

unfoldable pub new_token : CancellationTokenCore
new_token = record { registered_events_pairs = [] }

unfoldable pub set_event_and_loop :
    CancellationTokenCore
    → EventLoopGroup
    → BoundEvent
    → (loop_id : ℕ) → Outcome (CancellationTokenCore × EventLoopGroup)
set_event_and_loop core g event loop_id = defined (get_event_loop g loop_id) >>= λ loop. ok (
  record { registered_events_pairs = core.registered_events_pairs ++ (event, loop_id) ∷ [] },
  put_event_loop g loop_id (add_bound_event loop event),
)

unfoldable pub trigger_cancel :
    List (BoundEvent × ℕ) → EventLoopGroup → (wrote : Bool) → Outcome EventLoopGroup
trigger_cancel [] g wrote = ok g
trigger_cancel ((event, loop_id) ∷ rest) g wrote = elim (get_event_loop g loop_id) [
  | none ↦ trigger_cancel rest g wrote
  | some loop ↦ trigger_bound_event loop event.bound_event_id event wrote >>= λ loop'.
      trigger_cancel rest (put_event_loop g loop_id loop') wrote
]

-- Also the destructor.
unfoldable pub cancel :
    CancellationTokenCore
    → EventLoopGroup
    → (wrote : Bool) → Outcome (CancellationTokenCore × EventLoopGroup)
cancel core g wrote = trigger_cancel core.registered_events_pairs g wrote >>= λ g'.
    ok (record { registered_events_pairs = [] }, g')

-- `abort_handle_` of the awaiters: nothing, a token, or the time at which the wait ends.
pub data AbortHandle : Type 0 where
  monostate : AbortHandle
  token : CancellationTokenCore → AbortHandle
  wakeup : ℕ → AbortHandle

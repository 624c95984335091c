-- ===== src/Awaiters.antt =====
-- `IOAwaiter`, `TimeAwaiter` and `ExecutorAwaiter` of include/arc/coro/awaiter: what a coroutine
-- leaves with the poller of its event loop when it suspends.
use libarc.Prelude.{ℕ, Bool, true, false, ◌&&◌, if◌then◌else◌, Outcome, ok, ◌>>=◌, defined}
use libarc.Events.{IoEvent, UserEvent, cancel_io, timeout_io}
use libarc.Poller.State.{add_io_event, add_time_event, add_bound_event, add_user_event}
use libarc.ThreadPool.{ThreadPool, enqueue_task}
use libarc.EventLoopGroup.{EventLoopGroup, get_event_loop, put_event_loop}
use libarc.Conditions.Cancellation.{AbortHandle, monostate, token, wakeup, set_event_and_loop}

abbrev pub is_abortable : AbortHandle → Bool
is_abortable monostate = false
is_abortable (token t) = true
is_abortable (wakeup w) = true

-- What cuts the wait for `event` short is bound to it; the bound event is an object at `address`.
unfoldable pub bind_abort :
    AbortHandle
    → EventLoopGroup
    → (loop_id address : ℕ) → IoEvent
    → Outcome (AbortHandle × EventLoopGroup)
bind_abort monostate g loop_id address event = ok (monostate, g)
bind_abort (token t) g loop_id address event =
    set_event_and_loop t g (cancel_io address event) loop_id >>= λ r. ok (token r.0, r.1)
bind_abort (wakeup w) g loop_id address event = defined (get_event_loop g loop_id) >>= λ loop.
    ok (wakeup w, put_event_loop g loop_id (add_bound_event loop (timeout_io address w event)))

-- With the event as it is afterwards.
unfoldable pub suspend_io :
    AbortHandle
    → EventLoopGroup
    → (loop_id address : ℕ) → IoEvent
    → Outcome (AbortHandle × EventLoopGroup × IoEvent)
suspend_io abort g loop_id address event = do
  loop ← defined (get_event_loop g loop_id)
  let added = add_io_event loop event
  r ← bind_abort abort (put_event_loop g loop_id added.0) loop_id address added.1
  ok (r.0, r.1, added.1)

-- Which of the two functions the awaiter resumes with.
unfoldable pub resume_io {ℓ} : {A : Type ℓ} → AbortHandle → IoEvent → (resumed interrupted : A) → A
resume_io abort event resumed interrupted =
    if is_abortable abort && event.is_interrupted then interrupted else resumed

unfoldable pub suspend_time :
    EventLoopGroup → (loop_id next_wakeup_time handle : ℕ) → Outcome EventLoopGroup
suspend_time g loop_id next_wakeup_time handle = defined (get_event_loop g loop_id) >>= λ loop.
    ok (put_event_loop g loop_id (add_time_event loop next_wakeup_time handle))

-- `ExecutorAwaiter::await_suspend` of include/arc/coro/awaiter/executor_awaiter.h: a user event of the
-- coroutine waits in its event loop while the pool has the functor.
unfoldable pub suspend_executor :
    EventLoopGroup
    → ThreadPool
    → (loop_id address functor : ℕ) → UserEvent
    → Outcome (EventLoopGroup × ThreadPool)
suspend_executor g pool loop_id address functor event = do
  loop ← defined (get_event_loop g loop_id)
  pool' ← enqueue_task pool loop_id address functor
  ok (put_event_loop g loop_id (add_user_event loop event).0, pool')

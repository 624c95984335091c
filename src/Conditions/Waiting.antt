-- ===== src/Conditions/Waiting.antt =====
-- `Condition` of include/arc/coro/locks/condition.h. A task of it is given by what it does up to the
-- point where it waits, and from there on.
use libarc.Prelude.{ℕ, Bool, Option, none, some, Outcome, ok, ◌>>=◌}
use libarc.Events.{UserEvent}
use libarc.EventLoopGroup.{EventLoopGroup}
use libarc.Locks.Core.{LockCore, acquire}
use libarc.Conditions.Cancellation.{AbortHandle, wakeup}
use libarc.Conditions.Core.{ConditionCore, trigger_one, trigger_all, await_suspend, await_resume}

unfoldable pub notify_one :
    ConditionCore → EventLoopGroup → (wrote : Bool) → Outcome (ConditionCore × EventLoopGroup)
notify_one core g wrote = trigger_one core g wrote

unfoldable pub notify_all :
    ConditionCore → EventLoopGroup → (wrote : Bool) → Outcome (ConditionCore × EventLoopGroup)
notify_all core g wrote = trigger_all core g wrote

-- What a task has done when it waits.
abbrev Waits : Type 0
Waits = Outcome (ConditionCore × EventLoopGroup × AbortHandle × Option LockCore)

-- `Wait`, with a lock or without one, and with a token or without one.
unfoldable pub wait :
    ConditionCore
    → EventLoopGroup
    → (loop_id address : ℕ) → UserEvent
    → AbortHandle
    → Option LockCore
    → (wrote : Bool) → Waits
wait core g loop_id address event handle lock wrote =
    await_suspend core g loop_id address event handle lock wrote

-- `WaitFor` without a lock.
unfoldable pub wait_for :
    ConditionCore
    → EventLoopGroup
    → (loop_id : ℕ) → UserEvent
    → (address wakeup_time : ℕ) → (wrote : Bool) → Waits
wait_for core g loop_id event address wakeup_time wrote =
    await_suspend core g loop_id address event (wakeup wakeup_time) none wrote

-- `WaitFor` with a lock: the awaiter is not awaited.
unfoldable pub wait_for_locked :
    LockCore
    → EventLoopGroup
    → (loop_id : ℕ) → UserEvent
    → Outcome (LockCore × EventLoopGroup × Bool)
wait_for_locked lock g loop_id event = acquire lock g loop_id event

-- The rest of a task, when the poller resumes it: the lock, if there is one, is acquired again, for
-- which `event` waits; the answer is whether the task goes on at once.
unfoldable pub wait_goes_on :
    ConditionCore
    → EventLoopGroup
    → (loop_id : ℕ) → (awaited event : UserEvent) → Option LockCore
    → Outcome (ConditionCore × EventLoopGroup × Option (LockCore × Bool))
wait_goes_on core g loop_id awaited event none = ok (await_resume core loop_id awaited, g, none)
wait_goes_on core g loop_id awaited event (some lock) = acquire lock g loop_id event >>= λ r.
    ok (await_resume core loop_id awaited, r.1, some (r.0, r.2))

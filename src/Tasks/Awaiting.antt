-- ===== src/Tasks/Awaiting.antt =====
-- What `co_await` of a `Task` of include/arc/coro/task.h gives.
use libarc.Prelude.{ℕ, ◌≡◌, false, Option, some, ==_iff, Outcome, ok, throws, ◌>>=◌, arith}
use libarc.EventLoop.Core.{EventLoop}
use libarc.Tasks.Promise.{
  no_return, set_continuation, return_value, unhandled_exception, resumed_at_end, result,
}
use libarc.Tasks.Handle.{
  Frame, Frames, Task, Completion, co_return, throw, await_suspend, await_ready, await_resume,
  finish,
}

-- What the body ended with, as the one that awaits it sees it.
abbrev pub outcome_of : {A : Type 0} → Completion A → Outcome A
outcome_of (co_return a) = ok a
outcome_of (throw e) = throws e

-- The one that awaits, the body's end, and then what the one that awaits reads.
abbrev pub await :
    {A : Type 0}
    → Task
    → (h k : ℕ) → Completion A
    → Frames A
    → EventLoop
    → Outcome (ℕ × Outcome (Option ℕ) × Outcome A)
await t h k c frames l = do
  s ← await_suspend t k frames
  r ← finish h c s.1 l
  ok (s.0, r.2, await_resume t r.0)

-- If a coroutine that awaits a task finds it not done, the task's coroutine runs next; when its
-- body ends, with a value or with an exception, the one that awaits is resumed and gets the value
-- or the exception, and no exception leaves the task's coroutine. (The frame is there, has not
-- returned yet, and is not at its end.)
pub await_delivers :
    {A : Type 0} (t : Task) (h k : ℕ) (c : Completion A) (frames : Frames A) (l : EventLoop)
    (f : Frame A)
    → t.coroutine ≡ some h
    → frames h ≡ some f
    → f.is_done ≡ false
    → f.promise.return_type ≡ no_return
    → (await_ready t frames ≡ ok false)
      × (await t h k c frames l ≡ ok (h, ok (some k), outcome_of c))
unfolding await_ready await_suspend await_resume finish set_continuation return_value
    unhandled_exception resumed_at_end result
await_delivers t h k (co_return a) frames l f at there running fresh =
    (ground arith, ground (arith, ==_iff h h))
await_delivers t h k (throw e) frames l f at there running fresh =
    (ground arith, ground (arith, ==_iff h h))

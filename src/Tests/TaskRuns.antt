-- ===== src/Tests/TaskRuns.antt =====
-- Concrete runs of the tasks.
use libarc.Prelude.{ℕ, ◌≡◌, refl, false, none, some, [], ◌∷◌, insert, ok, Exception}
use libarc.EventLoop.Core.{EventLoop, new_event_loop}
use libarc.Tasks.Promise.{new_promise}
use libarc.Tasks.Handle.{Frame, Frames, Task, new_task, co_return, throw, await_ready}
use libarc.Tasks.Awaiting.{await, outcome_of, await_delivers}
use libarc.Tasks.Lifetime.{Program, creates, ensures, drops, ends, cleans_up, act}
use libarc.Tasks.Detached.{
  Reachable, begins, then_act, acts_succeed, ensured_is_freed, Frees, act_all,
}

abbrev a_loop : EventLoop
a_loop = new_event_loop 1 5

abbrev new_frame : Frame ℕ
new_frame = record { promise = new_promise; is_done = false }

abbrev one_frame : Frames ℕ
one_frame = insert 3 new_frame (λ h. none)

abbrev a_task : Task
a_task = record { coroutine = some 3; need_clean = false }

await_delivers_example :
    (await_ready a_task one_frame ≡ ok false)
    × (await a_task 3 8 (throw Exception.io_exception) one_frame a_loop
        ≡ ok (3, ok (some 8), outcome_of (throw Exception.io_exception)))
unfolding new_promise
await_delivers_example =
    await_delivers a_task 3 8 (throw Exception.io_exception) one_frame a_loop new_frame refl refl
      refl refl

abbrev nothing_yet : Program ℕ
nothing_yet = record { frames = λ h. none; tasks = λ h. none; loop = a_loop }

abbrev one_task : Program ℕ
one_task = record nothing_yet { frames = one_frame; tasks = insert 3 a_task (λ h. none) }

nothing_yet-Reachable : Reachable nothing_yet
unfolding new_event_loop
nothing_yet-Reachable = begins nothing_yet (λ h. refl) (λ h. refl) refl

one_task-Reachable : Reachable one_task
unfolding act new_task
one_task-Reachable = then_act (creates 3) nothing_yet one_task nothing_yet-Reachable refl refl

acts_succeed_example : (w : Program ℕ) × (act (drops 3) one_task ≡ ok w)
acts_succeed_example = acts_succeed one_task (drops 3) one_task-Reachable (a_task, refl)

ensured_is_freed_example :
    Frees 3 (act_all (ensures 3 ∷ drops 3 ∷ ends 3 (co_return 7) ∷ cleans_up ∷ []) one_task)
    × Frees 3 (act_all (ensures 3 ∷ ends 3 (co_return 7) ∷ drops 3 ∷ []) one_task)
ensured_is_freed_example =
    ensured_is_freed one_task 3 a_task new_frame (co_return 7) one_task-Reachable refl refl refl

-- ===== src/Tasks/Handle.antt =====
-- `Task` of include/arc/coro/task.h, over the coroutines' frames; and src/coro/task.cc.
use libarc.Prelude.{
  ℕ, Bool, true, false, Option, none, some, List, [], ◌∷◌, Map, insert, erase_key, if◌then◌else◌,
  Outcome, ok, undefined, Exception, defined, ◌>>=◌,
}
use libarc.EventLoop.Core.{EventLoop, clean_up_finished_coroutines}
use libarc.Tasks.Promise.{
  Promise, new_promise, set_continuation, set_need_clean, resumed_at_end, unhandled_exception,
  return_value, result,
}

-- `is_done` is that the coroutine stands at its final suspension.
pub record Frame (A : Type 0) : Type 0 where
  pub promise : Promise A
  pub is_done : Bool

-- The frames that have not been destroyed.
abbrev pub Frames : Type 0 → Type 0
Frames A = Map (Frame A)

pub record Task : Type 0 where
  pub coroutine : Option ℕ
  pub need_clean : Bool

-- How a body ends.
pub data Completion (A : Type 0) : Type 0 where
  co_return : A → Completion A
  throw : Exception → Completion A

module _ {A : Type 0} where
  -- A frame that is gone may not be destroyed again.
  unfoldable pub destroy_frame : ℕ → Frames A → Outcome (Frames A)
  destroy_frame h frames = defined (frames h) >>= λ f. ok (erase_key h frames)

  unfoldable pub new_task : (h : ℕ) → Frames A → Task × Frames A
  new_task h frames = (
    record { coroutine = some h; need_clean = false },
    insert h (record { promise = new_promise; is_done = false }) frames,
  )

  -- The destructor.
  unfoldable pub drop_task : Task → Frames A → Outcome (Frames A)
  drop_task t frames = elim t.coroutine [
    | none ↦ ok frames
    | some h ↦ defined (frames h) >>= λ f.
        if f.is_done
        then destroy_frame h frames
        else ok (insert h (record f { promise = set_need_clean f.promise t.need_clean }) frames)
  ]

  -- The move assignment between two variables. `need_clean_` stays as it was.
  unfoldable pub assign_task : (this other : Task) → Frames A → Outcome (Task × Task × Frames A)
  assign_task this other frames = elim this.coroutine [
    | none ↦
        ok (record this { coroutine = other.coroutine }, record other { coroutine = none }, frames)
    | some h ↦ destroy_frame h frames >>= λ frames'.
        ok (record this { coroutine = other.coroutine }, record other { coroutine = none }, frames')
  ]

  unfoldable pub await_ready : Task → Frames A → Outcome Bool
  await_ready t frames = elim t.coroutine [
    | none ↦ ok true
    | some h ↦ defined (frames h) >>= λ f. ok f.is_done
  ]

  -- With the coroutine that runs next.
  unfoldable pub await_suspend : Task → (k : ℕ) → Frames A → Outcome (ℕ × Frames A)
  await_suspend t k frames = do
    h ← defined t.coroutine
    f ← defined (frames h)
    ok (h, insert h (record f { promise = set_continuation f.promise k }) frames)

  unfoldable pub await_resume : Task → Frames A → Outcome A
  await_resume t frames = do h ← defined t.coroutine; f ← defined (frames h); result f.promise

  -- The body of the coroutine `h` ends: what it resumes next, or the exception that leaves it.
  unfoldable pub finish :
      (h : ℕ)
      → Completion A
      → Frames A
      → EventLoop
      → Outcome (Frames A × EventLoop × Outcome (Option ℕ))
  finish h (co_return a) frames l = defined (frames h) >>= λ f.
      let r = return_value h a f.promise l in
      ok (insert h (record { promise = r.0; is_done = true }) frames, r.1, ok (resumed_at_end r.0))
  finish h (throw e) frames l = defined (frames h) >>= λ f.
      let r = unhandled_exception h e f.promise l in
      ok (
        insert h (record { promise = r.0; is_done = true }) frames,
        r.1,
        r.2 >>= λ u. ok (resumed_at_end r.0),
      )

  unfoldable pub destroy_all : List ℕ → Frames A → Outcome (Frames A)
  destroy_all [] frames = ok frames
  destroy_all (h ∷ hs) frames = destroy_frame h frames >>= destroy_all hs

  -- `EventLoop::CleanUpFinishedCoroutines`
  unfoldable pub clean_up : EventLoop → Frames A → Outcome (EventLoop × Frames A)
  clean_up l frames = destroy_all l.to_clean_up_handles frames >>= λ frames'.
      ok (clean_up_finished_coroutines l, frames')

-- The move constructor, with the other one. `need_clean_` stays behind.
unfoldable pub move_task : Task → Task × Task
move_task other =
    (record { coroutine = other.coroutine; need_clean = false }, record other { coroutine = none })

-- With the coroutine that is resumed. One that stands at its final suspension, or whose frame is gone,
-- may not be resumed.
unfoldable pub start : {A : Type 0} → Task → (need_clean : Bool) → Frames A → Outcome (Task × ℕ)
start t need_clean frames = defined t.coroutine >>= λ h. defined (frames h) >>= λ f.
    if f.is_done then undefined else ok (record t { need_clean = need_clean }, h)

unfoldable pub ensure_future : {A : Type 0} → Task → Frames A → Outcome (Task × ℕ)
ensure_future t frames = start t true frames

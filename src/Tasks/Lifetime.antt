-- ===== src/Tasks/Lifetime.antt =====
-- When a coroutine's frame is destroyed, for the tasks of include/arc/coro/task.h that are started
-- and left to run (`EnsureFuture` of src/coro/task.cc): by the task's destructor if the coroutine
-- has finished before, and by the event loop otherwise.
use libarc.Prelude.{
  ℕ, ◌≡◌, sym, subst, Bool, true, false, ◌&&◌, Option, none, some, ◌==◌, ==_iff, Bool-cases, ◌⊎◌,
  inl, inr, count, insert, erase_key, if◌then◌else◌, Outcome, ok, ◌>>=◌, defined,
}
use libarc.EventLoop.Core.{EventLoop}
use libarc.Tasks.Promise.{no_return}
use libarc.Tasks.Handle.{
  Frame, Frames, Task, Completion, new_task, drop_task, ensure_future, finish, clean_up,
}
use libarc.Tasks.CleanUp.{self}

-- `tasks h` is the task that holds the coroutine `h`, if there is one.
pub record Program (A : Type 0) : Type 0 where
  pub frames : Frames A
  pub tasks : ℕ → Option Task
  pub loop : EventLoop

pub data Act (A : Type 0) : Type 0 where
  creates ensures drops : (h : ℕ) → Act A
  ends : (h : ℕ) → Completion A → Act A
  cleans_up : Act A

module _ {A : Type 0} where
  unfoldable pub act : Act A → Program A → Outcome (Program A)
  act (creates h) w =
      let r = new_task h w.frames in ok (record w { frames = r.1; tasks = insert h r.0 w.tasks })
  act (ensures h) w = do
    t ← defined (w.tasks h)
    r ← ensure_future t w.frames
    ok (record w { tasks = insert h r.0 w.tasks })
  act (drops h) w = do
    t ← defined (w.tasks h)
    frames ← drop_task t w.frames
    ok (record w { frames = frames; tasks = erase_key h w.tasks })
  act (ends h c) w = do r ← finish h c w.frames w.loop; ok (record w { frames = r.0; loop = r.1 })
  act cleans_up w = do r ← clean_up w.loop w.frames; ok (record w { loop = r.0; frames = r.1 })

  -- A frame is made at a new address; a task is started while its coroutine has not ended; a body
  -- ends once; a task is destroyed if there is one.
  abbrev pub IsAllowed : Act A → Program A → Type 0
  IsAllowed (creates h) w = w.frames h ≡ none
  IsAllowed (ensures h) w =
      (t : Task) × (w.tasks h ≡ some t)
      × ((f : Frame A) × (w.frames h ≡ some f) × (f.is_done ≡ false))
  IsAllowed (drops h) w = (t : Task) × (w.tasks h ≡ some t)
  IsAllowed (ends h c) w = (f : Frame A) × (w.frames h ≡ some f) × (f.is_done ≡ false)
  IsAllowed cleans_up w = Unit {0}

  -- How often the event loop is to destroy the coroutine `h`, given its frame and its task: once if
  -- it has ended without a task and was to be cleaned up, and never otherwise.
  abbrev pub IsOwed : (h : ℕ) → Option (Frame A) → Option Task → ℕ → Type 0
  IsOwed h none none n = n ≡ 0
  IsOwed h none (some t) n = ⊥
  IsOwed h (some f) (some t) n =
      (n ≡ 0)
      × (t.coroutine ≡ some h)
      × (f.promise.need_manual_clean ≡ false)
      × ((f.is_done ≡ true) ⊎ (f.promise.return_type ≡ no_return))
  IsOwed h (some f) none n =
      (n ≡ (if f.is_done && f.promise.need_manual_clean then 1 else 0))
      × ((f.is_done ≡ true) ⊎ (f.promise.return_type ≡ no_return))

  abbrev pub IsSound : Program A → Type 0
  IsSound w = (h : ℕ) → IsOwed h (w.frames h) (w.tasks h) (count self h w.loop.to_clean_up_handles)

  -- The action is carried out, and what it leaves is in order.
  abbrev pub Succeeds : Outcome (Program A) → Type 0
  Succeeds r = (w : Program A) × (r ≡ ok w) × IsSound w

-- At the key that is written to, and at another.
pub written : (P : ℕ → Bool → Type 0) (h k : ℕ) → P h true → P k false → P k (h == k)
written P h k here there = elim (Bool-cases (h == k)) [
  | inl same ↦ subst (P k) (sym same) (subst (λ x. P x true) ((==_iff h k).0 same) here)
  | inr other ↦ subst (P k) (sym other) there
]

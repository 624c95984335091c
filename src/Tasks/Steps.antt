-- ===== src/Tasks/Steps.antt =====
-- That the tasks of include/arc/coro/task.h may be created, started and destroyed in any order.
use libarc.Prelude.{
  ℕ, ◌≡◌, refl, sym, subst, true, false, Option, none, some, ==_iff, Bool-cases, inl, inr, count,
  insert, erase_key, if◌then◌else◌, arith,
}
use libarc.Tasks.Promise.{new_promise, set_need_clean}
use libarc.Tasks.Handle.{Frame, Task, new_task, drop_task, destroy_frame, ensure_future, start}
use libarc.Tasks.CleanUp.{self}
use libarc.Tasks.Lifetime.{
  Program, creates, ensures, drops, act, IsAllowed, IsOwed, IsSound, Succeeds, written,
}

module _ {A : Type 0} where
  IsOwed-nothing :
      (h : ℕ) (f : Option (Frame A)) (t : Option Task) (n : ℕ)
      → IsOwed h f t n
      → f ≡ none
      → (n ≡ 0) × (t ≡ none)
  IsOwed-nothing h none none n owed e = (owed, refl)
  IsOwed-nothing h none (some t) n owed e = absurd owed
  IsOwed-nothing h (some f) t n owed e = cc

  pub creates-IsSound :
      (h : ℕ) (w : Program A) → IsAllowed (creates h) w → IsSound w → Succeeds (act (creates h) w)
  unfolding act new_task new_promise
  creates-IsSound h w new sound =
      let free = IsOwed-nothing h (w.frames h) (w.tasks h) _ (sound h) new in
      (
        _,
        refl,
        λ k.
            written
              (λ x b.
                IsOwed x
                  (if b
                    then some (record { promise = new_promise; is_done = false })
                    else w.frames x)
                  (if b
                    then some (record { coroutine = some h; need_clean = false })
                    else w.tasks x)
                  (count self x w.loop.to_clean_up_handles))
              h k (free.0, refl, refl, inr refl) (sound k),
      )

  -- What a task that there is holds.
  IsOwed-task :
      (h : ℕ) (f : Option (Frame A)) (t : Task) (n : ℕ)
      → IsOwed h f (some t) n
      → (g : Frame A) × (f ≡ some g) × IsOwed h (some g) (some t) n
  IsOwed-task h none t n owed = absurd owed
  IsOwed-task h (some g) t n owed = (g, refl, owed)

  IsOwed-at :
      (w : Program A) (h : ℕ) (t : Task)
      → IsSound w
      → w.tasks h ≡ some t
      → (g : Frame A) × (w.frames h ≡ some g)
        × IsOwed h (some g) (some t) (count self h w.loop.to_clean_up_handles)
  IsOwed-at w h t sound at =
      IsOwed-task h (w.frames h) t _ (
        subst (λ x. IsOwed h (w.frames h) x (count self h w.loop.to_clean_up_handles)) at (sound h))

  pub ensures-IsSound :
      (h : ℕ) (w : Program A) → IsAllowed (ensures h) w → IsSound w → Succeeds (act (ensures h) w)
  unfolding act ensure_future start
  ensures-IsSound h w (t, at, (f, framed, running)) sound =
      let (g, there, owed) = IsOwed-at w h t sound at in
      let (_, of_h, _, _) = owed in
      (
        record w { tasks = insert h (record t { need_clean = true }) w.tasks },
        ground arith,
        λ k.
            written
              (λ x b.
                IsOwed x (w.frames x)
                  (if b then some (record t { need_clean = true }) else w.tasks x)
                  (count self x w.loop.to_clean_up_handles))
              h k
              (subst
                (λ f.
                  IsOwed h f (some (record t { need_clean = true }))
                    (count self h w.loop.to_clean_up_handles))
                (sym there) owed)
              (sound k),
      )

  pub drops-IsSound :
      (h : ℕ) (w : Program A) → IsAllowed (drops h) w → IsSound w → Succeeds (act (drops h) w)
  unfolding act drop_task destroy_frame set_need_clean
  drops-IsSound h w (t, at) sound =
      let (g, there, (none_listed, of_h, kept, how)) = IsOwed-at w h t sound at in
      elim (Bool-cases g.is_done) [
        | inl done ↦ (
          record w { frames = erase_key h w.frames; tasks = erase_key h w.tasks },
          ground (arith, ==_iff h h),
          λ k.
              written
                (λ x b.
                  IsOwed x (if b then none else w.frames x) (if b then none else w.tasks x)
                    (count self x w.loop.to_clean_up_handles))
                h k none_listed (sound k),
        )
        | inr running ↦ (
          record w {
            frames =
                insert h (record g { promise = set_need_clean g.promise t.need_clean }) w.frames;
            tasks = erase_key h w.tasks;
          },
          ground arith,
          λ k.
              written
                (λ x b.
                  IsOwed x
                    (if b
                      then some (record g { promise = set_need_clean g.promise t.need_clean })
                      else w.frames x)
                    (if b then none else w.tasks x) (count self x w.loop.to_clean_up_handles))
                h k (ground arith, how) (sound k),
        )
      ]

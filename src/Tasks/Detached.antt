-- ===== src/Tasks/Detached.antt =====
-- That no coroutine of include/arc/coro/task.h is destroyed twice, and that those that are left to
-- run (`EnsureFuture` of src/coro/task.cc) are destroyed in the end.
use libarc.Prelude.{
  ℕ, ◌≡◌, refl, ap, sym, subst, ◌∙◌, true, false, none, some, List, [], ◌∷◌, insert, erase_key,
  ==_iff, ◌>>=◌, Outcome, ok, count, arith,
}
use libarc.Tasks.CleanUp.{self}
use libarc.Tasks.Handle.{Frame, Task, Completion, ensure_future, start, drop_task, destroy_frame}
use libarc.Tasks.Steps.{creates-IsSound, ensures-IsSound, drops-IsSound}
use libarc.Tasks.Ending.{
  ends-IsSound, ends-HasEnded, cleans_up-IsSound, cleans_up_frees, not_returned,
}
use libarc.Tasks.Promise.{no_return, set_need_clean}
use libarc.Tasks.Lifetime.{
  Program, Act, creates, ensures, drops, ends, cleans_up, act, IsAllowed, IsOwed, IsSound, Succeeds,
}

-- What a program may come to.
pub data Reachable {A : Type 0} : Program A → Type 0 where
  begins :
      (w : Program A)
      → ((h : ℕ) → w.frames h ≡ none)
      → ((h : ℕ) → w.tasks h ≡ none)
      → w.loop.to_clean_up_handles ≡ []
      → Reachable w
  then_act :
      (a : Act A) (w w' : Program A) → Reachable w → IsAllowed a w → act a w ≡ ok w' → Reachable w'

module _ {A : Type 0} where
  allowed-Succeeds : (a : Act A) (w : Program A) → IsAllowed a w → IsSound w → Succeeds (act a w)
  allowed-Succeeds (creates h) w allowed sound = creates-IsSound h w allowed sound
  allowed-Succeeds (ensures h) w allowed sound = ensures-IsSound h w allowed sound
  allowed-Succeeds (drops h) w allowed sound = drops-IsSound h w allowed sound
  allowed-Succeeds (ends h c) w allowed sound = ends-IsSound h c w allowed sound
  allowed-Succeeds cleans_up w allowed sound = cleans_up-IsSound w sound

  same_program : (v w : Program A) → ok v ≡ ok w → v ≡ w
  same_program v w e = cc

  IsSound-of : (v w : Program A) → v ≡ w → IsSound v → IsSound w
  IsSound-of v w e sound = subst IsSound e sound

  IsSound-after :
      (a : Act A) (w w' : Program A) → IsAllowed a w → IsSound w → act a w ≡ ok w' → IsSound w'
  IsSound-after a w w' allowed sound e =
      let (v, e', sound') = allowed-Succeeds a w allowed sound in
      IsSound-of v w' (same_program v w' (sym e' ∙ e)) sound'

  Reachable-IsSound : (w : Program A) → Reachable w → IsSound w
  unfolding count
  Reachable-IsSound _ (begins w no_frames no_tasks nothing) =
      λ h. rw (no_frames h, no_tasks h, nothing) refl
  Reachable-IsSound _ (then_act a w w' reached allowed e) =
      IsSound-after a w w' allowed (Reachable-IsSound w reached) e

  -- In whatever order tasks are created, each with a frame at a new address, started while their
  -- coroutines have not ended, and destroyed, their coroutines end, each once, and the event loop
  -- cleans up, each of these is carried out: no frame is used after it was destroyed, and none is
  -- destroyed twice.
  pub acts_succeed :
      (w : Program A) (a : Act A)
      → Reachable w
      → IsAllowed a w
      → (w' : Program A) × (act a w ≡ ok w')
  acts_succeed w a reached allowed =
      let (v, e, sound) = allowed-Succeeds a w allowed (Reachable-IsSound w reached) in (v, e)

  abbrev pub act_all : List (Act A) → Program A → Outcome (Program A)
  act_all [] w = ok w
  act_all (a ∷ rest) w = act a w >>= λ w'. act_all rest w'

  then_all :
      (a : Act A) (rest : List (Act A)) (w w' : Program A) (r : Outcome (Program A))
      → act a w ≡ ok w'
      → act_all rest w' ≡ r
      → act_all (a ∷ rest) w ≡ r
  then_all a rest w w' r e later = ap (λ x. x >>= act_all rest) e ∙ later

  -- The acts are carried out, and the coroutine `h` has no frame then.
  abbrev pub Frees : (h : ℕ) → Outcome (Program A) → Type 0
  Frees h r = (w : Program A) × (r ≡ ok w) × (w.frames h ≡ none)

  Frees-left :
      (w : Program A) (h : ℕ) (t : Task) (f : Frame A) (c : Completion A)
      → IsSound w
      → w.tasks h ≡ some t
      → w.frames h ≡ some f
      → f.is_done ≡ false
      → f.promise.return_type ≡ no_return
      → t.coroutine ≡ some h
      → Frees h (act_all (ensures h ∷ drops h ∷ ends h c ∷ cleans_up ∷ []) w)
  unfolding act ensure_future start drop_task set_need_clean
  Frees-left w h t f c sound at there running fresh of_h =
      let f2 : Frame A = record f { promise = set_need_clean f.promise true } in
      let w1 : Program A = record w { tasks = insert h (record t { need_clean = true }) w.tasks } in
      let w2 : Program A = record w {
        frames = insert h f2 w.frames;
        tasks = erase_key h w1.tasks;
      } in
      let e1 : act (ensures h) w ≡ ok w1 = ground arith in
      let s1 = IsSound-after (ensures h) w w1 (t, at, (f, there, running)) sound e1 in
      let e2 : act (drops h) w1 ≡ ok w2 = ground (arith, ==_iff h h) in
      let at1 : w1.tasks h ≡ some (record t { need_clean = true }) = ground (arith, ==_iff h h) in
      let s2 = IsSound-after (drops h) w1 w2 (_, at1) s1 e2 in
      let there2 : w2.frames h ≡ some f2 = ground (arith, ==_iff h h) in
      let (g, l, e3, done, needed, counts) = ends-HasEnded h c w2 f2 there2 fresh in
      let w3 : Program A = record w2 { frames = insert h g w2.frames; loop = l } in
      let s3 = IsSound-after (ends h c) w2 w3 (f2, there2, running) s2 e3 in
      let there3 : w3.frames h ≡ some g = ground (arith, ==_iff h h) in
      let alone3 : w3.tasks h ≡ none = ground (arith, ==_iff h h) in
      let (w4, e4, gone) = cleans_up_frees w3 h g s3 there3 alone3 done needed in
      (
        w4,
        then_all (ensures h) (drops h ∷ ends h c ∷ cleans_up ∷ []) w w1 _ e1 (
            then_all (drops h) (ends h c ∷ cleans_up ∷ []) w1 w2 _ e2 (
              then_all (ends h c) (cleans_up ∷ []) w2 w3 _ e3
                (then_all cleans_up [] w3 w4 _ e4 refl))),
        gone,
      )

  Frees-ended :
      (w : Program A) (h : ℕ) (t : Task) (f : Frame A) (c : Completion A)
      → w.tasks h ≡ some t
      → w.frames h ≡ some f
      → f.is_done ≡ false
      → f.promise.return_type ≡ no_return
      → t.coroutine ≡ some h
      → Frees h (act_all (ensures h ∷ ends h c ∷ drops h ∷ []) w)
  unfolding act ensure_future start drop_task destroy_frame
  Frees-ended w h t f c at there running fresh of_h =
      let w1 : Program A = record w { tasks = insert h (record t { need_clean = true }) w.tasks } in
      let e1 : act (ensures h) w ≡ ok w1 = ground arith in
      let (g, l, e2, done, kept, counts) = ends-HasEnded h c w1 f there fresh in
      let w2 : Program A = record w1 { frames = insert h g w1.frames; loop = l } in
      let w3 : Program A = record w2 {
        frames = erase_key h w2.frames;
        tasks = erase_key h w2.tasks;
      } in
      let e3 : act (drops h) w2 ≡ ok w3 = ground (arith, ==_iff h h) in
      let gone : w3.frames h ≡ none = ground (arith, ==_iff h h) in
      (
        w3,
        then_all (ensures h) (ends h c ∷ drops h ∷ []) w w1 _ e1
            (then_all (ends h c) (drops h ∷ []) w1 w2 _ e2 (then_all (drops h) [] w2 w3 _ e3 refl)),
        gone,
      )

  -- In any state that can be reached, a task whose coroutine runs is given to `EnsureFuture` and
  -- destroyed, and its coroutine ends, with a value or an exception. If the coroutine ends last, the
  -- event loop's next clean-up destroys its frame; if it ends before the task is destroyed, the
  -- destructor does.
  pub ensured_is_freed :
      (w : Program A) (h : ℕ) (t : Task) (f : Frame A) (c : Completion A)
      → Reachable w
      → w.tasks h ≡ some t
      → w.frames h ≡ some f
      → f.is_done ≡ false
      → Frees h (act_all (ensures h ∷ drops h ∷ ends h c ∷ cleans_up ∷ []) w)
        × Frees h (act_all (ensures h ∷ ends h c ∷ drops h ∷ []) w)
  ensured_is_freed w h t f c reached at there running =
      let sound = Reachable-IsSound w reached in
      let n : ℕ = count self h w.loop.to_clean_up_handles in
      let owed : IsOwed h (some f) (some t) n =
        subst (λ x. IsOwed h (some f) x n) at
          (subst (λ x. IsOwed h x (w.tasks h) n) there (sound h)) in
      let fresh = not_returned h n f (some t) owed running in
      let (listed, of_h, kept, how) = owed in
      (
        Frees-left w h t f c sound at there running fresh of_h,
        Frees-ended w h t f c at there running fresh of_h,
      )

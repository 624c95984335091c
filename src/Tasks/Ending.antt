-- ===== src/Tasks/Ending.antt =====
-- That the coroutines of include/arc/coro/task.h may end, and be cleaned up, at any time.
use libarc.Prelude.{
  ℕ, ◌≡◌, refl, sym, subst, Bool, true, false, ◌&&◌, Option, none, some, ◌+◌, ◌∙◌, present, ◌==◌,
  ==_iff, Bool-cases, ◌≤◌, ◌⊎◌, inl, inr, count, count-snoc, insert, if◌then◌else◌, Outcome, ok,
  arith,
}
use libarc.EventLoop.Core.{EventLoop, add_to_clean_up_coroutine, clean_up_finished_coroutines}
use libarc.Tasks.Promise.{ReturnType, no_return, clean_if_needed, return_value, unhandled_exception}
use libarc.Tasks.Handle.{Frame, Frames, Task, Completion, co_return, throw, finish, clean_up}
use libarc.Tasks.CleanUp.{self, remaining, destroy_all_returns}
use libarc.Tasks.Lifetime.{
  Program, ends, cleans_up, act, IsAllowed, IsOwed, IsSound, Succeeds, written,
}

module _ {A : Type 0} where
  -- The frame and the event loop once the body has ended.
  abbrev pub HasEnded : (h : ℕ) → Frame A → Program A → Outcome (Program A) → Type 0
  HasEnded h f w r =
      (g : Frame A) × (l : EventLoop) × (r
        ≡ ok (record w { frames = insert h g w.frames; loop = l }))
      × (g.is_done ≡ true)
      × (g.promise.need_manual_clean ≡ f.promise.need_manual_clean)
      × ((k : ℕ)
          → count self k l.to_clean_up_handles
            ≡ count self k w.loop.to_clean_up_handles
              + (if f.promise.need_manual_clean then if h == k then 1 else 0 else 0))

  pub ends-HasEnded :
      (h : ℕ) (c : Completion A) (w : Program A) (f : Frame A)
      → w.frames h ≡ some f
      → f.promise.return_type ≡ no_return
      → HasEnded h f w (act (ends h c) w)
  unfolding act finish return_value unhandled_exception clean_if_needed add_to_clean_up_coroutine
  ends-HasEnded h (co_return a) w f at fresh = (
    record {
      promise = record f.promise { return_type = ReturnType.value; result_value = some a };
      is_done = true;
    },
    clean_if_needed f.promise h w.loop,
    ground arith,
    refl,
    refl,
    λ k.
        let at_end = count-snoc self k w.loop.to_clean_up_handles h in
        elim (Bool-cases f.promise.need_manual_clean) [
          | inl needed ↦ ground arith
          | inr not_needed ↦ ground arith
        ],
  )
  ends-HasEnded h (throw x) w f at fresh = (
    record {
      promise = record f.promise { return_type = ReturnType.exception; exception_ptr = some x };
      is_done = true;
    },
    clean_if_needed f.promise h w.loop,
    ground arith,
    refl,
    refl,
    λ k.
        let at_end = count-snoc self k w.loop.to_clean_up_handles h in
        elim (Bool-cases f.promise.need_manual_clean) [
          | inl needed ↦ ground arith
          | inr not_needed ↦ ground arith
        ],
  )

  IsOwed-after_end :
      (h n : ℕ) (f g : Frame A) (t : Option Task)
      → IsOwed h (some f) t n
      → f.is_done ≡ false
      → g.is_done ≡ true
      → g.promise.need_manual_clean ≡ f.promise.need_manual_clean
      → IsOwed h (some g) t (n + (if f.promise.need_manual_clean then 1 else 0))
  IsOwed-after_end h n f g none (listed, how) running done same = (ground arith, inl done)
  IsOwed-after_end h n f g (some t) (listed, of_h, kept, how) running done same =
      (ground arith, of_h, ground arith, inl done)

  pub not_returned :
      (h n : ℕ) (f : Frame A) (t : Option Task)
      → IsOwed h (some f) t n
      → f.is_done ≡ false
      → f.promise.return_type ≡ no_return
  not_returned h n f none (listed, how) running = ground arith
  not_returned h n f (some t) (listed, of_h, kept, how) running = ground arith

  pub ends-IsSound :
      (h : ℕ) (c : Completion A) (w : Program A)
      → IsAllowed (ends h c) w
      → IsSound w
      → Succeeds (act (ends h c) w)
  ends-IsSound h c w (f, at, running) sound =
      let n : ℕ → ℕ = λ k. count self k w.loop.to_clean_up_handles in
      let owed : IsOwed h (some f) (w.tasks h) (n h) =
        subst (λ x. IsOwed h x (w.tasks h) (n h)) at (sound h) in
      let fresh = not_returned h (n h) f (w.tasks h) owed running in
      let (g, l, e, done, same, counts) = ends-HasEnded h c w f at fresh in
      let kept : (k : ℕ) → n k ≡ n k + (if f.promise.need_manual_clean then 0 else 0) =
        λ k. ground arith in
      (
        record w { frames = insert h g w.frames; loop = l },
        e,
        λ k. subst (IsOwed k (insert h g w.frames k) (w.tasks k)) (sym (counts k)) (
            written
              (λ x b.
                IsOwed x (if b then some g else w.frames x) (w.tasks x)
                  (n x + (if f.promise.need_manual_clean then if b then 1 else 0 else 0)))
              h k (IsOwed-after_end h (n h) f g (w.tasks h) owed running done same)
              (subst (IsOwed k (w.frames k) (w.tasks k)) (kept k) (sound k))),
      )

  owed_fits : (h n : ℕ) (f : Option (Frame A)) (t : Option Task) → IsOwed h f t n → n ≤ present f
  owed_fits h n none none owed = omega (arith, owed)
  owed_fits h n none (some t) owed = absurd owed
  owed_fits h n (some f) (some t) (listed, of_h, kept, how) = omega (arith, listed)
  owed_fits h n (some f) none (listed, how) = ground arith

  IsOwed-after_last_clean_up :
      (h n : ℕ) (f : Frame A) (b : Bool)
      → (f.is_done && f.promise.need_manual_clean) ≡ b
      → n ≡ (if b then 1 else 0)
      → (f.is_done ≡ true) ⊎ (f.promise.return_type ≡ no_return)
      → IsOwed h (remaining n (some f)) none 0
  IsOwed-after_last_clean_up h n f true e listed how =
      subst (λ m. IsOwed h (remaining m (some f)) none 0) (sym listed) refl
  IsOwed-after_last_clean_up h n f false e listed how =
      subst (λ m. IsOwed h (remaining m (some f)) none 0) (sym listed) (ground arith, how)

  IsOwed-after_clean_up :
      (h n : ℕ) (f : Option (Frame A)) (t : Option Task)
      → IsOwed h f t n
      → IsOwed h (remaining n f) t 0
  IsOwed-after_clean_up h n none none e =
      subst (λ m. IsOwed {A = A} h (remaining m none) none 0) (sym e) refl
  IsOwed-after_clean_up h n none (some t) owed = absurd owed
  IsOwed-after_clean_up h n (some f) (some t) (listed, of_h, kept, how) =
      subst (λ m. IsOwed h (remaining m (some f)) (some t) 0) (sym listed) (refl, of_h, kept, how)
  IsOwed-after_clean_up h n (some f) none (listed, how) =
      IsOwed-after_last_clean_up h n f _ refl listed how

  listed_once : (n : ℕ) (f : Option (Frame A)) → n ≡ 1 → remaining n f ≡ none
  listed_once n f e = ground (arith, ==_iff n 0)

  -- What is left of each frame.
  pub cleans_up_leaves :
      (w : Program A)
      → IsSound w
      → (left : Frames A) × (act cleans_up w
          ≡ ok (record w { frames = left; loop = clean_up_finished_coroutines w.loop }))
        × ((k : ℕ) → left k ≡ remaining (count self k w.loop.to_clean_up_handles) (w.frames k))
  unfolding act clean_up
  cleans_up_leaves w sound =
      let (left, e, rest) =
        destroy_all_returns w.loop.to_clean_up_handles w.frames
          (λ k. owed_fits k _ (w.frames k) (w.tasks k) (sound k)) in
      (left, ground arith, rest)

  pub cleans_up-IsSound : (w : Program A) → IsSound w → Succeeds (act cleans_up w)
  unfolding clean_up_finished_coroutines count
  cleans_up-IsSound w sound =
      let (left, e, rest) = cleans_up_leaves w sound in
      (
        record w { frames = left; loop = clean_up_finished_coroutines w.loop },
        e,
        λ k.
            subst (λ f. IsOwed k f (w.tasks k) 0) (sym (rest k))
              (IsOwed-after_clean_up k _ (w.frames k) (w.tasks k) (sound k)),
      )

  -- A coroutine that has ended without a task, and was to be cleaned up, loses its frame.
  pub cleans_up_frees :
      (w : Program A) (h : ℕ) (f : Frame A)
      → IsSound w
      → w.frames h ≡ some f
      → w.tasks h ≡ none
      → f.is_done ≡ true
      → f.promise.need_manual_clean ≡ true
      → (w' : Program A) × (act cleans_up w ≡ ok w') × (w'.frames h ≡ none)
  cleans_up_frees w h f sound at alone done needed =
      let (left, e, rest) = cleans_up_leaves w sound in
      let n : ℕ = count self h w.loop.to_clean_up_handles in
      let owed : IsOwed h (some f) none n =
        subst (λ x. IsOwed h (some f) x n) alone
          (subst (λ x. IsOwed h x (w.tasks h) n) at (sound h)) in
      (
        record w { frames = left; loop = clean_up_finished_coroutines w.loop },
        e,
        rest h ∙ listed_once n (w.frames h) (owed.0 ∙ rw (done, needed) refl),
      )

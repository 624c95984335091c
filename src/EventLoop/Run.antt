-- ===== src/EventLoop/Run.antt =====
-- `RunUntilComplete` of src/coro/task.cc: rounds of the event loop until it is done. A round is given
-- by the answers of its wait and the time at which it is trimmed.
use libarc.Prelude.{
  ℕ, ◌≡◌, ap, sym, ◌∙◌, Bool, true, Option, none, some, List, [], ◌∷◌, if◌then◌else◌, Outcome, ok,
  ◌>>=◌, >>=-eq-ok, Bool-cases, inl, inr, arith,
}
use libarc.Dispatcher.Queue.{ConcurrentQueue}
use libarc.Events.{IoEvent}
use libarc.Poller.Kernel.{Epoll}
use libarc.Poller.Wait.{Answers}
use libarc.EventLoop.Core.{World, is_done, init_do, do_round, clean_up_finished_coroutines}

module _ (E : Epoll) (C : ConcurrentQueue) (after_erase : List IoEvent → ℕ → IoEvent)
    (resume : ℕ → World E C → Outcome (World E C)) (wrote : Bool) where
  abbrev pub Rounds : Type 0
  Rounds = List (Answers × ℕ)

  -- With the rounds that were not run; `none` if the loop is not done with the last of them.
  unfoldable pub run_rounds : Rounds → World E C → Outcome (Option (World E C × Rounds))
  run_rounds [] w = if is_done w.loop then ok (some (w, [])) else ok none
  run_rounds ((a, now) ∷ rounds) w =
      let rest = do_round E C after_erase resume wrote w a now >>= run_rounds rounds in
      if is_done w.loop then ok (some (w, (a, now) ∷ rounds)) else rest

  abbrev pub clean : World E C → World E C
  clean w = record w { loop = clean_up_finished_coroutines w.loop }

  unfoldable pub run_until_complete :
      Rounds → (now : ℕ) → World E C → Outcome (Option (World E C × Rounds))
  run_until_complete rounds now w = init_do E C after_erase resume wrote w now >>= λ w'.
      run_rounds rounds w' >>= λ r.
      ok (elim r [ none ↦ none | some (v, left) ↦ some (clean v, left) ])

  abbrev finished : World E C → Rounds → Outcome (Option (World E C × Rounds))
  finished w rounds = ok (some (w, rounds))

  same_world :
      (w v : World E C) (rounds left : Rounds) → finished w rounds ≡ finished v left → w ≡ v
  same_world w v rounds left e = cc

  done_there :
      (w v : World E C) (rounds left : Rounds)
      → finished w rounds ≡ finished v left
      → is_done w.loop ≡ true
      → is_done v.loop ≡ true
  done_there w v rounds left e done =
      ap (λ x. is_done x.loop) (sym (same_world w v rounds left e)) ∙ done

  -- When the rounds end, the loop is done.
  is_done_at_end :
      (rounds left : Rounds) (w v : World E C)
      → run_rounds rounds w ≡ ok (some (v, left))
      → is_done v.loop ≡ true
  unfolding run_rounds
  is_done_at_end [] left w v e = elim (Bool-cases (is_done w.loop)) [
    | inl done ↦ done_there w v [] left (rw done at e) done
    | inr goes_on ↦ absurd (ground arith)
  ]
  is_done_at_end ((a, now) ∷ rounds) left w v e = elim (Bool-cases (is_done w.loop)) [
    | inl done ↦ done_there w v ((a, now) ∷ rounds) left (rw done at e) done
    | inr goes_on ↦
        let (w', ran, later) =
          >>=-eq-ok (do_round E C after_erase resume wrote w a now) (run_rounds rounds)
            (rw goes_on at e) in
        is_done_at_end rounds left w' v later
  ]

-- ===== src/EventLoop/Conservation.antt =====
-- `to_dispatched_coroutines_count_` against the lists that it counts. The loop waits without a
-- timeout, and is done, only by this counter.
use libarc.Prelude.{
  ℕ, suc, ◌+◌, ◌≡◌, refl, ap, ◌∙◌, inl, inr, Bool, true, false, List, [], ◌∷◌, length,
  length-append, ok, >>=-eq-ok, Bool-cases, arith,
}
use libarc.Prelude.Int.{ℤ, pos, ◌-ℤ◌, add-pos, sub-pos}
use libarc.Dispatcher.Queue.{ConcurrentQueue}
use libarc.Dispatcher.Core.{Dispatcher, enqueue_to_any, enqueue_all_to_any, enqueue_all_to_specific}
use libarc.EventLoop.Production.{
  Production, dispatch, dispatch_to, push_to, enqueue_each, after_batch, produce_random,
  produce_dests, keep_dest, produce_coroutine, is_none_left,
}

-- How many coroutines wait for some destination.
abbrev pub in_dests : List (ℕ × List ℕ) → ℕ
in_dests [] = 0
in_dests ((id, hs) ∷ dests) = let rest = in_dests dests in length hs + rest

abbrev pub IsBalanced : Production → Type 0
IsBalanced s =
    s.to_dispatched_coroutines_count
    ≡ pos (
        length s.to_randomly_dispatched_coroutines + in_dests s.to_dispatched_coroutines_with_dests)

in_dests-push_to :
    (dests : List (ℕ × List ℕ)) (id h : ℕ) → in_dests (push_to dests id h) ≡ in_dests dests + 1
unfolding push_to
in_dests-push_to [] id h = refl
in_dests-push_to ((k, hs) ∷ dests) id h =
    let l = length-append hs (h ∷ []) in let rest = in_dests-push_to dests id h in ground arith

-- `Dispatch` keeps the counter right.
dispatch-IsBalanced : (s : Production) (h : ℕ) → IsBalanced s → IsBalanced (dispatch s h)
unfolding dispatch
dispatch-IsBalanced s h b =
    let l = length-append s.to_randomly_dispatched_coroutines (h ∷ []) in
    add-pos _ _ 1 b ∙ ap pos (omega arith)

pub dispatch_to-IsBalanced :
    (s : Production) (h id : ℕ) → IsBalanced s → IsBalanced (dispatch_to s h id)
unfolding dispatch_to
dispatch_to-IsBalanced s h id b =
    add-pos _ _ 1 b
    ∙ ap pos (omega (arith, in_dests-push_to s.to_dispatched_coroutines_with_dests id h))

in_dests-keep_dest :
    (C : ConcurrentQueue) (wrote : Bool) (id : ℕ) (hs : List ℕ) (dests : List (ℕ × List ℕ))
    → in_dests (keep_dest C wrote id hs dests) ≡ length hs + in_dests dests
in_dests-keep_dest C wrote id [] dests = omega arith
in_dests-keep_dest C wrote id (h ∷ hs) dests = omega arith

module _ (C : ConcurrentQueue) (wrote : Bool) where
  enqueue_each-count :
      (hs : List ℕ) (d : Dispatcher C) (count : ℤ) (m : ℕ) {r : Dispatcher C × List ℕ × ℤ}
      → enqueue_each C wrote hs d count ≡ ok r
      → count ≡ pos (length hs + m)
      → r.2 ≡ pos (length r.1 + m)
  unfolding enqueue_each
  enqueue_each-count [] d count m {r} h e = ground arith
  enqueue_each-count (x ∷ hs) d count m {r} h e =
      let (s, _, rest) = >>=-eq-ok (enqueue_to_any C d x wrote) _ h in
      elim (Bool-cases s.1) [
        | inl took ↦
            enqueue_each-count hs s.0 (count -ℤ pos 1) m (rw took at rest)
              (sub-pos count (suc (length hs) + m) 1 e (omega arith) ∙ ap pos (omega arith))
        | inr full ↦ let same : (s.0, x ∷ hs, count) ≡ r = ground arith in rw (← same) e
      ]

  after_batch-count :
      (hs : List ℕ) (count : ℤ) (m : ℕ) (x : Dispatcher C × Bool) {r : Dispatcher C × List ℕ × ℤ}
      → after_batch C wrote hs count x ≡ ok r
      → count ≡ pos (length hs + m)
      → r.2 ≡ pos (length r.1 + m)
  unfolding after_batch
  after_batch-count hs count m (d, true) {r} h e =
      let same : (d, [], count -ℤ pos (length hs)) ≡ r = ground arith in
      rw (← same) (sub-pos count (length hs + m) (length hs) e (omega arith) ∙ ap pos (omega arith))
  after_batch-count hs count m (d, false) h e = enqueue_each-count hs d count m h e

  produce_random-count :
      (hs : List ℕ) (d : Dispatcher C) (count : ℤ) (m : ℕ) {r : Dispatcher C × List ℕ × ℤ}
      → produce_random C wrote hs d count ≡ ok r
      → count ≡ pos (length hs + m)
      → r.2 ≡ pos (length r.1 + m)
  unfolding produce_random
  produce_random-count [] d count m {r} h e = ground arith
  produce_random-count (x ∷ hs) d count m {r} h e =
      let (s, _, rest) = >>=-eq-ok (enqueue_all_to_any C d (x ∷ hs) wrote) _ h in
      after_batch-count (x ∷ hs) count m s rest e

  produce_dests-count :
      (dests : List (ℕ × List ℕ)) (d : Dispatcher C) (count : ℤ) (m : ℕ)
      {r : Dispatcher C × List (ℕ × List ℕ) × ℤ}
      → produce_dests C wrote dests d count ≡ ok r
      → count ≡ pos (in_dests dests + m)
      → r.2 ≡ pos (in_dests r.1 + m)
  unfolding produce_dests
  produce_dests-count [] d count m {r} h e = ground arith
  produce_dests-count ((id, hs) ∷ dests) d count m {r} h e =
      let (x, _, h₁) = >>=-eq-ok (enqueue_all_to_specific C d id hs wrote) _ h in
      let (s, batch, h₂) = >>=-eq-ok (after_batch C wrote hs count x) _ h₁ in
      let (t, others, h₃) = >>=-eq-ok (produce_dests C wrote dests s.0 s.2) _ h₂ in
      let c = after_batch-count hs count (in_dests dests + m) x batch (e ∙ ap pos (omega arith)) in
      let k =
        produce_dests-count dests s.0 s.2 (length s.1 + m) others (c ∙ ap pos (omega arith)) in
      let same : (t.0, keep_dest C wrote id s.1 t.1, t.2) ≡ r = ground arith in
      rw (← same) (k ∙ ap pos (omega (arith, in_dests-keep_dest C wrote id s.1 t.1)))

  -- If `ProduceCoroutine` returns, the counter, if it was right before, is still the number of
  -- coroutines that have not been handed to the dispatcher, whatever the queues have taken.
  pub produce_coroutine-IsBalanced :
      (s : Production) (d : Dispatcher C) {s' : Production} {d' : Dispatcher C}
      → produce_coroutine C wrote s d ≡ ok (s', d')
      → IsBalanced s
      → IsBalanced s'
  unfolding produce_coroutine
  produce_coroutine-IsBalanced s d {s'} h b =
      elim (Bool-cases (is_none_left s.to_dispatched_coroutines_count)) [
        | inl none_left ↦ let same : s ≡ s' = ground arith in rw (← same) b
        | inr some_left ↦
            let h₀ = rw (some_left, produce_coroutine) at h in
            let (r, random, h₁) =
              >>=-eq-ok
                (produce_random C wrote s.to_randomly_dispatched_coroutines d
                  s.to_dispatched_coroutines_count)
                _ h₀ in
            let (t, dests, h₂) =
              >>=-eq-ok (produce_dests C wrote s.to_dispatched_coroutines_with_dests r.0 r.2) _
                h₁ in
            let c =
              produce_random-count s.to_randomly_dispatched_coroutines d
                s.to_dispatched_coroutines_count (in_dests s.to_dispatched_coroutines_with_dests)
                random b in
            let k =
              produce_dests-count s.to_dispatched_coroutines_with_dests r.0 r.2 (length r.1) dests
                (c ∙ ap pos (omega arith)) in
            let same : record {
              to_randomly_dispatched_coroutines = r.1;
              to_dispatched_coroutines_with_dests = t.1;
              to_dispatched_coroutines_count = t.2;
            }
                ≡ s' =
              ground arith in
            rw (← same) (k ∙ ap pos (omega arith))
      ]

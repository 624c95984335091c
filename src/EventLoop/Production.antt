-- ===== src/EventLoop/Production.antt =====
-- What an event loop hands to the dispatcher: `Dispatch`, `DispatchTo` and `ProduceCoroutine`.
use libarc.Prelude.{
  ℕ, Bool, true, false, List, [], ◌∷◌, ◌++◌, if◌then◌else◌, ◌==◌, length, Outcome, ok, ◌>>=◌,
}
use libarc.Prelude.Int.{ℤ, pos, ◌+ℤ◌, ◌-ℤ◌}
use libarc.Dispatcher.Queue.{ConcurrentQueue}
use libarc.Dispatcher.Core.{Dispatcher, enqueue_to_any, enqueue_all_to_any, enqueue_all_to_specific}

-- The fields that only the producer uses. The map from destinations is a list in the order in which
-- the map is run through.
pub record Production : Type 0 where
  pub to_randomly_dispatched_coroutines : List ℕ
  pub to_dispatched_coroutines_with_dests : List (ℕ × List ℕ)
  pub to_dispatched_coroutines_count : ℤ

unfoldable pub no_production : Production
no_production = record {
  to_randomly_dispatched_coroutines = [];
  to_dispatched_coroutines_with_dests = [];
  to_dispatched_coroutines_count = pos 0;
}

unfoldable pub dispatch : Production → (coroutine : ℕ) → Production
dispatch s coroutine = record s {
  to_randomly_dispatched_coroutines = s.to_randomly_dispatched_coroutines ++ coroutine ∷ [];
  to_dispatched_coroutines_count = s.to_dispatched_coroutines_count +ℤ pos 1;
}

-- `map[consumer_id].push_back(coroutine)`
unfoldable pub push_to : List (ℕ × List ℕ) → (consumer_id coroutine : ℕ) → List (ℕ × List ℕ)
push_to [] consumer_id coroutine = (consumer_id, coroutine ∷ []) ∷ []
push_to ((id, hs) ∷ dests) consumer_id coroutine =
    let rest = push_to dests consumer_id coroutine in
    if id == consumer_id then (id, hs ++ coroutine ∷ []) ∷ dests else (id, hs) ∷ rest

unfoldable pub dispatch_to : Production → (coroutine consumer_id : ℕ) → Production
dispatch_to s coroutine consumer_id = record s {
  to_dispatched_coroutines_with_dests =
      push_to s.to_dispatched_coroutines_with_dests consumer_id coroutine;
  to_dispatched_coroutines_count = s.to_dispatched_coroutines_count +ℤ pos 1;
}

abbrev pub is_none_left : ℤ → Bool
is_none_left (pos n) = n == 0
is_none_left (ℤ.negsuc n) = false

module _ (C : ConcurrentQueue) (wrote : Bool) where
  -- One at a time to any consumer, until a queue does not take it: the dispatcher, what is left,
  -- and the counter.
  unfoldable pub enqueue_each :
      List ℕ → Dispatcher C → (count : ℤ) → Outcome (Dispatcher C × List ℕ × ℤ)
  enqueue_each [] d count = ok (d, [], count)
  enqueue_each (h ∷ hs) d count = enqueue_to_any C d h wrote >>= λ r. elim r.1 [
    | true ↦ enqueue_each hs r.0 (count -ℤ pos 1)
    | false ↦ ok (r.0, h ∷ hs, count)
  ]

  -- The batch has been offered as a whole, with the result `r`.
  unfoldable pub after_batch :
      List ℕ → (count : ℤ) → Dispatcher C × Bool → Outcome (Dispatcher C × List ℕ × ℤ)
  after_batch hs count (d, true) = ok (d, [], count -ℤ pos (length hs))
  after_batch hs count (d, false) = enqueue_each hs d count

  unfoldable pub produce_random :
      List ℕ → Dispatcher C → (count : ℤ) → Outcome (Dispatcher C × List ℕ × ℤ)
  produce_random [] d count = ok (d, [], count)
  produce_random (h ∷ hs) d count =
      enqueue_all_to_any C d (h ∷ hs) wrote >>= λ r. after_batch (h ∷ hs) count r

  abbrev pub keep_dest : ℕ → List ℕ → List (ℕ × List ℕ) → List (ℕ × List ℕ)
  keep_dest id [] dests = dests
  keep_dest id (h ∷ hs) dests = (id, h ∷ hs) ∷ dests

  -- Over the map. A coroutine for a consumer whose queue does not take the batch may go to any.
  unfoldable pub produce_dests :
      List (ℕ × List ℕ)
      → Dispatcher C
      → (count : ℤ) → Outcome (Dispatcher C × List (ℕ × List ℕ) × ℤ)
  produce_dests [] d count = ok (d, [], count)
  produce_dests ((id, hs) ∷ dests) d count = do
    r ← enqueue_all_to_specific C d id hs wrote
    s ← after_batch hs count r
    t ← produce_dests dests s.0 s.2
    ok (t.0, keep_dest id s.1 t.1, t.2)

  unfoldable pub produce_coroutine : Production → Dispatcher C → Outcome (Production × Dispatcher C)
  produce_coroutine s d = if is_none_left s.to_dispatched_coroutines_count then ok (s, d) else do
    r ← produce_random s.to_randomly_dispatched_coroutines d s.to_dispatched_coroutines_count
    t ← produce_dests s.to_dispatched_coroutines_with_dests r.0 r.2
    ok (
      record {
        to_randomly_dispatched_coroutines = r.1;
        to_dispatched_coroutines_with_dests = t.1;
        to_dispatched_coroutines_count = t.2;
      },
      t.0,
    )

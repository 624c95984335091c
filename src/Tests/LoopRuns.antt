-- ===== src/Tests/LoopRuns.antt =====
-- An event loop with two coroutines for any consumer and one for consumer 600.
use libarc.Prelude.{
  ℕ, ◌+◌, ◌≡◌, refl, true, false, some, none, List, [], ◌∷◌, ◌++◌, if◌then◌else◌, ◌==◌, Outcome, ok,
  throws, undefined, length, leb, drop, take,
}
use libarc.Prelude.Int.{pos, ◌-ℤ◌, ◌+ℤ◌}
use libarc.Dispatcher.Queue.{ConcurrentQueue, CoroutineQueue, enqueue, enqueue_bulk}
use libarc.Dispatcher.Core.{
  Dispatcher, enqueue_all_to_any, enqueue_all_to_specific, get_next_consumer, get_coroutine_queue,
  deliver, notify_event_loop, enqueue_to_any, enqueue_to_specific,
}
use libarc.EventLoop.Production.{
  Production, produce_coroutine, produce_random, produce_dests, after_batch, enqueue_each,
}
use libarc.EventLoop.Conservation.{IsBalanced, produce_coroutine-IsBalanced}
use libarc.Tests.Concrete.{listed}

abbrev no_coroutines : CoroutineQueue listed
no_coroutines = record { queue = []; remained_items = pos 0 }

abbrev idle_consumers : Dispatcher listed
idle_consumers = record {
  queues = λ id. if 7 == id then some no_coroutines else none;
  extra_queues = λ id. if 600 == id then some no_coroutines else none;
  consumer_ids = 7 ∷ 600 ∷ [];
  consumer_id_itr = 0;
  notified = [];
}

abbrev three_to_go : Production
three_to_go = record {
  to_randomly_dispatched_coroutines = 41 ∷ 42 ∷ [];
  to_dispatched_coroutines_with_dests = (600, 43 ∷ []) ∷ [];
  to_dispatched_coroutines_count = pos 3;
}

abbrev none_to_go : Production
none_to_go = record {
  to_randomly_dispatched_coroutines = [];
  to_dispatched_coroutines_with_dests = [];
  to_dispatched_coroutines_count = pos 0;
}

abbrev told : Dispatcher listed
told = record {
  queues = λ id.
      if 7 == id
      then some (record { queue = 41 ∷ 42 ∷ []; remained_items = pos 2 })
      else idle_consumers.queues id;
  extra_queues = λ id.
      if 600 == id
      then some (record { queue = 43 ∷ []; remained_items = pos 1 })
      else idle_consumers.extra_queues id;
  consumer_ids = 7 ∷ 600 ∷ [];
  consumer_id_itr = 1;
  notified = (600, 1) ∷ (7, 2) ∷ [];
}

all_go : produce_coroutine listed true three_to_go idle_consumers ≡ ok (none_to_go, told)
unfolding produce_coroutine produce_random enqueue_all_to_any get_next_consumer
    enqueue_all_to_specific get_coroutine_queue deliver enqueue_bulk notify_event_loop after_batch
    produce_dests ◌-ℤ◌ ◌+ℤ◌
all_go = refl

produce_coroutine-IsBalanced_example : IsBalanced none_to_go
produce_coroutine-IsBalanced_example =
    produce_coroutine-IsBalanced listed true three_to_go idle_consumers all_go refl

-- A queue with room for one coroutine.
abbrev tight : ConcurrentQueue
tight = record {
  Queue = List ℕ;
  contents = λ q. q;
  new_queue = [];
  try_enqueue = λ q h. if leb (length q + 1) 1 then (q ++ h ∷ [], true) else (q, false);
  try_enqueue_bulk = λ q hs. if leb (length q + length hs) 1 then (q ++ hs, true) else (q, false);
  try_dequeue_bulk = λ q n. (drop n q, take n q);
}

abbrev tight_queue : CoroutineQueue tight
tight_queue = record { queue = []; remained_items = pos 0 }

abbrev tight_consumers : Dispatcher tight
tight_consumers = record {
  queues = λ id. if 7 == id then some tight_queue else none;
  extra_queues = λ id. if 600 == id then some tight_queue else none;
  consumer_ids = 7 ∷ 600 ∷ [];
  consumer_id_itr = 0;
  notified = [];
}

-- The batch of two fits nowhere; one by one both fit, and the third is left.
abbrev still_to_go : Outcome (Production × Dispatcher tight) → List (ℕ × List ℕ)
still_to_go (ok (s, d)) = s.to_dispatched_coroutines_with_dests
still_to_go (throws e) = []
still_to_go undefined = []

one_is_left :
    still_to_go (produce_coroutine tight true three_to_go tight_consumers) ≡ (600, 43 ∷ []) ∷ []
unfolding produce_coroutine produce_random enqueue_all_to_any get_next_consumer
    enqueue_all_to_specific get_coroutine_queue deliver enqueue_bulk notify_event_loop after_batch
    produce_dests ◌-ℤ◌ ◌+ℤ◌ enqueue_each enqueue_to_any enqueue_to_specific enqueue
one_is_left = refl

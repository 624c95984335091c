-- ===== src/Tests/DispatcherRuns.antt =====
-- Two consumers, 7 and 600, and coroutines for them.
use libarc.Prelude.{
  ℕ, ◌≡◌, refl, true, none, some, List, [], ◌∷◌, if◌then◌else◌, ◌==◌, length, ok, count, inl, arith,
}
use libarc.Prelude.Int.{pos}
use libarc.Dispatcher.Queue.{CoroutineQueue, fresh_queue}
use libarc.Dispatcher.Core.{Dispatcher, find_queue, register, deregister}
use libarc.Dispatcher.Rotation.{next_consumers, next_consumers_round}
use libarc.Dispatcher.Consumers.{IsConsistent, register-IsConsistent}
use libarc.Dispatcher.Departure.{deregister_last_drops}
use libarc.Tests.Concrete.{listed, listed_laws}

abbrev queue_of : List ℕ → CoroutineQueue listed
queue_of hs = record { queue = hs; remained_items = pos (length hs) }

-- Consumer 7 has two coroutines waiting, and consumer 600 none; it is the turn of 600.
abbrev two_consumers : Dispatcher listed
two_consumers = record {
  queues = λ id. if 7 == id then some (queue_of (41 ∷ 42 ∷ [])) else none;
  extra_queues = λ id. if 600 == id then some (queue_of []) else none;
  consumer_ids = 7 ∷ 600 ∷ [];
  consumer_id_itr = 1;
  notified = [];
}

abbrev one_consumer : Dispatcher listed
one_consumer = record two_consumers {
  extra_queues = λ id. none;
  consumer_ids = 7 ∷ [];
  consumer_id_itr = 0;
}

one_consumer-IsConsistent : IsConsistent one_consumer
unfolding count
one_consumer-IsConsistent = record {
  listed = λ id. ground arith;
  pointed = inl (omega arith);
  tallied = λ id q h. ground arith;
}

register-IsConsistent_example :
    (d' : Dispatcher listed) × (register listed one_consumer 600 ≡ ok d')
    × IsConsistent d'
    × (find_queue listed d' 600 ≡ some (fresh_queue listed))
register-IsConsistent_example =
    register-IsConsistent listed_laws one_consumer 600 refl one_consumer-IsConsistent

next_consumers_round_example :
    next_consumers listed 2 two_consumers ≡ ok (two_consumers, 600 ∷ 7 ∷ [])
next_consumers_round_example = next_consumers_round listed two_consumers (omega arith)

deregister_last_drops_example :
    (d' : Dispatcher listed) × (deregister listed one_consumer 7 true ≡ ok d')
    × (d'.consumer_ids ≡ [])
    × ((j : ℕ) → find_queue listed d' j ≡ none)
    × (d'.notified ≡ [])
deregister_last_drops_example =
    deregister_last_drops listed_laws one_consumer 7 (queue_of (41 ∷ 42 ∷ [])) true refl refl
      one_consumer-IsConsistent

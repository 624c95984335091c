-- ===== src/Dispatcher/Core.antt =====
-- The operations of `CoroutineDispatcher`. The mutex makes each of them one step. A consumer's
-- identifier is the eventfd of its event loop; whether a write to it succeeds is an argument.
use libarc.Prelude.{
  ℕ, suc, ◌+◌, Bool, true, false, Option, none, some, List, [], ◌∷◌, ◌++◌, ltb, ◌==◌, if◌then◌else◌,
  length, get_elem?, empty, is_some, Map, update, Outcome, ok, throws, ◌>>=◌, ◌>>◌, defined,
  require, Exception,
}
use libarc.Prelude.Int.{pos_part}
use libarc.Dispatcher.Queue.{
  ConcurrentQueue, CoroutineQueue, fresh_queue, enqueue, enqueue_bulk, deque_all,
}

abbrev pub max_in_vec_queue_count : ℕ
max_in_vec_queue_count = 512

-- The iterator, one further, and back at the beginning from the end.
abbrev pub advance : (itr size : ℕ) → ℕ
advance itr size = if itr + 1 == size then 0 else itr + 1

-- The list without the first entry `id`, and the position where that was.
unfoldable pub erase_consumer : ℕ → List ℕ → Option (List ℕ × ℕ)
erase_consumer id [] = none
erase_consumer id (x ∷ xs) =
    let rest = erase_consumer id xs in
    if x == id
    then some (xs, 0)
    else elim rest [ none ↦ none | some (ys, i) ↦ some (x ∷ ys, suc i) ]

module _ (C : ConcurrentQueue) where
  pub record Dispatcher : Type 0 where
    pub queues : ℕ → Option (CoroutineQueue C)
    pub extra_queues : Map (CoroutineQueue C)
    pub consumer_ids : List ℕ
    -- The position of the iterator `consumer_id_itr_`.
    pub consumer_id_itr : ℕ
    -- What has been written to the eventfds, the newest first: identifier and count.
    pub notified : List (ℕ × ℕ)

  unfoldable pub new_dispatcher : Dispatcher
  new_dispatcher = record {
    queues = λ i. none;
    extra_queues = λ i. none;
    consumer_ids = [];
    consumer_id_itr = 0;
    notified = [];
  }

  abbrev pub get_available_dispatch_destinations : Dispatcher → List ℕ
  get_available_dispatch_destinations d = d.consumer_ids

  abbrev pub find_queue : Dispatcher → ℕ → Option (CoroutineQueue C)
  find_queue d id = if ltb id max_in_vec_queue_count then d.queues id else d.extra_queues id

  abbrev pub put_queue : Dispatcher → ℕ → Option (CoroutineQueue C) → Dispatcher
  put_queue d id q =
      if ltb id max_in_vec_queue_count
      then record d { queues = update d.queues id q }
      else record d { extra_queues = update d.extra_queues id q }

  -- The next consumer in turn. An iterator past the end cannot be read.
  unfoldable pub get_next_consumer : Dispatcher → Outcome (Dispatcher × ℕ)
  get_next_consumer d =
      if empty d.consumer_ids
      then throws Exception.exception_base
      else defined (get_elem? d.consumer_ids d.consumer_id_itr) >>= λ id.
          ok (record d { consumer_id_itr = advance d.consumer_id_itr (length d.consumer_ids) }, id)

  -- A null pointer cannot be used.
  unfoldable pub get_coroutine_queue : Dispatcher → ℕ → Outcome (CoroutineQueue C)
  get_coroutine_queue d id = defined (find_queue d id)

  unfoldable pub notify_event_loop :
      Dispatcher → (id number : ℕ) → (wrote : Bool) → Outcome Dispatcher
  notify_event_loop d id number wrote =
      require wrote Exception.io_exception >> ok (record d { notified = (id, number) ∷ d.notified })

  -- The queue written back, and the consumer told if anything was enqueued.
  unfoldable pub deliver :
      Dispatcher
      → (id number : ℕ) → CoroutineQueue C × Bool
      → (wrote : Bool) → Outcome (Dispatcher × Bool)
  deliver d id number (q, true) wrote =
      notify_event_loop (put_queue d id (some q)) id number wrote >>= λ d'. ok (d', true)
  deliver d id number (q, false) wrote = ok (put_queue d id (some q), false)

  unfoldable pub enqueue_to_specific : Dispatcher → (id h : ℕ) → Bool → Outcome (Dispatcher × Bool)
  enqueue_to_specific d id h wrote =
      get_coroutine_queue d id >>= λ q. deliver d id 1 (enqueue C q h) wrote

  unfoldable pub enqueue_to_any : Dispatcher → ℕ → Bool → Outcome (Dispatcher × Bool)
  enqueue_to_any d h wrote = get_next_consumer d >>= λ r. enqueue_to_specific r.0 r.1 h wrote

  unfoldable pub enqueue_all_to_specific :
      Dispatcher → (id : ℕ) → List ℕ → Bool → Outcome (Dispatcher × Bool)
  enqueue_all_to_specific d id hs wrote =
      get_coroutine_queue d id >>= λ q. deliver d id (length hs) (enqueue_bulk C q hs) wrote

  -- `EnqueueAllToAny`, and `EnqueueAllToAnyNoLock`, which does the work.
  unfoldable pub enqueue_all_to_any : Dispatcher → List ℕ → Bool → Outcome (Dispatcher × Bool)
  enqueue_all_to_any d hs wrote =
      get_next_consumer d >>= λ r. enqueue_all_to_specific r.0 r.1 hs wrote

  unfoldable pub register : Dispatcher → ℕ → Outcome Dispatcher
  register d id =
      if is_some (find_queue d id)
      then throws Exception.exception_base
      else (let d' = put_queue d id (some (fresh_queue C)) in
          ok (record d' { consumer_ids = d.consumer_ids ++ id ∷ []; consumer_id_itr = 0 }))

  abbrev pub without_consumer : Dispatcher → ℕ → Dispatcher
  without_consumer d id = elim (erase_consumer id d.consumer_ids) [
    | none ↦ d
    | some (ids, i) ↦ record d {
      consumer_ids = ids;
      consumer_id_itr = if i == length ids then 0 else i;
    }
  ]

  -- The remaining coroutines go to another consumer, if there is one; whether its queue took them
  -- is not looked at. `none` is a loop of `DequeAll` that never ends.
  unfoldable pub deregister : Dispatcher → (id : ℕ) → (wrote : Bool) → Outcome Dispatcher
  deregister d id wrote = elim (find_queue d id) [
    | none ↦ throws Exception.exception_base
    | some q ↦ defined (deque_all C q (pos_part q.remained_items)) >>= λ r.
        let d' = without_consumer (put_queue d id none) id in
        if empty d'.consumer_ids
        then ok d'
        else if empty r.1
        then ok d'
        else enqueue_all_to_any d' r.1 wrote >>= λ s. ok s.0
  ]

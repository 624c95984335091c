-- ===== src/Dispatcher/Delivery.antt =====
-- Where a coroutine goes that is handed to the dispatcher.
use libarc.Prelude.{
  ℕ, zero, suc, ◌+◌, ◌<◌, ◌≡◌, ◌≢◌, refl, ap, ◌∙◌, inl, inr, Bool, true, false, some, List, [], ◌∷◌,
  if◌then◌else◌, length, get_elem?, ok, Option-cases, arith, count,
}
use libarc.Dispatcher.Queue.{
  ConcurrentQueue, QueueLaws, CoroutineQueue, handle, enqueue, enqueue_bulk, IsTallied,
  enqueue-IsTallied, enqueue_bulk-IsTallied,
}
use libarc.Dispatcher.Core.{
  Dispatcher, find_queue, put_queue, get_next_consumer, advance, deliver, notify_event_loop,
  get_coroutine_queue, enqueue_to_specific, enqueue_all_to_specific, enqueue_all_to_any,
}
use libarc.Dispatcher.Consumers.{IsConsistent, find-put, put-ids, put-IsConsistent}

module _ {C : ConcurrentQueue} where
  -- What a delivery to the consumer `id` comes to: `b` is whether its queue had room.
  pub record Delivered (d : Dispatcher C) (id : ℕ) (hs : List ℕ) (d' : Dispatcher C) (b : Bool)
      : Type 0 where
    pub consistent : IsConsistent d'
    pub before : CoroutineQueue C
    pub after : CoroutineQueue C
    pub was : find_queue C d id ≡ some before
    pub is_now : find_queue C d' id ≡ some after
    pub elsewhere : (j : ℕ) → id ≢ j → find_queue C d' j ≡ find_queue C d j
    pub contents :
        (i : ℕ)
        → count handle i (C.contents after.queue)
          ≡ count handle i (C.contents before.queue) + (if b then count handle i hs else 0)
    pub told : d'.notified ≡ (if b then (id, length hs) ∷ d.notified else d.notified)

  -- Writing the queue back, and telling the consumer.
  deliver-Delivered :
      (d : Dispatcher C) (id : ℕ) (hs : List ℕ) (q q' : CoroutineQueue C) (b : Bool)
      → find_queue C d id ≡ some q
      → IsTallied C q'
      → ((i : ℕ)
          → count handle i (C.contents q'.queue)
            ≡ count handle i (C.contents q.queue) + (if b then count handle i hs else 0))
      → IsConsistent d
      → (d' : Dispatcher C) × (deliver C d id (length hs) (q', b) true ≡ ok (d', b))
        × Delivered d id hs d' b
  unfolding deliver notify_event_loop
  deliver-Delivered d id hs q q' true there t c k =
      let base = put-IsConsistent d id q q' there t k in
      let (_, _, told) = put-ids d id (some q') in
      (
        record (put_queue C d id (some q')) {
          notified = (id, length hs) ∷ (put_queue C d id (some q')).notified;
        },
        refl,
        record {
          consistent = record {
            listed = base.listed;
            pointed = base.pointed;
            tallied = base.tallied;
          };
          before = q;
          after = q';
          was = there;
          is_now = find-put d id id (some q') ∙ ground arith;
          elsewhere = λ j ne. find-put d id j (some q') ∙ ground arith;
          contents = c;
          told = ap (λ (l : List (ℕ × ℕ)). (id, length hs) ∷ l) told;
        },
      )
  deliver-Delivered d id hs q q' false there t c k =
      let (_, _, told) = put-ids d id (some q') in
      (
        put_queue C d id (some q'),
        refl,
        record {
          consistent = put-IsConsistent d id q q' there t k;
          before = q;
          after = q';
          was = there;
          is_now = find-put d id id (some q') ∙ ground arith;
          elsewhere = λ j ne. find-put d id j (some q') ∙ ground arith;
          contents = c;
          told = told;
        },
      )

module _ {C : ConcurrentQueue} (laws : QueueLaws C) where
  -- A coroutine for a registered consumer.
  pub enqueue_to_specific_delivers :
      (d : Dispatcher C) (id h : ℕ) (q : CoroutineQueue C)
      → find_queue C d id ≡ some q
      → IsConsistent d
      → (d' : Dispatcher C) × (enqueue_to_specific C d id h true ≡ ok (d', (enqueue C q h).1))
        × Delivered d id (h ∷ []) d' (enqueue C q h).1
  unfolding enqueue_to_specific get_coroutine_queue enqueue
  enqueue_to_specific_delivers d id h q there k =
      let new = enqueue C q h in
      let (d', e, done) =
        deliver-Delivered d id (h ∷ []) q new.0 new.1 there
          (enqueue-IsTallied laws q h (k.tallied id q there))
          (λ i. let (_, law) = laws.enqueued q.queue h in let law_i = law i in ground arith) k in
      (d', rw there e, done)

  -- A batch for a registered consumer: all of it goes there, or nothing.
  pub enqueue_all_to_specific_delivers :
      (d : Dispatcher C) (id : ℕ) (hs : List ℕ) (q : CoroutineQueue C)
      → find_queue C d id ≡ some q
      → IsConsistent d
      → (d' : Dispatcher C) × (enqueue_all_to_specific C d id hs true
          ≡ ok (d', (enqueue_bulk C q hs).1))
        × Delivered d id hs d' (enqueue_bulk C q hs).1
  unfolding enqueue_all_to_specific get_coroutine_queue enqueue_bulk
  enqueue_all_to_specific_delivers d id hs q there k =
      let new = enqueue_bulk C q hs in
      let (d', e, done) =
        deliver-Delivered d id hs q new.0 new.1 there
          (enqueue_bulk-IsTallied laws q hs (k.tallied id q there))
          (λ i. let (_, law) = laws.enqueued_bulk q.queue hs in let law_i = law i in ground arith)
          k in
      (d', rw there e, done)

  count-get_elem? : (xs : List ℕ) (i : ℕ) {x : ℕ} → get_elem? xs i ≡ some x → 0 < count handle x xs
  unfolding count
  count-get_elem? [] i h = cc
  count-get_elem? (y ∷ xs) zero h = ground arith
  count-get_elem? (y ∷ xs) (suc i) {x} h = omega (arith, count-get_elem? xs i h)

  get_elem?-lt : (xs : List ℕ) (i : ℕ) → i < length xs → (x : ℕ) × (get_elem? xs i ≡ some x)
  get_elem?-lt [] i h = absurd (omega arith)
  get_elem?-lt (x ∷ xs) zero h = (x, refl)
  get_elem?-lt (x ∷ xs) (suc i) h = get_elem?-lt xs i (omega arith)

  -- The consumer in turn has a queue, and the iterator goes on.
  pub get_next_consumer_ok :
      (d : Dispatcher C)
      → d.consumer_ids ≢ []
      → IsConsistent d
      → (id : ℕ) × (q : CoroutineQueue C) × (d' : Dispatcher C) × (get_elem? d.consumer_ids
            d.consumer_id_itr
          ≡ some id)
        × (get_next_consumer C d ≡ ok (d', id))
        × (find_queue C d' id ≡ some q)
        × IsConsistent d'
        × ((j : ℕ) → find_queue C d' j ≡ find_queue C d j)
        × (d'.notified ≡ d.notified)
  unfolding get_next_consumer
  get_next_consumer_ok d some_id k = elim k.pointed [
    | inr (none_left, _) ↦ absurd (some_id none_left)
    | inl inside ↦
        let (id, e) = get_elem?-lt d.consumer_ids d.consumer_id_itr inside in
        let occurs = count-get_elem? d.consumer_ids d.consumer_id_itr e in
        let on = advance d.consumer_id_itr (length d.consumer_ids) in
        let d' : Dispatcher C = record d { consumer_id_itr = on } in
        let l = k.listed id in
        elim (Option-cases (find_queue C d id)) [
          | inl missing ↦ absurd (ground arith)
          | inr (q, there) ↦ (
            id,
            q,
            d',
            e,
            ground arith,
            there,
            record { listed = k.listed; pointed = inl (ground arith); tallied = k.tallied },
            λ j. refl,
            refl,
          )
        ]
  ]

  -- Under the same conditions `EnqueueAllToAny` delivers a batch to the consumer at the iterator:
  -- the whole batch, of which the consumer is told once, or nothing, as the result says.
  pub enqueue_all_to_any_delivers :
      (d : Dispatcher C) (hs : List ℕ)
      → d.consumer_ids ≢ []
      → IsConsistent d
      → (id : ℕ) × (turn : Dispatcher C) × (d' : Dispatcher C) × (b : Bool) × (get_elem?
            d.consumer_ids d.consumer_id_itr
          ≡ some id)
        × ((j : ℕ) → find_queue C turn j ≡ find_queue C d j)
        × (turn.notified ≡ d.notified)
        × (enqueue_all_to_any C d hs true ≡ ok (d', b))
        × Delivered turn id hs d' b
  unfolding enqueue_all_to_any
  enqueue_all_to_any_delivers d hs some_id k =
      let (id, q, turn, e, next, there, k', same, quiet) = get_next_consumer_ok d some_id k in
      let (d', done, delivered) = enqueue_all_to_specific_delivers turn id hs q there k' in
      (id, turn, d', (enqueue_bulk C q hs).1, e, same, quiet, rw next done, delivered)

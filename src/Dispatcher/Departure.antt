-- ===== src/Dispatcher/Departure.antt =====
-- A consumer that leaves, and the coroutines that it had not taken yet.
use libarc.Prelude.{
  present-le-one, ℕ, suc, ◌≤◌, ◌≡◌, refl, sym, ap, ◌∙◌, inl, inr, Bool, true, Option, none, some,
  List, [], ◌∷◌, ◌==◌, if◌then◌else◌, length, empty, ok, arith, count, present,
}
use libarc.Prelude.Int.{pos_part}
use libarc.Dispatcher.Queue.{
  ConcurrentQueue, QueueLaws, CoroutineQueue, handle, IsTallied, deque_all, deque_all_returns,
}
use libarc.Dispatcher.Core.{
  Dispatcher, find_queue, put_queue, deregister, erase_consumer, without_consumer,
}
use libarc.Dispatcher.Consumers.{IsConsistent, IsPointed, erase_consumer-Erases, find-put, put-ids}

IsPointed-left :
    (ys : List ℕ) (i : ℕ) → i ≤ length ys → IsPointed ys (if i == length ys then 0 else i)
IsPointed-left [] i h = inr (refl, ground arith)
IsPointed-left (y ∷ ys) i h = inl (ground arith)

count-of-none : (l : List ℕ) (i : ℕ) → length l ≡ 0 → count handle i l ≡ 0
unfolding count
count-of-none [] i h = refl
count-of-none (x ∷ l) i h = absurd (omega arith)

nil-of-length : (l : List ℕ) → length l ≡ 0 → l ≡ []
nil-of-length [] h = refl
nil-of-length (x ∷ l) h = absurd (omega arith)

none-of-present {ℓ} : {A : Type ℓ} (o : Option A) → present o ≡ 0 → o ≡ none
none-of-present none h = refl
none-of-present (some a) h = absurd (omega arith)

module _ {C : ConcurrentQueue} (laws : QueueLaws C) where
  -- What is left without the consumer `id`.
  pub without-IsConsistent :
      (d : Dispatcher C) (id : ℕ) (q : CoroutineQueue C)
      → find_queue C d id ≡ some q
      → IsConsistent d
      → IsConsistent (without_consumer C (put_queue C d id none) id)
        × (length d.consumer_ids
            ≡ suc (length (without_consumer C (put_queue C d id none) id).consumer_ids))
        × ((j : ℕ)
            → find_queue C (without_consumer C (put_queue C d id none) id) j
              ≡ (if id == j then none else find_queue C d j))
        × ((without_consumer C (put_queue C d id none) id).notified ≡ d.notified)
  without-IsConsistent d id q there k =
      let (ids, itr, quiet) = put-ids d id none in
      let l = k.listed id in
      elim (erase_consumer-Erases id d.consumer_ids) [
        | inl (_, z) ↦ absurd (ground arith)
        | inr (ys, i, e, small, shorter, c) ↦
            let e' : erase_consumer id (put_queue C d id none).consumer_ids ≡ some (ys, i) =
              ap (erase_consumer id) ids ∙ e in
            let left : Dispatcher C = record (put_queue C d id none) {
              consumer_ids = ys;
              consumer_id_itr = if i == length ys then 0 else i;
            } in
            let same : without_consumer C (put_queue C d id none) id ≡ left =
              rw (e', without_consumer) refl in
            rw same (
              record {
                listed = λ j.
                    let old = k.listed j in
                    let at_j = find-put d id j none in
                    let c_j = c j in
                    let one = present-le-one (find_queue C d j) in rw at_j (ground arith);
                pointed = IsPointed-left ys i small;
                tallied = λ j x h.
                    let at_j = find-put d id j none in let old = k.tallied j x in ground arith;
              },
              shorter,
              λ j. find-put d id j none,
              quiet,
            )
      ]

  -- All that a queue holds comes out of it.
  drained :
      (q : CoroutineQueue C)
      → IsTallied C q
      → (r : CoroutineQueue C × List ℕ) × (deque_all C q (pos_part q.remained_items) ≡ some r)
        × (length r.1 ≡ length (C.contents q.queue))
        × ((i : ℕ) → count handle i r.1 ≡ count handle i (C.contents q.queue))
  drained q t =
      let n : pos_part q.remained_items ≡ length (C.contents q.queue) = ap pos_part t in
      let (r, e, _, l, rest, c) =
        deque_all_returns laws q (length (C.contents q.queue)) t (omega arith) in
      (
        r,
        ap (deque_all C q) n ∙ e,
        l,
        λ i. omega (arith, c i, count-of-none (C.contents r.0.queue) i (omega arith)),
      )

  -- A departure of the last consumer.
  deregister-last :
      (d : Dispatcher C) (id : ℕ) (q : CoroutineQueue C) (r : CoroutineQueue C × List ℕ)
      (wrote : Bool)
      → find_queue C d id ≡ some q
      → deque_all C q (pos_part q.remained_items) ≡ some r
      → empty (without_consumer C (put_queue C d id none) id).consumer_ids ≡ true
      → deregister C d id wrote ≡ ok (without_consumer C (put_queue C d id none) id)
  unfolding deregister
  deregister-last d id q r wrote there e no_ids = ground arith

  -- In a consistent dispatcher, deregistering the only consumer leaves no consumer and no queue,
  -- whatever its queue held, and nobody is told.
  pub deregister_last_drops :
      (d : Dispatcher C) (id : ℕ) (q : CoroutineQueue C) (wrote : Bool)
      → find_queue C d id ≡ some q
      → length d.consumer_ids ≡ 1
      → IsConsistent d
      → (d' : Dispatcher C) × (deregister C d id wrote ≡ ok d')
        × (d'.consumer_ids ≡ [])
        × ((j : ℕ) → find_queue C d' j ≡ none)
        × (d'.notified ≡ d.notified)
  deregister_last_drops d id q wrote there one k =
      let left = without_consumer C (put_queue C d id none) id in
      let (k', shorter, queues, quiet) = without-IsConsistent d id q there k in
      let (r, e, l, c) = drained q (k.tallied id q there) in
      let none_left : left.consumer_ids ≡ [] = nil-of-length left.consumer_ids (omega arith) in
      (
        left,
        deregister-last d id q r wrote there e (ap empty none_left),
        none_left,
        λ j.
            none-of-present (find_queue C left j)
              (sym (k'.listed j) ∙ count-of-none left.consumer_ids j (omega arith)),
        quiet,
      )

-- ===== src/Dispatcher/Queue.antt =====
-- `CoroutineQueue` of include/arc/coro/dispatcher.h, over the concurrent queue that it wraps.
-- A coroutine handle is a number.
use libarc.Prelude.{
  ℕ, zero, suc, ◌+◌, ◌-◌, ◌<◌, ◌≤◌, ◌≡◌, refl, ap, ◌∙◌, Bool, Option, none, some, List, [], ◌∷◌,
  ◌++◌, if◌then◌else◌, length, length-append, count, count-append, arith,
}
use libarc.Prelude.Int.{ℤ, pos, ◌+ℤ◌, ◌-ℤ◌, add-pos, sub-pos}

abbrev pub handle : ℕ → ℕ
handle h = h

-- moodycamel::ConcurrentQueue as the runtime uses it.
pub record ConcurrentQueue : Type 1 where
  pub Queue : Type 0
  pub contents : Queue → List ℕ
  pub new_queue : Queue
  pub try_enqueue : Queue → ℕ → Queue × Bool
  pub try_enqueue_bulk : Queue → List ℕ → Queue × Bool
  pub try_dequeue_bulk : Queue → ℕ → Queue × List ℕ

-- What the dispatcher relies on: of its documentation that an item comes out once, in no particular
-- order between producers, so the laws count items. The last law is more than is documented: a bulk
-- dequeue may find all producer streams empty while items are still being added. It holds where the
-- items were added before and no other thread takes any.
pub record QueueLaws (C : ConcurrentQueue) : Type 0 where
  pub new_empty : C.contents C.new_queue ≡ []
  pub enqueued :
      (q : C.Queue) (h : ℕ)
      → (length (C.contents (C.try_enqueue q h).0)
          ≡ (if (C.try_enqueue q h).1 then length (C.contents q) + 1 else length (C.contents q)))
        × ((i : ℕ)
            → count handle i (C.contents (C.try_enqueue q h).0) ≡ (
                if (C.try_enqueue q h).1
                then count handle i (C.contents q) + count handle i (h ∷ [])
                else count handle i (C.contents q)))
  pub enqueued_bulk :
      (q : C.Queue) (hs : List ℕ)
      → (length (C.contents (C.try_enqueue_bulk q hs).0) ≡ (
          if (C.try_enqueue_bulk q hs).1
          then length (C.contents q) + length hs
          else length (C.contents q)))
        × ((i : ℕ)
            → count handle i (C.contents (C.try_enqueue_bulk q hs).0) ≡ (
                if (C.try_enqueue_bulk q hs).1
                then count handle i (C.contents q) + count handle i hs
                else count handle i (C.contents q)))
  pub dequeued :
      (q : C.Queue) (n : ℕ)
      → (length (C.try_dequeue_bulk q n).1 ≤ n)
        × (length (C.contents q)
            ≡ length (C.try_dequeue_bulk q n).1 + length (C.contents (C.try_dequeue_bulk q n).0))
        × ((i : ℕ)
            → count handle i (C.contents q)
              ≡ count handle i (C.try_dequeue_bulk q n).1
                + count handle i (C.contents (C.try_dequeue_bulk q n).0))
        × (0 < n → 0 < length (C.contents q) → 0 < length (C.try_dequeue_bulk q n).1)

pub record CoroutineQueue (C : ConcurrentQueue) : Type 0 where
  pub queue : C.Queue
  pub remained_items : ℤ

module _ (C : ConcurrentQueue) where
  abbrev pub fresh_queue : CoroutineQueue C
  fresh_queue = record { queue = C.new_queue; remained_items = pos 0 }

  unfoldable pub enqueue : CoroutineQueue C → ℕ → CoroutineQueue C × Bool
  enqueue q h =
      let (queue, ret) = C.try_enqueue q.queue h in
      (
        record {
          queue = queue;
          remained_items = if ret then q.remained_items +ℤ pos 1 else q.remained_items;
        },
        ret,
      )

  unfoldable pub enqueue_bulk : CoroutineQueue C → List ℕ → CoroutineQueue C × Bool
  enqueue_bulk q hs =
      let (queue, ret) = C.try_enqueue_bulk q.queue hs in
      (
        record {
          queue = queue;
          remained_items = if ret then q.remained_items +ℤ pos (length hs) else q.remained_items;
        },
        ret,
      )

  unfoldable pub deque_bulk : CoroutineQueue C → ℕ → CoroutineQueue C × List ℕ
  deque_bulk q n =
      let (queue, hs) = C.try_dequeue_bulk q.queue n in
      (record { queue = queue; remained_items = q.remained_items -ℤ pos (length hs) }, hs)

  -- The loop of `DequeAll`, with fuel; `none` is a loop that still spins.
  unfoldable pub deque_loop : (fuel : ℕ) → C.Queue → (remained : ℕ) → Option (C.Queue × List ℕ)
  deque_loop fuel q zero = some (q, [])
  deque_loop zero q (suc n) = none
  deque_loop (suc fuel) q (suc n) =
      let (q', hs) = C.try_dequeue_bulk q (suc n) in
      let rest = deque_loop fuel q' (suc n - length hs) in
      elim rest [ none ↦ none | some (q'', more) ↦ some (q'', hs ++ more) ]

  -- As many rounds as items are enough (`deque_all_returns`).
  unfoldable pub deque_all : CoroutineQueue C → (n : ℕ) → Option (CoroutineQueue C × List ℕ)
  deque_all q n = elim (deque_loop n q.queue n) [
    | none ↦ none
    | some (queue, hs) ↦
        some (record { queue = queue; remained_items = q.remained_items -ℤ pos n }, hs)
  ]

  -- The counter is the number of items.
  abbrev pub IsTallied : CoroutineQueue C → Type 0
  IsTallied q = q.remained_items ≡ pos (length (C.contents q.queue))

module _ {C : ConcurrentQueue} (laws : QueueLaws C) where
  open laws use {enqueued, enqueued_bulk, dequeued}

  pub enqueue-IsTallied :
      (q : CoroutineQueue C) (h : ℕ) → IsTallied C q → IsTallied C (enqueue C q h).0
  unfolding enqueue
  enqueue-IsTallied q h t =
      let law = (enqueued q.queue h).0 in
      let up = add-pos q.remained_items (length (C.contents q.queue)) 1 t in ground arith

  pub enqueue_bulk-IsTallied :
      (q : CoroutineQueue C) (hs : List ℕ) → IsTallied C q → IsTallied C (enqueue_bulk C q hs).0
  unfolding enqueue_bulk
  enqueue_bulk-IsTallied q hs t =
      let law = (enqueued_bulk q.queue hs).0 in
      let up = add-pos q.remained_items (length (C.contents q.queue)) (length hs) t in ground arith

  pub deque_bulk-IsTallied :
      (q : CoroutineQueue C) (n : ℕ) → IsTallied C q → IsTallied C (deque_bulk C q n).0
  unfolding deque_bulk
  deque_bulk-IsTallied q n t =
      let (_, law, _, _) = dequeued q.queue n in
      let down =
        sub-pos q.remained_items (length (C.contents q.queue))
          (length (C.try_dequeue_bulk q.queue n).1) t (omega arith) in
      ground arith

  -- What a run of the loop took and left.
  abbrev Drains : C.Queue → ℕ → (C.Queue × List ℕ) → Type 0
  Drains q n r =
      (length r.1 ≡ n)
      × (length (C.contents q) ≡ n + length (C.contents r.0))
      × ((i : ℕ)
          → count handle i (C.contents q) ≡ count handle i r.1 + count handle i (C.contents r.0))

  -- The loop ends if the queue holds as many items as are asked for.
  deque_loop-Drains :
      (fuel : ℕ) (q : C.Queue) (n : ℕ)
      → n ≤ fuel
      → n ≤ length (C.contents q)
      → (r : C.Queue × List ℕ) × (deque_loop C fuel q n ≡ some r) × Drains q n r
  unfolding deque_loop count
  deque_loop-Drains fuel q zero f h = ((q, []), refl, (refl, omega arith, λ i. omega arith))
  deque_loop-Drains zero q (suc n) f h = absurd (omega arith)
  deque_loop-Drains (suc fuel) q (suc n) f h =
      let (few, all, counts, some_out) = dequeued q (suc n) in
      let progress = some_out (omega arith) (omega arith) in
      let q' = (C.try_dequeue_bulk q (suc n)).0 in
      let hs = (C.try_dequeue_bulk q (suc n)).1 in
      let (r, e, (l, rest, c)) =
        deque_loop-Drains fuel q' (suc n - length hs) (omega arith) (omega arith) in
      (
        (r.0, hs ++ r.1),
        ground arith,
        (
          omega (arith, length-append hs r.1),
          omega arith,
          λ i. omega (arith, counts i, c i, count-append handle i hs r.1),
        ),
      )

  -- If the counter of a queue is its number of items, `DequeAll` of no more items than it holds
  -- returns: it takes out that many, what it returns and what stays are together what was there,
  -- and the counter is right afterwards. The queue's laws say that a bulk dequeue from a queue with
  -- items makes progress.
  pub deque_all_returns :
      (q : CoroutineQueue C) (n : ℕ)
      → IsTallied C q
      → n ≤ length (C.contents q.queue)
      → (r : CoroutineQueue C × List ℕ) × (deque_all C q n ≡ some r)
        × IsTallied C r.0
        × (length r.1 ≡ n)
        × (length (C.contents q.queue) ≡ n + length (C.contents r.0.queue))
        × ((i : ℕ)
            → count handle i (C.contents q.queue)
              ≡ count handle i r.1 + count handle i (C.contents r.0.queue))
  unfolding deque_all
  deque_all_returns q n t h =
      let (r, e, (l, rest, c)) = deque_loop-Drains n q.queue n (omega arith) h in
      let down = sub-pos q.remained_items (length (C.contents q.queue)) n t h in
      (
        (record { queue = r.0; remained_items = q.remained_items -ℤ pos n }, r.1),
        ground arith,
        down ∙ ap pos (omega arith),
        l,
        rest,
        c,
      )

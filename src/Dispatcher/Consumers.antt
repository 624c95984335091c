-- ===== src/Dispatcher/Consumers.antt =====
-- The consumers and their queues: who is registered, and where a coroutine goes.
use libarc.Prelude.{
  ℕ, suc, ◌+◌, ◌<◌, ◌≤◌, ◌≡◌, refl, ap, ◌∙◌, ◌⊎◌, inl, inr, Option, none, some, List, [], ◌∷◌, ◌++◌,
  ◌==◌, if◌then◌else◌, length, length-append, ok, Bool-cases, arith, count, count-snoc, present,
}
use libarc.Dispatcher.Queue.{
  ConcurrentQueue, QueueLaws, CoroutineQueue, handle, fresh_queue, IsTallied,
}
use libarc.Dispatcher.Core.{
  Dispatcher, new_dispatcher, find_queue, put_queue, register, erase_consumer,
}

-- The iterator stands at a consumer, if there is any.
abbrev pub IsPointed : List ℕ → ℕ → Type 0
IsPointed ids itr = (itr < length ids) ⊎ ((ids ≡ []) × (itr ≡ 0))

-- What `erase_consumer` finds.
abbrev pub Erases : ℕ → List ℕ → Option (List ℕ × ℕ) → Type 0
Erases id xs r =
    ((r ≡ none) × (count handle id xs ≡ 0))
    ⊎ ((ys : List ℕ) × (i : ℕ) × (r ≡ some (ys, i))
        × (i ≤ length ys)
        × (length xs ≡ suc (length ys))
        × ((j : ℕ) → count handle j xs ≡ (if id == j then 1 else 0) + count handle j ys))

pub erase_consumer-Erases : (id : ℕ) (xs : List ℕ) → Erases id xs (erase_consumer id xs)
unfolding erase_consumer count
erase_consumer-Erases id [] = inl (refl, refl)
erase_consumer-Erases id (x ∷ xs) = elim (Bool-cases (x == id)) [
  | inl hit ↦ inr (xs, 0, rw hit, omega arith, refl, λ j. ground arith)
  | inr miss ↦ elim (erase_consumer-Erases id xs) [
    | inl (e, z) ↦ inl (rw (miss, e), rw (miss, z))
    | inr (ys, i, e, small, l, c) ↦
        inr (x ∷ ys, suc i, rw (miss, e), omega arith, ap suc l, λ j. omega (arith, c j))
  ]
]

module _ {C : ConcurrentQueue} where
  pub record IsConsistent (d : Dispatcher C) : Type 0 where
    pub listed : (id : ℕ) → count handle id d.consumer_ids ≡ present (find_queue C d id)
    pub pointed : IsPointed d.consumer_ids d.consumer_id_itr
    pub tallied : (id : ℕ) (q : CoroutineQueue C) → find_queue C d id ≡ some q → IsTallied C q

  pub new_dispatcher-IsConsistent : QueueLaws C → IsConsistent (new_dispatcher C)
  unfolding new_dispatcher count
  new_dispatcher-IsConsistent laws = record {
    listed = λ id. ground arith;
    pointed = inr (refl, refl);
    tallied = λ id q h. absurd (ground arith);
  }

  pub find-put :
      (d : Dispatcher C) (id j : ℕ) (q : Option (CoroutineQueue C))
      → find_queue C (put_queue C d id q) j ≡ (if id == j then q else find_queue C d j)
  find-put d id j q = ground arith

  pub put-ids :
      (d : Dispatcher C) (id : ℕ) (q : Option (CoroutineQueue C))
      → ((put_queue C d id q).consumer_ids ≡ d.consumer_ids)
        × ((put_queue C d id q).consumer_id_itr ≡ d.consumer_id_itr)
        × ((put_queue C d id q).notified ≡ d.notified)
  put-ids d id q = ground arith

  -- Writing back a queue that was there.
  pub put-IsConsistent :
      (d : Dispatcher C) (id : ℕ) (q q' : CoroutineQueue C)
      → find_queue C d id ≡ some q
      → IsTallied C q'
      → IsConsistent d
      → IsConsistent (put_queue C d id (some q'))
  put-IsConsistent d id q q' there t c =
      let (ids, itr, _) = put-ids d id (some q') in
      record {
        listed = λ j.
            let old = c.listed j in
            let at_j = find-put d id j (some q') in rw (at_j, ids) (ground arith);
        pointed = rw (ids, itr) c.pointed;
        tallied = λ j x h.
            let at_j = find-put d id j (some q') in let old = c.tallied j x in ground arith;
      }

  -- Registering a consumer that a consistent dispatcher does not know succeeds; the consumer then
  -- has an empty queue, and the dispatcher is consistent: each consumer is listed once and has a
  -- queue whose counter is its number of items, and the iterator stands within the list.
  pub register-IsConsistent :
      QueueLaws C
      → (d : Dispatcher C) (id : ℕ) → find_queue C d id ≡ none
      → IsConsistent d
      → (d' : Dispatcher C) × (register C d id ≡ ok d')
        × IsConsistent d'
        × (find_queue C d' id ≡ some (fresh_queue C))
  unfolding register
  register-IsConsistent laws d id new c =
      let (ids, itr, _) = put-ids d id (some (fresh_queue C)) in
      let l = length-append d.consumer_ids (id ∷ []) in
      (
        record (put_queue C d id (some (fresh_queue C))) {
          consumer_ids = d.consumer_ids ++ id ∷ [];
          consumer_id_itr = 0;
        },
        rw new refl,
        record {
          listed = λ j.
              let old = c.listed j in
              let more = count-snoc handle j d.consumer_ids id in
              let at_j = find-put d id j (some (fresh_queue C)) in rw (more, at_j) (ground arith);
          pointed = inl (omega arith);
          tallied = λ j q h.
              let at_j = find-put d id j (some (fresh_queue C)) in
              let old = c.tallied j q in let none_in = ap length laws.new_empty in ground arith;
        },
        find-put d id id (some (fresh_queue C)) ∙ ground arith,
      )

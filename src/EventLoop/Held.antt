-- ===== src/EventLoop/Held.antt =====
-- What stands in the queues of the consumers, counted over all of them.
use libarc.Prelude.{
  ◌≤◌, ℕ, ◌+◌, ◌<◌, ◌≡◌, ◌≢◌, refl, ap, inl, inr, Option, none, some, List, [], ◌∷◌, ◌==◌, ==_iff,
  count, present, Bool-cases, arith,
}
use libarc.Dispatcher.Queue.{ConcurrentQueue, CoroutineQueue, handle}
use libarc.Dispatcher.Core.{Dispatcher, find_queue}

module _ (C : ConcurrentQueue) where
  -- How often a coroutine stands in the queue of a consumer, and in the queues of several.
  abbrev pub held_in : Option (CoroutineQueue C) → (h : ℕ) → ℕ
  held_in none h = 0
  held_in (some q) h = count handle h (C.contents q.queue)

  abbrev pub held_by : Dispatcher C → (id h : ℕ) → ℕ
  held_by d id h = held_in (find_queue C d id) h

  pub held : Dispatcher C → List ℕ → (h : ℕ) → ℕ
  held d [] h = 0
  held d (id ∷ ids) h = let rest = held d ids h in held_by d id h + rest

  pub held-eq :
      (d d' : Dispatcher C) (ids : List ℕ) (h : ℕ)
      → ((j : ℕ) → find_queue C d' j ≡ find_queue C d j)
      → held d' ids h ≡ held d ids h
  unfolding held
  held-eq d d' [] h same = refl
  held-eq d d' (id ∷ ids) h same =
      let rest = held-eq d d' ids h same in let here = same id in ground arith

  -- A queue that is not among them has changed, or one that is there once.
  pub held-absent :
      (d d' : Dispatcher C) (id : ℕ) (ids : List ℕ) (h : ℕ)
      → ((j : ℕ) → id ≢ j → find_queue C d' j ≡ find_queue C d j)
      → count handle id ids ≡ 0
      → held d' ids h ≡ held d ids h
  unfolding held count
  held-absent d d' id [] h same absent = refl
  held-absent d d' id (j ∷ ids) h same absent =
      let ne : id ≢ j = λ e. absurd (ground arith) in
      let rest = held-absent d d' id ids h same (omega arith) in
      let here = same j ne in ground arith

  pub held-change :
      (d d' : Dispatcher C) (id : ℕ) (ids : List ℕ) (h : ℕ)
      → ((j : ℕ) → id ≢ j → find_queue C d' j ≡ find_queue C d j)
      → count handle id ids ≡ 1
      → held d' ids h + held_by d id h ≡ held d ids h + held_by d' id h
  unfolding held count
  held-change d d' id [] h same once = absurd (ground arith)
  held-change d d' id (j ∷ ids) h same once = elim (Bool-cases (j == id)) [
    | inl is ↦
        let e : j ≡ id = (==_iff _ _).0 is in
        let rest = held-absent d d' id ids h same (ground arith) in rw e (omega (arith, rest))
    | inr is_not ↦
        let ne : id ≢ j = λ e. absurd (ground arith) in
        let rest = held-change d d' id ids h same (ground arith) in
        let here : held_by d' j h ≡ held_by d j h = ap (λ o. held_in o h) (same j ne) in
        omega (arith, rest, here)
  ]

  -- The consumers, at which the sums are taken, are those that have queues, each once.
  abbrev pub AreConsumers : List ℕ → Dispatcher C → Type 0
  AreConsumers ids d = (id : ℕ) → count handle id ids ≡ present (find_queue C d id)

  -- The queue of one of the consumers holds no more than all do.
  pub held_by-held :
      (d : Dispatcher C) (id : ℕ) (ids : List ℕ) (h : ℕ)
      → 0 < count handle id ids
      → held_by d id h ≤ held d ids h
  unfolding held count
  held_by-held d id [] h there = absurd (omega arith)
  held_by-held d id (j ∷ ids) h there = elim (Bool-cases (j == id)) [
    | inl is ↦ let e : j ≡ id = (==_iff _ _).0 is in rw e (omega arith)
    | inr is_not ↦ let rest = held_by-held d id ids h (ground arith) in omega (arith, rest)
  ]

-- ===== src/EventLoop/Moves.antt =====
-- Coroutines that go from the lists of a producer (src/coro/eventloop.cc) to the queues of the
-- consumers.
use libarc.Prelude.{
  ◌≤◌, ℕ, ◌+◌, ◌<◌, ◌≡◌, refl, sym, ap, subst, ◌∙◌, ◌⊎◌, inl, inr, Bool, true, false, if◌then◌else◌,
  List, [], ◌∷◌, ◌++◌, ◌==◌, ==_iff, length, length-append, count, count-append, present,
  Bool-cases, arith,
}
use libarc.Prelude.Int.{ℤ, pos}
use libarc.Dispatcher.Queue.{ConcurrentQueue, handle}
use libarc.Dispatcher.Core.{Dispatcher, find_queue}
use libarc.Dispatcher.Consumers.{IsConsistent}
use libarc.Dispatcher.Delivery.{Delivered}
use libarc.EventLoop.Production.{Production, keep_dest, is_none_left}
use libarc.EventLoop.Conservation.{IsBalanced, in_dests}
use libarc.EventLoop.Held.{held, held_in, held_by, held-change, AreConsumers}

module _ (C : ConcurrentQueue) where
  -- Of the coroutines `hs` the queues have taken all but those that are left.
  pub record Moves (ids : List ℕ) (d : Dispatcher C) (hs : List ℕ) (d' : Dispatcher C)
      (left : List ℕ) : Type 0 where
    pub consistent : IsConsistent d'
    pub consumers : AreConsumers C ids d'
    pub fewer : (h : ℕ) → count handle h left ≤ count handle h hs
    pub all_held :
        (h : ℕ) → held C d' ids h + count handle h left ≡ held C d ids h + count handle h hs

  -- What is left was refused: none is left, or one of them did not fit into a queue, which held no
  -- more than the queues of the consumers hold now.
  abbrev pub IsRefused : List ℕ → Dispatcher C → List ℕ → Type 0
  IsRefused ids d left =
      (left ≡ [])
      ⊎ ((h : ℕ) × (q : C.Queue) × (0 < count handle h left)
          × ((C.try_enqueue q h).1 ≡ false)
          × ((i : ℕ) → count handle i (C.contents q) ≤ held C d ids i))

  count-left :
      (b : Bool) (h : ℕ) (hs : List ℕ)
      → (if b then count handle h hs else 0) + count handle h (if b then [] else hs)
        ≡ count handle h hs
  unfolding count
  count-left true h hs = omega arith
  count-left false h hs = omega arith

  pub Delivered-Moves :
      (ids : List ℕ) (d d' : Dispatcher C) (id : ℕ) (hs : List ℕ) (b : Bool)
      → AreConsumers C ids d
      → Delivered d id hs d' b
      → Moves ids d hs d' (if b then [] else hs)
  Delivered-Moves ids d d' id hs b consumers done =
      let there : present (find_queue C d id) ≡ 1 = ap present done.was in
      let now : present (find_queue C d' id) ≡ 1 = ap present done.is_now in
      record {
        consistent = done.consistent;
        consumers = λ j. elim (Bool-cases (id == j)) [
          | inl is ↦
              let e : id ≡ j = (==_iff _ _).0 is in
              subst (λ k. count handle k ids ≡ present (find_queue C d' k)) e
                (consumers id ∙ there ∙ sym now)
          | inr is_not ↦
              consumers j ∙ ap present (sym (done.elsewhere j (λ e. absurd (ground arith))))
        ];
        fewer = λ h. omega (arith, count-left b h hs);
        all_held = λ h.
            let once : count handle id ids ≡ 1 = consumers id ∙ there in
            let change = held-change C d d' id ids h done.elsewhere once in
            let old : held_by C d id h ≡ count handle h (C.contents done.before.queue) =
              ap (λ o. held_in C o h) done.was in
            let new : held_by C d' id h ≡ count handle h (C.contents done.after.queue) =
              ap (λ o. held_in C o h) done.is_now in
            omega (arith, change, old, new, done.contents h, count-left b h hs);
      }

  pub Moves-none :
      (ids : List ℕ) (d : Dispatcher C) (hs : List ℕ)
      → IsConsistent d
      → AreConsumers C ids d
      → Moves ids d hs d hs
  Moves-none ids d hs k consumers = record {
    consistent = k;
    consumers = consumers;
    fewer = λ h. omega arith;
    all_held = λ h. refl;
  }

  pub Moves-then :
      (ids : List ℕ) (d d' d'' : Dispatcher C) (hs some_left left : List ℕ)
      → Moves ids d hs d' some_left
      → Moves ids d' some_left d'' left
      → Moves ids d hs d'' left
  Moves-then ids d d' d'' hs some_left left first then_ = record {
    consistent = then_.consistent;
    consumers = then_.consumers;
    fewer = λ h. omega (arith, then_.fewer h, first.fewer h);
    all_held = λ h. then_.all_held h ∙ first.all_held h;
  }

  -- Beside others that stay where they are.
  pub Moves-before :
      (ids : List ℕ) (d d' : Dispatcher C) (hs left more : List ℕ)
      → Moves ids d hs d' left
      → Moves ids d (hs ++ more) d' (left ++ more)
  Moves-before ids d d' hs left more moved = record {
    consistent = moved.consistent;
    consumers = moved.consumers;
    fewer = λ h.
        omega
          (arith, moved.fewer h, count-append handle h hs more, count-append handle h left more);
    all_held = λ h.
        omega
          (arith, moved.all_held h, count-append handle h hs more, count-append handle h left more);
  }

  pub Moves-behind :
      (ids : List ℕ) (d d' : Dispatcher C) (more hs left : List ℕ)
      → Moves ids d hs d' left
      → Moves ids d (more ++ hs) d' (more ++ left)
  Moves-behind ids d d' more hs left moved = record {
    consistent = moved.consistent;
    consumers = moved.consumers;
    fewer = λ h.
        omega
          (arith, moved.fewer h, count-append handle h more hs, count-append handle h more left);
    all_held = λ h.
        omega
          (arith, moved.all_held h, count-append handle h more hs, count-append handle h more left);
  }

  pub append-IsRefused :
      (ids : List ℕ) (d : Dispatcher C) (xs ys : List ℕ)
      → IsRefused ids d xs
      → IsRefused ids d ys
      → IsRefused ids d (xs ++ ys)
  append-IsRefused ids d xs ys (inr (h, q, there, full, within)) _ =
      inr (h, q, omega (arith, count-append handle h xs ys), full, within)
  append-IsRefused ids d xs ys (inl e) (inr (h, q, there, full, within)) =
      inr (h, q, omega (arith, count-append handle h xs ys), full, within)
  append-IsRefused ids d xs ys (inl e) (inl e') = inl (rw (e, e') refl)

  -- The queues only grow.
  pub later-IsRefused :
      (ids : List ℕ) (d d' : Dispatcher C) (hs left xs : List ℕ)
      → Moves ids d hs d' left
      → IsRefused ids d xs
      → IsRefused ids d' xs
  later-IsRefused ids d d' hs left xs moved (inl e) = inl e
  later-IsRefused ids d d' hs left xs moved (inr (h, q, there, full, within)) =
      inr (h, q, there, full, λ i. omega (arith, within i, moved.fewer i, moved.all_held i))

  -- All that is meant for some destination, and whether those are consumers.
  abbrev pub of_dests : List (ℕ × List ℕ) → List ℕ
  of_dests [] = []
  of_dests ((id, hs) ∷ dests) = let rest = of_dests dests in hs ++ rest

  abbrev pub AreKnown : List ℕ → List (ℕ × List ℕ) → Type 0
  AreKnown ids [] = Unit
  AreKnown ids ((id, hs) ∷ dests) = (0 < count handle id ids) × AreKnown ids dests

  pub of_dests-keep_dest :
      (wrote : Bool) (id : ℕ) (hs : List ℕ) (dests : List (ℕ × List ℕ))
      → of_dests (keep_dest C wrote id hs dests) ≡ hs ++ of_dests dests
  of_dests-keep_dest wrote id [] dests = refl
  of_dests-keep_dest wrote id (h ∷ hs) dests = refl

  -- What a producer has to send.
  abbrev pub to_send : Production → List ℕ
  to_send s = s.to_randomly_dispatched_coroutines ++ of_dests s.to_dispatched_coroutines_with_dests

  length-of_dests : (dests : List (ℕ × List ℕ)) → length (of_dests dests) ≡ in_dests dests
  length-of_dests [] = refl
  length-of_dests ((id, hs) ∷ dests) =
      omega (arith, length-append hs (of_dests dests), length-of_dests dests)

  no_length : (hs : List ℕ) → length hs ≡ 0 → hs ≡ []
  no_length [] e = refl
  no_length (h ∷ hs) e = absurd (omega arith)

  is_none_left-zero : (z : ℤ) (n : ℕ) → is_none_left z ≡ true → z ≡ pos n → n ≡ 0
  is_none_left-zero z n h e = let h' = rw e at h in (==_iff n 0).0 h'

  -- A producer whose counter is 0 has nothing to send.
  pub none_to_send :
      (s : Production)
      → IsBalanced s
      → is_none_left s.to_dispatched_coroutines_count ≡ true
      → to_send s ≡ []
  none_to_send s balanced none_left =
      let sum = is_none_left-zero s.to_dispatched_coroutines_count _ none_left balanced in
      no_length (to_send s) (
        omega (
          arith,
          sum,
          length-append s.to_randomly_dispatched_coroutines
              (of_dests s.to_dispatched_coroutines_with_dests),
          length-of_dests s.to_dispatched_coroutines_with_dests,
        ))

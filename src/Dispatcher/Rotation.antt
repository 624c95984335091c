-- ===== src/Dispatcher/Rotation.antt =====
-- `EnqueueToAny` takes the consumers in turn.
use libarc.Prelude.{
  ℕ, zero, suc, ◌+◌, ◌-◌, ◌<◌, ◌≤◌, ◌≡◌, refl, some, List, [], ◌∷◌, ◌++◌, length, get_elem?, drop,
  take, Outcome, ok, ◌>>=◌, >>=-eq-ok, arith,
}
use libarc.Dispatcher.Queue.{ConcurrentQueue}
use libarc.Dispatcher.Core.{Dispatcher, get_next_consumer, advance}

drop-all : (xs : List ℕ) (i : ℕ) → length xs ≤ i → drop i xs ≡ []
drop-all [] zero h = refl
drop-all [] (suc i) h = refl
drop-all (x ∷ xs) zero h = absurd (omega arith)
drop-all (x ∷ xs) (suc i) h = drop-all xs i (omega arith)

module _ (C : ConcurrentQueue) where
  -- The consumers of the next `n` calls, with the dispatcher after them.
  unfoldable pub next_consumers : (n : ℕ) → Dispatcher C → Outcome (Dispatcher C × List ℕ)
  next_consumers zero d = ok (d, [])
  next_consumers (suc n) d =
      get_next_consumer C d >>= λ r. next_consumers n r.0 >>= λ s. ok (s.0, r.1 ∷ s.1)

  abbrev at_ : Dispatcher C → ℕ → Dispatcher C
  at_ d i = record d { consumer_id_itr = i }

  drop-get :
      (xs : List ℕ) (i : ℕ)
      → i < length xs
      → (x : ℕ) × (get_elem? xs i ≡ some x) × (drop i xs ≡ x ∷ drop (suc i) xs)
  drop-get [] i h = absurd (omega arith)
  drop-get (x ∷ xs) zero h = (x, refl, refl)
  drop-get (x ∷ xs) (suc i) h = drop-get xs i (omega arith)

  -- One call within the list.
  next_ok :
      (d : Dispatcher C) (i : ℕ)
      → i < length d.consumer_ids
      → (x : ℕ) × (get_next_consumer C (at_ d i)
          ≡ ok (at_ d (advance i (length d.consumer_ids)), x))
        × (drop i d.consumer_ids ≡ x ∷ drop (suc i) d.consumer_ids)
  unfolding get_next_consumer
  next_ok d i h = let (x, e, t) = drop-get d.consumer_ids i h in (x, ground arith, t)

  -- The calls that stay short of the end of the list.
  next_consumers-drop :
      (m : ℕ) (d : Dispatcher C) (i : ℕ)
      → m + i ≡ length d.consumer_ids
      → 0 < m
      → next_consumers m (at_ d i) ≡ ok (at_ d 0, drop i d.consumer_ids)
  unfolding next_consumers
  next_consumers-drop zero d i h pos = absurd (omega arith)
  next_consumers-drop (suc zero) d i h pos =
      let (x, e, t) = next_ok d i (omega arith) in
      let none_left : drop (suc i) d.consumer_ids ≡ [] =
        drop-all d.consumer_ids (suc i) (omega arith) in
      let back : advance i (length d.consumer_ids) ≡ 0 = ground arith in
      rw e (rw (back, t, none_left) refl)
  next_consumers-drop (suc (suc m)) d i h pos =
      let (x, e, t) = next_ok d i (omega arith) in
      let on : advance i (length d.consumer_ids) ≡ suc i = ground arith in
      let rest = next_consumers-drop (suc m) d (suc i) (omega arith) (omega arith) in
      rw (e, on, rest, t) refl

  -- From the beginning of the list, as many calls as there are entries before `i`.
  next_consumers-segment :
      (m : ℕ) (d : Dispatcher C) (i : ℕ)
      → m + i < length d.consumer_ids
      → next_consumers m (at_ d i) ≡ ok (at_ d (m + i), take m (drop i d.consumer_ids))
  unfolding next_consumers
  next_consumers-segment zero d i h = ground arith
  next_consumers-segment (suc m) d i h =
      let (x, e, t) = next_ok d i (omega arith) in
      let on : advance i (length d.consumer_ids) ≡ suc i = ground arith in
      let rest = next_consumers-segment m d (suc i) (omega arith) in
      let sum : m + suc i ≡ suc m + i = omega arith in rw (e, on, rest, t, sum) refl

  next_consumers-add :
      (m n : ℕ) (d : Dispatcher C) {d₁ d₂ : Dispatcher C} {xs ys : List ℕ}
      → next_consumers m d ≡ ok (d₁, xs)
      → next_consumers n d₁ ≡ ok (d₂, ys)
      → next_consumers (m + n) d ≡ ok (d₂, xs ++ ys)
  unfolding next_consumers
  next_consumers-add zero n d {d₁} {d₂} {xs} {ys} h k =
      let same : d ≡ d₁ = ground arith in
      let none_yet : xs ≡ [] = ground arith in
      let sum : 0 + n ≡ n = omega arith in rw (sum, same, none_yet) k
  next_consumers-add (suc m) n d {d₁} {d₂} {xs} {ys} h k =
      let (r, e, rest) = >>=-eq-ok (get_next_consumer C d) _ h in
      let (s, e', last) = >>=-eq-ok (next_consumers m r.0) _ rest in
      let same : s.0 ≡ d₁ = ground arith in
      let list : r.1 ∷ s.1 ≡ xs = ground arith in
      let k' : next_consumers n s.0 ≡ ok (d₂, ys) = rw same k in
      let more = next_consumers-add m n r.0 e' k' in
      let sum : suc m + n ≡ suc (m + n) = omega arith in
      rw (sum, next_consumers, e, more, ← list) refl

  -- From an iterator within the list, as many calls of `GetNextConsumer` as there are consumers
  -- give the list rotated to the iterator, each entry once, and leave the dispatcher as it was.
  pub next_consumers_round :
      (d : Dispatcher C)
      → d.consumer_id_itr < length d.consumer_ids
      → next_consumers (length d.consumer_ids) d
        ≡ ok (d, drop d.consumer_id_itr d.consumer_ids ++ take d.consumer_id_itr d.consumer_ids)
  next_consumers_round d h =
      let i = d.consumer_id_itr in
      let n = length d.consumer_ids in
      let to_end = next_consumers-drop (n - i) d i (omega arith) (omega arith) in
      let from_start = next_consumers-segment i d 0 (omega arith) in
      let sum : n - i + i ≡ n = omega arith in
      let all = next_consumers-add (n - i) i (at_ d i) to_end from_start in
      let back : i + 0 ≡ i = omega arith in rw (sum, back) at all

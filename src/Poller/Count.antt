-- ===== src/Poller/Count.antt =====
-- `total_io_events_` against what waits in the deques. The poller is done, and the event loop
-- returns, only when the counter is back at 0.
pub mod Reach
pub mod Runs
use libarc.Prelude.{
  ℕ, suc, ◌+◌, ◌-◌, ◌<◌, ◌≤◌, ◌≡◌, refl, sym, ap, ◌∙◌, inl, inr, false, Option, none, some, List,
  [], ◌∷◌, ◌++◌, ltb, if◌then◌else◌, length, length-append, lt→ltb, ok, arith, take_out-TakesOut,
}
use libarc.Prelude.Int.{pos, ◌-ℤ◌, add-pos, sub-pos}
use libarc.Prelude.Sums.{total, total-eq-zero, total-change, le-total}
use libarc.Events.{IoType, IoEvent}
use libarc.Poller.State.{
  Poller, init, Queues, queues, put_queues, set_queue, add_io_event, max_fd_in_array,
}
use libarc.Poller.IoEvents.{pop_io_event, popped, pop_io_event-eq-ok, drop_all}
use libarc.Poller.BoundEvents.{pop_bound_io, cancel_found, cancelled, find_io, io_id, uncounted}

-- How many events wait in two deques.
abbrev pub size : Queues → ℕ
size q = length (q IoType.read) + length (q IoType.write)

abbrev pub waiting : Poller → ℕ → ℕ
waiting p fd = size (queues p fd)

-- Over all descriptors below `n`, the limit on descriptors of the process.
pub queued : ℕ → Poller → ℕ
queued n p = total n (waiting p)

-- The counter is right.
abbrev pub IsCounted : ℕ → Poller → Type 0
IsCounted n p = p.total_io_events ≡ pos (queued n p)

-- Writing back the deques of one descriptor changes what waits there, and nowhere else.
queued-put_queues :
    (n : ℕ) (p : Poller) (fd : ℕ) (q : Queues)
    → fd < n
    → queued n (put_queues p fd q) + waiting p fd ≡ queued n p + size q
unfolding queued
queued-put_queues n p fd q lt =
    let there : waiting (put_queues p fd q) fd ≡ size q = ground arith in
    omega (
      arith,
      total-change n fd (waiting p) (waiting (put_queues p fd q)) lt (λ j ne. ground arith),
      there,
    )

-- A new poller counts right.
pub init-IsCounted : (n event_fd : ℕ) → IsCounted n (init event_fd)
unfolding queued init
init-IsCounted n event_fd =
    ap pos (sym (total-eq-zero n (waiting (init event_fd)) (λ fd. ground arith)))

-- The other fields do not matter for the sum.
put_queues-total_io_events :
    (p : Poller) (fd : ℕ) (q : Queues) → (put_queues p fd q).total_io_events ≡ p.total_io_events
put_queues-total_io_events p fd q = ground arith

size-set_queue :
    (q : Queues) (t : IoType) (l : List IoEvent)
    → size (set_queue q t l) + length (q t) ≡ size q + length l
size-set_queue q IoType.read l = omega arith
size-set_queue q IoType.write l = omega arith

length-le-size : (q : Queues) (t : IoType) → length (q t) ≤ size q
length-le-size q IoType.read = omega arith
length-le-size q IoType.write = omega arith

-- The counter stays right if it moves as the deques that are written back do.
IsCounted-put_queues :
    (n : ℕ) (p : Poller) (fd m : ℕ) (q : Queues)
    → fd < n
    → p.total_io_events ≡ pos m
    → m + waiting p fd ≡ queued n p + size q
    → IsCounted n (put_queues p fd q)
IsCounted-put_queues n p fd m q lt e h =
    let moved : m ≡ queued n (put_queues p fd q) = omega (arith, queued-put_queues n p fd q lt) in
    put_queues-total_io_events p fd q ∙ e ∙ ap pos moved

waiting-le-queued : (n : ℕ) (p : Poller) (fd : ℕ) → fd < n → waiting p fd ≤ queued n p
unfolding queued
waiting-le-queued n p fd lt = le-total n (waiting p) fd lt

-- Adding an event for a descriptor below the limit `n` keeps `total_io_events_` the number of
-- events in the deques of the descriptors below `n`.
pub add_io_event-IsCounted :
    (n : ℕ) (p : Poller) (e : IoEvent) → e.fd < n → IsCounted n p → IsCounted n (add_io_event p e).0
unfolding add_io_event queued
add_io_event-IsCounted n p e lt c =
    IsCounted-put_queues n _ e.fd (queued n p + 1) _ lt (add-pos _ (queued n p) 1 c) (
      omega (
        arith,
        size-set_queue (queues p e.fd) e.io_type
            (queues p e.fd e.io_type ++ record e { event_id = p.max_event_id } ∷ []),
        length-append (queues p e.fd e.io_type) (record e { event_id = p.max_event_id } ∷ []),
      ))

popped-IsCounted :
    (n : ℕ) (p : Poller) (fd : ℕ) (t : IoType) (e : IoEvent) (rest : List IoEvent)
    → fd < n
    → IsCounted n p
    → queues p fd t ≡ e ∷ rest
    → IsCounted n (popped p fd t rest)
unfolding popped queued
popped-IsCounted n p fd t e rest lt c front =
    let shorter : length (queues p fd t) ≡ suc (length rest) = ap length front in
    let smaller = size-set_queue (queues p fd) t rest in
    let some_wait = waiting-le-queued n p fd lt in
    let part = length-le-size (queues p fd) t in
    IsCounted-put_queues n _ fd (queued n p - 1) _ lt (sub-pos _ (queued n p) 1 c (omega arith))
      (omega arith)

-- If `PopIOEvent` of a descriptor below the limit succeeds, it keeps the counter right.
pub pop_io_event-IsCounted :
    (n : ℕ) (p : Poller) (fd : ℕ) (t : IoType) {e : IoEvent} {p' : Poller}
    → fd < n
    → IsCounted n p
    → pop_io_event p fd t ≡ ok (e, p')
    → IsCounted n p'
pop_io_event-IsCounted n p fd t {e} lt c h =
    let (rest, front, same) = pop_io_event-eq-ok p fd t h in
    rw same (popped-IsCounted n p fd t e rest lt c front)

-- Dropping all events of a descriptor below the limit keeps the counter right.
drop_all-IsCounted :
    (n : ℕ) (p : Poller) (fd : ℕ) → fd < n → IsCounted n p → IsCounted n (drop_all p fd)
unfolding drop_all queued
drop_all-IsCounted n p fd lt c =
    let some_wait = waiting-le-queued n p fd lt in
    IsCounted-put_queues n _ fd (queued n p - waiting p fd) _ lt
      (sub-pos _ (queued n p) (waiting p fd) c some_wait) (omega arith)

-- An event that `find_io` takes out stood in the deque of that direction.
find_io-length :
    (q : Queues) (id : ℕ) (t : IoType) (e : IoEvent) (rest : List IoEvent)
    → find_io q id ≡ some (t, e, rest)
    → length (q t) ≡ suc (length rest)
unfolding find_io
find_io-length q id t e rest h = elim (take_out-TakesOut io_id id (q IoType.read)) [
  | inl (r, _) ↦ elim (take_out-TakesOut io_id id (q IoType.write)) [
    | inl (w, _) ↦ absurd (ground arith)
    | inr (y, ys, w, _, l, _) ↦ ground arith
  ]
  | inr (y, ys, r, _, l, _) ↦ ground arith
]

-- The sum after a cancellation.
queued-cancelled :
    (n : ℕ) (p : Poller) (fd : ℕ) (t : IoType) (rest : List IoEvent)
    → fd < n
    → length (queues p fd t) ≡ suc (length rest)
    → queued n (cancelled p fd t rest) + 1 ≡ queued n p
unfolding cancelled
queued-cancelled n p fd t rest lt shorter =
    let smaller = size-set_queue (queues p fd) t rest in
    let moved = queued-put_queues n (uncounted p fd) fd (set_queue (queues p fd) t rest) lt in
    unfold queued in omega arith

cancelled-total :
    (p : Poller) (fd : ℕ) (t : IoType) (rest : List IoEvent)
    → (cancelled p fd t rest).total_io_events
      ≡ (if ltb fd max_fd_in_array then p.total_io_events -ℤ pos 1 else p.total_io_events)
unfolding cancelled
cancelled-total p fd t rest = put_queues-total_io_events _ fd _

module _ (after_erase : List IoEvent → ℕ → IoEvent) (n : ℕ) (p : Poller) (fd id : ℕ) (lt : fd < n)
    (c : IsCounted n p) where
  pub cancel_found-IsCounted :
      (r : Option (IoType × IoEvent × List IoEvent))
      → fd < max_fd_in_array
      → find_io (queues p fd) id ≡ r
      → IsCounted n (cancel_found after_erase p fd id r).0
  unfolding cancel_found
  cancel_found-IsCounted none small h = c
  cancel_found-IsCounted (some (t, e, rest)) small h =
      let shorter = find_io-length (queues p fd) id t e rest h in
      let sum = queued-cancelled n p fd t rest lt shorter in
      cancelled-total p fd t rest
      ∙ rw (lt→ltb _ _ small) (sub-pos _ (queued n p) 1 c (omega arith) ∙ ap pos (omega arith))

  -- Cancelling an IO event of a descriptor that is in the array and below the limit keeps the
  -- counter right, whether the event is found or not.
  pub pop_bound_io-IsCounted :
      fd < max_fd_in_array → IsCounted n (pop_bound_io after_erase p fd id).0
  unfolding pop_bound_io
  pop_bound_io-IsCounted small = cancel_found-IsCounted _ small refl

  -- If the counter is right, and a descriptor beyond the array and below the limit holds the event,
  -- cancelling it leaves the counter one above the number of waiting events.
  pub pop_bound_io_leaks :
      {t : IoType} {e : IoEvent} {rest : List IoEvent}
      → max_fd_in_array ≤ fd
      → find_io (queues p fd) id ≡ some (t, e, rest)
      → (pop_bound_io after_erase p fd id).0.total_io_events
        ≡ pos (queued n (pop_bound_io after_erase p fd id).0 + 1)
  unfolding pop_bound_io cancel_found
  pop_bound_io_leaks {t} {e} {rest} large h =
      let shorter = find_io-length (queues p fd) id t e rest h in
      let sum = queued-cancelled n p fd t rest lt shorter in
      let off : ltb fd max_fd_in_array ≡ false = ground arith in
      rw h (cancelled-total p fd t rest ∙ rw off (c ∙ ap pos (sym sum)))

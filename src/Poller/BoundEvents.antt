-- ===== src/Poller/BoundEvents.antt =====
-- `TriggerBoundEvent`, `PopBoundEvent` and `RemoveBoundEvent` of src/coro/poller/epoll.cc.
pub mod Inversion
use libarc.Prelude.{
  ℕ, Bool, false, Option, none, some, List, [], ◌∷◌, ◌++◌, ltb, if◌then◌else◌, Outcome, ok, throws,
  ◌>>=◌, ◌>>◌, defined, require, update, erase_key, set_insert, take_out, Exception,
}
use libarc.Prelude.Int.{pos, ◌-ℤ◌}
use libarc.Events.{IoType, IoEvent, BoundEvent, TriggerType, BoundType, Todo, io, user}
use libarc.Poller.State.{Poller, Queues, queues, set_queue, put_queues, max_fd_in_array}
use libarc.Poller.UserEvents.{user_id}

abbrev pub address_of : BoundEvent → ℕ
address_of b = b.address

abbrev pub io_id : IoEvent → ℕ
io_id e = e.event_id

-- The bound event goes from the pending to the triggered list.
abbrev pub bound_triggered : Poller → (id : ℕ) → BoundEvent → List BoundEvent → Poller
bound_triggered p id event pending = record p {
  pending_bound_events = pending;
  triggered_bound_events = p.triggered_bound_events ++ event ∷ [];
  event_pending_bound_token_map = erase_key id p.event_pending_bound_token_map;
}

-- Nothing happens if the bound event is gone already, by then perhaps freed.
unfoldable pub trigger_bound_event :
    Poller → (bound_event_id : ℕ) → BoundEvent → (wrote : Bool) → Outcome Poller
trigger_bound_event p id event wrote = elim (p.event_pending_bound_token_map id) [
  | none ↦ ok p
  | some _ ↦ do
    x ← defined (take_out address_of event.address p.pending_bound_events)
    require wrote Exception.io_exception
    ok (bound_triggered p id event x.1)
]

-- The first deque, reading before writing, that holds the event, with the event taken out.
unfoldable pub find_io : Queues → ℕ → Option (IoType × IoEvent × List IoEvent)
find_io q id = elim (take_out io_id id (q IoType.read)) [
  | some (e, rest) ↦ some (IoType.read, e, rest)
  | none ↦ elim (take_out io_id id (q IoType.write)) [
    | some (e, rest) ↦ some (IoType.write, e, rest)
    | none ↦ none
  ]
]

-- The poller without that event. Only for the descriptors of the array is `total_io_events_`
-- counted down: the source's branch for the others leaves the counter alone.
abbrev pub uncounted : Poller → (fd : ℕ) → Poller
uncounted p fd = record p {
  interesting_fds = set_insert fd p.interesting_fds;
  total_io_events =
      if ltb fd max_fd_in_array then p.total_io_events -ℤ pos 1 else p.total_io_events;
}

unfoldable pub cancelled : Poller → (fd : ℕ) → IoType → (rest : List IoEvent) → Poller
cancelled p fd t rest = put_queues (uncounted p fd) fd (set_queue (queues p fd) t rest)

-- `after_erase l id` is what `*itr` reads once `itr`, at the entry `id` of the deque `l`, has been
-- erased: the iterator is invalid then, so the language does not say.
module _ (after_erase : List IoEvent → ℕ → IoEvent) where
  unfoldable pub cancel_found :
      Poller → (fd id : ℕ) → Option (IoType × IoEvent × List IoEvent) → Poller × Option Todo
  cancel_found p fd id none = (p, none)
  cancel_found p fd id (some (t, e, rest)) =
      (cancelled p fd t rest, some (io (after_erase (queues p fd t) id)))

  unfoldable pub pop_bound_io : Poller → (fd id : ℕ) → Poller × Option Todo
  pop_bound_io p fd id = cancel_found p fd id (find_io (queues p fd) id)

  unfoldable pub pop_bound_user : Poller → (id : ℕ) → Poller × Option Todo
  pop_bound_user p id = elim (take_out user_id id p.pending_user_events) [
    | none ↦ (p, none)
    | some (e, rest) ↦ (
      record p { pending_user_events = rest; user_events = erase_key id p.user_events },
      some (user e),
    )
  ]

  -- `none` is a null pointer.
  unfoldable pub pop_bound_event : Poller → BoundEvent → Outcome (Poller × Option Todo)
  pop_bound_event p event = elim event.bound_type [
    | BoundType.io_event ↦ ok (pop_bound_io p event.bound_helper event.bound_event_id)
    | BoundType.user_event ↦ ok (pop_bound_user p event.bound_event_id)
    | BoundType.time_event ↦ throws Exception.exception_base
  ]

-- A cancellation is deleted; a timeout is marked, and deleted when its time comes.
abbrev pub invalidate : BoundEvent → (ℕ → Bool) → ℕ → Bool
invalidate b is_valid = elim b.trigger_type [
  | TriggerType.time_event ↦ update is_valid b.address false
  | TriggerType.user_event ↦ is_valid
]

abbrev pub unbound : Poller → (id : ℕ) → BoundEvent → List BoundEvent → Poller
unbound p id b pending = record p {
  pending_bound_events = pending;
  event_pending_bound_token_map = erase_key id p.event_pending_bound_token_map;
  is_valid = invalidate b p.is_valid;
}

-- One round of the loop: an event that is about to be resumed anyway is no longer bound.
unfoldable pub unbind : Poller → (event_id : ℕ) → Outcome Poller
unbind p id = elim (p.event_pending_bound_token_map id) [
  | none ↦ ok p
  | some b ↦ defined (take_out address_of b.address p.pending_bound_events) >>= λ x.
      ok (unbound p id b x.1)
]

-- Over the first `count` entries of `self_triggered_event_ids_`. An empty map stops the loop, and
-- then no further round would do anything.
unfoldable pub remove_bound_event : Poller → List ℕ → Outcome Poller
remove_bound_event p [] = ok p
remove_bound_event p (id ∷ ids) = unbind p id >>= λ p'. remove_bound_event p' ids

-- ===== src/Poller/State.antt =====
-- The poller's fields, and the operations that only register something: the `Add…Event` family,
-- `Register`, `DeRegister`, `SetNextTimeNoWait` and `IsPollerDone`.
-- The mutex makes each operation one step. `time_events_`, a priority queue, is a list sorted by
-- wake-up time, and its iterators into lists are given by what they stand at.
use libarc.Prelude.{
  ℕ, ◌+◌, ◌%◌, ◌^◌, Bool, true, false, not, ◌&&◌, Option, none, some, List, [], ◌∷◌, ◌++◌, ltb,
  ◌==◌, if◌then◌else◌, length, Map, update, insert, insert_new, set_insert,
}
use libarc.Prelude.Int.{ℤ, pos, ◌+ℤ◌}
use libarc.Events.{
  IoType, IoEvent, UserEvent, BoundEvent, TimeEvent, sleep, timeout, get_wakeup_time, TriggerType,
}

abbrev pub max_fd_in_array : ℕ
max_fd_in_array = 1024

abbrev pub max_events_size_per_wait : ℕ
max_events_size_per_wait = 1024

-- The bits of a 32-bit int.
abbrev pub u32 : ℕ → ℕ
u32 n = n % 2 ^ 32

-- One `std::deque` for each direction.
abbrev pub Queues : Type 0
Queues = IoType → List IoEvent

pub record Poller : Type 0 where
  -- `none` is a negative timeout, which waits for ever.
  pub next_wait_timeout : Option ℕ
  pub max_event_id : ℕ
  pub total_io_events : ℤ
  pub interesting_fds : List ℕ
  pub io_events : ℕ → Queues
  pub io_prev_events : ℕ → ℕ
  pub extra_io_events : Map Queues
  pub extra_io_prev_events : Map ℕ
  pub time_events : List TimeEvent
  -- `is_valid_` of the `TimeoutEvent` at an address.
  pub is_valid : ℕ → Bool
  pub is_event_fd_added : Bool
  pub pending_user_events : List UserEvent
  pub triggered_user_events : List UserEvent
  pub user_events : Map UserEvent
  pub pending_bound_events : List BoundEvent
  pub triggered_bound_events : List BoundEvent
  pub event_pending_bound_token_map : Map BoundEvent
  pub is_dispatcher_registered : Bool
  pub user_event_fd : ℕ

abbrev pub no_queues : Queues
no_queues t = []

-- The poller as constructed, with the descriptor that `eventfd` gave.
unfoldable pub init : (event_fd : ℕ) → Poller
init event_fd = record {
  next_wait_timeout = none;
  max_event_id = 0;
  total_io_events = pos 0;
  interesting_fds = [];
  io_events = λ fd. no_queues;
  io_prev_events = λ fd. 0;
  extra_io_events = λ fd. none;
  extra_io_prev_events = λ fd. none;
  time_events = [];
  is_valid = λ a. false;
  is_event_fd_added = false;
  pending_user_events = [];
  triggered_user_events = [];
  user_events = λ i. none;
  pending_bound_events = [];
  triggered_bound_events = [];
  event_pending_bound_token_map = λ i. none;
  is_dispatcher_registered = false;
  user_event_fd = event_fd;
}

-- `q[type] = l`
abbrev pub set_queue : Queues → IoType → List IoEvent → Queues
set_queue q IoType.read l IoType.read = l
set_queue q IoType.read l IoType.write = q IoType.write
set_queue q IoType.write l IoType.read = q IoType.read
set_queue q IoType.write l IoType.write = l

-- The two deques of a file descriptor beyond the array; no entry holds no event.
abbrev pub queues_of : Option Queues → Queues
queues_of none = no_queues
queues_of (some q) = q

-- `io_events_[fd]` or `extra_io_events_[fd]`, where the latter exists.
abbrev pub queues : Poller → ℕ → Queues
queues p fd = if ltb fd max_fd_in_array then p.io_events fd else queues_of (p.extra_io_events fd)

-- Writing the two deques back.
abbrev pub put_queues : Poller → ℕ → Queues → Poller
put_queues p fd q =
    if ltb fd max_fd_in_array
    then record p { io_events = update p.io_events fd q }
    else record p { extra_io_events = insert fd q p.extra_io_events }

-- Returns the event with its identifier set, as the caller's object has it then.
unfoldable pub add_io_event : Poller → IoEvent → Poller × IoEvent
add_io_event p event =
    let e : IoEvent = record event { event_id = p.max_event_id } in
    let q = queues p e.fd in
    let p' : Poller = record p {
      max_event_id = u32 (p.max_event_id + 1);
      total_io_events = p.total_io_events +ℤ pos 1;
      interesting_fds = set_insert e.fd p.interesting_fds;
    } in
    (put_queues p' e.fd (set_queue q e.io_type (q e.io_type ++ e ∷ [])), e)

-- `time_events_.push`
unfoldable pub push_time : TimeEvent → List TimeEvent → List TimeEvent
push_time e [] = e ∷ []
push_time e (t ∷ ts) =
    let rest = push_time e ts in
    if ltb (get_wakeup_time e) (get_wakeup_time t) then e ∷ t ∷ ts else t ∷ rest

unfoldable pub add_time_event : Poller → (wakeup_time handle : ℕ) → Poller
add_time_event p wakeup handle = record p {
  max_event_id = u32 (p.max_event_id + 1);
  time_events = push_time (sleep p.max_event_id wakeup handle) p.time_events;
}

unfoldable pub add_user_event : Poller → UserEvent → Poller × UserEvent
add_user_event p event =
    let e : UserEvent = record event { event_id = p.max_event_id } in
    (
      record p {
        max_event_id = u32 (p.max_event_id + 1);
        pending_user_events = p.pending_user_events ++ e ∷ [];
        user_events = insert_new e.event_id e p.user_events;
      },
      e,
    )

-- A `TimeoutEvent` is valid since it was made.
unfoldable pub add_bound_event : Poller → BoundEvent → Poller
add_bound_event p event =
    let p' : Poller = record p {
      pending_bound_events = p.pending_bound_events ++ event ∷ [];
      event_pending_bound_token_map =
          insert event.bound_event_id event p.event_pending_bound_token_map;
    } in
    elim event.trigger_type [
      | TriggerType.time_event ↦ record p' {
        time_events = push_time (timeout event) p.time_events;
        is_valid = update p.is_valid event.address true;
      }
      | TriggerType.user_event ↦ p'
    ]

unfoldable pub register : Poller → Poller
register p = record p { is_dispatcher_registered = true }

unfoldable pub deregister : Poller → Poller
deregister p = record p { is_dispatcher_registered = false }

unfoldable pub set_next_time_no_wait : Poller → Poller
set_next_time_no_wait p = record p { next_wait_timeout = some 0 }

abbrev pub is_zero : ℤ → Bool
is_zero (pos n) = n == 0
is_zero (ℤ.negsuc n) = false

unfoldable pub is_poller_done : Poller → Bool
is_poller_done p =
    is_zero (
      p.total_io_events
      +ℤ pos (
          length p.time_events
          + length p.pending_user_events
          + length p.triggered_user_events
          + length p.pending_bound_events
          + length p.triggered_bound_events))
    && not p.is_dispatcher_registered

-- ===== src/Poller/Wait.antt =====
-- `WaitEvents` of src/coro/poller/epoll.cc, phase by phase. What the system calls answer is an
-- argument.
pub mod Keeps
pub mod Bounds
use libarc.Prelude.{
  ℕ, ◌/◌, ◌%◌, Bool, true, false, not, ◌||◌, Option, none, some, List, [], ◌∷◌, ◌++◌, map, ltb, leb,
  ◌==◌, if◌then◌else◌, length, Outcome, ok, undefined, ◌>>=◌, ◌>>◌, require, erase_key, Exception,
}
use libarc.Events.{
  IoType, IoEvent, UserEvent, BoundEvent, TimeEvent, sleep, timeout, get_wakeup_time, Todo, io,
  time, user, get_event_id, set_interrupted,
}
use libarc.Poller.State.{Poller, max_events_size_per_wait}
use libarc.Poller.IoEvents.{pop_io_event}
use libarc.Poller.BoundEvents.{trigger_bound_event, pop_bound_event, remove_bound_event}
use libarc.Poller.Trim.{is_valid_time}

-- One entry of what `epoll_wait` fills in.
pub record Ready : Type 0 where
  pub fd : ℕ
  pub events : ℕ

pub record Answers : Type 0 where
  pub ready : List Ready
  pub now : ℕ
  -- Whether the eventfd could be read, and written for the timeout of an event and in the end.
  pub read_ok : Bool
  pub trigger_ok : ℕ → Bool
  pub write_ok : Bool

-- `todo` is `todo_events` up to `todo_cnt`. The entries of `self_triggered_event_ids_` are the
-- identifiers of its events, as each entry written is that of the event stored with it.
pub record WaitState : Type 0 where
  pub poller : Poller
  pub todo : List Todo
  pub is_user_event_triggered : Bool

-- `event_type & EPOLLIN` and `event_type & EPOLLOUT`
abbrev pub has_in : ℕ → Bool
has_in events = events % 2 == 1

abbrev pub has_out : ℕ → Bool
has_out events = events / 4 % 2 == 1

-- Stores an event and its identifier; `self_triggered_event_ids_` has `max_events_size_per_wait`
-- entries, and a write beyond them is undefined.
abbrev pub push_todo : WaitState → Todo → Outcome WaitState
push_todo w t =
    if ltb (length w.todo) max_events_size_per_wait
    then ok (record w { todo = w.todo ++ t ∷ [] })
    else undefined

unfoldable pub take_io : WaitState → ℕ → IoType → Outcome WaitState
take_io w fd t = pop_io_event w.poller fd t >>= λ r. push_todo (record w { poller = r.1 }) (io r.0)

abbrev pub take_io_if : Bool → WaitState → ℕ → IoType → Outcome WaitState
take_io_if true w fd t = take_io w fd t
take_io_if false w fd t = ok w

-- One round of the loop over the answers of `epoll_wait`. For the eventfd `EPOLLIN` is asserted.
unfoldable pub io_round : WaitState → Ready → Outcome WaitState
io_round w r =
    if r.fd == w.poller.user_event_fd
    then (if has_in r.events then ok (record w { is_user_event_triggered = true }) else undefined)
    else do
      w₁ ← take_io_if (has_in r.events) w r.fd IoType.read
      w₂ ← take_io_if (has_out r.events) w₁ r.fd IoType.write
      require (has_in r.events || (has_out r.events || (r.events == 0))) Exception.io_exception
      ok w₂

unfoldable pub io_phase : WaitState → List Ready → Outcome WaitState
io_phase w [] = ok w
io_phase w (r ∷ rs) = io_round w r >>= λ w'. io_phase w' rs

abbrev pub set_time_events : WaitState → List TimeEvent → WaitState
set_time_events w ts = record w { poller = record w.poller { time_events = ts } }

-- The event on top is due: a timeout cancels what it is bound to, any other is handed out.
unfoldable pub fire : (ℕ → Bool) → WaitState → TimeEvent → Outcome WaitState
fire trigger_ok w (sleep i wakeup h) = push_todo w (time i wakeup h)
fire trigger_ok w (timeout b) =
    trigger_bound_event w.poller b.bound_event_id b (trigger_ok b.bound_event_id) >>= λ p.
    ok (record w { poller = p })

-- Over `time_events_`, from the top.
unfoldable pub time_loop : Answers → WaitState → List TimeEvent → Outcome WaitState
time_loop a w [] = ok w
time_loop a w (t ∷ ts) = elim (is_valid_time w.poller t) [
  | false ↦ time_loop a (set_time_events w ts) ts
  | true ↦ elim (leb max_events_size_per_wait (length w.todo) || ltb a.now (get_wakeup_time t)) [
    | true ↦ ok w
    | false ↦ fire a.trigger_ok w t >>= λ w'. time_loop a (set_time_events w' ts) ts
  ]
]

unfoldable pub time_phase : Answers → WaitState → Outcome WaitState
time_phase a w =
    if ltb (length w.todo) max_events_size_per_wait
    then time_loop a w w.poller.time_events
    else ok w

-- The event is erased from `user_events_` and from the triggered list, of which `es` is the rest.
abbrev pub hand_out : Poller → UserEvent → List UserEvent → Poller
hand_out p e es = record p {
  user_events = erase_key e.event_id p.user_events;
  triggered_user_events = es;
}

-- Over `triggered_user_events_`, with `need_to_write_again`.
unfoldable pub user_loop : WaitState → List UserEvent → WaitState × Bool
user_loop w [] = (w, false)
user_loop w (e ∷ es) = elim (ltb (length w.todo) max_events_size_per_wait) [
  | true ↦ user_loop (record w { poller = hand_out w.poller e es; todo = w.todo ++ user e ∷ [] }) es
  | false ↦ (w, true)
]

unfoldable pub drain_if : Bool → Answers → WaitState → Outcome (WaitState × Bool)
drain_if false a w = ok (w, false)
drain_if true a w =
    require a.read_ok Exception.io_exception >> ok (user_loop w w.poller.triggered_user_events)

unfoldable pub user_phase : Answers → WaitState → Outcome (WaitState × Bool)
user_phase a w = drain_if w.is_user_event_triggered a w

abbrev pub add_interrupted : List Todo → Option Todo → List Todo
add_interrupted todo none = todo
add_interrupted todo (some t) = todo ++ set_interrupted t ∷ []

module _ (after_erase : List IoEvent → ℕ → IoEvent) where
  -- Over `triggered_bound_events_`, with `need_to_write_again`.
  unfoldable pub bound_loop : WaitState → List BoundEvent → Outcome (WaitState × Bool)
  bound_loop w [] = ok (w, false)
  bound_loop w (b ∷ bs) = elim (ltb (length w.todo) max_events_size_per_wait) [
    | true ↦ pop_bound_event after_erase w.poller b >>= λ r.
        bound_loop
          (record w {
            poller = record r.0 { triggered_bound_events = bs };
            todo = add_interrupted w.todo r.1;
          })
          bs
    | false ↦ ok (w, true)
  ]

  -- The poller afterwards and the events to resume.
  unfoldable pub wait_events : Poller → Answers → Outcome (Poller × List Todo)
  wait_events p a = do
    w₁ ← io_phase (record { poller = p; todo = []; is_user_event_triggered = false }) a.ready
    w₂ ← time_phase a w₁
    u ← user_phase a w₂
    p ← remove_bound_event u.0.poller (map get_event_id u.0.todo)
    b ← bound_loop (record u.0 { poller = p }) p.triggered_bound_events
    require (not (u.1 || b.1) || a.write_ok) Exception.io_exception
    ok (b.0.poller, b.0.todo)

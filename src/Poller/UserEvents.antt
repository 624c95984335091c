-- ===== src/Poller/UserEvents.antt =====
-- `TriggerUserEvent` of src/coro/poller/epoll.cc.
use libarc.Prelude.{
  ℕ, Bool, true, false, none, some, [], ◌∷◌, ◌++◌, Outcome, ok, ◌>>=◌, ◌>>◌, defined, require,
  take_out, Exception,
}
use libarc.Events.{UserEvent}
use libarc.Poller.State.{Poller}

abbrev pub user_id : UserEvent → ℕ
user_id e = e.event_id

-- The event moves from the pending to the triggered list, and stays in `user_events_` until it is
-- handed out. Erasing by an iterator that is no longer in the list is undefined. `wrote` is whether
-- the write to the eventfd succeeded.
unfoldable pub trigger_user_event :
    Poller → (event_id : ℕ) → (wrote : Bool) → Outcome (Poller × Bool)
trigger_user_event p event_id wrote = elim (p.user_events event_id) [
  | none ↦ ok (p, false)
  | some event ↦ do
    (_, pending) ← defined (take_out user_id event.event_id p.pending_user_events)
    require wrote Exception.io_exception
    ok (
      record p {
        pending_user_events = pending;
        triggered_user_events = p.triggered_user_events ++ event ∷ [];
      },
      true,
    )
]

-- ===== src/Poller/Trim/Stale.antt =====
-- `RemoveAllIOEvents` erases key 0 of `extra_io_prev_events_`, not the descriptor's.
use libarc.Prelude.{ℕ, ◌≤◌, ◌≡◌, refl, ◌∙◌, ok, arith, ==_iff}
use libarc.Events.{IoEvent, IoType}
use libarc.Poller.Kernel.{Epoll, epollin, epollout}
use libarc.Poller.State.{Poller, add_io_event, max_fd_in_array}
use libarc.Poller.IoEvents.{drop_all, get_existing_io_event}
use libarc.Poller.Trim.{prev_events, set_prev_events, trim_fd}

-- The bits that wait for one direction.
abbrev pub mask : IoType → ℕ
mask IoType.read = epollin
mask IoType.write = epollout

-- The events of a descriptor whose only event has just been added.
existing-add-drop_all :
    (p : Poller) (e : IoEvent)
    → max_fd_in_array ≤ e.fd
    → get_existing_io_event (add_io_event (drop_all p e.fd) e).0 e.fd ≡ mask e.io_type
unfolding add_io_event drop_all get_existing_io_event
existing-add-drop_all p e large = go e.io_type refl
  where
    go :
        (t : IoType)
        → e.io_type ≡ t
        → get_existing_io_event (add_io_event (drop_all p e.fd) e).0 e.fd ≡ mask e.io_type
    go IoType.read h = ground arith
    go IoType.write h = ground arith

prev-add-drop_all :
    (p : Poller) (e : IoEvent)
    → max_fd_in_array ≤ e.fd
    → prev_events (add_io_event (drop_all p e.fd) e).0 e.fd ≡ prev_events p e.fd
unfolding add_io_event drop_all
prev-add-drop_all p e large = ground arith

-- Let a descriptor beyond the array be remembered as waiting for one direction. Dropping its events
-- does not clear that, so when one event of the same direction is added afterwards, the trim of the
-- descriptor makes no call and leaves the kernel as it is.
pub drop_all_stale :
    (E : Epoll) (k : E.Kernel) (p : Poller) (e : IoEvent)
    → max_fd_in_array ≤ e.fd
    → prev_events p e.fd ≡ mask e.io_type
    → let q = (add_io_event (drop_all p e.fd) e).0 in
      trim_fd E k q e.fd ≡ ok (set_prev_events q e.fd (mask e.io_type), k)
unfolding trim_fd
drop_all_stale E k p e large prev =
    let now = existing-add-drop_all p e large in
    let before = prev-add-drop_all p e large ∙ prev in
    rw (now, before) (rw ((==_iff (mask e.io_type) (mask e.io_type)).1 refl) refl)

-- ===== src/Tests/TrimRuns.antt =====
-- Trims, with an epoll instance that keeps the interest of each descriptor.
use libarc.Prelude.{ℕ, ◌≡◌, ◌≢◌, ◌⊎◌, [], true, refl, false, if◌then◌else◌, elem, ok, arith}
use libarc.Events.{IoType, IoEvent}
use libarc.Poller.Kernel.{epollin}
use libarc.Poller.State.{Poller, init, add_io_event, add_user_event}
use libarc.Poller.IoEvents.{drop_all}
use libarc.Poller.Trim.{
  set_prev_events, trim_fd, trim_io_events, trim_user_events, should_add_epoll,
}
use libarc.Poller.Trim.Reconcile.{
  wanted, Synced, trim_io_events_syncs, trim_user_events_syncs, AllFiles,
}
use libarc.Poller.Trim.Stale.{drop_all_stale}
use libarc.Tests.Concrete.{kernel, kernel_laws, nothing_watched}

abbrev reads : (fd : ℕ) → IoEvent
reads fd = record {
  event_id = 0;
  fd = fd;
  io_type = IoType.read;
  handle = 70;
  is_interrupted = false;
}

-- The eventfd is 3; a coroutine waits to read from descriptor 7, and one for a user event.
abbrev waits : Poller
waits =
    (add_user_event (add_io_event (init 3) (reads 7)).0
      (record { event_id = 0; handle = 71; is_interrupted = false })).0

waits-Synced : Synced kernel nothing_watched waits
unfolding add_io_event add_user_event init
waits-Synced = record { files = λ fd ne. ground arith; event = refl }

waits-AllFiles : AllFiles kernel waits.user_event_fd waits.interesting_fds
unfolding add_io_event add_user_event init
waits-AllFiles = ((refl, omega arith), tt)

trim_io_events_syncs_example :
    (p' : Poller) × (k' : ℕ → ℕ) × (trim_io_events kernel nothing_watched waits ≡ ok (p', k'))
    × Synced kernel k' p'
    × ((fd : ℕ)
        → fd ≢ waits.user_event_fd
        → k' fd ≡ (if elem fd waits.interesting_fds then wanted p' fd else nothing_watched fd))
trim_io_events_syncs_example =
    trim_io_events_syncs kernel_laws nothing_watched waits waits-AllFiles waits-Synced

trim_user_events_syncs_example :
    (k' : ℕ → ℕ) × (trim_user_events kernel nothing_watched waits
      ≡ ok (record waits { is_event_fd_added = should_add_epoll waits }, k'))
    × Synced kernel k' (record waits { is_event_fd_added = should_add_epoll waits })
    × ((waits.pending_user_events ≢ [])
          ⊎ ((waits.triggered_user_events ≢ []) ⊎ (waits.is_dispatcher_registered ≡ true))
        → k' waits.user_event_fd ≡ epollin)
    × (waits.pending_user_events ≡ []
        → waits.triggered_user_events ≡ []
        → waits.is_dispatcher_registered ≡ false
        → k' waits.user_event_fd ≡ 0)
trim_user_events_syncs_example =
    trim_user_events_syncs kernel_laws nothing_watched waits refl waits-Synced

-- Descriptor 1500 was watched for reading.
abbrev watched : Poller
watched = set_prev_events (init 3) 1500 1

drop_all_stale_example :
    trim_fd kernel nothing_watched (add_io_event (drop_all watched 1500) (reads 1500)).0 1500
    ≡ ok (
      set_prev_events (add_io_event (drop_all watched 1500) (reads 1500)).0 1500 1,
      nothing_watched,
    )
drop_all_stale_example =
    drop_all_stale kernel nothing_watched watched (reads 1500) (omega arith) refl

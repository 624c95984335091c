-- ===== src/Poller/Trim.antt =====
-- `TrimIOEvents`, `TrimUserEvents` and `TrimTimeEvents` of src/coro/poller/epoll.cc: before each
-- wait, the kernel is told what the poller now waits for.
pub mod Reconcile
pub mod Stale
use libarc.Prelude.{
  ℕ, ◌-◌, ◌%◌, ◌^◌, Bool, true, not, ◌||◌, Option, none, some, List, [], ◌∷◌, ltb, ◌==◌,
  if◌then◌else◌, Outcome, ok, throws, ◌>>=◌, update, insert, empty, Exception,
}
use libarc.Events.{TimeEvent, sleep, timeout, get_wakeup_time}
use libarc.Poller.Kernel.{Epoll, CtlOp, epollin}
use libarc.Poller.State.{Poller, max_fd_in_array}
use libarc.Poller.IoEvents.{get_existing_io_event}

abbrev pub or_zero : Option ℕ → ℕ
or_zero none = 0
or_zero (some n) = n

-- `io_prev_events_[fd]`, or its like beyond the array.
abbrev pub prev_events : Poller → ℕ → ℕ
prev_events p fd =
    if ltb fd max_fd_in_array then p.io_prev_events fd else or_zero (p.extra_io_prev_events fd)

abbrev pub set_prev_events : Poller → ℕ → ℕ → Poller
set_prev_events p fd events =
    if ltb fd max_fd_in_array
    then record p { io_prev_events = update p.io_prev_events fd events }
    else record p { extra_io_prev_events = insert fd events p.extra_io_prev_events }

abbrev pub trim_op : (prev cur : ℕ) → CtlOp
trim_op prev cur = if prev == 0 then CtlOp.add else if cur == 0 then CtlOp.del else CtlOp.mod_

abbrev pub or_throw {ℓ} : {A : Type ℓ} → Option A → Outcome A
or_throw none = throws Exception.io_exception
or_throw (some a) = ok a

-- Whether the eventfd is to be watched.
unfoldable pub should_add_epoll : Poller → Bool
should_add_epoll p =
    not (empty p.pending_user_events)
    || (not (empty p.triggered_user_events) || p.is_dispatcher_registered)

module _ (E : Epoll) where
  -- One round of the loop.
  unfoldable pub trim_fd : E.Kernel → Poller → ℕ → Outcome (Poller × E.Kernel)
  trim_fd k p fd =
      let cur = get_existing_io_event p fd in
      let prev = prev_events p fd in
      let p' = set_prev_events p fd cur in
      if cur == prev
      then ok (p', k)
      else or_throw (E.epoll_ctl k (trim_op prev cur) fd cur) >>= λ k'. ok (p', k')

  unfoldable pub trim_fds : E.Kernel → Poller → List ℕ → Outcome (Poller × E.Kernel)
  unfolding trim_fd
  trim_fds k p [] = ok (p, k)
  trim_fds k p (fd ∷ fds) = trim_fd k p fd >>= λ r. trim_fds r.1 r.0 fds

  unfoldable pub trim_io_events : E.Kernel → Poller → Outcome (Poller × E.Kernel)
  unfolding trim_fds
  trim_io_events k p = trim_fds k p p.interesting_fds

  unfoldable pub trim_user_events : E.Kernel → Poller → Outcome (Poller × E.Kernel)
  trim_user_events k p =
      let p' : Poller = record p { is_event_fd_added = should_add_epoll p } in
      let op = if should_add_epoll p then CtlOp.add else CtlOp.del in
      if (if p.is_event_fd_added then should_add_epoll p else not (should_add_epoll p))
      then ok (p, k)
      else or_throw (E.epoll_ctl k op p.user_event_fd epollin) >>= λ k'. ok (p', k')

abbrev pub is_valid_time : Poller → TimeEvent → Bool
is_valid_time p (sleep i w h) = true
is_valid_time p (timeout b) = p.is_valid b.address

-- The invalid events on top of the queue are deleted.
unfoldable pub drop_invalid : Poller → List TimeEvent → List TimeEvent
drop_invalid p [] = []
drop_invalid p (t ∷ ts) = let rest = drop_invalid p ts in if is_valid_time p t then t ∷ ts else rest

-- The conversion of a 64-bit number of milliseconds, which is not negative, to the int that
-- `epoll_wait` takes.
abbrev pub to_timeout : ℕ → Option ℕ
to_timeout d = if ltb (d % 2 ^ 32) (2 ^ 31) then some (d % 2 ^ 32) else none

abbrev pub next_timeout : (now : ℕ) → List TimeEvent → Option ℕ
next_timeout now [] = none
next_timeout now (t ∷ ts) = to_timeout (get_wakeup_time t - now)

-- `max(0, wakeup - now)` is the truncated difference.
unfoldable pub trim_time_events : Poller → (now : ℕ) → Poller
unfolding drop_invalid
trim_time_events p now =
    let ts = drop_invalid p p.time_events in
    record p { time_events = ts; next_wait_timeout = next_timeout now ts }

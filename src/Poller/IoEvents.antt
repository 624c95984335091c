-- ===== src/Poller/IoEvents.antt =====
-- `PopIOEvent`, `GetExistingIOEvent` and `RemoveAllIOEvents` of src/coro/poller/epoll.cc.
use Prim.Native.Nat.{bit_or}
use libarc.Prelude.{
  arith, ℕ, ◌≡◌, ap, ◌∙◌, >>=-eq-ok, ◌+◌, not, ◌&&◌, none, some, List, [], ◌∷◌, ◌++◌, ltb,
  if◌then◌else◌, length, Outcome, ok, throws, undefined, ◌>>=◌, update, erase_key, is_some, empty,
  set_insert, set_erase, Exception,
}
use libarc.Prelude.Int.{pos, ◌-ℤ◌}
use libarc.Events.{IoType, IoEvent}
use libarc.Poller.Kernel.{Epoll, CtlOp, epollin, epollout}
use libarc.Poller.State.{Poller, queues, set_queue, put_queues, max_fd_in_array}

-- `front()` of an empty deque is undefined.
abbrev pub uncons : List IoEvent → Outcome (IoEvent × List IoEvent)
uncons [] = undefined
uncons (e ∷ es) = ok (e, es)

-- The deque without its front, and the bookkeeping that goes with it.
unfoldable pub popped : Poller → ℕ → IoType → List IoEvent → Poller
popped p fd t rest =
    let p' : Poller = record p {
      total_io_events = p.total_io_events -ℤ pos 1;
      interesting_fds = set_insert fd p.interesting_fds;
    } in
    put_queues p' fd (set_queue (queues p fd) t rest)

unfoldable pub pop_io_event : Poller → ℕ → IoType → Outcome (IoEvent × Poller)
pop_io_event p fd t = uncons (queues p fd t) >>= λ r. ok (r.0, popped p fd t r.1)

uncons-eq-ok :
    (l : List IoEvent) {e : IoEvent} {es : List IoEvent} → uncons l ≡ ok (e, es) → l ≡ e ∷ es
uncons-eq-ok [] h = cc
uncons-eq-ok (x ∷ xs) h = ground arith

pub pop_io_event-eq-ok :
    (p : Poller) (fd : ℕ) (t : IoType) {e : IoEvent} {p' : Poller}
    → pop_io_event p fd t ≡ ok (e, p')
    → (rest : List IoEvent) × (queues p fd t ≡ e ∷ rest) × (p' ≡ popped p fd t rest)
unfolding pop_io_event
pop_io_event-eq-ok p fd t h =
    let (r, u, q) = >>=-eq-ok (uncons (queues p fd t)) _ h in
    (r.1, uncons-eq-ok _ u ∙ ap (λ (x : IoEvent). x ∷ r.1) (ground arith), ground arith)

-- `cur |= …` for each direction in which something waits.
unfoldable pub get_existing_io_event : Poller → ℕ → ℕ
get_existing_io_event p fd =
    bit_or (if empty (queues p fd IoType.read) then 0 else epollin)
      (if empty (queues p fd IoType.write) then 0 else epollout)

-- The previous events are forgotten, and then both deques are run through: every event is resumed
-- and dropped. The descriptors beyond the array have the entry of key 0 erased, as in the source.
unfoldable pub drop_all : Poller → ℕ → Poller
drop_all p fd =
    let n = length (queues p fd IoType.read) + length (queues p fd IoType.write) in
    let p' : Poller = record p {
      io_prev_events =
          if ltb fd max_fd_in_array then update p.io_prev_events fd 0 else p.io_prev_events;
      extra_io_prev_events =
          if ltb fd max_fd_in_array
          then p.extra_io_prev_events
          else erase_key 0 p.extra_io_prev_events;
      total_io_events = p.total_io_events -ℤ pos n;
      interesting_fds = set_erase fd p.interesting_fds;
    } in
    put_queues p' fd (λ t. [])

-- With the events that are resumed, in order. What a resumed coroutine does is not part of it.
unfoldable pub remove_all_io_events :
    (E : Epoll) → E.Kernel → Poller → ℕ → Outcome (List IoEvent × Poller × E.Kernel)
remove_all_io_events E k p fd =
    let resumed = queues p fd IoType.read ++ queues p fd IoType.write in
    let unknown = not (ltb fd max_fd_in_array) && not (is_some (p.extra_io_events fd)) in
    let p' = drop_all p fd in
    if unknown
    then ok ([], p, k)
    else if empty resumed
    then ok ([], p', k)
    else elim (E.epoll_ctl k CtlOp.del fd 0) [
      | none ↦ throws Exception.io_exception
      | some k' ↦ ok (resumed, p', k')
    ]

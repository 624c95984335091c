-- ===== src/Io/Readiness.antt =====
-- From the awaiters of a socket to the poller: in which order coroutines that read from one
-- descriptor, or write to it, are handed out.
use libarc.Prelude.{
  ℕ, zero, suc, ◌+◌, ◌<◌, ◌≡◌, refl, sym, ap, subst, ◌∙◌, false, some, List, [], ◌∷◌, ◌++◌, map,
  length, length-append, ◌==◌, Outcome, ok, ◌>>=◌, arith,
}
use mathlib.Core.List.{append-nil}
use libarc.Events.{IoType, IoEvent, Todo, io, cancel_io, timeout_io}
use libarc.Poller.State.{Poller, queues, add_io_event, add_bound_event}
use libarc.Poller.IoEvents.{pop_io_event, popped, uncons}
use libarc.Poller.Wait.{Ready, WaitState, take_io, io_round, io_phase}
use libarc.EventLoopGroup.{EventLoopGroup, get_event_loop, put_event_loop}
use libarc.Conditions.Cancellation.{AbortHandle, monostate, token, wakeup, set_event_and_loop}
use libarc.Awaiters.{bind_abort, suspend_io}
use libarc.Io.Socket.{Socket}
use libarc.Io.Transfer.{await_io, new_io_event}

-- The report that a descriptor is ready for one direction.
abbrev pub report : (fd : ℕ) → IoType → Ready
report fd IoType.read = record { fd = fd; events = 1 }
report fd IoType.write = record { fd = fd; events = 4 }

-- What a wait starts from.
abbrev pub fresh : Poller → WaitState
fresh p = record { poller = p; todo = []; is_user_event_triggered = false }

-- The IO phases of `n` waits, one after another, in each of which the descriptor is reported once:
-- all that they hand out, and the poller after the last.
unfoldable pub io_rounds : Poller → (fd : ℕ) → IoType → (n : ℕ) → Outcome (List Todo × Poller)
io_rounds p fd t zero = ok ([], p)
io_rounds p fd t (suc n) = do
  w ← io_phase (fresh p) (report fd t ∷ [])
  r ← io_rounds w.poller fd t n
  ok (w.todo ++ r.0, r.1)

queues-popped :
    (p : Poller) (fd : ℕ) (t : IoType) (rest : List IoEvent)
    → queues (popped p fd t rest) fd t ≡ rest
unfolding popped
queues-popped p fd IoType.read rest = ground arith
queues-popped p fd IoType.write rest = ground arith

user_event_fd-popped :
    (p : Poller) (fd : ℕ) (t : IoType) (rest : List IoEvent)
    → (popped p fd t rest).user_event_fd ≡ p.user_event_fd
unfolding popped
user_event_fd-popped p fd t rest = ground arith

take_io-front :
    (w : WaitState) (fd : ℕ) (t : IoType) (e : IoEvent) (rest : List IoEvent)
    → queues w.poller fd t ≡ e ∷ rest
    → length w.todo < 1024
    → take_io w fd t
      ≡ ok (record w { poller = popped w.poller fd t rest; todo = w.todo ++ io e ∷ [] })
unfolding take_io pop_io_event
take_io-front w fd t e rest front small = rw (front, uncons) (ground arith)

io_round-report :
    (w w' : WaitState) (fd : ℕ) (t : IoType)
    → (fd == w.poller.user_event_fd) ≡ false
    → take_io w fd t ≡ ok w'
    → io_round w (report fd t) ≡ ok w'
unfolding io_round
io_round-report w w' fd IoType.read other took = rw other (rw took refl)
io_round-report w w' fd IoType.write other took = rw other (rw took refl)

io_rounds_hand_out :
    (xs rest : List IoEvent) (p : Poller) (fd : ℕ) (t : IoType)
    → (fd == p.user_event_fd) ≡ false
    → queues p fd t ≡ xs ++ rest
    → (p' : Poller) × (io_rounds p fd t (length xs) ≡ ok (map io xs, p')) × (queues p' fd t ≡ rest)
unfolding io_phase io_rounds
io_rounds_hand_out [] rest p fd t other waiting = (p, refl, waiting)
io_rounds_hand_out (e ∷ xs) rest p fd t other waiting =
    let p₁ = popped p fd t (xs ++ rest) in
    let w₁ : WaitState = record {
      poller = p₁;
      todo = io e ∷ [];
      is_user_event_triggered = false;
    } in
    let took = take_io-front (fresh p) fd t e (xs ++ rest) waiting (omega arith) in
    let (p', done, left) =
      io_rounds_hand_out xs rest p₁ fd t (rw (user_event_fd-popped p fd t (xs ++ rest)) other)
        (queues-popped p fd t (xs ++ rest)) in
    (p', rw (io_round-report (fresh p) w₁ fd t other took) (rw done refl), left)

-- The event behind those that wait already.
queues-add_io_event :
    (p : Poller) (fd h : ℕ) (t : IoType) (xs : List IoEvent)
    → queues p fd t ≡ xs
    → queues (add_io_event p (new_io_event fd t h)).0 fd t
      ≡ xs ++ (add_io_event p (new_io_event fd t h)).1 ∷ []
unfolding add_io_event
queues-add_io_event p fd h IoType.read xs waiting = ground arith
queues-add_io_event p fd h IoType.write xs waiting = ground arith

user_event_fd-add_io_event :
    (p : Poller) (e : IoEvent) → (add_io_event p e).0.user_event_fd ≡ p.user_event_fd
unfolding add_io_event
user_event_fd-add_io_event p e = ground arith

handle_kept : (p : Poller) (e : IoEvent) → (add_io_event p e).1.handle ≡ e.handle
unfolding add_io_event
handle_kept p e = refl

map-append :
    {A : Type 0} {B : Type 0} (f : A → B) (xs ys : List A) → map f (xs ++ ys) ≡ map f xs ++ map f ys
map-append f [] ys = refl
map-append f (x ∷ xs) ys = ap (λ l. f x ∷ l) (map-append f xs ys)

get_event_loop-put_event_loop :
    (g : EventLoopGroup) (l : ℕ) (p : Poller) → get_event_loop (put_event_loop g l p) l ≡ some p
get_event_loop-put_event_loop g l p = ground arith

-- What cuts the wait short is bound without a change to what waits for the descriptors.
bind_abort_same :
    (abort : AbortHandle) (g : EventLoopGroup) (l address : ℕ) (e : IoEvent) (p : Poller) (fd : ℕ)
    → get_event_loop g l ≡ some p
    → (abort' : AbortHandle) × (g' : EventLoopGroup) × (p' : Poller) × (bind_abort abort g l address
          e
        ≡ ok (abort', g'))
      × (get_event_loop g' l ≡ some p')
      × (queues p' fd ≡ queues p fd)
      × (p'.user_event_fd ≡ p.user_event_fd)
unfolding bind_abort set_event_and_loop add_bound_event
bind_abort_same monostate g l address e p fd there = (monostate, g, p, refl, there, refl, refl)
bind_abort_same (token c) g l address e p fd there =
    let p' = add_bound_event p (cancel_io address e) in
    (
      token (record {
        registered_events_pairs = c.registered_events_pairs ++ (cancel_io address e, l) ∷ [];
      }),
      put_event_loop g l p',
      p',
      rw there refl,
      get_event_loop-put_event_loop g l p',
      refl,
      refl,
    )
bind_abort_same (wakeup w) g l address e p fd there =
    let p' = add_bound_event p (timeout_io address w e) in
    (
      wakeup w,
      put_event_loop g l p',
      p',
      rw there refl,
      get_event_loop-put_event_loop g l p',
      refl,
      refl,
    )

-- If a coroutine awaits `Send` or `Recv` on an open socket, without an abort handle, with a token or
-- with a timeout, its descriptor is not the eventfd of the loop, and the events `xs` wait for the same
-- direction of the descriptor: the await succeeds, and if in each of the following waits, one more
-- than events in `xs`, epoll_wait reports just this descriptor, once, and nothing else changes the
-- poller between their IO phases, those hand out the events of `xs` in their order and the event of
-- the coroutine last, and none waits any longer.
pub await_io_served :
    (s : Socket) (fd : ℕ) (t : IoType) (abort : AbortHandle) (g : EventLoopGroup) (l : ℕ)
    (p : Poller) (address h : ℕ) (xs : List IoEvent)
    → s.fd ≡ some fd
    → get_event_loop g l ≡ some p
    → (fd == p.user_event_fd) ≡ false
    → queues p fd t ≡ xs
    → (abort' : AbortHandle) × (g' : EventLoopGroup) × (p' p'' : Poller) × (e : IoEvent) × (await_io
          s t abort g l address h
        ≡ ok (abort', g', e))
      × (e.handle ≡ h)
      × (get_event_loop g' l ≡ some p')
      × (io_rounds p' fd t (length xs + 1) ≡ ok (map io xs ++ io e ∷ [], p''))
      × (queues p'' fd t ≡ [])
unfolding await_io suspend_io
await_io_served s fd t abort g l p address h xs is_open there other waiting =
    let added = add_io_event p (new_io_event fd t h) in
    let all = xs ++ added.1 ∷ [] in
    let g₁ = put_event_loop g l added.0 in
    let (abort', g', p', bound, there', same, same_fd) =
      bind_abort_same abort g₁ l address added.1 added.0 fd
        (get_event_loop-put_event_loop g l added.0) in
    let queued = queues-add_io_event p fd h t xs waiting in
    let fds = user_event_fd-add_io_event p (new_io_event fd t h) in
    let same_queue : queues p' fd t ≡ queues added.0 fd t = ap (λ q. q t) same in
    let (p'', done, left) =
      io_rounds_hand_out all [] p' fd t (rw (same_fd ∙ fds) other)
        (same_queue ∙ queued ∙ sym (append-nil all)) in
    (
      abort',
      g',
      p',
      p'',
      added.1,
      rw (is_open, there, bound) refl,
      handle_kept p (new_io_event fd t h),
      there',
      subst (λ n. io_rounds p' fd t n ≡ ok (map io xs ++ io added.1 ∷ [], p''))
          (length-append xs (added.1 ∷ []))
          (done ∙ ap (λ ts. ok (ts, p'')) (map-append io xs (added.1 ∷ []))),
      left,
    )

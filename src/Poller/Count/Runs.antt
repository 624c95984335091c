-- ===== src/Poller/Count/Runs.antt =====
-- `total_io_events_` of src/coro/poller/epoll.cc in every state that a poller can come to.
use libarc.Prelude.{
  ℕ, ◌<◌, ◌≤◌, ◌≡◌, refl, sym, ap, subst, ◌⊎◌, inl, inr, require, io_exception, ◌>>=◌, ◌>>◌, Bool,
  true, false, Option, none, some, List, [], ◌∷◌, ◌++◌, ok, ◌==◌, ltb, Bool-cases, Option-cases,
  Outcome, >>=-eq-ok, require-eq-ok, arith, defined, take_out,
}
use libarc.Events.{IoType, IoEvent, UserEvent, BoundEvent, TriggerType, Todo}
use libarc.Poller.State.{
  Poller, Queues, queues, put_queues, set_queue, add_io_event, add_bound_event, max_fd_in_array,
}
use libarc.Poller.IoEvents.{
  get_existing_io_event, pop_io_event, popped, pop_io_event-eq-ok, drop_all,
}
use libarc.Poller.UserEvents.{trigger_user_event, user_id}
use libarc.Poller.BoundEvents.{
  trigger_bound_event, pop_bound_event, cancel_found, cancelled, find_io, uncounted, unbind,
  pop_bound_user,
}
use libarc.Poller.BoundEvents.Inversion.{
  trigger_bound_event-eq-ok, unbind-eq-ok, pop_bound_event-eq-ok, gone, from_io, from_user,
}
use libarc.Poller.Trim.{prev_events, set_prev_events, or_throw, trim_fd, trim_fds}
use libarc.Poller.Kernel.{Epoll}
use libarc.Poller.Wait.{Answers, wait_events}
use libarc.Poller.Wait.Keeps.{Keeps, AllReady, wait_events-keeps}
use libarc.Poller.Count.{
  IsCounted, cancel_found-IsCounted, queued, add_io_event-IsCounted, pop_io_event-IsCounted,
  drop_all-IsCounted,
}

-- Nothing waits for a descriptor from `n` on.
abbrev pub IsEmptyFrom : ℕ → Poller → Type 0
IsEmptyFrom n p = (fd : ℕ) (t : IoType) → n ≤ fd → queues p fd t ≡ []

abbrev pub IsRight : ℕ → Poller → Type 0
IsRight n p = IsCounted n p × IsEmptyFrom n p

put_queues-IsEmptyFrom :
    (n : ℕ) (p : Poller) (fd : ℕ) (q : Queues)
    → fd < n
    → IsEmptyFrom n p
    → IsEmptyFrom n (put_queues p fd q)
put_queues-IsEmptyFrom n p fd q lt e f t le = let there = e f t le in ground arith

find_io-empty :
    (q : Queues) (id : ℕ) → q IoType.read ≡ [] → q IoType.write ≡ [] → find_io q id ≡ none
unfolding find_io take_out
find_io-empty q id er ew = rw (er, ew, find_io, take_out) refl

trigger_type_cases : (t : TriggerType) → (t ≡ TriggerType.time_event) ⊎ (t ≡ TriggerType.user_event)
trigger_type_cases TriggerType.time_event = inl refl
trigger_type_cases TriggerType.user_event = inr refl

-- A call of the kernel leaves the poller as it was set before.
pub after_ctl :
    {K : Type 0} (o : Option K) (p : Poller) {r : Poller × K}
    → (or_throw o >>= λ k. ok (p, k)) ≡ ok r
    → r.0 ≡ p
after_ctl none p h = absurd (ground arith)
after_ctl (some k) p {r} h = let e : (p, k) ≡ r = ground arith in ap (λ x. x.0) (sym e)

-- One round of `TrimIOEvents`, if the kernel takes the change.
trim_fd-moves :
    (E : Epoll) (k : E.Kernel) (p : Poller) (fd : ℕ) {r : Poller × E.Kernel}
    → trim_fd E k p fd ≡ ok r
    → r.0 ≡ set_prev_events p fd (get_existing_io_event p fd)
unfolding trim_fd
trim_fd-moves E k p fd {r} h = elim (Bool-cases (get_existing_io_event p fd == prev_events p fd)) [
  | inl unchanged ↦ let e = rw unchanged at h in after_ctl (some k) _ e
  | inr changed ↦ let e = rw changed at h in after_ctl _ _ e
]

module _ (n : ℕ) (fits : n ≤ 1024) where
  pub add-IsRight :
      (p : Poller) (e : IoEvent) → e.fd < n → IsRight n p → IsRight n (add_io_event p e).0
  unfolding add_io_event
  add-IsRight p e lt (c, empty_from) =
      (add_io_event-IsCounted n p e lt c, put_queues-IsEmptyFrom n _ e.fd _ lt empty_from)

  pop-IsRight :
      (p : Poller) (fd : ℕ) (t : IoType) (e : IoEvent) (p' : Poller)
      → fd < n
      → pop_io_event p fd t ≡ ok (e, p')
      → IsRight n p
      → IsRight n p'
  unfolding popped
  pop-IsRight p fd t e p' lt h (c, empty_from) =
      let (rest, front, same) = pop_io_event-eq-ok p fd t h in
      (
        pop_io_event-IsCounted n p fd t lt c h,
        subst (IsEmptyFrom n) (sym same) (put_queues-IsEmptyFrom n _ fd _ lt empty_from),
      )

  pub drop-IsRight : (p : Poller) (fd : ℕ) → fd < n → IsRight n p → IsRight n (drop_all p fd)
  unfolding drop_all
  drop-IsRight p fd lt (c, empty_from) =
      (drop_all-IsCounted n p fd lt c, put_queues-IsEmptyFrom n _ fd _ lt empty_from)

  -- The other fields do not matter.
  pub trigger_bound-IsRight :
      (p : Poller) (b : BoundEvent) (wrote : Bool) (p' : Poller)
      → trigger_bound_event p b.bound_event_id b wrote ≡ ok p'
      → IsRight n p
      → IsRight n p'
  unfolding queued
  trigger_bound-IsRight p b wrote p' h right =
      elim (trigger_bound_event-eq-ok p b.bound_event_id b wrote h) [
        | inl same ↦ subst (IsRight n) (sym same) right
        | inr (c, x, there, out, same) ↦ subst (IsRight n) (sym same) right
      ]

  unbind-IsRight :
      (p : Poller) (id : ℕ) (p' : Poller) → unbind p id ≡ ok p' → IsRight n p → IsRight n p'
  unfolding queued
  unbind-IsRight p id p' h right = elim (unbind-eq-ok p id h) [
    | inl (none_there, same) ↦ subst (IsRight n) (sym same) right
    | inr (c, x, there, out, same) ↦ subst (IsRight n) (sym same) right
  ]

  cancel-IsRight :
      (after_erase : List IoEvent → ℕ → IoEvent) (p : Poller) (fd id : ℕ)
      (r : Option (IoType × IoEvent × List IoEvent))
      → find_io (queues p fd) id ≡ r
      → IsRight n p
      → IsRight n (cancel_found after_erase p fd id r).0
  unfolding cancel_found cancelled
  cancel-IsRight after_erase p fd id none h right = right
  cancel-IsRight after_erase p fd id (some (t, e, rest)) h (c, empty_from) =
      elim (Bool-cases (ltb fd n)) [
        | inl inside ↦
            let lt : fd < n = ground arith in
            (
              cancel_found-IsCounted after_erase n p fd id lt c (some (t, e, rest))
                  (omega (arith, fits, lt)) h,
              put_queues-IsEmptyFrom n (uncounted p fd) fd (set_queue (queues p fd) t rest) lt
                  empty_from,
            )
        | inr beyond ↦
            let le : n ≤ fd = ground arith in
            let none_there =
              find_io-empty (queues p fd) id (empty_from fd IoType.read le)
                (empty_from fd IoType.write le) in
            absurd (ground arith)
      ]

  pop_bound_user-IsRight :
      (after_erase : List IoEvent → ℕ → IoEvent) (p : Poller) (id : ℕ)
      → IsRight n p
      → IsRight n (pop_bound_user after_erase p id).0
  unfolding pop_bound_user queued
  pop_bound_user-IsRight after_erase p id right =
      elim (Option-cases (take_out user_id id p.pending_user_events)) [
        | inl none_there ↦ rw (none_there, pop_bound_user) right
        | inr ((e, rest), there) ↦ rw (there, pop_bound_user) right
      ]

  pop_bound-IsRight :
      (after_erase : List IoEvent → ℕ → IoEvent) (p : Poller) (b : BoundEvent)
      (bs : List BoundEvent) (p' : Poller) (r : Option Todo)
      → pop_bound_event after_erase p b ≡ ok (p', r)
      → IsRight n p
      → IsRight n (record p' { triggered_bound_events = bs })
  unfolding queued cancel_found
  pop_bound-IsRight after_erase p b bs p' r h right =
      elim (pop_bound_event-eq-ok after_erase p b h) [
        | gone same ↦ subst (IsRight n) (sym same) right
        | from_io t e rest _ found same ↦ subst (IsRight n) (sym same) (
            cancel-IsRight after_erase p b.bound_helper b.bound_event_id (some (t, e, rest)) found
              right)
        | from_user _ same ↦
            subst (IsRight n) (sym same)
              (pop_bound_user-IsRight after_erase p b.bound_event_id right)
      ]

  pub wait-IsRight :
      (after_erase : List IoEvent → ℕ → IoEvent) (p : Poller) (a : Answers) {p' : Poller}
      {todo : List Todo}
      → AllReady (λ fd. fd < n) a.ready
      → wait_events after_erase p a ≡ ok (p', todo)
      → IsRight n p
      → IsRight n p'
  unfolding queued
  wait-IsRight after_erase p a inside h right = wait_events-keeps steps p a inside h right
    where
      steps : Keeps after_erase (λ fd. fd < n) (IsRight n)
      steps = record {
        pops = pop-IsRight;
        times = λ q ts k. k;
        triggers = trigger_bound-IsRight;
        hands = λ q e es g k. k;
        unbinds = unbind-IsRight;
        cancels = λ q b bs q' o e g k. pop_bound-IsRight after_erase q b bs q' o g k;
      }

  pub trigger_user-IsRight :
      (p : Poller) (id : ℕ) (wrote : Bool) {p' : Poller} {known : Bool}
      → trigger_user_event p id wrote ≡ ok (p', known)
      → IsRight n p
      → IsRight n p'
  unfolding trigger_user_event queued
  trigger_user-IsRight p id wrote {p'} {known} h right = go (p.user_events id) h
    where
      go :
          (o : Option UserEvent)
          → elim o as (λ k. Outcome (Poller × Bool)) [
            | none ↦ ok (p, false)
            | some event ↦ defined (take_out user_id event.event_id p.pending_user_events) >>= λ x.
                require wrote io_exception
                >> ok (
                  record p {
                    pending_user_events = x.1;
                    triggered_user_events = p.triggered_user_events ++ event ∷ [];
                  },
                  true,
                )
          ]
            ≡ ok (p', known)
          → IsRight n p'
      go none e = let same : p ≡ p' = ground arith in subst (IsRight n) same right
      go (some event) e =
          let (x, out, rest) =
            >>=-eq-ok (defined (take_out user_id event.event_id p.pending_user_events)) _ e in
          let last = require-eq-ok wrote io_exception _ rest in
          let same : record p {
            pending_user_events = x.1;
            triggered_user_events = p.triggered_user_events ++ event ∷ [];
          }
              ≡ p' =
            ground arith in
          subst (IsRight n) same right

  pub add_bound-IsRight :
      (p : Poller) (b : BoundEvent) → IsRight n p → IsRight n (add_bound_event p b)
  unfolding add_bound_event queued
  add_bound-IsRight p b right = elim (trigger_type_cases b.trigger_type) [
    | inl by_time ↦ rw (by_time, add_bound_event) right
    | inr by_user ↦ rw (by_user, add_bound_event) right
  ]

  set_prev_events-IsRight :
      (p : Poller) (fd events : ℕ) → IsRight n p → IsRight n (set_prev_events p fd events)
  unfolding queued
  set_prev_events-IsRight p fd events right = elim (Bool-cases (ltb fd max_fd_in_array)) [
    | inl inside ↦ rw inside right
    | inr beyond ↦ rw beyond right
  ]

  pub trim_fds-IsRight :
      (E : Epoll) (k : E.Kernel) (p : Poller) (fds : List ℕ) {p' : Poller} {k' : E.Kernel}
      → trim_fds E k p fds ≡ ok (p', k')
      → IsRight n p
      → IsRight n p'
  unfolding trim_fds trim_fd
  trim_fds-IsRight E k p [] {p'} h right =
      let same : p ≡ p' = ground arith in subst (IsRight n) same right
  trim_fds-IsRight E k p (fd ∷ fds) {p'} h right =
      let (r, first, next) = >>=-eq-ok (trim_fd E k p fd) (λ r. trim_fds E r.1 r.0 fds) h in
      let moved : r.0 ≡ set_prev_events p fd (get_existing_io_event p fd) =
        trim_fd-moves E k p fd first in
      trim_fds-IsRight E r.1 r.0 fds next
        (subst (IsRight n) (sym moved) (set_prev_events-IsRight p fd _ right))

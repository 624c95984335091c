-- ===== src/Poller/Count/Reach.antt =====
-- Whether src/coro/poller/epoll.cc may call itself done, in every state that a poller can come to.
use libarc.Prelude.{
  ℕ, ◌+◌, ◌<◌, ◌≤◌, ◌≡◌, refl, sym, subst, inl, inr, Bool-cases, if◌then◌else◌, Bool, true, false,
  not, ◌&&◌, List, [], ◌∷◌, ok, length, ==_iff, ltb, some, arith,
}
use libarc.Prelude.Int.{ℤ, pos, ◌+ℤ◌, add-pos}
use libarc.Events.{IoType, IoEvent, UserEvent, BoundEvent, Todo}
use libarc.Poller.Kernel.{Epoll}
use libarc.Poller.State.{
  Poller, init, queues, add_io_event, add_time_event, add_user_event, add_bound_event, register,
  deregister, set_next_time_no_wait, is_poller_done, is_zero,
}
use libarc.Poller.IoEvents.{drop_all}
use libarc.Poller.UserEvents.{trigger_user_event}
use libarc.Poller.BoundEvents.{trigger_bound_event}
use libarc.Poller.Trim.{trim_io_events, trim_user_events, trim_time_events, should_add_epoll}
use libarc.Poller.Wait.{Answers, wait_events}
use libarc.Poller.Wait.Keeps.{AllReady}
use libarc.Poller.Count.{queued, waiting-le-queued, length-le-size, init-IsCounted}
use libarc.Poller.Count.Runs.{
  IsRight, add-IsRight, drop-IsRight, wait-IsRight, trigger_user-IsRight, trigger_bound-IsRight,
  add_bound-IsRight, trim_fds-IsRight, after_ctl,
}

length-zero {ℓ} : {A : Type ℓ} (l : List A) → length l ≡ 0 → l ≡ []
length-zero [] h = refl
length-zero (x ∷ xs) h = absurd (omega arith)

and-parts : (a b : Bool) → (a && not b) ≡ true → (a ≡ true) × (b ≡ false)
and-parts a b h = (ground arith, ground arith)

is_zero-parts : (z : ℤ) (m k : ℕ) → z ≡ pos m → is_zero (z +ℤ pos k) ≡ true → (m ≡ 0) × (k ≡ 0)
is_zero-parts z m k e h =
    let sum : is_zero (pos (m + k)) ≡ true = rw (add-pos z m k e) at h in
    let none_left : m + k ≡ 0 = ground (arith, ==_iff (m + k) 0) in (omega arith, omega arith)

module _ (E : Epoll) (after_erase : List IoEvent → ℕ → IoEvent) (n : ℕ) where
  -- The pollers that some sequence of its operations leads to, with descriptors below `n`.
  pub data Reachable : Poller → Type 0 where
    begins : (event_fd : ℕ) → Reachable (init event_fd)
    adds_io : (p : Poller) (e : IoEvent) → e.fd < n → Reachable p → Reachable (add_io_event p e).0
    adds_time :
        (p : Poller) (wakeup handle : ℕ) → Reachable p → Reachable (add_time_event p wakeup handle)
    adds_user : (p : Poller) (e : UserEvent) → Reachable p → Reachable (add_user_event p e).0
    adds_bound : (p : Poller) (b : BoundEvent) → Reachable p → Reachable (add_bound_event p b)
    triggers_user :
        (p : Poller) (id : ℕ) (wrote known : Bool) (p' : Poller)
        → trigger_user_event p id wrote ≡ ok (p', known)
        → Reachable p
        → Reachable p'
    triggers_bound :
        (p : Poller) (b : BoundEvent) (wrote : Bool) (p' : Poller)
        → trigger_bound_event p b.bound_event_id b wrote ≡ ok p'
        → Reachable p
        → Reachable p'
    drops : (p : Poller) (fd : ℕ) → fd < n → Reachable p → Reachable (drop_all p fd)
    registers : (p : Poller) → Reachable p → Reachable (register p)
    deregisters : (p : Poller) → Reachable p → Reachable (deregister p)
    hurries : (p : Poller) → Reachable p → Reachable (set_next_time_no_wait p)
    trims_io :
        (p : Poller) (k k' : E.Kernel) (p' : Poller)
        → trim_io_events E k p ≡ ok (p', k')
        → Reachable p
        → Reachable p'
    trims_user :
        (p : Poller) (k k' : E.Kernel) (p' : Poller)
        → trim_user_events E k p ≡ ok (p', k')
        → Reachable p
        → Reachable p'
    trims_time : (p : Poller) (now : ℕ) → Reachable p → Reachable (trim_time_events p now)
    waits :
        (p : Poller) (a : Answers) (p' : Poller) (todo : List Todo)
        → AllReady (λ fd. fd < n) a.ready
        → wait_events after_erase p a ≡ ok (p', todo)
        → Reachable p
        → Reachable p'

  trim_user-IsRight :
      (p : Poller) (k k' : E.Kernel) (p' : Poller)
      → trim_user_events E k p ≡ ok (p', k')
      → IsRight n p
      → IsRight n p'
  unfolding trim_user_events queued
  trim_user-IsRight p k k' p' h right =
      elim (Bool-cases
        (if p.is_event_fd_added then should_add_epoll p else not (should_add_epoll p))) [
          | inl kept ↦
              let e = rw kept at h in
              let same : p' ≡ p = after_ctl (some k) p e in subst (IsRight n) (sym same) right
          | inr changed ↦
              let e = rw changed at h in
              let same = after_ctl _ _ e in subst (IsRight n) (sym same) right
        ]

  -- A poller whose descriptors are below 1024, the bound of its array, counts its IO events right
  -- after any sequence of its operations.
  pub Reachable-IsRight : (p : Poller) → n ≤ 1024 → Reachable p → IsRight n p
  unfolding queued add_time_event add_user_event register deregister set_next_time_no_wait
      trim_io_events trim_time_events init
  Reachable-IsRight p fits (begins fd) = (init-IsCounted n fd, λ j t le. ground arith)
  Reachable-IsRight p fits (adds_io q e lt r) =
      add-IsRight n fits q e lt (Reachable-IsRight q fits r)
  Reachable-IsRight p fits (adds_time q w h r) = Reachable-IsRight q fits r
  Reachable-IsRight p fits (adds_user q e r) = Reachable-IsRight q fits r
  Reachable-IsRight p fits (adds_bound q b r) =
      add_bound-IsRight n fits q b (Reachable-IsRight q fits r)
  Reachable-IsRight p fits (triggers_user q id wrote known _ h r) =
      trigger_user-IsRight n fits q id wrote h (Reachable-IsRight q fits r)
  Reachable-IsRight p fits (triggers_bound q b wrote _ h r) =
      trigger_bound-IsRight n fits q b wrote p h (Reachable-IsRight q fits r)
  Reachable-IsRight p fits (drops q fd lt r) =
      drop-IsRight n fits q fd lt (Reachable-IsRight q fits r)
  Reachable-IsRight p fits (registers q r) = Reachable-IsRight q fits r
  Reachable-IsRight p fits (deregisters q r) = Reachable-IsRight q fits r
  Reachable-IsRight p fits (hurries q r) = Reachable-IsRight q fits r
  Reachable-IsRight p fits (trims_io q k k' _ h r) =
      trim_fds-IsRight n fits E k q q.interesting_fds h (Reachable-IsRight q fits r)
  Reachable-IsRight p fits (trims_user q k k' _ h r) =
      trim_user-IsRight q k k' p h (Reachable-IsRight q fits r)
  Reachable-IsRight p fits (trims_time q now r) = Reachable-IsRight q fits r
  Reachable-IsRight p fits (waits q a _ todo inside h r) =
      wait-IsRight n fits after_erase q a inside h (Reachable-IsRight q fits r)

  -- If a reachable poller with descriptors below 1024 calls itself done, no coroutine waits in it: all
  -- its deques and lists are empty, and no dispatcher is registered.
  pub is_poller_done_lem :
      (p : Poller)
      → n ≤ 1024
      → Reachable p
      → is_poller_done p ≡ true
      → ((fd : ℕ) (t : IoType) → queues p fd t ≡ [])
        × (p.time_events ≡ [])
        × (p.pending_user_events ≡ [])
        × (p.triggered_user_events ≡ [])
        × (p.pending_bound_events ≡ [])
        × (p.triggered_bound_events ≡ [])
        × (p.is_dispatcher_registered ≡ false)
  unfolding is_poller_done
  is_poller_done_lem p fits r done =
      let (counted, beyond) = Reachable-IsRight p fits r in
      let (sum, out) = and-parts _ _ done in
      let none_left = is_zero-parts _ _ _ counted sum in
      let none_queued : queued n p ≡ 0 = none_left.0 in
      let rest = none_left.1 in
      (
        λ fd t. elim (Bool-cases (ltb fd n)) [
          | inl below ↦
              let part = waiting-le-queued n p fd (ground arith) in
              let one = length-le-size (queues p fd) t in length-zero _ (omega arith)
          | inr from ↦ beyond fd t (ground arith)
        ],
        length-zero _ (omega arith),
        length-zero _ (omega arith),
        length-zero _ (omega arith),
        length-zero _ (omega arith),
        length-zero _ (omega arith),
        ground arith,
      )

-- ===== src/Locks/Handover.antt =====
-- Who gets the lock: the queue of a lock against the pending user events of the event loops.
use libarc.Prelude.{
  present-le-one, ℕ, ◌+◌, ◌^◌, ◌<◌, ◌≤◌, ◌≡◌, refl, inl, inr, true, false, ◌&&◌, Option, none, some,
  List, [], ◌∷◌, ◌++◌, ◌==◌, if◌then◌else◌, ok, Bool-cases, Option-cases, count, count-snoc, arith,
}
use libarc.Events.{UserEvent}
use libarc.Poller.State.{Poller, add_user_event}
use libarc.Poller.UserEvents.{user_id, trigger_user_event}
use libarc.Poller.Registry.{IsRegistered, trigger_user_event_pending, add_user_event-IsRegistered}
use libarc.EventLoopGroup.{EventLoopGroup, get_event_loop, put_event_loop}
use libarc.Locks.Core.{LockCore, unlock, unlock_next, acquire, add_pending_event_pair}

-- How often the event `i` of the loop `l` stands in a queue.
abbrev pub waiters : (l i : ℕ) → List (ℕ × ℕ) → ℕ
waiters l i [] = 0
waiters l i ((e, k) ∷ ps) = let rest = waiters l i ps in (if e == i && k == l then 1 else 0) + rest

waiters-snoc :
    (ps : List (ℕ × ℕ)) (l i e k : ℕ)
    → waiters l i (ps ++ (e, k) ∷ []) ≡ waiters l i ps + (if e == i && k == l then 1 else 0)
waiters-snoc [] l i e k = omega arith
waiters-snoc ((_, _) ∷ ps) l i e k = omega (arith, waiters-snoc ps l i e k)

-- How often it is pending in the loop.
abbrev pub pending_in : Option Poller → ℕ → ℕ
pending_in none i = 0
pending_in (some p) i = count user_id i p.pending_user_events

-- The registries of the loops are right.
abbrev pub AllRegistered : EventLoopGroup → Type 0
AllRegistered g = (l : ℕ) (p : Poller) → get_event_loop g l ≡ some p → IsRegistered p

-- All that wait for the lock are pending in their event loops.
abbrev pub AllPending : List (ℕ × ℕ) → EventLoopGroup → Type 0
AllPending ps g = (l i : ℕ) → waiters l i ps ≤ pending_in (get_event_loop g l) i

pub record IsOrderly (core : LockCore) (g : EventLoopGroup) : Type 0 where
  -- Nobody waits for a lock that is free.
  pub free : core.is_locked ≡ false → core.pending_event_pairs ≡ []
  pub registered : AllRegistered g
  pub pending : AllPending core.pending_event_pairs g

pending_in-put :
    (g : EventLoopGroup) (l j i : ℕ) (p : Poller)
    → pending_in (get_event_loop (put_event_loop g l p) j) i ≡ (
        if l == j then count user_id i p.pending_user_events else pending_in (get_event_loop g j) i)
pending_in-put g l j i p = ground arith

registered-put :
    (g : EventLoopGroup) (l : ℕ) (p : Poller)
    → IsRegistered p
    → AllRegistered g
    → AllRegistered (put_event_loop g l p)
registered-put g l p r all j q h = elim (Bool-cases (l == j)) [
  | inl hit ↦ let same : p ≡ q = ground arith in rw (← same) r
  | inr miss ↦ all j q (ground arith)
]

abbrev pub rest_of : List (ℕ × ℕ) → List (ℕ × ℕ)
rest_of [] = []
rest_of (x ∷ xs) = xs

-- The loop of the first waiter, which is pending there.
waiter_is_pending :
    (g : EventLoopGroup) (e l : ℕ) (rest : List (ℕ × ℕ))
    → AllPending ((e, l) ∷ rest) g
    → (p : Poller) × (get_event_loop g l ≡ some p) × (0 < count user_id e p.pending_user_events)
waiter_is_pending g e l rest all =
    let here = all l e in
    elim (Option-cases (get_event_loop g l)) [
      | inl none_there ↦ absurd (ground arith)
      | inr (p, there) ↦ (p, there, ground arith)
    ]

-- If the lock's queue is in order with the event loops, and the eventfd can be written, releasing a
-- lock that is waited for triggers the first waiter's event in its event loop, takes it from the
-- queue, and leaves the lock locked, and everything in order. (In order: nobody waits for a free
-- lock, the registries of the loops are right, and each waiter is pending in its loop.)
pub unlock_hands_over :
    (core : LockCore) (g : EventLoopGroup) (e l : ℕ) (rest : List (ℕ × ℕ))
    → core.pending_event_pairs ≡ (e, l) ∷ rest
    → IsOrderly core g
    → (p : Poller) × (p' : Poller) × (get_event_loop g l ≡ some p)
      × (trigger_user_event p e true ≡ ok (p', true))
      × (unlock core g true
          ≡ ok (record { pending_event_pairs = rest; is_locked = true }, put_event_loop g l p'))
      × IsOrderly (record { pending_event_pairs = rest; is_locked = true }) (put_event_loop g l p')
unfolding unlock unlock_next
unlock_hands_over core g e l rest queue o =
    let all : AllPending ((e, l) ∷ rest) g = rw queue at o.pending in
    let (p, there, waits) = waiter_is_pending g e l rest all in
    let (p', done, r, gone, _, _, others, _) =
      trigger_user_event_pending p e (o.registered l p there) waits in
    (
      p,
      p',
      there,
      done,
      ground arith,
      record {
        free = cc;
        registered = registered-put g l p' r o.registered;
        pending = λ j i.
            let before = all j i in
            let at_j = pending_in-put g l j i p' in
            let other = others i in
            let same = there in
            let once = (o.registered l p there).once e in
            let one = present-le-one (p.user_events e) in
            elim (Bool-cases (l == j)) [
              | inr miss ↦ ground arith
              | inl hit ↦ elim (Bool-cases (e == i)) [
                | inl hit_i ↦ ground arith
                | inr miss_i ↦ ground arith
              ]
            ];
      },
    )

-- If the lock's queue is in order with the event loops, acquiring a locked lock on a registered
-- event loop, whose identifiers have not wrapped around, does not let the coroutine go on: its event
-- goes to the end of the queue, and the queue is in order again.
pub acquire_queues :
    (core : LockCore) (g : EventLoopGroup) (l : ℕ) (p : Poller) (event : UserEvent)
    → core.is_locked ≡ true
    → get_event_loop g l ≡ some p
    → p.max_event_id + 1 < 2 ^ 32
    → IsOrderly core g
    → (core' : LockCore) × (g' : EventLoopGroup) × (acquire core g l event ≡ ok (core', g', false))
      × (core'.pending_event_pairs ≡ core.pending_event_pairs ++ (p.max_event_id, l) ∷ [])
      × (core'.is_locked ≡ true)
      × IsOrderly core' g'
unfolding acquire add_pending_event_pair add_user_event
acquire_queues core g l p event locked there small o =
    let r = add_user_event-IsRegistered p event small (o.registered l p there) in
    let p' = (add_user_event p event).0 in
    (
      record core { pending_event_pairs = core.pending_event_pairs ++ (p.max_event_id, l) ∷ [] },
      put_event_loop g l p',
      ground arith,
      refl,
      locked,
      record {
        free = λ e. absurd (ground arith);
        registered = registered-put g l p' r o.registered;
        pending = λ j i.
            let before = o.pending j i in
            let at_j = pending_in-put g l j i p' in
            let more = waiters-snoc core.pending_event_pairs j i p.max_event_id l in
            let new : UserEvent = record event { event_id = p.max_event_id } in
            let snoc = count-snoc user_id i p.pending_user_events new in
            elim (Bool-cases (l == j)) [ inr miss ↦ ground arith | inl hit ↦ ground arith ];
      },
    )

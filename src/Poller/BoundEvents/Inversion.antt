-- ===== src/Poller/BoundEvents/Inversion.antt =====
-- What a bound event's operation did, read off its result.
use libarc.Prelude.{
  ℕ, ◌≡◌, refl, ◌⊎◌, inl, inr, Bool, Option, none, some, List, Outcome, ok, ◌>>=◌, ◌>>◌, >>=-eq-ok,
  require, require-eq-ok, io_exception, exception_base, defined, take_out, arith,
}
use libarc.Events.{IoEvent, IoType, BoundEvent, BoundType, Todo}
use libarc.Poller.State.{Poller, queues}
use libarc.Poller.BoundEvents.{
  trigger_bound_event, bound_triggered, unbind, unbound, address_of, pop_bound_event, pop_bound_io,
  pop_bound_user, cancel_found, cancelled, find_io,
}

defined-eq-ok {ℓ} : {A : Type ℓ} (o : Option A) {a : A} → defined o ≡ ok a → o ≡ some a
defined-eq-ok none h = cc
defined-eq-ok (some b) h = ground arith

pub trigger_bound_event-eq-ok :
    (p : Poller) (id : ℕ) (event : BoundEvent) (wrote : Bool) {p' : Poller}
    → trigger_bound_event p id event wrote ≡ ok p'
    → (p' ≡ p)
      ⊎ ((b : BoundEvent) × (x : BoundEvent × List BoundEvent) × (p.event_pending_bound_token_map id
            ≡ some b)
          × (take_out address_of event.address p.pending_bound_events ≡ some x)
          × (p' ≡ bound_triggered p id event x.1))
unfolding trigger_bound_event
trigger_bound_event-eq-ok p id event wrote {p'} h = go (p.event_pending_bound_token_map id) refl h
  where
    go :
        (o : Option BoundEvent)
        → p.event_pending_bound_token_map id ≡ o
        → elim o [
          | none ↦ ok p
          | some _ ↦ defined (take_out address_of event.address p.pending_bound_events) >>= λ x.
              require wrote io_exception >> ok (bound_triggered p id event x.1)
        ]
          ≡ ok p'
        → (p' ≡ p)
          ⊎ ((b : BoundEvent) × (x : BoundEvent × List BoundEvent)
              × (p.event_pending_bound_token_map id ≡ some b)
              × (take_out address_of event.address p.pending_bound_events ≡ some x)
              × (p' ≡ bound_triggered p id event x.1))
    go none e q = inl (ground arith)
    go (some b) e q =
        let (x, out, rest) =
          >>=-eq-ok (defined (take_out address_of event.address p.pending_bound_events)) _ q in
        let last = require-eq-ok wrote io_exception (ok (bound_triggered p id event x.1)) rest in
        inr (b, x, e, defined-eq-ok _ out, ground arith)

-- The two ways in which `unbind` returns.
abbrev pub Unbinds : Poller → ℕ → Poller → Type 0
Unbinds p id p' =
    ((p.event_pending_bound_token_map id ≡ none) × (p' ≡ p))
    ⊎ ((b : BoundEvent) × (x : BoundEvent × List BoundEvent) × (p.event_pending_bound_token_map id
          ≡ some b)
        × (take_out address_of b.address p.pending_bound_events ≡ some x)
        × (p' ≡ unbound p id b x.1))

pub unbind-eq-ok : (p : Poller) (id : ℕ) {p' : Poller} → unbind p id ≡ ok p' → Unbinds p id p'
unfolding unbind
unbind-eq-ok p id {p'} h = go (p.event_pending_bound_token_map id) refl h
  where
    go :
        (o : Option BoundEvent)
        → p.event_pending_bound_token_map id ≡ o
        → elim o [
          | none ↦ ok p
          | some b ↦ defined (take_out address_of b.address p.pending_bound_events) >>= λ x.
              ok (unbound p id b x.1)
        ]
          ≡ ok p'
        → Unbinds p id p'
    go none e q = inl (e, ground arith)
    go (some b) e q =
        let (x, out, rest) =
          >>=-eq-ok (defined (take_out address_of b.address p.pending_bound_events)) _ q in
        inr (b, x, e, defined-eq-ok _ out, ground arith)

module _ (after_erase : List IoEvent → ℕ → IoEvent) where
  -- What a cancelled event leaves: all three cases of `PopBoundEvent`.
  pub data Cancels (p : Poller) (b : BoundEvent) (p' : Poller) : Type 0 where
    gone : p' ≡ p → Cancels p b p'
    from_io :
        (t : IoType) (e : IoEvent) (rest : List IoEvent)
        → b.bound_type ≡ BoundType.io_event
        → find_io (queues p b.bound_helper) b.bound_event_id ≡ some (t, e, rest)
        → p' ≡ cancelled p b.bound_helper t rest
        → Cancels p b p'
    from_user :
        b.bound_type ≡ BoundType.user_event
        → p' ≡ (pop_bound_user after_erase p b.bound_event_id).0
        → Cancels p b p'

  pub pop_bound_event-eq-ok :
      (p : Poller) (b : BoundEvent) {p' : Poller} {r : Option Todo}
      → pop_bound_event after_erase p b ≡ ok (p', r)
      → Cancels p b p'
  unfolding pop_bound_event
  pop_bound_event-eq-ok p b {p'} {r} h = go b.bound_type refl h
    where
      found :
          (o : Option (IoType × IoEvent × List IoEvent))
          → b.bound_type ≡ BoundType.io_event
          → find_io (queues p b.bound_helper) b.bound_event_id ≡ o
          → cancel_found after_erase p b.bound_helper b.bound_event_id o ≡ (p', r)
          → Cancels p b p'
      found none t e q = gone (unfold cancel_found in ground arith)
      found (some (t, x, rest)) k e q = from_io t x rest k e (unfold cancel_found in ground arith)

      go :
          (k : BoundType)
          → b.bound_type ≡ k
          → elim k [
            | BoundType.io_event ↦ ok (pop_bound_io after_erase p b.bound_helper b.bound_event_id)
            | BoundType.user_event ↦ ok (pop_bound_user after_erase p b.bound_event_id)
            | BoundType.time_event ↦ Outcome.throws exception_base
          ]
            ≡ ok (p', r)
          → Cancels p b p'
      go BoundType.io_event e q =
          found (find_io (queues p b.bound_helper) b.bound_event_id) e refl
            (unfold pop_bound_io in ground arith)
      go BoundType.user_event e q = from_user e (ground arith)
      go BoundType.time_event e q = cc

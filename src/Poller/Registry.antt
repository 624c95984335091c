-- ===== src/Poller/Registry.antt =====
-- `user_events_` against the pending and the triggered list: each identifier is registered as long
-- as its event stands in one of the lists, and then in one place.
use libarc.Prelude.{
  present-le-one, ℕ, ◌+◌, ◌^◌, ◌<◌, ◌≤◌, ◌≡◌, ◌≢◌, refl, inl, inr, Bool, true, false, Option, none,
  some, List, [], ◌∷◌, ◌++◌, ltb, ◌==◌, if◌then◌else◌, length, ok, undefined, arith,
  take_out-TakesOut, count, count-snoc, present, Map, erase_key, Bool-cases, Option-cases,
}
use libarc.Events.{UserEvent, IoEvent, IoType, BoundEvent, Todo}
use libarc.Poller.State.{Poller, init, Queues, put_queues, max_fd_in_array, add_user_event}
use libarc.Poller.UserEvents.{trigger_user_event, user_id}
use libarc.Poller.BoundEvents.{
  pop_bound_user, pop_bound_event, cancelled, uncounted, unbind, trigger_bound_event,
}
use libarc.Poller.Wait.{wait_events, Answers, Ready}
use libarc.Poller.Wait.Keeps.{Keeps, AllReady, wait_events-keeps}
use libarc.Poller.BoundEvents.Inversion.{
  gone, from_io, from_user, trigger_bound_event-eq-ok, unbind-eq-ok, pop_bound_event-eq-ok,
}
use libarc.Poller.IoEvents.{pop_io_event, popped, pop_io_event-eq-ok}

pub record Registry (next : ℕ) (pending triggered : List UserEvent) (m : Map UserEvent)
    : Type 0 where
  pub once : (i : ℕ) → count user_id i pending + count user_id i triggered ≡ present (m i)
  pub named : (i : ℕ) (e : UserEvent) → m i ≡ some e → e.event_id ≡ i
  pub fresh : (i : ℕ) → next ≤ i → m i ≡ none

abbrev pub IsRegistered : Poller → Type 0
IsRegistered p = Registry p.max_event_id p.pending_user_events p.triggered_user_events p.user_events

-- A new poller has no user events.
pub init-IsRegistered : (event_fd : ℕ) → IsRegistered (init event_fd)
unfolding init count
init-IsRegistered event_fd = record { once = λ i. refl; named = λ i e h. cc; fresh = λ i h. refl }

-- Adding a user event keeps the registry right, as long as the 32-bit identifiers have not wrapped
-- around.
pub add_user_event-IsRegistered :
    (p : Poller) (e : UserEvent)
    → p.max_event_id + 1 < 2 ^ 32
    → IsRegistered p
    → IsRegistered (add_user_event p e).0
unfolding add_user_event
add_user_event-IsRegistered p e small r =
    let new : UserEvent = record e { event_id = p.max_event_id } in
    let unused = r.fresh p.max_event_id (omega arith) in
    rw unused (record {
      once = λ i.
          let split = count-snoc user_id i p.pending_user_events new in
          let old = r.once i in ground arith;
      named = λ i x h. let old = r.named i x in ground arith;
      fresh = λ i h. let old = r.fresh i in ground arith;
    })

-- An event that goes from the pending to the triggered list.
moved-Registry :
    {next : ℕ} {pending triggered : List UserEvent} {m : Map UserEvent} (e : UserEvent)
    (rest : List UserEvent)
    → ((j : ℕ) → count user_id j pending ≡ (if user_id e == j then 1 else 0) + count user_id j rest)
    → Registry next pending triggered m
    → Registry next rest (triggered ++ e ∷ []) m
moved-Registry {triggered} e rest c r = record {
  once = λ i. omega (arith, r.once i, c i, count-snoc user_id i triggered e);
  named = r.named;
  fresh = r.fresh;
}

hit : (a b : ℕ) → a ≡ b → ◌≡◌ {A = ℕ} (if a == b then 1 else 0) 1
hit a b h = ground arith

-- In a poller whose registry is right, triggering an identifier that is pending succeeds if the
-- write to the eventfd does: the event moves from the pending to the triggered list, it stays
-- registered, and the registry stays right.
pub trigger_user_event_pending :
    (p : Poller) (id : ℕ)
    → IsRegistered p
    → 0 < count user_id id p.pending_user_events
    → (p' : Poller) × (trigger_user_event p id true ≡ ok (p', true))
      × IsRegistered p'
      × (count user_id id p'.pending_user_events ≡ 0)
      × (count user_id id p'.triggered_user_events ≡ 1)
      × (length p'.pending_user_events + 1 ≡ length p.pending_user_events)
      × ((j : ℕ)
          → id ≢ j
          → count user_id j p'.pending_user_events ≡ count user_id j p.pending_user_events)
      × (p'.user_events ≡ p.user_events)
unfolding trigger_user_event
trigger_user_event_pending p id r waits = elim (Option-cases (p.user_events id)) [
  | inl n ↦ absurd (let o = r.once id in ground arith)
  | inr (e, known) ↦
      let name = r.named id e known in
      elim (take_out-TakesOut user_id e.event_id p.pending_user_events) [
        | inl (_, z) ↦
            absurd
              (let o : count user_id id p.pending_user_events ≡ 0 = rw (← name) z in omega arith)
        | inr (y, ys, out, yid, l, c) ↦
            let triggered = p.triggered_user_events ++ e ∷ [] in
            let o = r.once id in
            let one = present-le-one (p.user_events id) in
            let ci = c id in
            let snoc = count-snoc user_id id p.triggered_user_events e in
            let found = hit e.event_id id name in
            (
              record p { pending_user_events = ys; triggered_user_events = triggered },
              ground arith,
              moved-Registry e ys c r,
              omega arith,
              omega arith,
              omega arith,
              λ j ne. let cj = c j in ground arith,
              refl,
            )
      ]
]

-- An identifier that is not registered is refused, and nothing happens.
pub trigger_user_event_unknown :
    (p : Poller) (id : ℕ) (wrote : Bool)
    → p.user_events id ≡ none
    → trigger_user_event p id wrote ≡ ok (p, false)
unfolding trigger_user_event
trigger_user_event_unknown p id wrote h = rw (h, trigger_user_event)

-- In a poller whose registry is right, triggering an identifier that was triggered before and is
-- not handed out yet is undefined: the event is still registered, and is erased from the pending
-- list by an iterator that is no longer in it.
pub trigger_user_event_twice :
    (p : Poller) (id : ℕ) (wrote : Bool)
    → IsRegistered p
    → 0 < count user_id id p.triggered_user_events
    → trigger_user_event p id wrote ≡ undefined
unfolding trigger_user_event
trigger_user_event_twice p id wrote r waits = elim (Option-cases (p.user_events id)) [
  | inl n ↦ absurd (let o = r.once id in ground arith)
  | inr (e, known) ↦
      let name = r.named id e known in
      let o = r.once id in
      let one = present-le-one (p.user_events id) in
      elim (take_out-TakesOut user_id e.event_id p.pending_user_events) [
        | inl (out, _) ↦ ground arith
        | inr (y, ys, out, yid, l, c) ↦
            absurd (let ci = c id in let found = hit e.event_id id name in omega arith)
      ]
]

-- An event that is handed out is registered no more.
erased-Registry :
    {next : ℕ} {pending triggered pending' triggered' : List UserEvent} {m : Map UserEvent} (k : ℕ)
    → ((j : ℕ)
        → count user_id j pending + count user_id j triggered
          ≡ (if k == j then 1 else 0) + (count user_id j pending' + count user_id j triggered'))
    → Registry next pending triggered m
    → Registry next pending' triggered' (erase_key k m)
erased-Registry {m} k c r = record {
  once = λ i. let ci = c i in let o = r.once i in let one = present-le-one (m i) in ground arith;
  named = λ i e h. let old = r.named i e in ground arith;
  fresh = λ i h. let old = r.fresh i h in ground arith;
}

-- Cancelling a user event, pending or not, keeps the registry right.
pop_bound_user-IsRegistered :
    (after_erase : List IoEvent → ℕ → IoEvent) (p : Poller) (id : ℕ)
    → IsRegistered p
    → IsRegistered (pop_bound_user after_erase p id).0
unfolding pop_bound_user
pop_bound_user-IsRegistered after_erase p id r =
    elim (take_out-TakesOut user_id id p.pending_user_events) [
      | inl (out, _) ↦ rw (out, pop_bound_user) r
      | inr (y, ys, out, yid, l, c) ↦
          rw (out, pop_bound_user) (erased-Registry id (λ j. omega (arith, c j)) r)
    ]

handed_out-Registry :
    {next : ℕ} {pending : List UserEvent} {m : Map UserEvent} (e : UserEvent) (es : List UserEvent)
    → Registry next pending (e ∷ es) m
    → Registry next pending es (erase_key e.event_id m)
unfolding count
handed_out-Registry {pending} e es r =
    erased-Registry {pending = pending} {triggered = e ∷ es} e.event_id (λ j. omega arith) r

put_queues-IsRegistered :
    (p : Poller) (fd : ℕ) (q : Queues) → IsRegistered p → IsRegistered (put_queues p fd q)
put_queues-IsRegistered p fd q r = elim (Bool-cases (ltb fd max_fd_in_array)) [
  | inl small ↦ rw small r
  | inr large ↦ rw large r
]

pop_io_event-IsRegistered :
    (p : Poller) (fd : ℕ) (t : IoType) {e : IoEvent} {p' : Poller}
    → pop_io_event p fd t ≡ ok (e, p')
    → IsRegistered p
    → IsRegistered p'
unfolding popped
pop_io_event-IsRegistered p fd t h r =
    let (rest, _, same) = pop_io_event-eq-ok p fd t h in rw same (put_queues-IsRegistered _ fd _ r)

trigger_bound_event-IsRegistered :
    (p : Poller) (b : BoundEvent) (wrote : Bool) (p' : Poller)
    → trigger_bound_event p b.bound_event_id b wrote ≡ ok p'
    → IsRegistered p
    → IsRegistered p'
trigger_bound_event-IsRegistered p b wrote p' h r =
    elim (trigger_bound_event-eq-ok p b.bound_event_id b wrote h) [
      | inl same ↦ rw same r
      | inr (_, _, _, _, same) ↦ rw same r
    ]

unbind-IsRegistered :
    (p : Poller) (id : ℕ) (p' : Poller) → unbind p id ≡ ok p' → IsRegistered p → IsRegistered p'
unbind-IsRegistered p id p' h r = elim (unbind-eq-ok p id h) [
  | inl (_, same) ↦ rw same r
  | inr (_, _, _, _, same) ↦ rw same r
]

pop_bound_event-IsRegistered :
    (after_erase : List IoEvent → ℕ → IoEvent) (p : Poller) (b : BoundEvent) (p' : Poller)
    (o : Option Todo)
    → pop_bound_event after_erase p b ≡ ok (p', o)
    → IsRegistered p
    → IsRegistered p'
unfolding cancelled
pop_bound_event-IsRegistered after_erase p b p' o h r =
    elim (pop_bound_event-eq-ok after_erase p b h) [
      | gone same ↦ rw same r
      | from_io t e rest _ _ same ↦
          rw same (put_queues-IsRegistered (uncounted p b.bound_helper) b.bound_helper _ r)
      | from_user _ same ↦ rw same (pop_bound_user-IsRegistered after_erase p b.bound_event_id r)
    ]

-- If every identifier in `user_events_` names one event that stands once in the pending or the
-- triggered list, and every event of these lists is named, then that holds after a wait that
-- returns, whatever was ready, due or cancelled.
pub wait_events-IsRegistered :
    (after_erase : List IoEvent → ℕ → IoEvent) (p : Poller) (a : Answers) {p' : Poller}
    {todo : List Todo}
    → wait_events after_erase p a ≡ ok (p', todo)
    → IsRegistered p
    → IsRegistered p'
wait_events-IsRegistered after_erase p a h r = wait_events-keeps steps p a (everywhere a.ready) h r
  where
    everywhere : (rs : List Ready) → AllReady (λ fd. Unit {0}) rs
    everywhere [] = tt
    everywhere (_ ∷ rs) = (tt, everywhere rs)

    steps : Keeps after_erase (λ fd. Unit {0}) IsRegistered
    steps = record {
      pops = λ q fd t e q' f g k. pop_io_event-IsRegistered q fd t g k;
      times = λ q ts k. k;
      triggers = trigger_bound_event-IsRegistered;
      hands = λ q e es g k. handed_out-Registry e es (rw g at k);
      unbinds = unbind-IsRegistered;
      cancels = λ q b bs q' o e g k. pop_bound_event-IsRegistered after_erase q b q' o g k;
    }

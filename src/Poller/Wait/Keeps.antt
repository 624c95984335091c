-- ===== src/Poller/Wait/Keeps.antt =====
-- What each step of `WaitEvents` keeps, a whole wait keeps.
use libarc.Prelude.{
  ℕ, ◌≡◌, refl, inl, inr, Bool, true, false, Option, List, [], ◌∷◌, ◌++◌, map, ltb, leb, ◌||◌,
  length, ok, >>=-eq-ok, Bool-cases, arith, require-eq-ok, io_exception, not, ◌==◌,
}
use libarc.Events.{
  IoType, IoEvent, UserEvent, BoundEvent, TimeEvent, sleep, timeout, Todo, io, time, user,
  get_event_id, get_wakeup_time,
}
use libarc.Poller.State.{Poller, max_events_size_per_wait}
use libarc.Poller.IoEvents.{pop_io_event}
use libarc.Poller.BoundEvents.{trigger_bound_event, pop_bound_event, remove_bound_event, unbind}
use libarc.Poller.Trim.{is_valid_time}
use libarc.Poller.Wait.{
  WaitState, Ready, Answers, push_todo, take_io, take_io_if, io_round, io_phase, fire, time_loop,
  time_phase, hand_out, user_loop, user_phase, drain_if, bound_loop, wait_events, has_in, has_out,
  set_time_events, add_interrupted,
}

-- A predicate on descriptors, of every entry.
abbrev pub AllReady {ℓ} : (ℕ → Type ℓ) → List Ready → Type ℓ
AllReady F [] = Unit
AllReady F (r ∷ rs) = F r.fd × AllReady F rs

-- `P` survives each step, where the descriptors that are ready satisfy `F`.
pub record Keeps (after_erase : List IoEvent → ℕ → IoEvent) (F : ℕ → Type 0) (P : Poller → Type 0)
    : Type 0 where
  pub pops :
      (p : Poller) (fd : ℕ) (t : IoType) (e : IoEvent) (p' : Poller)
      → F fd
      → pop_io_event p fd t ≡ ok (e, p')
      → P p
      → P p'
  pub times : (p : Poller) (ts : List TimeEvent) → P p → P (record p { time_events = ts })
  pub triggers :
      (p : Poller) (b : BoundEvent) (wrote : Bool) (p' : Poller)
      → trigger_bound_event p b.bound_event_id b wrote ≡ ok p'
      → P p
      → P p'
  pub hands :
      (p : Poller) (e : UserEvent) (es : List UserEvent)
      → p.triggered_user_events ≡ e ∷ es
      → P p
      → P (hand_out p e es)
  pub unbinds : (p : Poller) (id : ℕ) (p' : Poller) → unbind p id ≡ ok p' → P p → P p'
  pub cancels :
      (p : Poller) (b : BoundEvent) (bs : List BoundEvent) (p' : Poller) (r : Option Todo)
      → p.triggered_bound_events ≡ b ∷ bs
      → pop_bound_event after_erase p b ≡ ok (p', r)
      → P p
      → P (record p' { triggered_bound_events = bs })

module _ {after_erase : List IoEvent → ℕ → IoEvent} {F : ℕ → Type 0} {P : Poller → Type 0}
    (keeps : Keeps after_erase F P) where
  open keeps use {pops, times, triggers, hands, unbinds, cancels}

  push_todo-poller :
      (w : WaitState) (t : Todo) {w' : WaitState} → push_todo w t ≡ ok w' → w'.poller ≡ w.poller
  push_todo-poller w t h = ground arith

  -- A stored event leaves the poller as it was.
  pushed :
      (w : WaitState) (t : Todo) {w' : WaitState} → push_todo w t ≡ ok w' → P w.poller → P w'.poller
  pushed w t h r = rw (push_todo-poller w t h) r

  take_io-keeps :
      (w : WaitState) (fd : ℕ) (t : IoType) {w' : WaitState}
      → F fd
      → take_io w fd t ≡ ok w'
      → P w.poller
      → P w'.poller
  unfolding take_io
  take_io-keeps w fd t f h r =
      let (x, popping, pushing) = >>=-eq-ok (pop_io_event w.poller fd t) _ h in
      pushed (record w { poller = x.1 }) (io x.0) pushing (pops w.poller fd t x.0 x.1 f popping r)

  take_io_if-keeps :
      (b : Bool) (w : WaitState) (fd : ℕ) (t : IoType) {w' : WaitState}
      → F fd
      → take_io_if b w fd t ≡ ok w'
      → P w.poller
      → P w'.poller
  take_io_if-keeps true w fd t f h r = take_io-keeps w fd t f h r
  take_io_if-keeps false w fd t {w'} f h r = let same : w ≡ w' = ground arith in rw (← same) r

  io_round-keeps :
      (w : WaitState) (r : Ready) {w' : WaitState}
      → F r.fd
      → io_round w r ≡ ok w'
      → P w.poller
      → P w'.poller
  unfolding io_round
  io_round-keeps w r {w'} f h k = elim (Bool-cases (r.fd == w.poller.user_event_fd)) [
    | inl own ↦
        let same : record w { is_user_event_triggered = true } ≡ w' = ground arith in rw (← same) k
    | inr other ↦
        let h' = rw other at h in
        let (w₁, reading, rest) =
          >>=-eq-ok (take_io_if (has_in r.events) w r.fd IoType.read) _ h' in
        let (w₂, writing, rest') =
          >>=-eq-ok (take_io_if (has_out r.events) w₁ r.fd IoType.write) _ rest in
        let passed = has_in r.events || (has_out r.events || (r.events == 0)) in
        let last = require-eq-ok passed io_exception (ok w₂) rest' in
        let same : w₂ ≡ w' = ground arith in
        rw (← same) (
          take_io_if-keeps (has_out r.events) w₁ r.fd IoType.write f writing
            (take_io_if-keeps (has_in r.events) w r.fd IoType.read f reading k))
  ]

  io_phase-keeps :
      (rs : List Ready) (w : WaitState) {w' : WaitState}
      → AllReady F rs
      → io_phase w rs ≡ ok w'
      → P w.poller
      → P w'.poller
  unfolding io_phase
  io_phase-keeps [] w {w'} f h k = let same : w ≡ w' = ground arith in rw (← same) k
  io_phase-keeps (r ∷ rs) w f h k =
      let (w₁, first, rest) = >>=-eq-ok (io_round w r) _ h in
      io_phase-keeps rs w₁ f.1 rest (io_round-keeps w r f.0 first k)

  fire-keeps :
      (trigger_ok : ℕ → Bool) (w : WaitState) (t : TimeEvent) {w' : WaitState}
      → fire trigger_ok w t ≡ ok w'
      → P w.poller
      → P w'.poller
  unfolding fire
  fire-keeps trigger_ok w (sleep i wakeup c) h k = pushed w (time i wakeup c) h k
  fire-keeps trigger_ok w (timeout b) {w'} h k =
      let (p, triggering, last) =
        >>=-eq-ok (trigger_bound_event w.poller b.bound_event_id b (trigger_ok b.bound_event_id)) _
          h in
      let same : p ≡ w'.poller = ground arith in
      rw (← same) (triggers w.poller b (trigger_ok b.bound_event_id) p triggering k)

  time_loop-keeps :
      (a : Answers) (ts : List TimeEvent) (w : WaitState) {w' : WaitState}
      → time_loop a w ts ≡ ok w'
      → P w.poller
      → P w'.poller
  unfolding time_loop
  time_loop-keeps a [] w {w'} h k = let same : w ≡ w' = ground arith in rw (← same) k
  time_loop-keeps a (t ∷ ts) w {w'} h k = elim (Bool-cases (is_valid_time w.poller t)) [
    | inr old ↦
        time_loop-keeps a ts (set_time_events w ts) (rw (old, time_loop) at h) (times w.poller ts k)
    | inl valid ↦
        elim (Bool-cases
          (leb max_events_size_per_wait (length w.todo) || ltb a.now (get_wakeup_time t))) [
            | inl stop ↦ let same : w ≡ w' = ground arith in rw (← same) k
            | inr due ↦
                let h' = rw (valid, due, time_loop) at h in
                let (w₁, firing, rest) = >>=-eq-ok (fire a.trigger_ok w t) _ h' in
                time_loop-keeps a ts (set_time_events w₁ ts) rest
                  (times w₁.poller ts (fire-keeps a.trigger_ok w t firing k))
          ]
  ]

  time_phase-keeps :
      (a : Answers) (w : WaitState) {w' : WaitState}
      → time_phase a w ≡ ok w'
      → P w.poller
      → P w'.poller
  unfolding time_phase
  time_phase-keeps a w {w'} h k = elim (Bool-cases (ltb (length w.todo) max_events_size_per_wait)) [
    | inl room ↦ time_loop-keeps a w.poller.time_events w (rw (room, time_phase) at h) k
    | inr full ↦ let same : w ≡ w' = ground arith in rw (← same) k
  ]

  user_loop-keeps :
      (es : List UserEvent) (w : WaitState)
      → w.poller.triggered_user_events ≡ es
      → P w.poller
      → P (user_loop w es).0.poller
  unfolding user_loop
  user_loop-keeps [] w e k = k
  user_loop-keeps (x ∷ es) w e k =
      elim (Bool-cases (ltb (length w.todo) max_events_size_per_wait)) [
        | inl room ↦
            rw (room, user_loop)
              (user_loop-keeps es
                (record w { poller = hand_out w.poller x es; todo = w.todo ++ user x ∷ [] }) refl
                (hands w.poller x es e k))
        | inr full ↦ rw (full, user_loop) k
      ]

  drain_if-keeps :
      (b : Bool) (a : Answers) (w : WaitState) {r : WaitState × Bool}
      → drain_if b a w ≡ ok r
      → P w.poller
      → P r.0.poller
  unfolding drain_if
  drain_if-keeps false a w {r} h k = let same : (w, false) ≡ r = ground arith in rw (← same) k
  drain_if-keeps true a w {r} h k =
      let drained = user_loop w w.poller.triggered_user_events in
      let last = require-eq-ok a.read_ok io_exception (ok drained) h in
      let same : drained ≡ r = ground arith in
      rw (← same) (user_loop-keeps w.poller.triggered_user_events w refl k)

  remove_bound_event-keeps :
      (ids : List ℕ) (p : Poller) {p' : Poller} → remove_bound_event p ids ≡ ok p' → P p → P p'
  unfolding remove_bound_event
  remove_bound_event-keeps [] p {p'} h k = let same : p ≡ p' = ground arith in rw (← same) k
  remove_bound_event-keeps (id ∷ ids) p h k =
      let (p₁, first, rest) = >>=-eq-ok (unbind p id) _ h in
      remove_bound_event-keeps ids p₁ rest (unbinds p id p₁ first k)

  bound_loop-keeps :
      (bs : List BoundEvent) (w : WaitState) {r : WaitState × Bool}
      → w.poller.triggered_bound_events ≡ bs
      → bound_loop after_erase w bs ≡ ok r
      → P w.poller
      → P r.0.poller
  unfolding bound_loop
  bound_loop-keeps [] w {r} e h k = let same : (w, false) ≡ r = ground arith in rw (← same) k
  bound_loop-keeps (b ∷ bs) w {r} e h k =
      elim (Bool-cases (ltb (length w.todo) max_events_size_per_wait)) [
        | inl room ↦
            let h' = rw (room, bound_loop) at h in
            let (x, first, rest) = >>=-eq-ok (pop_bound_event after_erase w.poller b) _ h' in
            bound_loop-keeps bs
              (record w {
                poller = record x.0 { triggered_bound_events = bs };
                todo = add_interrupted w.todo x.1;
              })
              refl rest (cancels w.poller b bs x.0 x.1 e first k)
        | inr full ↦ let same : (w, true) ≡ r = ground arith in rw (← same) k
      ]

  -- A whole wait.
  pub wait_events-keeps :
      (p : Poller) (a : Answers) {p' : Poller} {todo : List Todo}
      → AllReady F a.ready
      → wait_events after_erase p a ≡ ok (p', todo)
      → P p
      → P p'
  unfolding wait_events user_phase
  wait_events-keeps p a {p'} {todo} f h k =
      let start : WaitState = record { poller = p; todo = []; is_user_event_triggered = false } in
      let (w₁, h₁, r₁) = >>=-eq-ok (io_phase start a.ready) _ h in
      let (w₂, h₂, r₂) = >>=-eq-ok (time_phase a w₁) _ r₁ in
      let (u, h₃, r₃) = >>=-eq-ok (user_phase a w₂) _ r₂ in
      let (q, h₄, r₄) =
        >>=-eq-ok (remove_bound_event u.0.poller (map get_event_id u.0.todo)) _ r₃ in
      let (b, h₅, r₅) =
        >>=-eq-ok (bound_loop after_erase (record u.0 { poller = q }) q.triggered_bound_events) _
          r₄ in
      let last =
        require-eq-ok (not (u.1 || b.1) || a.write_ok) io_exception (ok (b.0.poller, b.0.todo))
          r₅ in
      let same : b.0.poller ≡ p' = ground arith in
      rw (← same) (
        bound_loop-keeps q.triggered_bound_events (record u.0 { poller = q }) refl h₅
          (remove_bound_event-keeps (map get_event_id u.0.todo) u.0.poller h₄ (
            drain_if-keeps w₂.is_user_event_triggered a w₂ h₃
              (time_phase-keeps a w₁ h₂ (io_phase-keeps a.ready start f h₁ k)))))

-- ===== src/Poller/Timers/Wake.antt =====
-- What the loop over the time events in `WaitEvents` of src/coro/poller/epoll.cc comes to.
use libarc.Prelude.{
  ℕ, zero, ◌+◌, ◌<◌, ◌≡◌, ◌⊎◌, inl, inr, refl, sym, ap, ◌∙◌, Bool, true, false, none, List, [], ◌∷◌,
  ◌++◌, ltb, ltb→lt, ◌==◌, ==_iff, length, length-append, suc, count, take_out-TakesOut, Bool-cases,
  Option-cases, ok, arith,
}
use mathlib.Core.List.{append-nil, append_assoc}
use libarc.Events.{TimeEvent, BoundEvent, sleep, timeout, get_wakeup_time, Todo, time}
use libarc.Poller.State.{Poller, max_events_size_per_wait}
use libarc.Poller.BoundEvents.{address_of, bound_triggered, trigger_bound_event}
use libarc.Poller.Trim.{is_valid_time}
use libarc.Poller.Wait.{WaitState, Answers, set_time_events, fire, time_loop, time_phase}
use libarc.Poller.Timers.{AllFrom, IsSorted, valid, due, later, none_due}

-- What the plain time events among them hand out.
abbrev pub sleeps_of : List TimeEvent → List Todo
sleeps_of [] = []
sleeps_of (sleep i w h ∷ ts) = time i w h ∷ sleeps_of ts
sleeps_of (timeout b ∷ ts) = sleeps_of ts

abbrev pub IsUnbound : Poller → BoundEvent → Type 0
IsUnbound p b = p.event_pending_bound_token_map b.bound_event_id ≡ none

-- No timeout among them is bound to an event any more.
abbrev pub AllUnbound : Poller → List TimeEvent → Type 0
AllUnbound p [] = Unit
AllUnbound p (sleep i w h ∷ ts) = AllUnbound p ts
AllUnbound p (timeout b ∷ ts) = IsUnbound p b × AllUnbound p ts

abbrev pub IsAbsent : (address : ℕ) → List TimeEvent → Type 0
IsAbsent a [] = Unit
IsAbsent a (sleep i w h ∷ ts) = IsAbsent a ts
IsAbsent a (timeout b ∷ ts) = ((a == b.address) ≡ false) × IsAbsent a ts

-- Each timeout among them has been dealt with or is pending, and they are different objects.
abbrev pub AllHeld : Poller → List TimeEvent → Type 0
AllHeld p [] = Unit
AllHeld p (sleep i w h ∷ ts) = AllHeld p ts
AllHeld p (timeout b ∷ ts) =
    (IsUnbound p b ⊎ (0 < count address_of b.address p.pending_bound_events))
    × IsAbsent b.address ts
    × AllHeld p ts

-- What a timeout that goes off does to the rest.
record Goes (p p' : Poller) (b : BoundEvent) : Type 0 where
  is_valid_kept : p'.is_valid ≡ p.is_valid
  is_done : IsUnbound p' b
  unbound_kept :
      (i : ℕ) → p.event_pending_bound_token_map i ≡ none → p'.event_pending_bound_token_map i ≡ none
  pending_kept :
      (a : ℕ)
      → (b.address == a) ≡ false
      → count address_of a p'.pending_bound_events ≡ count address_of a p.pending_bound_events

trigger-Goes :
    (p : Poller) (b : BoundEvent)
    → IsUnbound p b ⊎ (0 < count address_of b.address p.pending_bound_events)
    → (p' : Poller) × (trigger_bound_event p b.bound_event_id b true ≡ ok p') × Goes p p' b
unfolding trigger_bound_event
trigger-Goes p b held = elim (Option-cases (p.event_pending_bound_token_map b.bound_event_id)) [
  | inl gone ↦ (
    p,
    ground arith,
    record {
      is_valid_kept = refl;
      is_done = gone;
      unbound_kept = λ i e. e;
      pending_kept = λ a e. refl;
    },
  )
  | inr (c, there) ↦ elim (take_out-TakesOut address_of b.address p.pending_bound_events) [
    | inl (none_there, zero_there) ↦ absurd (ground arith)
    | inr (x, rest, found, here, one_less, counts) ↦ (
      bound_triggered p b.bound_event_id b rest,
      ground arith,
      record {
        is_valid_kept = refl;
        is_done = ground (arith, ==_iff b.bound_event_id b.bound_event_id);
        unbound_kept = λ i e. ground arith;
        pending_kept = λ a e. let c = counts a in ground arith;
      },
    )
  ]
]

AllHeld-Goes :
    (p p' : Poller) (b : BoundEvent) (ts : List TimeEvent)
    → Goes p p' b
    → IsAbsent b.address ts
    → AllHeld p ts
    → AllHeld p' ts
AllHeld-Goes p p' b [] g absent held = tt
AllHeld-Goes p p' b (sleep i w h ∷ ts) g absent held = AllHeld-Goes p p' b ts g absent held
AllHeld-Goes p p' b (timeout c ∷ ts) g (here, absent) (there, apart, held) = (
  elim there [
    | inl gone ↦ inl (g.unbound_kept c.bound_event_id gone)
    | inr pending ↦ inr (rw (g.pending_kept c.address here) pending)
  ],
  apart,
  AllHeld-Goes p p' b ts g absent held,
)

held_first :
    (p : Poller) (b : BoundEvent) (ts : List TimeEvent)
    → AllHeld p (timeout b ∷ ts)
    → (IsUnbound p b ⊎ (0 < count address_of b.address p.pending_bound_events))
      × IsAbsent b.address ts
      × AllHeld p ts
held_first p b ts held = held

-- Of the events that are due, those that are dealt with while `room` more can be handed out, and the
-- rest: a timeout takes no room, but none is dealt with once there is no room.
abbrev pub taken : (room : ℕ) → List TimeEvent → List TimeEvent
taken zero ts = []
taken (suc room) [] = []
taken (suc room) (sleep i w h ∷ ts) = let rest = taken room ts in sleep i w h ∷ rest
taken (suc room) (timeout b ∷ ts) = let rest = taken (suc room) ts in timeout b ∷ rest

abbrev pub left_over : (room : ℕ) → List TimeEvent → List TimeEvent
left_over zero ts = ts
left_over (suc room) [] = []
left_over (suc room) (sleep i w h ∷ ts) = left_over room ts
left_over (suc room) (timeout b ∷ ts) = left_over (suc room) ts

-- What the loop leaves, over the events `ts`.
abbrev pub Woken :
    (is_valid : ℕ → Bool) → (now room : ℕ) → List TimeEvent → WaitState → WaitState → Type 0
Woken v now room ts w w' =
    (w'.todo ≡ w.todo ++ sleeps_of (taken room (due v now ts)))
    × (due v now w'.poller.time_events ≡ left_over room (due v now ts))
    × (later v now w'.poller.time_events ≡ later v now ts)
    × AllUnbound w'.poller (taken room (due v now ts))

abbrev KeepsUnbound : Poller → Poller → Type 0
KeepsUnbound p p' =
    (i : ℕ) → p.event_pending_bound_token_map i ≡ none → p'.event_pending_bound_token_map i ≡ none

is_valid_time-valid :
    (p : Poller) (v : ℕ → Bool) (t : TimeEvent) → p.is_valid ≡ v → is_valid_time p t ≡ valid v 0 t
is_valid_time-valid p v (sleep i w h) e = refl
is_valid_time-valid p v (timeout b) e = ap (λ f. f b.address) e

-- A valid event that is not due ends the loop.
loop_stops :
    (a : Answers) (v : ℕ → Bool) (room : ℕ) (t : TimeEvent) (ts : List TimeEvent) (w : WaitState)
    → AllFrom (get_wakeup_time t) ts
    → w.poller.time_events ≡ t ∷ ts
    → is_valid_time w.poller t ≡ true
    → valid v a.now t ≡ true
    → ltb a.now (get_wakeup_time t) ≡ true
    → (time_loop a w (t ∷ ts) ≡ ok w) × Woken v a.now (suc room) (t ∷ ts) w w
unfolding time_loop
loop_stops a v room t ts w below there check is early =
    let none_later = none_due v a.now ts (get_wakeup_time t) (ltb→lt _ _ early) below in
    let none_at_all : due v a.now (t ∷ ts) ≡ [] = ground arith in
    (
      ground arith,
      (
        rw none_at_all (sym (append-nil w.todo)),
        rw there (rw none_at_all refl),
        rw there refl,
        rw none_at_all tt,
      ),
    )

Woken-invalid :
    (v : ℕ → Bool) (now room : ℕ) (b : BoundEvent) (ts : List TimeEvent) (w w' : WaitState)
    → v b.address ≡ false
    → Woken v now room ts w w'
    → Woken v now room (timeout b ∷ ts) w w'
Woken-invalid v now room b ts w w' is_not (out, none_left, rest, gone) =
    let skips : due v now (timeout b ∷ ts) ≡ due v now ts = ground arith in
    let passes : later v now (timeout b ∷ ts) ≡ later v now ts = ground arith in
    (rw skips out, rw skips none_left, rw passes rest, rw skips gone)

-- Without room the loop only drops what is not valid from the top.
loop_full :
    (a : Answers) (v : ℕ → Bool) (ts : List TimeEvent) (w : WaitState)
    → IsSorted ts
    → w.poller.time_events ≡ ts
    → w.poller.is_valid ≡ v
    → length w.todo ≡ 1024
    → (w' : WaitState) × (time_loop a w ts ≡ ok w')
      × KeepsUnbound w.poller w'.poller
      × IsSorted w'.poller.time_events
      × Woken v a.now 0 ts w w'
unfolding time_loop
loop_full a v [] w sorted there same full =
    (w, refl, λ i e. e, rw there tt, (sym (append-nil w.todo), rw there refl, rw there refl, tt))
loop_full a v (sleep i x h ∷ ts) w sorted there same full = (
  w,
  ground arith,
  λ i e. e,
  rw there sorted,
  (sym (append-nil w.todo), rw there refl, rw there refl, tt),
)
loop_full a v (timeout b ∷ ts) w (below, sorted) there same full =
    let check = is_valid_time-valid w.poller v (timeout b) same in
    elim (Bool-cases (v b.address)) [
      | inl is ↦ (
        w,
        ground arith,
        λ i e. e,
        rw there (below, sorted),
        (sym (append-nil w.todo), rw there refl, rw there refl, tt),
      )
      | inr is_not ↦
          let (w', e, keeps, in_order, woken) =
            loop_full a v ts (set_time_events w ts) sorted refl same full in
          (w', ground arith, keeps, in_order, Woken-invalid v a.now 0 b ts w w' is_not woken)
    ]

Woken-sleep :
    (v : ℕ → Bool) (now room i x h : ℕ) (ts : List TimeEvent) (w w' : WaitState)
    → ltb now x ≡ false
    → Woken v now room ts (record w { todo = w.todo ++ time i x h ∷ [] }) w'
    → Woken v now (suc room) (sleep i x h ∷ ts) w w'
Woken-sleep v now room i x h ts w w' in_time (out, none_left, rest, gone) =
    let takes : due v now (sleep i x h ∷ ts) ≡ sleep i x h ∷ due v now ts = ground arith in
    let passes : later v now (sleep i x h ∷ ts) ≡ later v now ts = ground arith in
    (
      rw takes (out ∙ append_assoc w.todo (time i x h ∷ []) _),
      rw takes none_left,
      rw passes rest,
      rw takes gone,
    )

Woken-timeout :
    (v : ℕ → Bool) (now room : ℕ) (b : BoundEvent) (ts : List TimeEvent) (w w' : WaitState)
    → v b.address ≡ true
    → ltb now b.wakeup_time ≡ false
    → IsUnbound w'.poller b
    → Woken v now (suc room) ts w w'
    → Woken v now (suc room) (timeout b ∷ ts) w w'
Woken-timeout v now room b ts w w' is in_time unbound (out, none_left, rest, gone) =
    let takes : due v now (timeout b ∷ ts) ≡ timeout b ∷ due v now ts = ground arith in
    let passes : later v now (timeout b ∷ ts) ≡ later v now ts = ground arith in
    (rw takes out, rw takes none_left, rw passes rest, rw takes (unbound, gone))

time_loop_lem :
    (a : Answers) (v : ℕ → Bool) (room : ℕ) (ts : List TimeEvent) (w : WaitState)
    → IsSorted ts
    → w.poller.time_events ≡ ts
    → w.poller.is_valid ≡ v
    → ((i : ℕ) → a.trigger_ok i ≡ true)
    → AllHeld w.poller (taken room (due v a.now ts))
    → length w.todo + room ≡ 1024
    → (w' : WaitState) × (time_loop a w ts ≡ ok w')
      × KeepsUnbound w.poller w'.poller
      × IsSorted w'.poller.time_events
      × Woken v a.now room ts w w'
unfolding time_loop fire
time_loop_lem a v zero ts w sorted there same triggers held fits =
    loop_full a v ts w sorted there same (omega (arith, fits))
time_loop_lem a v (suc room) [] w sorted there same triggers held fits =
    (w, refl, λ i e. e, rw there tt, (sym (append-nil w.todo), rw there refl, rw there refl, tt))
time_loop_lem a v (suc room) (sleep i x h ∷ ts) w (below, sorted) there same triggers held fits =
    elim (Bool-cases (ltb a.now x)) [
      | inl early ↦
          let (e, woken) = loop_stops a v room (sleep i x h) ts w below there refl refl early in
          (w, e, λ i e. e, rw there (below, sorted), woken)
      | inr in_time ↦
          let takes : due v a.now (sleep i x h ∷ ts) ≡ sleep i x h ∷ due v a.now ts =
            ground arith in
          let w₁ : WaitState = record w { todo = w.todo ++ time i x h ∷ [] } in
          let longer = length-append w.todo (time i x h ∷ []) in
          let fits' : length w₁.todo + room ≡ 1024 = omega (arith, longer, fits) in
          let (w', e, keeps, in_order, woken) =
            time_loop_lem a v room ts (set_time_events w₁ ts) sorted refl same triggers
              (rw takes at held) fits' in
          (w', ground arith, keeps, in_order, Woken-sleep v a.now room i x h ts w w' in_time woken)
    ]
time_loop_lem a v (suc room) (timeout b ∷ ts) w (below, sorted) there same triggers held fits =
    let check = is_valid_time-valid w.poller v (timeout b) same in
    elim (Bool-cases (v b.address)) [
      | inl is ↦ elim (Bool-cases (ltb a.now b.wakeup_time)) [
        | inl early ↦
            let (e, woken) =
              loop_stops a v room (timeout b) ts w below there (check ∙ is) is early in
            (w, e, λ i e. e, rw there (below, sorted), woken)
        | inr in_time ↦
            let takes : due v a.now (timeout b ∷ ts) ≡ timeout b ∷ due v a.now ts = ground arith in
            let those = taken (suc room) (due v a.now ts) in
            let (pending, absent, held') = held_first w.poller b those (rw takes at held) in
            let (p, fired, goes) = trigger-Goes w.poller b pending in
            let trigger = triggers b.bound_event_id in
            let (w', e, keeps, in_order, woken) =
              time_loop_lem a v (suc room) ts (set_time_events (record w { poller = p }) ts) sorted
                refl (goes.is_valid_kept ∙ same) triggers
                (AllHeld-Goes w.poller p b those goes absent held') fits in
            (
              w',
              ground arith,
              λ i e. keeps i (goes.unbound_kept i e),
              in_order,
              Woken-timeout v a.now room b ts w w' is in_time (keeps b.bound_event_id goes.is_done)
                  woken,
            )
      ]
      | inr is_not ↦
          let skips : due v a.now (timeout b ∷ ts) ≡ due v a.now ts = ground arith in
          let (w', e, keeps, in_order, woken) =
            time_loop_lem a v (suc room) ts (set_time_events w ts) sorted refl same triggers
              (rw skips at held) fits in
          (
            w',
            ground arith,
            keeps,
            in_order,
            Woken-invalid v a.now (suc room) b ts w w' is_not woken,
          )
    ]

-- If the time events are in the order of their times, the timeouts that are dealt with are different
-- objects, each pending or dealt with before, and the eventfd can be written: the loop over the time
-- events succeeds, and deals with the valid events that are due, in their order, as long as there is
-- room, of the 1024 events that a wait hands out, beside those that it hands out already. The plain
-- ones are handed out, each once; the timeouts are bound no longer; what is due beyond that is still
-- there, as is every valid event that is not due; and what is there is in order.
pub time_phase_wakes :
    (a : Answers) (w : WaitState) (room : ℕ)
    → length w.todo + room ≡ max_events_size_per_wait
    → IsSorted w.poller.time_events
    → ((i : ℕ) → a.trigger_ok i ≡ true)
    → AllHeld w.poller (taken room (due w.poller.is_valid a.now w.poller.time_events))
    → (w' : WaitState) × (time_phase a w ≡ ok w')
      × IsSorted w'.poller.time_events
      × Woken w.poller.is_valid a.now room w.poller.time_events w w'
unfolding time_phase
time_phase_wakes a w zero fits sorted triggers held =
    (w, ground arith, sorted, (sym (append-nil w.todo), refl, refl, tt))
time_phase_wakes a w (suc room) fits sorted triggers held =
    let small : length w.todo < 1024 = omega (arith, fits) in
    let (w', e, keeps, in_order, woken) =
      time_loop_lem a w.poller.is_valid (suc room) w.poller.time_events w sorted refl refl triggers
        held fits in
    (w', ground arith, in_order, woken)

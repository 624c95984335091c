-- ===== src/Poller/Wait/Bounds.antt =====
-- The fixed arrays that a wait fills. `todo_events` has twice the room of
-- `self_triggered_event_ids_`, as a descriptor can be ready in both directions.
use libarc.Prelude.{
  ℕ, ◌+◌, ◌*◌, ◌<◌, ◌≤◌, ◌≡◌, ◌≢◌, refl, ◌⊎◌, inl, inr, true, false, List, [], ◌∷◌, ◌++◌, ltb, ◌==◌,
  length, length-append, Outcome, ok, undefined, Bool-cases, arith,
}
use libarc.Events.{IoType, IoEvent, io}
use libarc.Poller.State.{Poller, queues, max_events_size_per_wait}
use libarc.Poller.IoEvents.{pop_io_event, popped}
use libarc.Poller.Wait.{WaitState, Ready, take_io, io_round, io_phase, has_in, has_out}

-- A descriptor that is ready in both directions, and is not the poller's own.
abbrev pub IsBoth : ℕ → Ready → Type 0
IsBoth u r = (r.fd ≢ u) × (has_in r.events ≡ true) × (has_out r.events ≡ true)

abbrev pub AllBoth : ℕ → List Ready → Type 0
AllBoth u [] = Unit
AllBoth u (r ∷ rs) = IsBoth u r × AllBoth u rs

popped-user_event_fd :
    (p : Poller) (fd : ℕ) (t : IoType) (rest : List IoEvent)
    → (popped p fd t rest).user_event_fd ≡ p.user_event_fd
unfolding popped
popped-user_event_fd p fd t rest = ground arith

-- Storing one more event, unless that is undefined.
abbrev Stores : WaitState → Outcome WaitState → Type 0
Stores w r =
    (r ≡ undefined)
    ⊎ ((w' : WaitState) × (r ≡ ok w')
        × (length w.todo < max_events_size_per_wait)
        × (length w'.todo ≡ length w.todo + 1)
        × (w'.poller.user_event_fd ≡ w.poller.user_event_fd))

take_io-Stores : (w : WaitState) (fd : ℕ) (t : IoType) → Stores w (take_io w fd t)
unfolding take_io pop_io_event
take_io-Stores w fd t = go (queues w.poller fd t) refl
  where
    go : (l : List IoEvent) → queues w.poller fd t ≡ l → Stores w (take_io w fd t)
    go [] e = inl (ground arith)
    go (x ∷ rest) e = elim (Bool-cases (ltb (length w.todo) max_events_size_per_wait)) [
      | inr full ↦ inl (ground arith)
      | inl room ↦ inr (
        record w { poller = popped w.poller fd t rest; todo = w.todo ++ io x ∷ [] },
        ground arith,
        ground arith,
        length-append w.todo (io x ∷ []),
        popped-user_event_fd w.poller fd t rest,
      )
    ]

-- A round stores two events, or is undefined.
io_round_both :
    (w : WaitState) (r : Ready)
    → IsBoth w.poller.user_event_fd r
    → (io_round w r ≡ undefined)
      ⊎ ((w' : WaitState) × (io_round w r ≡ ok w')
          × (length w'.todo ≡ length w.todo + 2)
          × (length w'.todo ≤ max_events_size_per_wait)
          × (w'.poller.user_event_fd ≡ w.poller.user_event_fd))
unfolding io_round
io_round_both w r (other, reads, writes) =
    let apart : (r.fd == w.poller.user_event_fd) ≡ false = ground arith in
    elim (take_io-Stores w r.fd IoType.read) [
      | inl u ↦ inl (ground arith)
      | inr (w₁, e₁, _, l₁, f₁) ↦ elim (take_io-Stores w₁ r.fd IoType.write) [
        | inl u ↦ inl (ground arith)
        | inr (w₂, e₂, room, l₂, f₂) ↦
            inr (w₂, ground arith, omega arith, omega arith, ground arith)
      ]
    ]

-- If the poller's loop starts within the bound, all descriptors of the answer are ready in both
-- directions and none is the eventfd, and they need more room than 1024 entries, the loop is
-- undefined: it writes beyond `self_triggered_event_ids_`, or before that reads the front of an
-- empty deque.
pub io_phase_overflows :
    (rs : List Ready) (w : WaitState)
    → AllBoth w.poller.user_event_fd rs
    → max_events_size_per_wait < length w.todo + 2 * length rs
    → length w.todo ≤ max_events_size_per_wait
    → io_phase w rs ≡ undefined
unfolding io_phase
io_phase_overflows [] w b more few = absurd (omega arith)
io_phase_overflows (r ∷ rs) w b more few = elim (io_round_both w r b.0) [
  | inl u ↦ rw u refl
  | inr (w₁, e, l, small, f) ↦ rw e (io_phase_overflows rs w₁ (rw f b.1) (omega arith) small)
]

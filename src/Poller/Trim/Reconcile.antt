-- ===== src/Poller/Trim/Reconcile.antt =====
-- After a trim the kernel waits for exactly what the poller has events for.
use libarc.Prelude.{
  ℕ, ◌+◌, ◌<◌, ◌≡◌, ◌≢◌, ◌⊎◌, empty, refl, sym, ◌∙◌, inl, inr, Bool, true, false, some, List, [],
  ◌∷◌, ltb, ◌==◌, if◌then◌else◌, elem, ok, Bool-cases, ==_iff, arith,
}
use libarc.Poller.Kernel.{Epoll, EpollLaws, Registers, epollin}
use libarc.Events.{IoType}
use libarc.Poller.State.{Poller, queues, max_fd_in_array}
use libarc.Poller.IoEvents.{get_existing_io_event}
use libarc.Poller.Trim.{
  prev_events, set_prev_events, trim_op, trim_fd, trim_fds, trim_io_events, trim_user_events,
  should_add_epoll,
}

-- What the poller remembers is what the kernel has; the poller's own eventfd is kept apart.
pub record Synced (E : Epoll) (k : E.Kernel) (p : Poller) : Type 0 where
  pub files : (fd : ℕ) → fd ≢ p.user_event_fd → E.interest k fd ≡ prev_events p fd
  pub event : E.interest k p.user_event_fd ≡ (if p.is_event_fd_added then epollin else 0)

existing-set_prev_events :
    (p : Poller) (fd n j : ℕ)
    → get_existing_io_event (set_prev_events p fd n) j ≡ get_existing_io_event p j
unfolding get_existing_io_event
existing-set_prev_events p fd n j = elim (Bool-cases (ltb fd max_fd_in_array)) [
  | inl small ↦ rw small refl
  | inr large ↦ rw large refl
]

prev-set_prev_events :
    (p : Poller) (fd n j : ℕ)
    → prev_events (set_prev_events p fd n) j ≡ (if fd == j then n else prev_events p j)
prev-set_prev_events p fd n j = ground arith

user_fd-set_prev_events :
    (p : Poller) (fd n : ℕ) → (set_prev_events p fd n).user_event_fd ≡ p.user_event_fd
user_fd-set_prev_events p fd n = ground arith

event_added-set_prev_events :
    (p : Poller) (fd n : ℕ) → (set_prev_events p fd n).is_event_fd_added ≡ p.is_event_fd_added
event_added-set_prev_events p fd n = ground arith

-- EPOLLIN if events wait to read, and EPOLLOUT if events wait to write.
abbrev pub wanted : Poller → (fd : ℕ) → ℕ
wanted p fd =
    (if empty (queues p fd IoType.read) then 0 else 1)
    + (if empty (queues p fd IoType.write) then 0 else 4)

existing-wanted : (p : Poller) (fd : ℕ) → get_existing_io_event p fd ≡ wanted p fd
unfolding get_existing_io_event
existing-wanted p fd = elim (Bool-cases (empty (queues p fd IoType.read))) [
  | inl no_read ↦ elim (Bool-cases (empty (queues p fd IoType.write))) [
    | inl no_write ↦ rw (no_read, no_write) refl
    | inr write ↦ rw (no_read, write) refl
  ]
  | inr read ↦ elim (Bool-cases (empty (queues p fd IoType.write))) [
    | inl no_write ↦ rw (read, no_write) refl
    | inr write ↦ rw (read, write) refl
  ]
]

-- The poller's own descriptor `u` is not among the others, and all can be polled.
abbrev pub AllFiles : (E : Epoll) → (u : ℕ) → List ℕ → Type 0
AllFiles E u [] = Unit
AllFiles E u (fd ∷ fds) = ((E.can_poll fd ≡ true) × (fd ≢ u)) × AllFiles E u fds

empty-ne {ℓ} : {A : Type ℓ} (l : List A) → l ≢ [] → empty l ≡ false
empty-ne [] ne = absurd (ne refl)
empty-ne (x ∷ xs) ne = refl

is_watched :
    (p : Poller)
    → (p.pending_user_events ≢ [])
      ⊎ ((p.triggered_user_events ≢ []) ⊎ (p.is_dispatcher_registered ≡ true))
    → should_add_epoll p ≡ true
unfolding should_add_epoll
is_watched p (inl pending) = rw (empty-ne p.pending_user_events pending) refl
is_watched p (inr (inl triggered)) =
    let e = empty-ne p.triggered_user_events triggered in ground arith
is_watched p (inr (inr registered)) = ground arith

is_not_watched :
    (p : Poller)
    → p.pending_user_events ≡ []
    → p.triggered_user_events ≡ []
    → p.is_dispatcher_registered ≡ false
    → should_add_epoll p ≡ false
unfolding should_add_epoll
is_not_watched p no_pending no_triggered not_registered =
    rw (no_pending, no_triggered, not_registered) refl

module _ {E : Epoll} (laws : EpollLaws E) where
  open laws use {add_ok, mod_ok, del_ok}

  -- The call that `trim_op` chooses succeeds, whichever it is.
  ctl_ok :
      (k : E.Kernel) (fd cur : ℕ)
      → E.can_poll fd ≡ true
      → cur ≢ E.interest k fd
      → (k' : E.Kernel) × (E.epoll_ctl k (trim_op (E.interest k fd) cur) fd cur ≡ some k')
        × Registers E k fd cur k'
  ctl_ok k fd cur can ne = elim (Bool-cases (E.interest k fd == 0)) [
    | inl new ↦
        let e : E.interest k fd ≡ 0 = (==_iff _ 0).0 new in
        let (k', done, reg) = add_ok k fd cur can e (omega arith) in (k', rw new done, reg)
    | inr old ↦
        let pos : 0 < E.interest k fd = ground arith in
        elim (Bool-cases (cur == 0)) [
          | inl none_left ↦
              let e : cur ≡ 0 = (==_iff cur 0).0 none_left in
              let (k', done, reg) = del_ok k fd cur can pos in
              (k', rw (old, none_left) done, λ j. let r = reg j in ground arith)
          | inr some_left ↦
              let (k', done, reg) = mod_ok k fd cur can pos (ground arith) in
              (k', rw (old, some_left) done, reg)
        ]
  ]

  -- The outcome of a round, and of the whole loop: it succeeds, the kernel agrees with what is
  -- remembered, and nothing but the remembered events has changed.
  abbrev Trims : Poller → (Poller × E.Kernel) → Type 0
  Trims p r =
      Synced E r.1 r.0
      × ((j : ℕ) → get_existing_io_event r.0 j ≡ get_existing_io_event p j)
      × (r.0.user_event_fd ≡ p.user_event_fd)

  Registers-Synced :
      (k k' : E.Kernel) (p : Poller) (fd cur : ℕ)
      → fd ≢ p.user_event_fd
      → Registers E k fd cur k'
      → Synced E k p
      → Synced E k' (set_prev_events p fd cur)
  Registers-Synced k k' p fd cur other reg s = record {
    files = λ j ne.
        let same = user_fd-set_prev_events p fd cur in
        let old = s.files j (λ e. ne (e ∙ sym same)) in
        let new = reg j in let set = prev-set_prev_events p fd cur j in ground arith;
    event =
        let same = user_fd-set_prev_events p fd cur in
        let added = event_added-set_prev_events p fd cur in
        let new = reg p.user_event_fd in let old = s.event in rw (same, added) (ground arith);
  }

  -- One round: the call, if one is made, succeeds.
  call_ok :
      (k : E.Kernel) (p : Poller) (fd : ℕ)
      → E.can_poll fd ≡ true
      → fd ≢ p.user_event_fd
      → Synced E k p
      → (k' : E.Kernel) × (trim_fd E k p fd
          ≡ ok (set_prev_events p fd (get_existing_io_event p fd), k'))
        × Registers E k fd (get_existing_io_event p fd) k'
  unfolding trim_fd
  call_ok k p fd can other s =
      let cur = get_existing_io_event p fd in
      let same = s.files fd other in
      elim (Bool-cases (cur == prev_events p fd)) [
        | inl unchanged ↦
            let e : cur ≡ prev_events p fd = (==_iff _ _).0 unchanged in
            (k, rw (unchanged, trim_fd) refl, λ j. ground arith)
        | inr changed ↦
            let differs : cur ≢ E.interest k fd = λ e. absurd (ground arith) in
            let (k', done, reg) = ctl_ok k fd cur can differs in
            let done' : E.epoll_ctl k (trim_op (prev_events p fd) cur) fd cur ≡ some k' =
              rw (← same) done in
            (k', rw (changed, trim_fd) (rw done' refl), reg)
      ]

  trim_fds-Trims :
      (fds : List ℕ) (k : E.Kernel) (p : Poller)
      → AllFiles E p.user_event_fd fds
      → Synced E k p
      → (r : Poller × E.Kernel) × (trim_fds E k p fds ≡ ok r)
        × Trims p r
        × ((j : ℕ)
            → prev_events r.0 j
              ≡ (if elem j fds then get_existing_io_event p j else prev_events p j))
  unfolding trim_fds
  trim_fds-Trims [] k p files s = ((p, k), refl, (s, λ j. refl, refl), λ j. refl)
  trim_fds-Trims (fd ∷ fds) k p files s =
      let cur = get_existing_io_event p fd in
      let p₁ = set_prev_events p fd cur in
      let (k₁, done, reg) = call_ok k p fd files.0.0 files.0.1 s in
      let s₁ = Registers-Synced k k₁ p fd cur files.0.1 reg s in
      let (r, rest, (s', same, user), prev) =
        trim_fds-Trims fds k₁ p₁ (rw (user_fd-set_prev_events p fd cur) files.1) s₁ in
      (
        r,
        rw done rest,
        (
          s',
          λ j. same j ∙ existing-set_prev_events p fd cur j,
          user ∙ user_fd-set_prev_events p fd cur,
        ),
        λ j.
            let now = prev j in
            let before = prev-set_prev_events p fd cur j in
            let ex = existing-set_prev_events p fd cur j in ground arith,
      )

  -- If the poller remembers what the kernel has, and the interesting descriptors can be polled and
  -- are not the eventfd, `TrimIOEvents` succeeds. The poller then remembers again what the kernel
  -- has, and the kernel waits on each interesting descriptor for exactly the directions in which
  -- events are queued; the other descriptors, except the eventfd, are left as they were.
  pub trim_io_events_syncs :
      (k : E.Kernel) (p : Poller)
      → AllFiles E p.user_event_fd p.interesting_fds
      → Synced E k p
      → (p' : Poller) × (k' : E.Kernel) × (trim_io_events E k p ≡ ok (p', k'))
        × Synced E k' p'
        × ((fd : ℕ)
            → fd ≢ p.user_event_fd
            → E.interest k' fd
              ≡ (if elem fd p.interesting_fds then wanted p' fd else E.interest k fd))
  unfolding trim_io_events
  trim_io_events_syncs k p files s =
      let (r, done, (s', same, user), prev) = trim_fds-Trims p.interesting_fds k p files s in
      (
        r.0,
        r.1,
        done,
        s',
        λ fd ne.
            let now = s'.files fd (λ e. ne (e ∙ user)) in
            let before = s.files fd ne in
            let remembered = prev fd in
            let kept = same fd in let directions = existing-wanted r.0 fd in ground arith,
      )

  switched :
      (k k' : E.Kernel) (p : Poller) (b : Bool)
      → Registers E k p.user_event_fd (if b then epollin else 0) k'
      → Synced E k p
      → Synced E k' (record p { is_event_fd_added = b })
  switched k k' p b reg s = record {
    files = λ j ne. let old = s.files j ne in let new = reg j in ground arith;
    event = let new = reg p.user_event_fd in ground arith;
  }

  trim_user_events-Synced :
      (k : E.Kernel) (p : Poller)
      → E.can_poll p.user_event_fd ≡ true
      → Synced E k p
      → (k' : E.Kernel) × (trim_user_events E k p
          ≡ ok (record p { is_event_fd_added = should_add_epoll p }, k'))
        × Synced E k' (record p { is_event_fd_added = should_add_epoll p })
  unfolding trim_user_events
  trim_user_events-Synced k p can s = go p.is_event_fd_added (should_add_epoll p) refl refl
    where
      Goal : Bool → Type 0
      Goal c =
          (k' : E.Kernel) × (trim_user_events E k p ≡ ok (record p { is_event_fd_added = c }, k'))
          × Synced E k' (record p { is_event_fd_added = c })

      go : (b c : Bool) → p.is_event_fd_added ≡ b → should_add_epoll p ≡ c → Goal c
      go true true e h =
          (k, ground arith, record { files = s.files; event = let old = s.event in ground arith })
      go false false e h =
          (k, ground arith, record { files = s.files; event = let old = s.event in ground arith })
      go true false e h =
          let (k', done, reg) =
            del_ok k p.user_event_fd epollin can (let old = s.event in ground arith) in
          (k', ground arith, switched k k' p false reg s)
      go false true e h =
          let (k', done, reg) =
            add_ok k p.user_event_fd epollin can (let old = s.event in ground arith)
              (omega arith) in
          (k', ground arith, switched k k' p true reg s)

  -- If the poller remembers what the kernel has, and the eventfd can be polled, `TrimUserEvents`
  -- succeeds, and the poller then remembers again what the kernel has. The kernel watches the eventfd
  -- for reading if a user event is pending, or one is triggered, or a dispatcher is registered, and
  -- not at all if none of this holds.
  pub trim_user_events_syncs :
      (k : E.Kernel) (p : Poller)
      → E.can_poll p.user_event_fd ≡ true
      → Synced E k p
      → (k' : E.Kernel) × (trim_user_events E k p
          ≡ ok (record p { is_event_fd_added = should_add_epoll p }, k'))
        × Synced E k' (record p { is_event_fd_added = should_add_epoll p })
        × ((p.pending_user_events ≢ [])
              ⊎ ((p.triggered_user_events ≢ []) ⊎ (p.is_dispatcher_registered ≡ true))
            → E.interest k' p.user_event_fd ≡ epollin)
        × (p.pending_user_events ≡ []
            → p.triggered_user_events ≡ []
            → p.is_dispatcher_registered ≡ false
            → E.interest k' p.user_event_fd ≡ 0)
  trim_user_events_syncs k p can s =
      let (k', done, synced) = trim_user_events-Synced k p can s in
      (
        k',
        done,
        synced,
        λ some_reason. let b = is_watched p some_reason in let e = synced.event in ground arith,
        λ none_pending none_triggered none_registered.
            let b = is_not_watched p none_pending none_triggered none_registered in
            let e = synced.event in ground arith,
      )

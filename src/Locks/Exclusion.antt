-- ===== src/Locks/Exclusion.antt =====
-- Coroutines of several event loops over one lock, in any order.
use libarc.Prelude.{
  ℕ, ◌+◌, ◌-◌, ◌^◌, ◌<◌, ◌≤◌, ◌≡◌, refl, inl, inr, Bool, true, false, some, List, [], ◌∷◌,
  if◌then◌else◌, ok, >>=-eq-ok, Bool-cases, arith,
}
use libarc.Events.{UserEvent}
use libarc.Poller.State.{Poller}
use libarc.EventLoopGroup.{EventLoopGroup, get_event_loop}
use libarc.Locks.Core.{
  LockCore, new_lock, unlock, unlock_next, acquire, add_pending_event_pair, try_lock,
}
use libarc.Locks.Handover.{IsOrderly, AllRegistered, AllPending, unlock_hands_over, acquire_queues}

-- `inside` counts the coroutines that have acquired the lock, or have been handed it, and have not
-- released it.
pub record System : Type 0 where
  pub core : LockCore
  pub group : EventLoopGroup
  pub inside : ℕ

-- How many are handed the lock when it is released.
abbrev pub handed : List (ℕ × ℕ) → ℕ
handed [] = 0
handed (x ∷ xs) = 1

-- What else happens on the loops may add and trigger events, but not those that wait for the lock.
pub data Step (s : System) : System → Type 0 where
  takes :
      (l : ℕ) (event : UserEvent) {core : LockCore} {g : EventLoopGroup}
      → acquire s.core s.group l event ≡ ok (core, g, true)
      → Step s (record { core = core; group = g; inside = s.inside + 1 })
  waits :
      (l : ℕ) (event : UserEvent) (p : Poller) {core : LockCore} {g : EventLoopGroup}
      → get_event_loop s.group l ≡ some p
      → p.max_event_id + 1 < 2 ^ 32
      → acquire s.core s.group l event ≡ ok (core, g, false)
      → Step s (record { core = core; group = g; inside = s.inside })
  leaves :
      {core : LockCore} {g : EventLoopGroup}
      → 0 < s.inside
      → unlock s.core s.group true ≡ ok (core, g)
      → Step s (record {
        core = core;
        group = g;
        inside = s.inside - 1 + handed s.core.pending_event_pairs;
      })
  runs :
      (g : EventLoopGroup)
      → AllRegistered g
      → AllPending s.core.pending_event_pairs g
      → Step s (record s { group = g })

-- From a new lock, while the registries of the event loops are right.
pub data Reach : System → Type 0 where
  start :
      (g : EventLoopGroup)
      → AllRegistered g
      → Reach (record { core = new_lock; group = g; inside = 0 })
  later : {s t : System} → Reach s → Step s t → Reach t

pub record IsExclusive (s : System) : Type 0 where
  pub orderly : IsOrderly s.core s.group
  pub holder : s.inside ≡ (if s.core.is_locked then 1 else 0)

-- Acquiring at once finds the lock free.
acquire-at_once :
    (core : LockCore) (g : EventLoopGroup) (l : ℕ) (event : UserEvent) {core' : LockCore}
    {g' : EventLoopGroup}
    → acquire core g l event ≡ ok (core', g', true)
    → (core.is_locked ≡ false) × (core' ≡ record core { is_locked = true }) × (g' ≡ g)
unfolding acquire try_lock
acquire-at_once core g l event h = elim (Bool-cases core.is_locked) [
  | inr is_free ↦ (is_free, ground arith, ground arith)
  | inl locked ↦ absurd (
      let h' = rw (locked, acquire) at h in
      let (r, _, e) = >>=-eq-ok (add_pending_event_pair core g l event) _ h' in ground arith)
]

acquire-later :
    (core : LockCore) (g : EventLoopGroup) (l : ℕ) (event : UserEvent) {core' : LockCore}
    {g' : EventLoopGroup}
    → acquire core g l event ≡ ok (core', g', false)
    → core.is_locked ≡ true
unfolding acquire try_lock
acquire-later core g l event h = elim (Bool-cases core.is_locked) [
  | inr is_free ↦ absurd (ground arith)
  | inl locked ↦ locked
]

unlock-free :
    (core : LockCore) (g : EventLoopGroup)
    → core.pending_event_pairs ≡ []
    → unlock core g true ≡ ok (record core { is_locked = false }, g)
unfolding unlock unlock_next
unlock-free core g e = ground arith

-- A release, as it turns out.
unlock_ok :
    (core : LockCore) (g : EventLoopGroup)
    → IsOrderly core g
    → (r : LockCore × EventLoopGroup) × (unlock core g true ≡ ok r)
      × IsOrderly r.0 r.1
      × (handed core.pending_event_pairs ≡ (if r.0.is_locked then 1 else 0))
unlock_ok core g o = go core.pending_event_pairs refl
  where
    go :
        (ps : List (ℕ × ℕ))
        → core.pending_event_pairs ≡ ps
        → (r : LockCore × EventLoopGroup) × (unlock core g true ≡ ok r)
          × IsOrderly r.0 r.1
          × (handed core.pending_event_pairs ≡ (if r.0.is_locked then 1 else 0))
    go [] e = (
      (record core { is_locked = false }, g),
      unlock-free core g e,
      record { free = λ h. e; registered = o.registered; pending = o.pending },
      rw e refl,
    )
    go ((i, l) ∷ rest) e =
        let (p, p', _, _, done, o') = unlock_hands_over core g i l rest e o in
        (_, done, o', rw e refl)

released :
    (n h : ℕ) (b c : Bool)
    → n ≡ (if b then 1 else 0)
    → 0 < n
    → h ≡ (if c then 1 else 0)
    → n - 1 + h ≡ (if c then 1 else 0)
released n h b c e pos e' = ground arith

Step-IsExclusive : {s t : System} → Step s t → IsExclusive s → IsExclusive t
Step-IsExclusive {s} (takes l event {core} {g} h) x =
    let (is_free, same, same_g) = acquire-at_once s.core s.group l event h in
    let none_wait = x.orderly.free is_free in
    let o = x.orderly in
    let holder = x.holder in
    rw (same, same_g)
      (record {
        orderly = record { free = cc; registered = o.registered; pending = o.pending };
        holder = ground arith;
      })
Step-IsExclusive {s} (waits l event p {core} {g} there small h) x =
    let locked = acquire-later s.core s.group l event h in
    let (core', g', e, _, locked', o) =
      acquire_queues s.core s.group l p event locked there small x.orderly in
    let same : core ≡ core' = ground arith in
    let same_g : g ≡ g' = ground arith in
    let holder = x.holder in rw (same, same_g) (record { orderly = o; holder = ground arith })
Step-IsExclusive {s} (leaves {core} {g} some_inside h) x =
    let (r, e, o, n) = unlock_ok s.core s.group x.orderly in
    let same : core ≡ r.0 = ground arith in
    let same_g : g ≡ r.1 = ground arith in
    let holder = x.holder in
    rw (same, same_g)
      (record { orderly = o; holder = released s.inside _ _ _ holder some_inside n })
Step-IsExclusive {s} (runs g r a) x = record {
  orderly = record { free = x.orderly.free; registered = r; pending = a };
  holder = x.holder;
}

pub Reach-IsExclusive : {s : System} → Reach s → IsExclusive s
unfolding new_lock
Reach-IsExclusive (start g r) = record {
  orderly = record { free = λ h. refl; registered = r; pending = λ l i. omega arith };
  holder = refl;
}
Reach-IsExclusive (later reach step) = Step-IsExclusive step (Reach-IsExclusive reach)

-- In every reachable state at most one coroutine is inside; if none is, none waits; and if the
-- eventfd can be written, a release
-- succeeds, which includes the assertion of `Unlock`.
pub mutual_exclusion :
    {s : System}
    → Reach s
    → (s.inside ≤ 1)
      × (s.inside ≡ 0 → s.core.pending_event_pairs ≡ [])
      × ((r : LockCore × EventLoopGroup) × (unlock s.core s.group true ≡ ok r))
mutual_exclusion {s} reach =
    let x = Reach-IsExclusive reach in
    let holder = x.holder in
    let (r, e, _, _) = unlock_ok s.core s.group x.orderly in
    (ground arith, λ none_inside. x.orderly.free (ground arith), (r, e))

-- ===== src/Conditions/Notify.antt =====
-- Whom `TriggerOne` of include/arc/coro/awaiter/condition_awaiter.h wakes.
use libarc.Prelude.{
  ℕ, ◌<◌, ◌≡◌, ◌≢◌, ◌⊎◌, inl, inr, refl, ap, ◌∙◌, Bool, true, false, Bool-cases, Option-cases, none,
  some, List, [], ◌∷◌, ◌++◌, ◌==◌, if◌then◌else◌, ok, update, elem, set_erase, count, arith,
}
use std.Path.{fun_ext}
use libarc.Events.{UserEvent}
use libarc.Poller.State.{Poller}
use libarc.Poller.UserEvents.{user_id, trigger_user_event}
use libarc.Poller.Registry.{IsRegistered, trigger_user_event_pending, trigger_user_event_unknown}
use libarc.EventLoopGroup.{EventLoopGroup, get_event_loop, put_event_loop}
use libarc.Conditions.Core.{ConditionCore, trigger_in, trigger_internal, trigger_one}
use libarc.Conditions.Waiting.{notify_one}

-- The loop is gone, or it does not have the event any more.
abbrev pub IsGone : EventLoopGroup → (event_id loop_id : ℕ) → Type 0
IsGone g e l =
    (get_event_loop g l ≡ none)
    ⊎ ((p : Poller) × (get_event_loop g l ≡ some p) × (p.user_events e ≡ none))

-- No entry is of a wait that still lasts: it was ended early, and its task has been resumed since or
-- has not.
abbrev pub AllPassed : (pairs : ℕ → List ℕ) → EventLoopGroup → List (ℕ × ℕ) → Type 0
AllPassed pairs g [] = Unit
AllPassed pairs g ((e, l) ∷ rest) =
    ((elem e (pairs l) ≡ false) ⊎ IsGone g e l) × AllPassed pairs g rest

-- The pairs of the waits that still last are the same, except for those of `e` in the loop `l`.
abbrev pub KeepsOthers : EventLoopGroup → (e l : ℕ) → (pairs pairs' : ℕ → List ℕ) → Type 0
KeepsOthers g e l pairs pairs' =
    (j m : ℕ) (q : Poller) (u : UserEvent)
    → get_event_loop g m ≡ some q
    → q.user_events j ≡ some u
    → (j ≢ e) ⊎ (m ≢ l)
    → elem j (pairs' m) ≡ elem j (pairs m)

elem-set_erase :
    (j k : ℕ) (xs : List ℕ) → elem k (set_erase j xs) ≡ (if j == k then false else elem k xs)
elem-set_erase j k [] = ground arith
elem-set_erase j k (x ∷ xs) = let rest = elem-set_erase j k xs in ground arith

-- Whether a pair is left when one is erased.
elem-erased :
    (pairs : ℕ → List ℕ) (e l j m : ℕ)
    → elem j (update pairs l (set_erase e (pairs l)) m)
      ≡ (if l == m then (if e == j then false else elem j (pairs m)) else elem j (pairs m))
elem-erased pairs e l j m = let here = elem-set_erase e j (pairs l) in ground arith

put-get :
    (g : EventLoopGroup) (l : ℕ) (p : Poller)
    → get_event_loop g l ≡ some p
    → put_event_loop g l p ≡ g
put-get g l p h = ap (λ ls. record g { loops = ls }) (fun_ext (λ i. ground arith))

trigger_in-gone :
    (g : EventLoopGroup) (e l : ℕ) (wrote : Bool)
    → IsGone g e l
    → trigger_in g l e wrote ≡ ok (g, false)
unfolding trigger_in
trigger_in-gone g e l wrote (inl no_loop) = rw (no_loop, trigger_in) refl
trigger_in-gone g e l wrote (inr (p, there, unknown)) =
    rw (there, trigger_in)
      (rw (trigger_user_event_unknown p e wrote unknown) (rw (put-get g l p there) refl))

AllPassed-erased :
    (pairs : ℕ → List ℕ) (g : EventLoopGroup) (e l : ℕ) (es : List (ℕ × ℕ))
    → AllPassed pairs g es
    → AllPassed (update pairs l (set_erase e (pairs l))) g es
AllPassed-erased pairs g e l [] all = tt
AllPassed-erased pairs g e l ((j, m) ∷ es) (inl absent, all) =
    (inl (elem-erased pairs e l j m ∙ ground arith), AllPassed-erased pairs g e l es all)
AllPassed-erased pairs g e l ((j, m) ∷ es) (inr is_gone, all) =
    (inr is_gone, AllPassed-erased pairs g e l es all)

KeepsOthers-erased :
    (pairs : ℕ → List ℕ) (g : EventLoopGroup) (e l : ℕ)
    → KeepsOthers g e l pairs (update pairs l (set_erase e (pairs l)))
KeepsOthers-erased pairs g e l j m q u there known (inl other) =
    elem-erased pairs e l j m ∙ ground arith
KeepsOthers-erased pairs g e l j m q u there known (inr other) =
    elem-erased pairs e l j m ∙ ground arith

-- Erasing the pair of a wait that has ended keeps the others.
elem-gone :
    (pairs : ℕ → List ℕ) (g : EventLoopGroup) (e l j m : ℕ) (q : Poller) (u : UserEvent)
    → IsGone g e l
    → get_event_loop g m ≡ some q
    → q.user_events j ≡ some u
    → elem j (update pairs l (set_erase e (pairs l)) m) ≡ elem j (pairs m)
elem-gone pairs g e l j m q u (inl no_loop) there known = elem-erased pairs e l j m ∙ ground arith
elem-gone pairs g e l j m q u (inr (p, has, unknown)) there known =
    elem-erased pairs e l j m ∙ ground arith

module _ (g : EventLoopGroup) (p p' : Poller) (e l : ℕ) (rest : List (ℕ × ℕ)) (u : UserEvent)
    (there : get_event_loop g l ≡ some p) (known : p.user_events e ≡ some u)
    (fired : trigger_in g l e true ≡ ok (put_event_loop g l p', true)) where
  trigger_internal_lem :
      (es : List (ℕ × ℕ)) (pairs : ℕ → List ℕ)
      → AllPassed pairs g es
      → elem e (pairs l) ≡ true
      → (pairs' : ℕ → List ℕ) × (trigger_internal (es ++ (e, l) ∷ rest) pairs g true
          ≡ ok (
            record { pending_events = rest; pending_events_pairs = pairs' },
            put_event_loop g l p',
          ))
        × (elem e (pairs' l) ≡ false)
        × KeepsOthers g e l pairs pairs'
  unfolding trigger_internal
  trigger_internal_lem [] pairs passed listed = (
    update pairs l (set_erase e (pairs l)),
    rw (listed, trigger_internal) (rw fired refl),
    elem-erased pairs e l e l ∙ ground arith,
    KeepsOthers-erased pairs g e l,
  )
  trigger_internal_lem ((j, m) ∷ es) pairs (how, passed) listed =
      elim (Bool-cases (elem j (pairs m))) [
        | inr absent ↦
            let (pairs', e', out, keeps) = trigger_internal_lem es pairs passed listed in
            (pairs', rw (absent, trigger_internal) e', out, keeps)
        | inl present ↦ elim how [
          | inl absent ↦ absurd (ground arith)
          | inr is_gone ↦
              let still : elem e (update pairs m (set_erase j (pairs m)) l) ≡ true =
                elem-gone pairs g j m e l p u is_gone there known ∙ listed in
              let (pairs', e', out, keeps) =
                trigger_internal_lem es (update pairs m (set_erase j (pairs m)))
                  (AllPassed-erased pairs g j m es passed) still in
              (
                pairs',
                rw (present, trigger_internal) (rw (trigger_in-gone g j m true is_gone) e'),
                out,
                λ k n q v has knows other.
                    keeps k n q v has knows other ∙ elem-gone pairs g j m k n q v is_gone has knows,
              )
        ]
      ]

trigger_in-fires :
    (g : EventLoopGroup) (e l : ℕ) (p p' : Poller)
    → get_event_loop g l ≡ some p
    → trigger_user_event p e true ≡ ok (p', true)
    → trigger_in g l e true ≡ ok (put_event_loop g l p', true)
unfolding trigger_in
trigger_in-fires g e l p p' there fires = rw (there, trigger_in) (rw fires refl)

-- What is pending is known.
pending_known :
    (p : Poller) (e : ℕ)
    → IsRegistered p
    → 0 < count user_id e p.pending_user_events
    → (u : UserEvent) × (p.user_events e ≡ some u)
pending_known p e r waits = elim (Option-cases (p.user_events e)) [
  | inl unknown ↦ absurd (let once = r.once e in ground arith)
  | inr (u, known) ↦ (u, known)
]

-- A notification is not lost to waits that ended early: if an event is registered with the condition
-- and pending in its event loop, whose registry is right, and of the entries before it none is of a
-- wait that still lasts (its event is not registered with the condition any more, or its loop is gone
-- or does not know it), then `NotifyOne` succeeds if the write to the eventfd does. The event goes
-- from the pending to the triggered list of its loop and is not registered with the condition any
-- more, the entries behind it stay, and so do the registrations of all other waits that last.
pub notify_one_wakes :
    (core : ConditionCore) (g : EventLoopGroup) (p : Poller) (es rest : List (ℕ × ℕ)) (e l : ℕ)
    → core.pending_events ≡ es ++ (e, l) ∷ rest
    → AllPassed core.pending_events_pairs g es
    → elem e (core.pending_events_pairs l) ≡ true
    → get_event_loop g l ≡ some p
    → IsRegistered p
    → 0 < count user_id e p.pending_user_events
    → (core' : ConditionCore) × (p' : Poller) × (notify_one core g true
        ≡ ok (core', put_event_loop g l p'))
      × (core'.pending_events ≡ rest)
      × (elem e (core'.pending_events_pairs l) ≡ false)
      × KeepsOthers g e l core.pending_events_pairs core'.pending_events_pairs
      × IsRegistered p'
      × (count user_id e p'.pending_user_events ≡ 0)
      × (count user_id e p'.triggered_user_events ≡ 1)
unfolding notify_one trigger_one
notify_one_wakes core g p es rest e l queued passed listed there r waits =
    let (u, known) = pending_known p e r waits in
    let (p', fires, r', out, in_, _, _, _) = trigger_user_event_pending p e r waits in
    let (pairs', done, gone, keeps) =
      trigger_internal_lem g p p' e l rest u there known (trigger_in-fires g e l p p' there fires)
        es core.pending_events_pairs passed listed in
    (
      record { pending_events = rest; pending_events_pairs = pairs' },
      p',
      rw queued done,
      refl,
      gone,
      keeps,
      r',
      out,
      in_,
    )

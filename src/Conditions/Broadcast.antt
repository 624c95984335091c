-- ===== src/Conditions/Broadcast.antt =====
-- `TriggerAll` against one run over the queue.
use libarc.Prelude.{
  ℕ, zero, suc, ◌≤◌, ◌≡◌, refl, inl, inr, Bool, true, false, List, [], ◌∷◌, length, Outcome, ok,
  throws, undefined, ◌>>=◌, update, elem, set_erase, Bool-cases, arith,
}
use libarc.EventLoopGroup.{EventLoopGroup}
use libarc.Conditions.Core.{ConditionCore, trigger_in, trigger_internal, trigger_loop, trigger_all}

-- Each entry whose event is registered is unregistered, and triggered if its loop still has it.
unfoldable pub trigger_each :
    List (ℕ × ℕ)
    → (pairs : ℕ → List ℕ) → EventLoopGroup
    → (wrote : Bool) → Outcome (ConditionCore × EventLoopGroup)
trigger_each [] pairs g wrote = ok (record { pending_events = []; pending_events_pairs = pairs }, g)
trigger_each ((event_id, loop_id) ∷ rest) pairs g wrote = elim (elem event_id (pairs loop_id)) [
  | false ↦ trigger_each rest pairs g wrote
  | true ↦
      let pairs' = update pairs loop_id (set_erase event_id (pairs loop_id)) in
      trigger_in g loop_id event_id wrote >>= λ r. trigger_each rest pairs' r.0 wrote
]

abbrev Agrees : (fuel : ℕ) → List (ℕ × ℕ) → Type 0
Agrees fuel ps =
    (pairs : ℕ → List ℕ) (g : EventLoopGroup) (wrote : Bool)
    → trigger_loop fuel ps pairs g wrote ≡ trigger_each ps pairs g wrote

-- One round, and the loop after it.
round-trigger_each :
    (fuel : ℕ)
    → ((ps : List (ℕ × ℕ)) → length ps ≤ fuel → Agrees fuel ps)
    → (ps : List (ℕ × ℕ)) (pairs : ℕ → List ℕ) (g : EventLoopGroup) (wrote : Bool)
    → length ps ≤ suc fuel
    → (trigger_internal ps pairs g wrote >>= λ r.
        trigger_loop fuel r.0.pending_events r.0.pending_events_pairs r.1 wrote)
      ≡ trigger_each ps pairs g wrote
unfolding trigger_internal trigger_each trigger_loop
round-trigger_each zero after [] pairs g wrote few = refl
round-trigger_each (suc fuel) after [] pairs g wrote few = refl
round-trigger_each fuel after ((e, l) ∷ rest) pairs g wrote few =
    elim (Bool-cases (elem e (pairs l))) [
      | inr gone ↦
          rw (gone, trigger_internal, trigger_each)
            (round-trigger_each fuel after rest pairs g wrote (omega arith))
      | inl listed ↦
          let pairs' = update pairs l (set_erase e (pairs l)) in
          rw (listed, trigger_internal, trigger_each)
            (triggered pairs'
              (λ g'. round-trigger_each fuel after rest pairs' g' wrote (omega arith))
              (trigger_in g l e wrote))
    ]
  where
    triggered :
        (pairs' : ℕ → List ℕ)
        → ((g' : EventLoopGroup)
            → (trigger_internal rest pairs' g' wrote >>= λ r.
                trigger_loop fuel r.0.pending_events r.0.pending_events_pairs r.1 wrote)
              ≡ trigger_each rest pairs' g' wrote)
        → (o : Outcome (EventLoopGroup × Bool))
        → ((o >>= λ r. elim r.1 [
          | true ↦ ok (record { pending_events = rest; pending_events_pairs = pairs' }, r.0)
          | false ↦ trigger_internal rest pairs' r.0 wrote
        ])
            >>= λ r. trigger_loop fuel r.0.pending_events r.0.pending_events_pairs r.1 wrote)
          ≡ (o >>= λ r. trigger_each rest pairs' r.0 wrote)
    triggered pairs' on (ok (g', true)) = after rest (omega arith) pairs' g' wrote
    triggered pairs' on (ok (g', false)) = on g'
    triggered pairs' on (throws e') = refl
    triggered pairs' on undefined = refl

loop-trigger_each : (fuel : ℕ) (ps : List (ℕ × ℕ)) → length ps ≤ fuel → Agrees fuel ps
unfolding trigger_loop trigger_each
loop-trigger_each zero [] few pairs g wrote = refl
loop-trigger_each zero (p ∷ ps) few pairs g wrote = absurd (omega arith)
loop-trigger_each (suc fuel) [] few pairs g wrote = refl
loop-trigger_each (suc fuel) (p ∷ ps) few pairs g wrote =
    round-trigger_each fuel (loop-trigger_each fuel) (p ∷ ps) pairs g wrote few

-- The loop of `TriggerAll` ends within as many rounds as there are entries, and does what one run
-- over the queue does: each entry whose event is registered is unregistered and triggered, in order,
-- those that are not are passed over, and an error of a trigger ends it.
pub trigger_all_runs :
    (core : ConditionCore) (g : EventLoopGroup) (wrote : Bool)
    → trigger_all core g wrote ≡ trigger_each core.pending_events core.pending_events_pairs g wrote
unfolding trigger_all
trigger_all_runs core g wrote =
    loop-trigger_each (length core.pending_events) core.pending_events (omega arith)
      core.pending_events_pairs g wrote

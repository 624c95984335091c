-- ===== src/EventLoop/Core.antt =====
-- The event loop's own round: `Do`, `Trim`, `ConsumeCoroutine`, and the registrations. What a
-- resumed coroutine does until it suspends again is an argument, `resume`.
use libarc.Prelude.{
  ℕ, zero, suc, Bool, true, false, not, ◌&&◌, ◌||◌, Option, none, some, List, [], ◌∷◌, ◌++◌,
  if◌then◌else◌, Outcome, ok, undefined, ◌>>=◌, defined,
}
use libarc.Prelude.Int.{pos_part}
use libarc.Events.{IoEvent, Todo, io, time, user}
use libarc.Poller.Kernel.{Epoll}
use libarc.Poller.State.{Poller, init, is_poller_done, set_next_time_no_wait}
use libarc.Poller.Trim.{trim_io_events, trim_time_events, trim_user_events}
use libarc.Poller.Wait.{Answers, wait_events}
use libarc.Dispatcher.Queue.{ConcurrentQueue, deque_all}
use libarc.Dispatcher.Core.{Dispatcher, get_coroutine_queue, put_queue}
use libarc.EventLoop.Production.{Production, no_production, produce_coroutine, is_none_left}
use libarc.Poller.State
use libarc.Dispatcher.Core

-- `event_loop_type_` is two bits. The consumer's identifier and queue are those of its eventfd.
pub record EventLoop : Type 0 where
  pub poller : Poller
  pub id : ℕ
  pub is_running : Bool
  pub is_producer : Bool
  pub is_consumer : Bool
  pub to_clean_up_handles : List ℕ
  pub production : Production
  pub register_id : Option ℕ

unfoldable pub new_event_loop : (id event_fd : ℕ) → EventLoop
new_event_loop id event_fd = record {
  poller = init event_fd;
  id = id;
  is_running = false;
  is_producer = false;
  is_consumer = false;
  to_clean_up_handles = [];
  production = no_production;
  register_id = none;
}

unfoldable pub is_done : EventLoop → Bool
is_done l =
    is_poller_done l.poller
    && ((not l.is_producer && not l.is_consumer)
        || (l.is_producer && is_none_left l.production.to_dispatched_coroutines_count))

-- The coroutine of an event.
abbrev pub handle_of : Todo → ℕ
handle_of (io e) = e.handle
handle_of (time i w h) = h
handle_of (user e) = e.handle

unfoldable pub add_to_clean_up_coroutine : EventLoop → ℕ → EventLoop
add_to_clean_up_coroutine l h = record l { to_clean_up_handles = l.to_clean_up_handles ++ h ∷ [] }

unfoldable pub clean_up_finished_coroutines : EventLoop → EventLoop
clean_up_finished_coroutines l = record l { to_clean_up_handles = [] }

unfoldable pub register_producer : EventLoop → EventLoop
register_producer l = record l { is_producer = true }

-- The loop, its kernel, and the dispatcher of the process.
pub record World (E : Epoll) (C : ConcurrentQueue) : Type 0 where
  pub loop : EventLoop
  pub kernel : E.Kernel
  pub dispatcher : Dispatcher C

module _ (E : Epoll) (C : ConcurrentQueue) (after_erase : List IoEvent → ℕ → IoEvent)
    (resume : ℕ → World E C → Outcome (World E C)) (wrote : Bool) where
  unfoldable pub register_consumer : World E C → Outcome (World E C)
  register_consumer w =
      let fd = w.loop.poller.user_event_fd in
      libarc.Dispatcher.Core.register C w.dispatcher fd >>= λ d. ok (record w {
        loop = record w.loop {
          is_consumer = true;
          poller = libarc.Poller.State.register w.loop.poller;
          register_id = some fd;
        };
        dispatcher = d;
      })

  unfoldable pub resume_all : List ℕ → World E C → Outcome (World E C)
  resume_all [] w = ok w
  resume_all (h ∷ hs) w = resume h w >>= λ w'. resume_all hs w'

  -- Everything that the dispatcher has for this loop is taken out and resumed.
  unfoldable pub consume_coroutine : World E C → Outcome (World E C)
  consume_coroutine w = do
    id ← defined w.loop.register_id
    q ← get_coroutine_queue C w.dispatcher id
    r ← defined (deque_all C q (pos_part q.remained_items))
    resume_all r.1 (record w { dispatcher = put_queue C w.dispatcher id (some r.0) })

  unfoldable pub produce : World E C → Outcome (World E C)
  produce w = produce_coroutine C wrote w.loop.production w.dispatcher >>= λ r.
      ok (record w { loop = record w.loop { production = r.0 }; dispatcher = r.1 })

  abbrev pub when : Bool → (World E C → Outcome (World E C)) → World E C → Outcome (World E C)
  when true f w = f w
  when false f w = ok w

  -- The kernel is told what the poller waits for now; the coroutines that have finished are gone;
  -- and the next wait does not block if something could not be dispatched yet.
  unfoldable pub trim_poller : World E C → (now : ℕ) → Outcome (World E C)
  trim_poller w now = do
    r ← trim_io_events E w.kernel w.loop.poller
    s ← trim_user_events E r.1 (trim_time_events r.0 now)
    ok (record w {
      loop = clean_up_finished_coroutines (record w.loop {
        poller =
            if is_none_left w.loop.production.to_dispatched_coroutines_count
            then s.0
            else set_next_time_no_wait s.0;
      });
      kernel = s.1;
    })

  unfoldable pub trim : World E C → (now : ℕ) → Outcome (World E C)
  trim w now = do
    w₁ ← when w.loop.is_consumer consume_coroutine w
    w₂ ← when w₁.loop.is_producer produce w₁
    trim_poller w₂ now

  unfoldable pub init_do : World E C → (now : ℕ) → Outcome (World E C)
  init_do w now = trim (record w { loop = record w.loop { is_running = true } }) now

  -- The coroutines of all events that a wait hands out are resumed in order.
  unfoldable pub resume_todo : List Todo → World E C → Outcome (World E C)
  resume_todo [] w = ok w
  resume_todo (t ∷ ts) w = resume (handle_of t) w >>= λ w'. resume_todo ts w'

  unfoldable pub do_round : World E C → Answers → (now : ℕ) → Outcome (World E C)
  do_round w a now = do
    r ← wait_events after_erase w.loop.poller a
    w₁ ← resume_todo r.1 (record w { loop = record w.loop { poller = r.0 } })
    trim w₁ now

  -- What the dispatcher still has for the loop is resumed first.
  unfoldable pub deregister_consumer : World E C → Outcome (World E C)
  deregister_consumer w = elim w.loop.is_consumer [
    | false ↦ ok w
    | true ↦ do
      w₁ ← consume_coroutine (record w { loop = record w.loop { is_consumer = false } })
      id ← defined w₁.loop.register_id
      d ← libarc.Dispatcher.Core.deregister C w₁.dispatcher id wrote
      ok (record w₁ {
        loop = record w₁.loop {
          poller = libarc.Poller.State.deregister w₁.loop.poller;
          register_id = none;
        };
        dispatcher = d;
      })
  ]

  -- The loop of `DeResigerProducer`, with fuel: it goes on as long as a coroutine is left, and does
  -- not end while the queues have no room.
  unfoldable pub produce_rest : (fuel : ℕ) → World E C → Outcome (World E C)
  produce_rest zero w = undefined
  produce_rest (suc fuel) w =
      let rest = λ (w' : World E C). produce_rest fuel w' in
      if is_none_left w.loop.production.to_dispatched_coroutines_count
      then ok w
      else produce w >>= rest

  unfoldable pub deregister_producer : (fuel : ℕ) → World E C → Outcome (World E C)
  deregister_producer fuel w =
      produce_rest fuel (record w { loop = record w.loop { is_producer = false } })

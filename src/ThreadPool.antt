-- ===== src/ThreadPool.antt =====
-- `ThreadPool` of include/arc/utils/thread_pool.h and src/utils/thread_pool.cc. A task and an event
-- are given by their addresses; the identifier of an event is read when its task has run.
pub mod Order
use libarc.Prelude.{ℕ, Bool, true, false, List, [], ◌∷◌, ◌++◌, Outcome, ok, throws, Exception}
use libarc.EventLoopGroup.{EventLoopGroup}
use libarc.Conditions.Core.{trigger_in}

pub record ThreadPool : Type 0 where
  pub tasks : List ℕ
  -- The identifier of an event loop, and an event.
  pub task_events : List (ℕ × ℕ)
  pub is_stopped : Bool

unfoldable pub new_pool : ThreadPool
new_pool = record { tasks = []; task_events = []; is_stopped = false }

unfoldable pub enqueue_task : ThreadPool → (loop_id event task : ℕ) → Outcome ThreadPool
enqueue_task pool loop_id event task = elim pool.is_stopped [
  | true ↦ throws Exception.runtime_error
  | false ↦ ok (record pool {
    tasks = pool.tasks ++ task ∷ [];
    task_events = pool.task_events ++ (loop_id, event) ∷ [];
  })
]

-- What a worker does under the mutex: it waits, returns, or goes on with a task and its event.
pub data Turn : Type 0 where
  blocks : Turn
  returns : Turn
  runs : (task loop_id event : ℕ) → ThreadPool → Turn
  undefined_front : Turn

abbrev pub turn : (tasks : List ℕ) → (task_events : List (ℕ × ℕ)) → (is_stopped : Bool) → Turn
turn [] events true = returns
turn [] events false = blocks
turn (t ∷ ts) [] is_stopped = undefined_front
turn (t ∷ ts) ((loop_id, event) ∷ events) is_stopped =
    runs t loop_id event (record { tasks = ts; task_events = events; is_stopped = is_stopped })

unfoldable pub take_turn : ThreadPool → Turn
take_turn pool = turn pool.tasks pool.task_events pool.is_stopped

-- After the task: the event loop, if it is still there, is told; whether it knew the event is not
-- looked at.
unfoldable pub finish_task :
    EventLoopGroup → (loop_id event_id : ℕ) → (wrote : Bool) → Outcome (EventLoopGroup × Bool)
finish_task g loop_id event_id wrote = trigger_in g loop_id event_id wrote

-- The destructor, before it joins the workers.
unfoldable pub stop : ThreadPool → ThreadPool
stop pool = record pool { is_stopped = true }

-- ===== src/ThreadPool/Order.antt =====
-- The order in which the workers of src/utils/thread_pool.cc take the tasks of the pool.
use libarc.Prelude.{
  ℕ, ◌≡◌, refl, sym, subst, ap, Bool, true, false, List, [], ◌∷◌, ◌++◌, Outcome, ok, throws,
  undefined, Exception, ◌>>=◌,
}
use mathlib.Core.List.{append-nil, append_assoc}
use libarc.ThreadPool.{
  ThreadPool, new_pool, enqueue_task, blocks, returns, runs, undefined_front, take_turn, stop,
}

-- A task with the event that is triggered after it.
pub record Job : Type 0 where
  pub task : ℕ
  pub loop_id : ℕ
  pub event : ℕ

pub data PoolAct : Type 0 where
  enqueues : Job → PoolAct
  takes stops : PoolAct

abbrev pub prepend : Job → Outcome (List Job × ThreadPool) → Outcome (List Job × ThreadPool)
prepend j m = m >>= λ r. ok (j ∷ r.0, r.1)

-- What coroutines and workers do in any order, and the jobs that workers took.
unfoldable pub pool_acts : List PoolAct → ThreadPool → Outcome (List Job × ThreadPool)
pool_acts [] p = ok ([], p)
pool_acts (enqueues j ∷ acts) p = enqueue_task p j.loop_id j.event j.task >>= pool_acts acts
pool_acts (stops ∷ acts) p = pool_acts acts (stop p)
pool_acts (takes ∷ acts) p = elim (take_turn p) [
  | blocks ↦ pool_acts acts p
  | returns ↦ pool_acts acts p
  | runs task loop_id event p' ↦
      prepend (record { task = task; loop_id = loop_id; event = event }) (pool_acts acts p')
  | undefined_front ↦ undefined
]

abbrev pub enqueued : List PoolAct → List Job
enqueued [] = []
enqueued (enqueues j ∷ acts) = j ∷ enqueued acts
enqueued (takes ∷ acts) = enqueued acts
enqueued (stops ∷ acts) = enqueued acts

abbrev pub tasks_of : List Job → List ℕ
tasks_of [] = []
tasks_of (j ∷ js) = j.task ∷ tasks_of js

abbrev pub events_of : List Job → List (ℕ × ℕ)
events_of [] = []
events_of (j ∷ js) = (j.loop_id, j.event) ∷ events_of js

-- The two queues of the pool hold these jobs.
abbrev pub Holds : List Job → ThreadPool → Type 0
Holds js p = (p.tasks ≡ tasks_of js) × (p.task_events ≡ events_of js)

-- Whether a task is enqueued when the pool is stopped, or after a stop among the acts.
abbrev pub enqueues_late : (is_stopped : Bool) → List PoolAct → Bool
enqueues_late is_stopped [] = false
enqueues_late true (enqueues j ∷ acts) = true
enqueues_late false (enqueues j ∷ acts) = enqueues_late false acts
enqueues_late is_stopped (stops ∷ acts) = enqueues_late true acts
enqueues_late is_stopped (takes ∷ acts) = enqueues_late is_stopped acts

-- If no task is enqueued late, all the jobs are either taken, in their order, or still in the queues;
-- and if one is, that throws.
abbrev pub Conserves : (late : Bool) → List Job → Outcome (List Job × ThreadPool) → Type 0
Conserves late all (ok (taken, p)) =
    (late ≡ false) × ((left : List Job) × Holds left p × (taken ++ left ≡ all))
Conserves late all (throws e) = (late ≡ true) × (e ≡ Exception.runtime_error)
Conserves late all undefined = ⊥

tasks_of-snoc : (js : List Job) (j : Job) → tasks_of js ++ j.task ∷ [] ≡ tasks_of (js ++ j ∷ [])
tasks_of-snoc [] j = refl
tasks_of-snoc (i ∷ js) j = ap (λ ts. i.task ∷ ts) (tasks_of-snoc js j)

events_of-snoc :
    (js : List Job) (j : Job) → events_of js ++ (j.loop_id, j.event) ∷ [] ≡ events_of (js ++ j ∷ [])
events_of-snoc [] j = refl
events_of-snoc (i ∷ js) j = ap (λ es. (i.loop_id, i.event) ∷ es) (events_of-snoc js j)

Conserves-prepend :
    (j : Job) (late : Bool) (all : List Job) (r : Outcome (List Job × ThreadPool))
    → Conserves late all r
    → Conserves late (j ∷ all) (prepend j r)
Conserves-prepend j late all (ok (taken, p)) (in_time, (left, held, e)) =
    (in_time, (left, held, ap (λ js. j ∷ js) e))
Conserves-prepend j late all (throws x) e = e
Conserves-prepend j late all undefined e = e

abbrev pub pool_of : List Job → (is_stopped : Bool) → ThreadPool
pool_of js is_stopped = record {
  tasks = tasks_of js;
  task_events = events_of js;
  is_stopped = is_stopped;
}

pool_of-snoc :
    (js : List Job) (j : Job)
    → record {
      tasks = tasks_of js ++ j.task ∷ [];
      task_events = events_of js ++ (j.loop_id, j.event) ∷ [];
      is_stopped = false;
    }
      ≡ pool_of (js ++ j ∷ []) false
pool_of-snoc js j = rw (tasks_of-snoc js j, events_of-snoc js j) refl

-- From a pool that holds jobs.
pool_acts-Conserves :
    (acts : List PoolAct) (waiting : List Job) (is_stopped : Bool)
    → Conserves
        (enqueues_late is_stopped acts)
        (waiting ++ enqueued acts)
        (pool_acts acts (pool_of waiting is_stopped))
unfolding pool_acts enqueue_task take_turn stop
pool_acts-Conserves [] waiting true = (refl, (waiting, (refl, refl), sym (append-nil waiting)))
pool_acts-Conserves [] waiting false = (refl, (waiting, (refl, refl), sym (append-nil waiting)))
pool_acts-Conserves (enqueues j ∷ acts) waiting true = (refl, refl)
pool_acts-Conserves (enqueues j ∷ acts) waiting false =
    subst
      (λ p. Conserves (enqueues_late false acts) (waiting ++ j ∷ enqueued acts) (pool_acts acts p))
      (sym (pool_of-snoc waiting j))
      (subst
        (λ all.
          Conserves (enqueues_late false acts) all
            (pool_acts acts (pool_of (waiting ++ j ∷ []) false)))
        (append_assoc waiting (j ∷ []) (enqueued acts))
        (pool_acts-Conserves acts (waiting ++ j ∷ []) false))
pool_acts-Conserves (stops ∷ acts) waiting true = pool_acts-Conserves acts waiting true
pool_acts-Conserves (stops ∷ acts) waiting false = pool_acts-Conserves acts waiting true
pool_acts-Conserves (takes ∷ acts) [] true = pool_acts-Conserves acts [] true
pool_acts-Conserves (takes ∷ acts) [] false = pool_acts-Conserves acts [] false
pool_acts-Conserves (takes ∷ acts) (j ∷ waiting) true =
    Conserves-prepend j _ (waiting ++ enqueued acts) _ (pool_acts-Conserves acts waiting true)
pool_acts-Conserves (takes ∷ acts) (j ∷ waiting) false =
    Conserves-prepend j _ (waiting ++ enqueued acts) _ (pool_acts-Conserves acts waiting false)

-- Whatever coroutines enqueue and workers take, in any order, and whenever the pool is stopped: if no
-- task is enqueued after a stop, all acts are carried out, and the jobs that were taken, each with its
-- own event, and then those that are left are the jobs that were enqueued, in their order; if one is,
-- that throws. In neither case a worker reads an empty queue.
pub jobs_in_order :
    (acts : List PoolAct)
    → Conserves (enqueues_late false acts) (enqueued acts) (pool_acts acts new_pool)
unfolding new_pool
jobs_in_order acts = pool_acts-Conserves acts [] false

-- ===== src/Tests/PoolRuns.antt =====
-- A run of the thread pool with two tasks.
use libarc.Prelude.{false, List, [], ◌∷◌}
use libarc.ThreadPool.{new_pool}
use libarc.ThreadPool.Order.{
  Job, PoolAct, enqueues, takes, stops, pool_acts, enqueued, enqueues_late, Conserves,
  jobs_in_order,
}

abbrev a_job : Job
a_job = record { task = 1; loop_id = 3; event = 50 }

abbrev some_acts : List PoolAct
some_acts =
    enqueues a_job ∷ takes ∷ takes ∷ enqueues (record a_job { task = 2 }) ∷ stops ∷ takes ∷ []

jobs_in_order_example :
    Conserves (enqueues_late false some_acts) (enqueued some_acts) (pool_acts some_acts new_pool)
jobs_in_order_example = jobs_in_order some_acts

-- ===== src/Task/Scheduler/Consistency.antt =====
-- The queue, the running task and the task states of manager.rs and processor.rs agree.
use t_core.Base.{
  ℕ, ◌≡◌, ◌≢◌, refl, Bool, true, false, Option, none, some, List, [], ◌∷◌, ◌++◌, arith, contains,
  Distinct, contains-append, append-Distinct, subst,
}
use t_core.Task.Scheduler.{
  Kernel, TaskStatus, ready, running, blocked, set_status, fetch_from, wakeup_task, run_tasks_round,
  schedule, suspend_current_and_run_next, block_current_task,
}

abbrev pub is_ready : TaskStatus → Bool
is_ready ready = true
is_ready _ = false

abbrev pub Runs : Kernel → Option ℕ → Type 0
Runs k none = Unit {0}
Runs k (some t) = k.task_status t ≡ running

-- A task is in the ready queue exactly when it is ready, once; the current task is running.
pub record IsConsistent (k : Kernel) : Type 0 where
  pub distinct : Distinct k.ready_queue
  pub queued : (t : ℕ) → contains k.ready_queue t ≡ is_ready (k.task_status t)
  pub runs : Runs k k.current

Runs-set_status :
    (k : Kernel) (o : Option ℕ) (t : ℕ) (st : TaskStatus)
    → Runs k o
    → k.task_status t ≢ running
    → Runs (set_status t st k) o
Runs-set_status k none t st r h = tt
Runs-set_status k (some u) t st r h = ground arith

-- A blocked task that is woken up is ready, at the end of the queue.
pub wakeup_task-IsConsistent :
    (k : Kernel) (t : ℕ)
    → IsConsistent k
    → k.task_status t ≡ blocked
    → IsConsistent (wakeup_task t k)
unfolding wakeup_task
wakeup_task-IsConsistent k t v b = record {
  distinct = append-Distinct k.ready_queue t v.distinct (ground (arith, v.queued t));
  queued = λ u. ground (arith, v.queued u, contains-append k.ready_queue (t ∷ []) u);
  runs = Runs-set_status k k.current t ready v.runs (λ e. ground arith);
}

fetched : ℕ → List ℕ → Kernel → Kernel
fetched t rest k = record (set_status t running k) { ready_queue = rest; current = some t }

fetched-IsConsistent :
    (k : Kernel) (t : ℕ) (rest : List ℕ)
    → IsConsistent (record k { ready_queue = t ∷ rest })
    → IsConsistent (fetched t rest k)
unfolding fetched
fetched-IsConsistent k t rest v = record {
  distinct = v.distinct.1;
  queued = λ u. ground (arith, v.queued u, v.distinct.0);
  runs = ground arith;
}

round_from-IsConsistent :
    (q : List ℕ) (k : Kernel)
    → IsConsistent (record k { ready_queue = q })
    → IsConsistent (run_tasks_round (record k { ready_queue = q }))
unfolding run_tasks_round fetch_from fetched
round_from-IsConsistent [] k v = v
round_from-IsConsistent (t ∷ rest) k v = fetched-IsConsistent k t rest v

pub run_tasks_round-IsConsistent : (k : Kernel) → IsConsistent k → IsConsistent (run_tasks_round k)
run_tasks_round-IsConsistent k v = round_from-IsConsistent k.ready_queue k v

-- The kernel in which the running task `t` has stopped.
abbrev pub stopped : Kernel → ℕ → Kernel
stopped k t = set_status t blocked (record k { current = none })

pub block_current_task-eq :
    (k : Kernel) (t : ℕ) → k.current ≡ some t → block_current_task k ≡ some (stopped k t)
unfolding block_current_task
block_current_task-eq k t e = rw e refl

pub stopped-IsConsistent :
    (k : Kernel) (t : ℕ) → IsConsistent k → k.current ≡ some t → IsConsistent (stopped k t)
stopped-IsConsistent k t v e =
    let running_now : k.task_status t ≡ running = subst (Runs k) e v.runs in
    record { distinct = v.distinct; queued = λ u. ground (arith, v.queued u); runs = tt }

-- The task at the front of the queue runs next.
schedule_front :
    (q : List ℕ) (t : ℕ) (k : Kernel)
    → let k' = schedule (record k { ready_queue = q ++ t ∷ [] }) in
      (n : ℕ) × (rest : List ℕ) × (q ++ t ∷ [] ≡ n ∷ rest)
      × (k'.current ≡ some n)
      × (k'.ready_queue ≡ rest)
unfolding schedule
schedule_front [] t k = (t, [], refl, refl, refl)
schedule_front (x ∷ q) t k = (x, q ++ t ∷ [], refl, refl, refl)

-- The kernel in which the running task `t` has joined the queue.
abbrev pub yielded : Kernel → ℕ → Kernel
yielded k t = record (set_status t ready k) {
  ready_queue = k.ready_queue ++ t ∷ [];
  current = none;
}

pub yielded-IsConsistent :
    (k : Kernel) (t : ℕ) → IsConsistent k → k.current ≡ some t → IsConsistent (yielded k t)
yielded-IsConsistent k t v e =
    let running_now : k.task_status t ≡ running = subst (Runs k) e v.runs in
    record {
      distinct = append-Distinct k.ready_queue t v.distinct (ground (arith, v.queued t));
      queued = λ u. ground (arith, v.queued u, contains-append k.ready_queue (t ∷ []) u);
      runs = tt;
    }

-- `sys_yield`: the running task goes to the end of the queue, and the task at the front runs; when
-- no other is ready the task runs on.
pub suspend_current_and_run_next-IsConsistent :
    (k : Kernel) (t : ℕ)
    → IsConsistent k
    → k.current ≡ some t
    → (k' : Kernel) × (suspend_current_and_run_next k ≡ some k')
      × IsConsistent k'
      × ((n : ℕ) × (rest : List ℕ) × (k.ready_queue ++ t ∷ [] ≡ n ∷ rest)
          × (k'.current ≡ some n)
          × (k'.ready_queue ≡ rest))
unfolding suspend_current_and_run_next
suspend_current_and_run_next-IsConsistent k t v e = (
  schedule (yielded k t),
  rw e refl,
  run_tasks_round-IsConsistent (yielded k t) (yielded-IsConsistent k t v e),
  schedule_front k.ready_queue t (yielded k t),
)

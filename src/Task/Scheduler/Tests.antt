-- ===== src/Task/Scheduler/Tests.antt =====
-- A concrete kernel, and what the calls of manager.rs and processor.rs do with it.
use t_core.Base.{ℕ, ◌≡◌, refl, some, List, [], ◌∷◌, arith, if◌then◌else◌, ◌==◌}
use t_core.Task.Scheduler.{
  Kernel, TaskStatus, ready, running, blocked, run_tasks_round, suspend_current_and_run_next,
  wakeup_task, add_task, fetch_task, fetch_from,
}
use t_core.Task.Scheduler.Consistency.{IsConsistent}
use t_core.Task.Scheduler.Consistency.{suspend_current_and_run_next-IsConsistent}

abbrev pub status_of : ℕ → TaskStatus
status_of t =
    if t == 1 then running else if (t == 2) then ready else if (t == 3) then ready else blocked

-- Task 1 runs, tasks 2 and 3 are ready, the others are blocked.
abbrev pub three_tasks : Kernel
three_tasks = record { ready_queue = 2 ∷ 3 ∷ []; current = some 1; task_status = status_of }

pub three_tasks-IsConsistent : IsConsistent three_tasks
three_tasks-IsConsistent = record {
  distinct = (refl, (refl, tt));
  queued = λ t. ground arith;
  runs = refl;
}

wakeup_example : (wakeup_task 4 three_tasks).ready_queue ≡ 2 ∷ 3 ∷ 4 ∷ []
unfolding wakeup_task add_task
wakeup_example = refl

round_example : (run_tasks_round three_tasks).current ≡ some 2
unfolding run_tasks_round fetch_task fetch_from
round_example = refl

suspend_current_and_run_next-IsConsistent_example :
    (k : Kernel) × (suspend_current_and_run_next three_tasks ≡ some k)
    × IsConsistent k
    × ((n : ℕ) × (rest : List ℕ) × (2 ∷ 3 ∷ 1 ∷ [] ≡ n ∷ rest)
        × (k.current ≡ some n)
        × (k.ready_queue ≡ rest))
suspend_current_and_run_next-IsConsistent_example =
    suspend_current_and_run_next-IsConsistent three_tasks 1 three_tasks-IsConsistent refl

-- ===== src/Sync/Semaphore/Tests.antt =====
-- Instances of the results about semaphore.rs at a concrete kernel.
use t_core.Base.{refl, none, [], ◌∷◌, arith, if◌then◌else◌, ◌==◌, pos, negsuc}
use t_core.Task.Scheduler.{
  blocked, run_tasks_round, schedule, block_current_task, block_current_and_run_next, take_current,
  fetch_task, fetch_from,
}
use t_core.Task.Scheduler.Tests.{three_tasks, three_tasks-IsConsistent}
use t_core.Sync.Semaphore.{new, down}
use t_core.Sync.Semaphore.Permits.{System, Step, Reach, Balanced, Reach-Balanced}

-- Task 1 takes the only permit, and waits when it asks for another one.
abbrev one_taken : System
one_taken = record {
  kernel = three_tasks;
  semaphore = record { count = pos 0; wait_queue = [] };
  ups = 0;
  passed = 1;
}

abbrev one_waits : System
one_waits = record {
  kernel = run_tasks_round (record three_tasks {
    current = none;
    task_status = λ u. if u == 1 then blocked else three_tasks.task_status u;
  });
  semaphore = record { count = negsuc 0; wait_queue = 1 ∷ [] };
  ups = 0;
  passed = 1;
}

reaches_waits :
    Reach (record { kernel = three_tasks; semaphore = new 1; ups = 0; passed = 0 }) 2 one_waits
unfolding down new block_current_and_run_next block_current_task schedule run_tasks_round
    take_current fetch_task fetch_from
reaches_waits =
    Reach.next
      (Reach.next Reach.here (Step.lowers 1 one_taken.semaphore three_tasks refl refl refl))
      (Step.lowers 1 one_waits.semaphore one_waits.kernel refl refl refl)

Reach-Balanced_example : Balanced 1 one_waits
Reach-Balanced_example =
    Reach-Balanced 1 three_tasks 2 (omega arith) three_tasks-IsConsistent reaches_waits

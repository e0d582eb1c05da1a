-- ===== src/Sync/Mutex/Tests.antt =====
-- Instances of the results about mutex.rs at a concrete kernel.
use t_core.Base.{refl, true, false, none, [], ◌∷◌, if◌then◌else◌, ◌==◌}
use t_core.Task.Scheduler.{
  Kernel, ready, blocked, run_tasks_round, schedule, suspend_current_and_run_next,
  block_current_task, block_current_and_run_next, add_task, take_current, fetch_task, fetch_from,
}
use t_core.Task.Scheduler.Tests.{three_tasks, three_tasks-IsConsistent}
use t_core.Sync.Mutex.{new, lock, spin_lock_round}
use t_core.Sync.Mutex.Exclusion.{System, Step, Reach, Guarded, Reach-Guarded}
use t_core.Sync.Mutex.Spin.{SpinStep, SpinReach}

-- Task 1 holds the mutex and yields to task 2, which has to wait for it.
abbrev held : System
held = record {
  kernel = three_tasks;
  mutex = record { locked = true; wait_queue = [] };
  holders = 1 ∷ [];
}

abbrev after_yield : Kernel
after_yield = run_tasks_round (
    add_task 1 (record three_tasks {
      current = none;
      task_status = λ u. if u == 1 then ready else three_tasks.task_status u;
    }))

abbrev after_block : Kernel
after_block = run_tasks_round (record after_yield {
  current = none;
  task_status = λ u. if u == 2 then blocked else after_yield.task_status u;
})

abbrev waiting : System
waiting = record {
  kernel = after_block;
  mutex = record { locked = true; wait_queue = 2 ∷ [] };
  holders = 1 ∷ [];
}

reaches_held : Reach (record { kernel = three_tasks; mutex = new; holders = [] }) held
unfolding lock new
reaches_held = Reach.next Reach.here (Step.locks 1 _ _ refl refl refl refl)

reaches_waiting : Reach (record { kernel = three_tasks; mutex = new; holders = [] }) waiting
unfolding lock new suspend_current_and_run_next block_current_and_run_next block_current_task
    schedule run_tasks_round take_current fetch_task fetch_from add_task
reaches_waiting =
    Reach.next (Reach.next reaches_held (Step.yields 1 after_yield refl refl refl))
      (Step.locks 2 (record { locked = true; wait_queue = 2 ∷ [] }) after_block refl refl refl refl)

Reach-Guarded_example : Guarded waiting
Reach-Guarded_example = Reach-Guarded three_tasks three_tasks-IsConsistent reaches_waiting

guarded : Guarded waiting
guarded = Reach-Guarded three_tasks three_tasks-IsConsistent reaches_waiting

spun :
    SpinReach (record { locked = false; holders = [] }) (record { locked = true; holders = 1 ∷ [] })
unfolding spin_lock_round
spun = SpinReach.next SpinReach.here (SpinStep.tries 1 true true three_tasks three_tasks refl refl)

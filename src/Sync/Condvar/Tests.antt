-- ===== src/Sync/Condvar/Tests.antt =====
-- Instances of the results about condvar.rs at a concrete kernel.
use t_core.Base.{◌≡◌, refl, true, some, [], ◌∷◌}
use t_core.Task.Scheduler.{Kernel, block_current_and_run_next}
use t_core.Task.Scheduler.Consistency.{IsConsistent}
use t_core.Task.Scheduler.Waiting.{IsWaiting}
use t_core.Task.Scheduler.Tests.{three_tasks, three_tasks-IsConsistent}
use t_core.Sync.Mutex.{MutexBlocking, new}
use t_core.Sync.Mutex.Exclusion.{System, Guarded}
use t_core.Sync.Condvar.{wait, wait_resumed}
use t_core.Sync.Condvar.Signals.{GivenUp, wait_queues}

-- Task 1 holds the mutex, task 6 waits for it; tasks 4 and 5 wait for the condition.
abbrev held : System
held = record {
  kernel = three_tasks;
  mutex = record { locked = true; wait_queue = 6 ∷ [] };
  holders = 1 ∷ [];
}

held-Guarded : Guarded held
held-Guarded = record {
  consistent = three_tasks-IsConsistent;
  waiting = record { distinct = (refl, tt); all_blocked = (refl, tt) };
  held = (1, refl);
}

four_five : IsWaiting three_tasks (4 ∷ 5 ∷ [])
four_five = record { distinct = (refl, (refl, tt)); all_blocked = (refl, (refl, tt)) }

wait_queues_example :
    (m : MutexBlocking) × (k1 k : Kernel) × (wait (4 ∷ 5 ∷ []) held.mutex held.kernel
      ≡ some (4 ∷ 5 ∷ 1 ∷ [], m, k))
    × GivenUp held m k1
    × (block_current_and_run_next k1 ≡ some k)
    × IsConsistent k
    × IsWaiting k (4 ∷ 5 ∷ 1 ∷ [])
    × IsWaiting k m.wait_queue
wait_queues_example = wait_queues held 1 (4 ∷ 5 ∷ []) held-Guarded refl refl four_five (refl, tt)

-- A task that runs again gets a mutex that is free, and goes on at once.
resumed_free :
    wait_resumed new three_tasks ≡ some (record { locked = true; wait_queue = [] }, three_tasks)
unfolding wait_resumed new
resumed_free = refl

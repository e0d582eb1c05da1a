-- ===== src/Sync/Condvar.antt =====
-- os/src/sync/condvar.rs: condition variables, with the blocking mutex.
pub mod Tests
pub mod Signals
use t_core.Base.{◌>>=◌, ℕ, Option, some, List, [], ◌∷◌, ◌++◌}
use t_core.Task.Scheduler.{Kernel, wakeup_task, block_current_and_run_next, block_current_task}
use t_core.Sync.Mutex.{MutexBlocking, lock, unlock}

-- A condition variable is its queue.
pub signal : List ℕ → Kernel → List ℕ × Kernel
signal [] k = ([], k)
signal (task ∷ rest) k = (rest, wakeup_task task k)

pub signal_all : List ℕ → Kernel → List ℕ × Kernel
signal_all [] k = ([], k)
signal_all (task ∷ rest) k = signal_all rest (wakeup_task task k)

-- `wait` up to where the task has to run again.
pub wait : List ℕ → MutexBlocking → Kernel → Option (List ℕ × MutexBlocking × Kernel)
wait queue mutex k = do
  (mutex', k') ← unlock mutex k
  task ← k'.current
  k'' ← block_current_and_run_next k'
  some (queue ++ task ∷ [], mutex', k'')

-- What is left of `wait` when the task runs again.
pub wait_resumed : MutexBlocking → Kernel → Option (MutexBlocking × Kernel)
unfolding lock
wait_resumed mutex k = lock mutex k

pub wait_no_sched : List ℕ → Kernel → Option (List ℕ × Kernel)
wait_no_sched queue k = do
  task ← k.current
  k' ← block_current_task k
  some (queue ++ task ∷ [], k')

-- ===== src/Task/Scheduler.antt =====
-- os/src/task/manager.rs, os/src/task/processor.rs and the switching functions of os/src/task/mod.rs:
-- the ready queue, the running task, and how a task yields, blocks and wakes up.
pub mod Consistency
pub mod Waiting
pub mod Tests
use t_core.Base.{◌>>=◌, ℕ, Option, none, some, List, [], ◌∷◌, ◌++◌, ◌==◌, if◌then◌else◌, remove}

pub data TaskStatus : Type 0 where
  ready running blocked : TaskStatus

-- A task control block is named by a number, which stands for its address.
pub record Kernel : Type 0 where
  pub ready_queue : List ℕ
  pub current : Option ℕ
  pub task_status : ℕ → TaskStatus

abbrev pub set_status : ℕ → TaskStatus → Kernel → Kernel
set_status task status k = record k {
  task_status = λ t. if t == task then status else k.task_status t;
}

unfoldable pub add_task : ℕ → Kernel → Kernel
add_task task k = record k { ready_queue = k.ready_queue ++ task ∷ [] }

unfoldable pub fetch_from : List ℕ → Kernel → Option ℕ × Kernel
fetch_from [] k = (none, k)
fetch_from (task ∷ rest) k = (some task, record k { ready_queue = rest })

unfoldable pub fetch_task : Kernel → Option ℕ × Kernel
unfolding fetch_from
fetch_task k = fetch_from k.ready_queue k

-- The first entry with this address goes.
pub remove_task : ℕ → Kernel → Kernel
remove_task task k = record k { ready_queue = remove k.ready_queue task }

unfoldable pub wakeup_task : ℕ → Kernel → Kernel
unfolding add_task
wakeup_task task k = add_task task (set_status task ready k)

unfoldable pub take_current : Kernel → Option ℕ × Kernel
take_current k = (k.current, record k { current = none })

-- One round of the loop in `run_tasks`, up to the switch to the task that it fetched.
unfoldable pub run_tasks_round : Kernel → Kernel
unfolding fetch_task
run_tasks_round k =
    let (task, k') = fetch_task k in
    elim task [ some t ↦ record (set_status t running k') { current = some t } | none ↦ k' ]

-- `schedule` switches to the idle loop, which goes through its next round.
unfoldable pub schedule : Kernel → Kernel
unfolding run_tasks_round
schedule k = run_tasks_round k

-- `none` is the panic when no task runs.
unfoldable pub suspend_current_and_run_next : Kernel → Option Kernel
unfolding take_current add_task schedule
suspend_current_and_run_next k = do
  let (current, k') = take_current k
  task ← current
  some (schedule (add_task task (set_status task ready k')))

unfoldable pub block_current_task : Kernel → Option Kernel
unfolding take_current
block_current_task k = do
  let (current, k') = take_current k
  task ← current
  some (set_status task blocked k')

unfoldable pub block_current_and_run_next : Kernel → Option Kernel
unfolding block_current_task schedule
block_current_and_run_next k = do k' ← block_current_task k; some (schedule k')

-- ===== src/Sync/Semaphore.antt =====
-- os/src/sync/semaphore.rs: counting semaphores.
pub mod Tests
pub mod Counts
pub mod Permits
use t_core.Base.{
  ◌>>=◌, ℕ, Option, some, List, [], ◌∷◌, ◌++◌, if◌then◌else◌, ℤ, pos, ◌+ℤ◌, ◌-ℤ◌, ltb_ℤ, leb_ℤ,
  as_isize,
}
use t_core.Task.Scheduler.{Kernel, block_current_and_run_next, wakeup_task}

pub record Semaphore : Type 0 where
  pub count : ℤ
  pub wait_queue : List ℕ

pub new : ℕ → Semaphore
new res_count = record { count = as_isize (pos res_count); wait_queue = [] }

wake_front : List ℕ → Semaphore → Kernel → Semaphore × Kernel
wake_front [] s k = (s, k)
wake_front (task ∷ rest) s k = (record s { wait_queue = rest }, wakeup_task task k)

pub up : Semaphore → Kernel → Semaphore × Kernel
unfolding wake_front
up s k =
    let s' : Semaphore = record s { count = as_isize (s.count +ℤ pos 1) } in
    if leb_ℤ s'.count (pos 0) then wake_front s'.wait_queue s' k else (s', k)

-- A call that blocks returns when the task runs again; `none` is the panic when no task runs.
pub down : Semaphore → Kernel → Option (Semaphore × Kernel)
down s k =
    let s' : Semaphore = record s { count = as_isize (s.count -ℤ pos 1) } in
    let wait : Option (Semaphore × Kernel) = do
      task ← k.current
      k' ← block_current_and_run_next k
      some (record s' { wait_queue = s'.wait_queue ++ task ∷ [] }, k')
    in if ltb_ℤ s'.count (pos 0) then wait else some (s', k)

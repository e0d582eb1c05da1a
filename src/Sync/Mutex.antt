-- ===== src/Sync/Mutex.antt =====
-- os/src/sync/mutex.rs: the blocking and the spinning mutex.
pub mod Tests
pub mod Exclusion
pub mod HandOver
pub mod Spin
use t_core.Base.{
  ◌>>◌, ◌>>=◌, ℕ, Bool, true, false, Option, some, List, [], ◌∷◌, ◌++◌, if◌then◌else◌, assert,
}
use t_core.Task.Scheduler.{
  Kernel, suspend_current_and_run_next, block_current_and_run_next, wakeup_task,
}

-- `MutexBlockingInner`; the front of the queue is the head of the list.
pub record MutexBlocking : Type 0 where
  pub locked : Bool
  pub wait_queue : List ℕ

unfoldable pub new : MutexBlocking
new = record { locked = false; wait_queue = [] }

-- A task that finds the mutex locked queues up and blocks; its call returns when it runs again.
unfoldable pub lock : MutexBlocking → Kernel → Option (MutexBlocking × Kernel)
lock m k =
    let wait : Option (MutexBlocking × Kernel) = do
      task ← k.current
      k' ← block_current_and_run_next k
      some (record m { wait_queue = m.wait_queue ++ task ∷ [] }, k')
    in if m.locked then wait else some (record m { locked = true }, k)

pub hand_on : List ℕ → MutexBlocking → Kernel → MutexBlocking × Kernel
hand_on [] m k = (record m { locked = false }, k)
hand_on (waking_task ∷ rest) m k = (record m { wait_queue = rest }, wakeup_task waking_task k)

-- `none` is the failed assertion that the mutex is locked.
pub unlock : MutexBlocking → Kernel → Option (MutexBlocking × Kernel)
unfolding hand_on
unlock m k = do assert m.locked; some (hand_on m.wait_queue m k)

-- `MutexSpin`: one round of the loop in `lock`; `true` when the call returns.
pub spin_lock_round : Bool → Kernel → Option (Bool × Bool × Kernel)
spin_lock_round locked k =
    let yield : Option (Bool × Bool × Kernel) = do
      k' ← suspend_current_and_run_next k
      some (false, locked, k')
    in if locked then yield else some (true, true, k)

pub spin_unlock : Bool → Bool
spin_unlock locked = false

-- ===== src/Task/Thread.antt =====
-- The threads of a process: os/src/syscall/thread.rs, and what exit_current_and_run_next of
-- os/src/task/mod.rs does for a thread.
pub mod Slots
pub mod Running
pub mod Joining
mod Tests
use t_core.Base.{
  ◌>>=◌, ℕ, zero, suc, ◌+◌, ◌-◌, Option, some, none, List, [], ◌∷◌, ◌++◌, if◌then◌else◌, ◌==◌,
  length, ℤ, pos, negsuc, as_isize, get_elem?, set,
}
use t_core.Task.Id.{RecycleAllocator, alloc, dealloc}
use t_core.Task.Process.{Thread}

-- The ids of the threads of a process, and the threads by id.
pub record Threads : Type 0 where
  pub task_res_allocator : RecycleAllocator
  pub tasks : List (Option Thread)

abbrev pub new_thread : Thread
new_thread = record { exit_code = none }

-- The loop of `tasks.push(None)`.
pub push_none : ℕ → List (Option Thread) → List (Option Thread)
push_none zero tasks = tasks
push_none (suc n) tasks = push_none n (tasks ++ none ∷ [])

-- The id is within the tasks when the thread gets its place there.
pub sys_thread_create : Threads → ℤ × Threads
unfolding push_none
sys_thread_create t =
    let (tid, task_res_allocator') = alloc t.task_res_allocator in
    let tasks = push_none (tid + 1 - length t.tasks) t.tasks in
    (
      as_isize (pos tid),
      record { task_res_allocator = task_res_allocator'; tasks = set tasks tid (some new_thread) },
    )

-- The thread of an id: `none` is an empty place, or none.
pub thread_at : List (Option Thread) → ℕ → Option Thread
thread_at tasks tid = do slot ← get_elem? tasks tid; slot

-- A thread that is not the main one exits, which gives up its id. `none` is a panic.
pub exit_thread : ℕ → ℤ → Threads → Option Threads
unfolding thread_at
exit_thread tid exit_code t = do
  task ← thread_at t.tasks tid
  task_res_allocator' ← dealloc t.task_res_allocator tid
  some (record {
    task_res_allocator = task_res_allocator';
    tasks = set t.tasks tid (some (record task { exit_code = some exit_code }));
  })

wait_code : ℕ → Option ℤ → Threads → ℤ × Threads
wait_code tid none t = (negsuc 1, t)
wait_code tid (some exit_code) t = (exit_code, record t { tasks = set t.tasks tid none })

wait_slot : ℕ → Option Thread → Threads → ℤ × Threads
unfolding wait_code
wait_slot tid none t = (negsuc 0, t)
wait_slot tid (some task) t = wait_code tid task.exit_code t

-- Called by the thread `own`. `none` is a panic: the index is past the end.
pub sys_waittid : ℕ → ℕ → Threads → Option (ℤ × Threads)
unfolding wait_slot
sys_waittid own tid t =
    let waited : Option (ℤ × Threads) = (do
      slot ← get_elem? t.tasks tid
      some (wait_slot tid slot t)) in
    if own == tid then some (negsuc 0, t) else waited

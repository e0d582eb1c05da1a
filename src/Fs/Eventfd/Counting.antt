-- ===== src/Fs/Eventfd/Counting.antt =====
-- What goes through an event descriptor of eventfd.rs.
use t_core.Base.{ℕ, ◌≡◌, ◌+◌, Bool, false, Option, some, none, List, contains, if◌then◌else◌}
use t_core.Task.Scheduler.{
  Kernel, block_current_and_run_next, suspend_current_and_run_next, run_tasks_round, wakeup_task,
}
use t_core.Task.Scheduler.Consistency.{IsConsistent}
use t_core.Task.Scheduler.Waiting.{IsWaiting, IsBlocked}
use t_core.Fs.Eventfd.{Eventfd, from_be_bytes, read_round, write}

-- `given` is what the calls of `write` have added to the count, and `taken` the sum of what the calls
-- of `read` have returned.
pub record System : Type 0 where
  pub kernel : Kernel
  pub eventfd : Eventfd
  pub given : ℕ
  pub taken : ℕ

abbrev added : Bool → List ℕ → ℕ
added semaphore bytes = if semaphore then 1 else from_be_bytes bytes

abbrev got : Option (List ℕ) → ℕ
got none = 0
got (some bytes) = from_be_bytes bytes

pub data Step (s : System) (u : System) : Type 0 where
  reads :
      (t : ℕ) (r : Option (List ℕ)) (e : Eventfd) (k : Kernel)
      → s.kernel.current ≡ some t
      → read_round s.eventfd s.kernel ≡ some (r, e, k)
      → u ≡ record { kernel = k; eventfd = e; given = s.given; taken = s.taken + got r }
      → Step s u
  writes :
      (bytes : List ℕ) (e : Eventfd) (k : Kernel)
      → write s.eventfd bytes s.kernel ≡ some (e, k)
      → u ≡ record {
        kernel = k;
        eventfd = e;
        given = s.given + added s.eventfd.semaphore bytes;
        taken = s.taken;
      }
      → Step s u
  yields :
      (t : ℕ) (k : Kernel)
      → s.kernel.current ≡ some t
      → suspend_current_and_run_next s.kernel ≡ some k
      → u ≡ record s { kernel = k }
      → Step s u
  blocks_elsewhere :
      (t : ℕ) (k : Kernel)
      → s.kernel.current ≡ some t
      → block_current_and_run_next s.kernel ≡ some k
      → u ≡ record s { kernel = k }
      → Step s u
  wakes_elsewhere :
      (t : ℕ)
      → IsBlocked s.kernel t
      → contains s.eventfd.wait_queue t ≡ false
      → u ≡ record s { kernel = wakeup_task t s.kernel }
      → Step s u
  idles : u ≡ record s { kernel = run_tasks_round s.kernel } → Step s u

pub data Reach (s : System) : System → Type 0 where
  here : Reach s s
  next : {t u : System} → Reach s t → Step t u → Reach s u

-- Nothing is lost, and nothing is read twice; the tasks that wait are distinct and blocked.
pub record Counted (init : ℕ) (s : System) : Type 0 where
  pub consistent : IsConsistent s.kernel
  pub waiting : IsWaiting s.kernel s.eventfd.wait_queue
  pub balance : s.taken + s.eventfd.count ≡ init + s.given

-- ===== src/Task/Process.antt =====
-- The tree of processes: os/src/task/process.rs, the table of os/src/task/manager.rs,
-- exit_current_and_run_next of os/src/task/mod.rs, and waiting in os/src/syscall.
pub mod Counting
pub mod Effects
pub mod Family
pub mod Reaping
pub mod Exiting
pub mod Forking
pub mod Waiting
pub mod Reporting
mod Tests
use t_core.Base.{
  ◌>>=◌, ◌>>◌, ℕ, zero, suc, ◌+◌, ◌^◌, Bool, true, false, not, ◌&&◌, ◌||◌, Option, some, none, List,
  [], ◌∷◌, ◌++◌, if◌then◌else◌, ◌==◌, length, assert, ℤ, pos, negsuc, as_isize, get_elem?, ◌-◌,
}
use t_core.Task.Id.{RecycleAllocator, alloc, dealloc}
use t_core.Task.Id

pub record Thread : Type 0 where
  pub exit_code : Option ℤ

-- A process is its address; so is a file.
pub record Process : Type 0 where
  pub pid : ℕ
  pub is_zombie : Bool
  pub parent : Option ℕ
  pub children : List ℕ
  pub exit_code : ℤ
  pub fd_table : List (Option ℕ)
  pub tasks : List (Option Thread)

-- The processes by address, those below `next`; the allocator of pids, and `PID2PCB`. `on_stacks`
-- counts the references that system calls in progress have on the kernel stacks of threads.
pub record Processes : Type 0 where
  pub process : ℕ → Process
  pub next : ℕ
  pub pid_allocator : RecycleAllocator
  pub pid2process : List (ℕ × ℕ)
  pub on_stacks : ℕ → ℕ

abbrev pub initproc : ℕ
initproc = 0

abbrev pub idle_pid : ℕ
idle_pid = 0

-- What the code does to a process behind its address.
abbrev pub put : ℕ → Process → (ℕ → Process) → ℕ → Process
put a p process b = if b == a then p else process b

-- The entries of other pids.
pub others : ℕ → List (ℕ × ℕ) → List (ℕ × ℕ)
others pid [] = []
others pid (e ∷ es) = if e.0 == pid then others pid es else e ∷ others pid es

pub has_pid : ℕ → List (ℕ × ℕ) → Bool
has_pid pid [] = false
has_pid pid (e ∷ es) = (e.0 == pid) || has_pid pid es

abbrev pub insert_into_pid2process : ℕ → ℕ → List (ℕ × ℕ) → List (ℕ × ℕ)
insert_into_pid2process pid process es = (pid, process) ∷ others pid es

-- `none` is the panic when the pid is not found.
pub remove_from_pid2process : ℕ → List (ℕ × ℕ) → Option (List (ℕ × ℕ))
remove_from_pid2process pid es = do assert (has_pid pid es); some (others pid es)

abbrev main_thread : List (Option Thread)
main_thread = some (record { exit_code = none }) ∷ []

-- The first process; its files 0, 1 and 2 are standard input and output.
pub new : RecycleAllocator → Processes
new pid_allocator =
    let (pid, pid_allocator') = alloc pid_allocator in
    record {
      process = λ _. record {
        pid = pid;
        is_zombie = false;
        parent = none;
        children = [];
        exit_code = pos 0;
        fd_table = some 0 ∷ some 1 ∷ some 1 ∷ [];
        tasks = main_thread;
      };
      next = 1;
      pid_allocator = pid_allocator';
      pid2process = insert_into_pid2process pid initproc [];
      on_stacks = λ c. 0;
    }

abbrev pub thread_count : Process → ℕ
thread_count p = length p.tasks

-- `none` is a panic.
pub get_task : Process → ℕ → Option Thread
get_task p tid = do slot ← get_elem? p.tasks tid; slot

-- The child that `fork` makes.
abbrev pub forked : ℕ → ℕ → Process → Process
forked pid self parent = record {
  pid = pid;
  is_zombie = false;
  parent = some self;
  children = [];
  exit_code = pos 0;
  fd_table = parent.fd_table;
  tasks = main_thread;
}

-- `none` is a panic: the process has had more than one thread.
pub fork : ℕ → Processes → Option (ℕ × Processes)
unfolding get_task
fork self s = do
  let parent = s.process self
  assert (thread_count parent == 1)
  let (pid, pid_allocator') = alloc s.pid_allocator
  let child = s.next
  main ← get_task parent 0
  let parent' = record parent { children = parent.children ++ child ∷ [] }
  some (
    child,
    record {
      process = put child (forked pid self parent) (put self parent' s.process);
      next = suc s.next;
      pid_allocator = pid_allocator';
      pid2process = insert_into_pid2process pid child s.pid2process;
      on_stacks = λ c. if c == child then 0 else s.on_stacks c;
    },
  )

-- The loop that hands the children to `INITPROC`.
pub reparent : List ℕ → (ℕ → Process) → ℕ → Process
reparent [] process = process
reparent (child ∷ children) process =
    let process1 = put child (record (process child) { parent = some initproc }) process in
    let init = process1 initproc in
    reparent children
      (put initproc (record init { children = init.children ++ child ∷ [] }) process1)

-- The main thread of a process exits. `none` is a panic, or the end of the machine when `INITPROC` exits.
pub exit_main : ℕ → ℤ → Processes → Option Processes
unfolding reparent remove_from_pid2process
exit_main self exit_code s = do
  let p = s.process self
  assert (not (p.pid == idle_pid))
  pid2process' ← remove_from_pid2process p.pid s.pid2process
  let process1 = put self (record p { is_zombie = true; exit_code = exit_code }) s.process
  let process2 = reparent p.children process1
  let p' = record (process2 self) { children = []; fd_table = []; tasks = [] }
  some (record s { process = put self p' process2; pid2process = pid2process' })

-- The pid to wait for is a `usize`; -1 is any.
pub matches : ℕ → Process → Bool
matches pid p = (pid == 2 ^ 64 - 1) || (pid == p.pid)

pub any_child : ℕ → (ℕ → Process) → List ℕ → Bool
any_child pid process [] = false
any_child pid process (c ∷ cs) = matches pid (process c) || any_child pid process cs

-- The first child that matches and is a zombie, and the children without it.
pub take_zombie : ℕ → (ℕ → Process) → List ℕ → Option (ℕ × List ℕ)
unfolding matches
take_zombie pid process [] = none
take_zombie pid process (c ∷ cs) =
    let behind : Option (ℕ × List ℕ) = (do
      (found, rest) ← take_zombie pid process cs
      some (found, c ∷ rest)) in
    if (process c).is_zombie && matches pid (process c) then some (c, cs) else behind

-- How often a process is in a list, in those of all children, and in the table.
pub count : ℕ → List ℕ → ℕ
count c [] = 0
count c (x ∷ xs) = (if x == c then 1 else 0) + count c xs

pub total : (ℕ → ℕ) → ℕ → ℕ
total f zero = 0
total f (suc n) = total f n + f n

pub held : Processes → ℕ → ℕ
unfolding total count
held s c = total (λ a. count c (s.process a).children) s.next

pub tabled : ℕ → List (ℕ × ℕ) → ℕ
tabled c [] = 0
tabled c (e ∷ es) = (if e.1 == c then 1 else 0) + tabled c es

-- The references to a process in the children of processes and in the table.
abbrev pub references : Processes → ℕ → ℕ
references s c = held s c + tabled c s.pid2process

-- The result, the exit code that is written for the caller, and the processes. A child that is taken
-- from the list is dropped, and its pid is free. `none` is a panic.
pub reap : ℕ → ℕ → List ℕ → Option ℕ → Processes → Option (ℤ × Option ℤ × Processes)
unfolding held tabled
reap self child rest exit_code_ptr s = do
  let s' = record s { process = put self (record (s.process self) { children = rest }) s.process }
  assert (1 + references s' child + s.on_stacks child == 1)
  let c = s.process child
  place ← exit_code_ptr
  pid_allocator' ← dealloc s.pid_allocator c.pid
  some (as_isize (pos c.pid), some c.exit_code, record s' { pid_allocator = pid_allocator' })

pub wait_for : ℕ → Option (ℕ × List ℕ) → Option ℕ → Processes → Option (ℤ × Option ℤ × Processes)
unfolding reap
wait_for self none exit_code_ptr s = some (negsuc 1, none, s)
wait_for self (some (child, rest)) exit_code_ptr s = reap self child rest exit_code_ptr s

-- `exit_code_ptr` is the physical address that `translated_refmut` finds for the caller's pointer,
-- if any.
pub sys_waitpid : ℕ → ℕ → Option ℕ → Processes → Option (ℤ × Option ℤ × Processes)
unfolding any_child take_zombie wait_for
sys_waitpid self pid exit_code_ptr s =
    let found =
      wait_for self (take_zombie pid s.process (s.process self).children) exit_code_ptr s in
    if any_child pid s.process (s.process self).children then found else some (negsuc 0, none, s)

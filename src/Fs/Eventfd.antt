-- ===== src/Fs/Eventfd.antt =====
-- os/src/fs/eventfd.rs: event descriptors.
pub mod Counting
pub mod Tests
use t_core.Base.{
  ◌>>=◌, ◌>>◌, ℕ, ◌+◌, ◌-◌, ◌*◌, ◌/◌, ◌%◌, ◌^◌, Bool, true, false, Option, some, none, List, [],
  ◌∷◌, ◌++◌, if◌then◌else◌, ◌==◌, assert, length,
}
use t_core.Task.Scheduler.{Kernel, block_current_and_run_next, wakeup_task}

-- `Eventfd` with its `EventfdInner`.
pub record Eventfd : Type 0 where
  pub non_block : Bool
  pub semaphore : Bool
  pub count : ℕ
  pub wait_queue : List ℕ

pub new : Bool → Bool → ℕ → Eventfd
new non_block semaphore count = record {
  non_block = non_block;
  semaphore = semaphore;
  count = count;
  wait_queue = [];
}

-- `(non_block, semaphore)`, by the bits NONBLOCK and SEMAPHORE of the flags; DEFAULT has no bits, so
-- that all flags contain it, and the panic after it is out of reach.
pub nonblock_semaphore : Bool → Bool → Bool × Bool
nonblock_semaphore nonblock semaphore =
    if nonblock then (true, false) else if semaphore then (false, true) else (false, false)

pub eventfd_create : ℕ → Bool → Bool → Eventfd
unfolding nonblock_semaphore new
eventfd_create initval nonblock_flag semaphore_flag =
    let (non_block, semaphore) = nonblock_semaphore nonblock_flag semaphore_flag in
    new non_block semaphore initval

pub to_be_bytes : ℕ → List ℕ
to_be_bytes n = n / 2 ^ 24 % 2 ^ 8 ∷ n / 2 ^ 16 % 2 ^ 8 ∷ n / 2 ^ 8 % 2 ^ 8 ∷ n % 2 ^ 8 ∷ []

pub from_be_bytes : List ℕ → ℕ
from_be_bytes (a ∷ b ∷ c ∷ d ∷ _) = a * 2 ^ 24 + b * 2 ^ 16 + c * 2 ^ 8 + d
from_be_bytes _ = 0

-- The part of `read` after its loop: the bytes that it puts in the buffer.
take_count : Eventfd → ℕ → List ℕ × Eventfd
unfolding to_be_bytes
take_count e count =
    if e.semaphore
    then (to_be_bytes 1, record e { count = (e.count + 2 ^ 64 - 1) % 2 ^ 64 })
    else (to_be_bytes count, record e { count = 0 })

-- A round of `read`: it returns, with the bytes that it puts in a buffer of at least 4; or, with
-- `none`, the task waits, and goes through the next round when it runs again. The whole is `none` for
-- the panic when no task runs.
pub read_round : Eventfd → Kernel → Option (Option (List ℕ) × Eventfd × Kernel)
unfolding take_count
read_round e k =
    let count = e.count % 2 ^ 32 in
    let wait : Option (Option (List ℕ) × Eventfd × Kernel) = do
      task ← k.current
      k' ← block_current_and_run_next k
      some (none, record e { wait_queue = e.wait_queue ++ task ∷ [] }, k')
    in let empty : Option (Option (List ℕ) × Eventfd × Kernel) =
        if e.non_block then some (some [], e, k) else wait in
      let (bytes, e') = take_count e count in if count == 0 then empty else some (some bytes, e', k)

wake_front : List ℕ → Eventfd → Kernel → Eventfd × Kernel
wake_front [] e k = (e, k)
wake_front (task ∷ rest) e k = (record e { wait_queue = rest }, wakeup_task task k)

-- `none` is the failed assertion that the buffer has 4 bytes.
pub write : Eventfd → List ℕ → Kernel → Option (Eventfd × Kernel)
unfolding from_be_bytes wake_front
write e bytes k = do
  assert (length bytes == 4)
  let added = if e.semaphore then 1 else from_be_bytes bytes
  some (wake_front e.wait_queue (record e { count = (e.count + added) % 2 ^ 64 }) k)

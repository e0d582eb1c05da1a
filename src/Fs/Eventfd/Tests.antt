-- ===== src/Fs/Eventfd/Tests.antt =====
-- An instance of the result about eventfd.rs at a concrete kernel.
use t_core.Base.{ℕ, ◌≡◌, refl, true, false, []}
use t_core.Task.Scheduler.Tests.{three_tasks}
use t_core.Fs.Eventfd.{Eventfd, new, eventfd_create, nonblock_semaphore}
use t_core.Fs.Eventfd.Counting.{System}

-- 258 is written to a descriptor that counts 5, and all of it is read.
abbrev counts : ℕ → Eventfd
counts n = record { non_block = false; semaphore = false; count = n; wait_queue = [] }

abbrev drained : System
drained = record { kernel = three_tasks; eventfd = counts 0; given = 258; taken = 263 }

-- With both flags set the semaphore mode is off.
both_flags :
    eventfd_create 5 true true
    ≡ record { non_block = true; semaphore = false; count = 5; wait_queue = [] }
unfolding eventfd_create nonblock_semaphore new
both_flags = refl

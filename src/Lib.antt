-- ===== src/Lib.antt =====
-- A verification library for tCore, a teaching operating system for RISC-V in Rust: its kernel (os)
-- and its file system (easy-fs).
--
-- The kernel runs on one processor. A task that cannot go on puts itself in the queue of what it waits
-- for, blocks, and lets the scheduler fetch the next task; whoever ends the wait wakes it up, which puts
-- it in the ready queue again. Mutexes, semaphores, condition variables and event descriptors all work
-- this way; pipes yield instead. The file system stands on a cache of disk blocks: bitmaps say which
-- inodes and blocks are taken, an inode says where the blocks of a file are.
--
-- - Base: the Boolean tests on numbers, Option as a monad, lists indexed by numbers, integers, and what
--   the other files take from the standard library.
-- - Mm.FrameAllocator: os/src/mm/frame_allocator.rs (StackFrameAllocator, FrameTracker and its Drop).
-- - Mm.Address: os/src/mm/address.rs. An address or a page number is its number.
-- - Mm.PageTable: os/src/mm/page_table.rs, above a Memory of the frame allocator and the entries and
--   bytes of each frame. A page table's own frames are tables, all others hold bytes, so that a frame's
--   two views are not used both; mapping is what a walk through the tables finds for a page.
-- - Mm.MemorySet: os/src/mm/memory_set.rs, the areas of an address space above a page table.
-- - Task.Id: os/src/task/id.rs (RecycleAllocator, the addresses of stacks and trap contexts).
-- - Task.Scheduler: os/src/task/manager.rs, os/src/task/processor.rs and the switching functions of
--   os/src/task/mod.rs. Kernel is the state of TASK_MANAGER and PROCESSOR with the status of each task;
--   a task is a number, which stands for the address of its control block.
-- - Task.Process: the tree of processes and the table of pids, os/src/task/process.rs and
--   os/src/task/manager.rs, exit_current_and_run_next of os/src/task/mod.rs for a main thread, and
--   sys_waitpid of os/src/syscall/process.rs. A process is its address, and the references that the kernel
--   counts are those of the lists of children, of the table and of the kernel stacks of calls in progress;
--   the last are a number of the state, since the calls that keep them are not part of the tree. What
--   translated_refmut finds for a pointer of the user is an argument, `none` when it is not mapped.
-- - Task.Thread: os/src/syscall/thread.rs, and the exit of a thread that is not the main one.
-- - Task.Signal: os/src/task/signal.rs, os/src/task/action.rs, check_pending_signals and the functions
--   around it in os/src/task/mod.rs, and the calls on signals of os/src/syscall/process.rs.
-- - Sync.Mutex, Sync.Semaphore, Sync.Condvar: the files of these names under os/src/sync. A call that
--   blocks is modelled up to the switch to the next task; wait_resumed of Sync.Condvar is what wait does
--   after it.
-- - Sync.Masking: IntrMaskingInfo of os/src/sync/up.rs.
-- - Sync.Calls: os/src/syscall/sync.rs, the numbers of these objects in a process.
-- - Fs.Pipe, Fs.Eventfd: os/src/fs/pipe.rs and os/src/fs/eventfd.rs. A round is what read or write does
--   until it returns or gives up the processor.
-- - Fs.Descriptors: alloc_fd of os/src/task/process.rs, and the calls of os/src/syscall/fs.rs on the table
--   of descriptors.
-- - EasyFs.BlockCache: easy-fs/src/block_cache.rs, a manager above a disk.
-- - EasyFs.Bitmap: easy-fs/src/bitmap.rs.
-- - EasyFs.DiskInode, EasyFs.DirEntry: DiskInode and DirEntry of easy-fs/src/layout.rs;
--   EasyFs.DiskInode.Resize has increase_size and clear_size.
-- - EasyFs.Volume: easy-fs/src/efs.rs and SuperBlock of easy-fs/src/layout.rs.
--
-- A component's own file has its state and its operations, one definition each; the files under it have
-- the lemmas and the theorems, and its file Tests has concrete instances. Where a component runs in a
-- changing world, System is the state, Step one call of some task or one round of the scheduler, and
-- Reach a sequence of steps.
--
-- Numbers are natural numbers; arithmetic on u32 and usize that may wrap is written with its remainder,
-- as a release build computes it. A panic is `none`. The loops of read_at and write_at take as fuel the
-- number of bytes that are left (one more for write_at), since each round but the last moves at least one
-- byte; that this is enough is part of their theorems, for the blocks that the indexes of an inode reach. The loops of pipes are unbounded, and a run of
-- them is bounded by the number of bytes. copy_data moves a page in each round and has fuel for one round
-- more than there are whole pages; the loop of increase_size over rows fills an entry in each round and has
-- fuel for one round more than there are entries, which is proved to be enough. A disk block is a
-- function from positions to bytes; the blocks of a bitmap are taken as bits, which are other blocks of
-- the same disk.
--
-- Not modelled: drivers, traps and assembly, the dispatch of system calls, exec, the reading of an ELF
-- file and the kernel's own address space, directories over the file system, and the programs under user.
pub mod Base
pub mod Mm
pub mod Task
pub mod Sync
pub mod Fs
pub mod EasyFs

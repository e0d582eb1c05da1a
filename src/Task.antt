-- ===== src/Task.antt =====
-- os/src/task: ids and stacks, processes and threads, scheduling, signals.
pub mod Id
pub mod Process
pub mod Scheduler
pub mod Signal
pub mod Thread

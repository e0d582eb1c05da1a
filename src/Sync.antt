-- ===== src/Sync.antt =====
-- os/src/sync: mutexes, semaphores, condition variables and interrupt masking.
pub mod Mutex
pub mod Semaphore
pub mod Condvar
pub mod Masking
pub mod Calls

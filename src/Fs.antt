-- ===== src/Fs.antt =====
-- os/src/fs: pipes, event descriptors, and the descriptors of a process.
pub mod Pipe
pub mod Descriptors
pub mod Eventfd

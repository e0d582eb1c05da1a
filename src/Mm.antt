-- ===== src/Mm.antt =====
-- os/src/mm: physical frames, addresses and page tables.
pub mod FrameAllocator
pub mod Address
pub mod PageTable
pub mod MemorySet

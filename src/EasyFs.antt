-- ===== src/EasyFs.antt =====
-- The file system of easy-fs.
pub mod Bitmap
pub mod BlockCache
pub mod DiskInode
pub mod Volume
pub mod DirEntry

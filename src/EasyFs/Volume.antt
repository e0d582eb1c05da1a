-- ===== src/EasyFs/Volume.antt =====
-- easy-fs/src/efs.rs: where the parts of a file system lie on the disk, and its inodes and data blocks.
pub mod Areas
pub mod Tests
use t_core.Base.{
  ◌>>=◌, ◌>>◌, ℕ, ◌+◌, ◌-◌, ◌*◌, ◌/◌, ◌%◌, ◌^◌, Bool, Option, some, if◌then◌else◌, ◌==◌, assert,
}
use t_core.EasyFs.Bitmap.{Bitmap, Store, alloc, dealloc}
use t_core.EasyFs.DiskInode.{block_sz, Disk}

abbrev pub efs_magic : ℕ
efs_magic = 998244353

pub record SuperBlock : Type 0 where
  pub magic : ℕ
  pub total_blocks : ℕ
  pub inode_bitmap_blocks : ℕ
  pub inode_area_blocks : ℕ
  pub data_bitmap_blocks : ℕ
  pub data_area_blocks : ℕ

-- `SuperBlock::initialize`
pub super_block : ℕ → ℕ → ℕ → ℕ → ℕ → SuperBlock
super_block total_blocks inode_bitmap_blocks inode_area_blocks data_bitmap_blocks data_area_blocks =
    record {
      magic = efs_magic;
      total_blocks = total_blocks;
      inode_bitmap_blocks = inode_bitmap_blocks;
      inode_area_blocks = inode_area_blocks;
      data_bitmap_blocks = data_bitmap_blocks;
      data_area_blocks = data_area_blocks;
    }

abbrev pub is_valid : SuperBlock → Bool
is_valid s = s.magic == efs_magic

-- The device is a parameter of each call, where it is used.
pub record EasyFileSystem : Type 0 where
  pub inode_bitmap : Bitmap
  pub data_bitmap : Bitmap
  pub inode_area_start_block : ℕ
  pub data_area_start_block : ℕ

-- `size_of::<DiskInode>()`: 31 words of 4 bytes, and the type.
abbrev pub inode_size : ℕ
inode_size = 128

abbrev pub minus_u32 : ℕ → ℕ → ℕ
minus_u32 a b = (a + 2 ^ 32 - b) % 2 ^ 32

abbrev pub inode_area_of : ℕ → ℕ
inode_area_of inode_bitmap_blocks =
    let inode_bitmap : Bitmap = record { start_block_id = 1; blocks = inode_bitmap_blocks } in
    let inode_num = inode_bitmap.blocks * 4096 in
    (inode_num * inode_size + block_sz - 1) / block_sz % 2 ^ 32

-- The sizes that `create` computes and the file system that it describes.
pub create : ℕ → ℕ → EasyFileSystem × SuperBlock
unfolding super_block
create total_blocks inode_bitmap_blocks =
    let inode_area_blocks = inode_area_of inode_bitmap_blocks in
    let inode_total_blocks = (inode_bitmap_blocks + inode_area_blocks) % 2 ^ 32 in
    let data_total_blocks = minus_u32 (minus_u32 total_blocks 1) inode_total_blocks in
    let data_bitmap_blocks = (data_total_blocks + 4096) % 2 ^ 32 / 4097 in
    let data_area_blocks = minus_u32 data_total_blocks data_bitmap_blocks in
    (
      record {
        inode_bitmap = record { start_block_id = 1; blocks = inode_bitmap_blocks };
        data_bitmap = record {
          start_block_id = (1 + inode_bitmap_blocks + inode_area_blocks) % 2 ^ 32;
          blocks = data_bitmap_blocks;
        };
        inode_area_start_block = (1 + inode_bitmap_blocks) % 2 ^ 32;
        data_area_start_block = (1 + inode_total_blocks + data_bitmap_blocks) % 2 ^ 32;
      },
      super_block total_blocks inode_bitmap_blocks inode_area_blocks data_bitmap_blocks
          data_area_blocks,
    )

-- `EasyFileSystem::open`; `none` is the failed assertion that the super block is valid.
pub open_volume : SuperBlock → Option EasyFileSystem
open_volume s = do
  assert (is_valid s)
  let inode_total_blocks = (s.inode_bitmap_blocks + s.inode_area_blocks) % 2 ^ 32
  some (record {
    inode_bitmap = record { start_block_id = 1; blocks = s.inode_bitmap_blocks };
    data_bitmap = record {
      start_block_id = (1 + inode_total_blocks) % 2 ^ 32;
      blocks = s.data_bitmap_blocks;
    };
    inode_area_start_block = (1 + s.inode_bitmap_blocks) % 2 ^ 32;
    data_area_start_block = (1 + inode_total_blocks + s.data_bitmap_blocks) % 2 ^ 32;
  })

pub get_disk_inode_pos : EasyFileSystem → ℕ → ℕ × ℕ
get_disk_inode_pos efs inode_id =
    let inodes_per_block = block_sz / inode_size in
    (
      (efs.inode_area_start_block + inode_id / inodes_per_block) % 2 ^ 32,
      inode_id % inodes_per_block * inode_size,
    )

pub get_data_block_id : EasyFileSystem → ℕ → ℕ
get_data_block_id efs data_block_id = (efs.data_area_start_block + data_block_id) % 2 ^ 32

-- The bitmaps of the disk are a `Store`; `none` is the panic when no bit is clear.
pub alloc_inode : EasyFileSystem → Store → Option (ℕ × Store)
alloc_inode efs store = do
  let (found, store') = alloc efs.inode_bitmap store
  inode ← found
  some (inode % 2 ^ 32, store')

pub alloc_data : EasyFileSystem → Store → Option (ℕ × Store)
alloc_data efs store = do
  let (found, store') = alloc efs.data_bitmap store
  block ← found
  some ((block % 2 ^ 32 + efs.data_area_start_block) % 2 ^ 32, store')

-- The block is cleared, and its bit too.
pub dealloc_data : EasyFileSystem → ℕ → Disk → Store → Option (Disk × Store)
dealloc_data efs block_id disk store = do
  store' ← dealloc efs.data_bitmap (minus_u32 block_id efs.data_area_start_block) store
  some ((λ b i. if b == block_id then 0 else disk b i), store')

-- ===== src/EasyFs/DiskInode.antt =====
-- easy-fs/src/layout.rs: an inode on the disk, the blocks of its file, and reading and writing it.
pub mod Sizes
pub mod Blocks
pub mod Tests
pub mod Read
pub mod Write
pub mod Resize
use t_core.Base.{
  ◌>>=◌, ◌>>◌, ℕ, ◌+◌, ◌-◌, ◌*◌, ◌/◌, ◌%◌, ◌^◌, Option, some, none, if◌then◌else◌, assert, zero,
  suc, ◌==◌, leb, ltb, min,
}

abbrev pub block_sz : ℕ
block_sz = 512

abbrev pub inode_direct_count : ℕ
inode_direct_count = 28

abbrev pub inode_indirect1_count : ℕ
inode_indirect1_count = block_sz / 4

abbrev pub inode_indirect2_count : ℕ
inode_indirect2_count = inode_indirect1_count * inode_indirect1_count

abbrev pub indirect1_bound : ℕ
indirect1_bound = inode_direct_count + inode_indirect1_count

abbrev pub indirect2_bound : ℕ
indirect2_bound = indirect1_bound + inode_indirect2_count

-- A block as its bytes, the disk as its blocks, behind the block cache.
abbrev pub DataBlock : Type 0
DataBlock = ℕ → ℕ

abbrev pub Disk : Type 0
Disk = ℕ → DataBlock

pub data DiskInodeType : Type 0 where
  file : DiskInodeType
  directory : DiskInodeType

-- `direct` is the array of 28 entries.
pub record DiskInode : Type 0 where
  pub size : ℕ
  pub direct : ℕ → ℕ
  pub indirect1 : ℕ
  pub indirect2 : ℕ
  pub type_ : DiskInodeType

pub initialize : DiskInodeType → DiskInode
initialize type_ = record { size = 0; direct = λ i. 0; indirect1 = 0; indirect2 = 0; type_ = type_ }

abbrev pub data_blocks_of : ℕ → ℕ
data_blocks_of size = (size + block_sz - 1) % 2 ^ 32 / block_sz

abbrev pub data_blocks : DiskInode → ℕ
data_blocks inode = data_blocks_of inode.size

pub total_blocks : ℕ → ℕ
total_blocks size =
    let data_blocks = data_blocks_of size in
    let total = if ltb inode_direct_count data_blocks then data_blocks + 1 else data_blocks in
    let more =
      (data_blocks - indirect1_bound + inode_indirect1_count - 1) / inode_indirect1_count in
    (if ltb indirect1_bound data_blocks then total + 1 + more else total) % 2 ^ 32

-- `none` is the failed assertion that the file does not shrink.
pub blocks_num_needed : DiskInode → ℕ → Option ℕ
blocks_num_needed inode new_size = do
  assert (leb inode.size new_size)
  some ((total_blocks new_size + 2 ^ 32 - total_blocks inode.size) % 2 ^ 32)

-- Entry `i` of a block of `u32`s, with the least byte first.
pub entry : DataBlock → ℕ → ℕ
entry block i =
    block (4 * i)
    + 2 ^ 8 * block (4 * i + 1)
    + 2 ^ 16 * block (4 * i + 2)
    + 2 ^ 24 * block (4 * i + 3)

-- `none` is the index past the end of the second index block.
pub get_block_id : DiskInode → ℕ → Disk → Option ℕ
unfolding entry
get_block_id inode inner_id disk =
    let last = inner_id - indirect1_bound in
    let beyond : Option ℕ = do
      assert (ltb (last / inode_indirect1_count) inode_indirect1_count)
      let indirect1 = entry (disk inode.indirect2) (last / inode_indirect1_count)
      some (entry (disk indirect1) (last % inode_indirect1_count))
    in if ltb inner_id inode_direct_count
      then some (inode.direct inner_id)
      else if ltb inner_id indirect1_bound
      then some (entry (disk inode.indirect1) (inner_id - inode_direct_count))
      else beyond

-- A buffer: its length, and its bytes.
pub record Buffer : Type 0 where
  pub len : ℕ
  pub bytes : ℕ → ℕ

-- `buf[at..at + n].copy_from_slice(&block[from..from + n])`; `none` is a slice that is out of range.
pub copy_out : DataBlock → ℕ → ℕ → Buffer → ℕ → Option Buffer
copy_out block from n buf at = do
  assert (leb (from + n) block_sz)
  assert (leb (at + n) buf.len)
  some (record buf {
    bytes = λ i.
        if leb at i
        then (if ltb i (at + n) then block (from + (i - at)) else buf.bytes i)
        else buf.bytes i;
  })

-- `block[from..from + n].copy_from_slice(&buf[at..at + n])`
pub copy_in : DataBlock → ℕ → ℕ → Buffer → ℕ → Option DataBlock
copy_in block from n buf at = do
  assert (leb (from + n) block_sz)
  assert (leb (at + n) buf.len)
  some (λ j.
      if leb from j
      then (if ltb j (from + n) then buf.bytes (at + (j - from)) else block j)
      else block j)

-- The loop of `read_at`, with `fuel` for its rounds; `none` is a panic, or no fuel left.
pub read_loop : DiskInode → Disk → ℕ → ℕ → ℕ → ℕ → ℕ → Buffer → Option (ℕ × Buffer)
unfolding copy_out
read_loop inode disk end zero start start_block read_size buf = none
read_loop inode disk end (suc fuel) start start_block read_size buf = do
  let end_current_block = min ((start / block_sz + 1) * block_sz) end
  let block_read_size = end_current_block - start
  id ← get_block_id inode (start_block % 2 ^ 32) disk
  buf' ← copy_out (disk id) (start % block_sz) block_read_size buf read_size
  let rest =
      read_loop inode disk end fuel end_current_block (start_block + 1)
        (read_size + block_read_size) buf'
  if end_current_block == end then some (read_size + block_read_size, buf') else rest

pub read_at : DiskInode → ℕ → Buffer → Disk → Option (ℕ × Buffer)
unfolding read_loop
read_at inode offset buf disk =
    let end = min (offset + buf.len) inode.size in
    let result = read_loop inode disk end (end - offset) offset (offset / block_sz) 0 buf in
    if leb end offset then some (0, buf) else result

-- The loop of `write_at`.
pub write_loop : DiskInode → Buffer → ℕ → ℕ → ℕ → ℕ → ℕ → Disk → Option (ℕ × Disk)
unfolding copy_in
write_loop inode buf end zero start start_block write_size disk = none
write_loop inode buf end (suc fuel) start start_block write_size disk = do
  let end_current_block = min ((start / block_sz + 1) * block_sz) end
  let block_write_size = end_current_block - start
  id ← get_block_id inode (start_block % 2 ^ 32) disk
  block ← copy_in (disk id) (start % block_sz) block_write_size buf write_size
  let disk' : Disk = λ b. if b == id then block else disk b
  let rest =
      write_loop inode buf end fuel end_current_block (start_block + 1)
        (write_size + block_write_size) disk'
  if end_current_block == end then some (write_size + block_write_size, disk') else rest

-- `none` is also the failed assertion that the file reaches up to `offset`.
pub write_at : DiskInode → ℕ → Buffer → Disk → Option (ℕ × Disk)
unfolding write_loop
write_at inode offset buf disk = do
  let end = min (offset + buf.len) inode.size
  assert (leb offset end)
  write_loop inode buf end (end - offset + 1) offset (offset / block_sz) 0 disk

-- ===== src/EasyFs/DiskInode/Resize.antt =====
-- easy-fs/src/layout.rs: growing a file by new blocks, and clearing it.
pub mod Slots
pub mod Filling
pub mod Growth
pub mod Rows
pub mod Needs
pub mod Indirect
pub mod Whole
pub mod Lists
pub mod RoundTrip
pub mod Clearing
mod Tests
use t_core.Base.{
  ◌>>=◌, ◌>>◌, ℕ, zero, suc, ◌+◌, ◌-◌, ◌*◌, ◌/◌, ◌%◌, ◌^◌, ◌&&◌, ◌||◌, Bool, Option, none, some,
  List, [], ◌∷◌, ◌++◌, leb, ltb, ◌==◌, if◌then◌else◌, assert, min, max,
}
use t_core.EasyFs.DiskInode.{
  DiskInode, DataBlock, Disk, entry, data_blocks, data_blocks_of, inode_direct_count,
  inode_indirect1_count, inode_indirect2_count,
}

-- `block[i] = v` in a block of `u32`s.
pub set_entry : DataBlock → ℕ → ℕ → DataBlock
set_entry block i v p = if p / 4 == i then v / 2 ^ (8 * (p % 4)) % 2 ^ 8 else block p

-- The caches hold the blocks, so that an entry that is set in one is at once part of the disk.
pub write_entry : ℕ → ℕ → ℕ → Disk → Disk
unfolding set_entry
write_entry id i v disk b = if b == id then set_entry (disk id) i v else disk b

-- `new_blocks.next().unwrap()`
abbrev pub next : List ℕ → Option (ℕ × List ℕ)
next [] = none
next (block ∷ blocks) = some (block, blocks)

-- An index block is taken from the new ones if it is the first time that one is needed.
pub take_if : Bool → ℕ → List ℕ → Option (ℕ × List ℕ)
take_if first old blocks = if first then next blocks else some (old, blocks)

-- The loops over direct entries and those of an index block, with the number of rounds that are left.
pub fill_direct : ℕ → ℕ → DiskInode → List ℕ → Option (DiskInode × List ℕ)
fill_direct zero current inode blocks = some (inode, blocks)
fill_direct (suc n) current inode blocks = do
  (block, blocks') ← next blocks
  let inode' = record inode { direct = λ i. if i == current then block else inode.direct i }
  fill_direct n (suc current) inode' blocks'

pub fill_entries : ℕ → ℕ → ℕ → Disk → List ℕ → Option (Disk × List ℕ)
unfolding write_entry
fill_entries zero current id disk blocks = some (disk, blocks)
fill_entries (suc n) current id disk blocks = do
  (block, blocks') ← next blocks
  fill_entries n (suc current) id (write_entry id current block disk) blocks'

-- A round of the loop over rows: a new row starts with its index block.
pub start_row : ℕ → ℕ → ℕ → Disk → List ℕ → Option (Disk × List ℕ)
unfolding write_entry
start_row indirect2 a0 b0 disk blocks =
    let started : Option (Disk × List ℕ) = (do
      (block, blocks') ← next blocks
      some (write_entry indirect2 a0 block disk, blocks')) in
    if b0 == 0 then started else some (disk, blocks)

-- The loop from (a0, b0) to (a1, b1); `none` is a panic, or no fuel left.
pub fill_rows : ℕ → ℕ → ℕ → ℕ → ℕ → ℕ → Disk → List ℕ → Option (Disk × List ℕ)
unfolding start_row write_entry entry
fill_rows zero indirect2 a0 b0 a1 b1 disk blocks = none
fill_rows (suc fuel) indirect2 a0 b0 a1 b1 disk blocks =
    let round : Option (Disk × List ℕ) = (do
      assert (ltb a0 inode_indirect1_count)
      (disk1, blocks1) ← start_row indirect2 a0 b0 disk blocks
      (block, blocks2) ← next blocks1
      let disk2 = write_entry (entry (disk1 indirect2) a0) b0 block disk1
      let a0' = if b0 + 1 == inode_indirect1_count then a0 + 1 else a0
      let b0' = if b0 + 1 == inode_indirect1_count then 0 else b0 + 1
      fill_rows fuel indirect2 a0' b0' a1 b1 disk2 blocks2) in
    if ltb a0 a1 || (a0 == a1 && ltb b0 b1) then round else some (disk, blocks)

-- The rest of `increase_size` after each `return`: from the blocks beyond the first index block on.
pub grow_indirect2 : ℕ → ℕ → DiskInode → List ℕ → Disk → Option (DiskInode × Disk)
unfolding fill_rows take_if
grow_indirect2 current total inode blocks disk = do
  (indirect2, blocks') ← take_if (current == inode_indirect1_count) inode.indirect2 blocks
  let inode' = record inode { indirect2 = indirect2 }
  let current' = current - inode_indirect1_count
  let total' = total - inode_indirect1_count
  (disk', blocks'') ←
      fill_rows (total' + 1) inode'.indirect2 (current' / inode_indirect1_count)
        (current' % inode_indirect1_count) (total' / inode_indirect1_count)
        (total' % inode_indirect1_count) disk blocks'
  some (inode', disk')

pub grow_indirect1 : ℕ → ℕ → DiskInode → List ℕ → Disk → Option (DiskInode × Disk)
unfolding fill_entries grow_indirect2 take_if
grow_indirect1 current total inode blocks disk = do
  (indirect1, blocks') ← take_if (current == inode_direct_count) inode.indirect1 blocks
  let inode' = record inode { indirect1 = indirect1 }
  let current' = current - inode_direct_count
  let total' = total - inode_direct_count
  let filled = min total' inode_indirect1_count
  (disk', blocks'') ← fill_entries (filled - current') current' inode'.indirect1 disk blocks'
  if ltb inode_indirect1_count total'
      then grow_indirect2 (max current' filled) total' inode' blocks'' disk'
      else some (inode', disk')

-- `none` is the panic when `new_blocks` runs out.
pub increase_size : ℕ → List ℕ → DiskInode → Disk → Option (DiskInode × Disk)
unfolding fill_direct grow_indirect1
increase_size new_size new_blocks inode disk = do
  let current = data_blocks inode
  let total = data_blocks_of new_size
  let filled = min total inode_direct_count
  (inode', blocks) ←
      fill_direct (filled - current) current (record inode { size = new_size }) new_blocks
  if ltb inode_direct_count total
      then grow_indirect1 (max current filled) total inode' blocks disk
      else some (inode', disk)

-- `n` entries of an index block, from the first on.
pub entries_from : DataBlock → ℕ → ℕ → List ℕ
entries_from block i zero = []
entries_from block i (suc n) = entry block i ∷ entries_from block (suc i) n

pub directs_from : (ℕ → ℕ) → ℕ → ℕ → List ℕ
directs_from direct i zero = []
directs_from direct i (suc n) = direct i ∷ directs_from direct (suc i) n

-- The rows that are full, each its index block and all its entries.
pub full_rows : Disk → ℕ → ℕ → ℕ → List ℕ
unfolding entry entries_from
full_rows disk indirect2 i zero = []
full_rows disk indirect2 i (suc n) =
    let row = entry (disk indirect2) i in
    (row ∷ entries_from (disk row) 0 inode_indirect1_count) ++ full_rows disk indirect2 (suc i) n

-- The last row.
pub last_row : Disk → ℕ → ℕ → ℕ → List ℕ
unfolding entry entries_from
last_row disk indirect2 a1 b1 =
    let row = entry (disk indirect2) a1 in
    if ltb 0 b1 then row ∷ entries_from (disk row) 0 b1 else []

abbrev pub cleared : ℕ → DiskInode → DiskInode
cleared n inode = record inode { size = 0; direct = λ i. if ltb i n then 0 else inode.direct i }

-- The blocks to give back, and the inode; the blocks on the disk stay as they are. `none` is the failed
-- assertion that the rows fit in one index block.
pub clear_size : DiskInode → Disk → Option (List ℕ × DiskInode)
unfolding full_rows last_row entries_from directs_from
clear_size inode disk = do
  let data_blocks = data_blocks inode
  let filled = min data_blocks inode_direct_count
  let inode1 = cleared filled inode
  let v1 = directs_from inode.direct 0 filled
  let beyond = data_blocks - inode_direct_count
  let filled2 = min beyond inode_indirect1_count
  let v2 = v1 ++ inode.indirect1 ∷ entries_from (disk inode.indirect1) 0 filled2
  let inode2 = record inode1 { indirect1 = 0 }
  let rows = beyond - inode_indirect1_count
  let a1 = rows / inode_indirect1_count
  let b1 = rows % inode_indirect1_count
  let v3 =
      v2
      ++ inode.indirect2 ∷ full_rows disk inode.indirect2 0 a1
      ++ last_row disk inode.indirect2 a1 b1
  let all : Option (List ℕ × DiskInode) = (do
    assert (leb rows inode_indirect2_count)
    some (v3, record inode2 { indirect2 = 0 }))
  if leb data_blocks inode_direct_count
      then some (v1, inode1)
      else if leb beyond inode_indirect1_count
      then some (v2, inode2)
      else all

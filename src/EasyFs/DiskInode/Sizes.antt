-- ===== src/EasyFs/DiskInode/Sizes.antt =====
-- How many blocks a file of layout.rs takes.
use t_core.Base.{ℕ, ◌≡◌, ◌≤◌, ◌<◌, ◌+◌, ◌-◌, ◌*◌, ◌/◌, ◌%◌, ◌^◌, some, arith, if◌then◌else◌, leb}
use t_core.EasyFs.DiskInode.{DiskInode, block_sz, total_blocks, blocks_num_needed, indirect2_bound}

-- The index blocks that `n` data blocks need.
abbrev pub index_blocks : ℕ → ℕ
index_blocks n = if leb n 28 then 0 else if leb n 156 then 1 else 2 + (n - 156 + 127) / 128

total_blocks-eq :
    (size : ℕ)
    → size ≤ indirect2_bound * block_sz
    → total_blocks size ≡ (size + 511) / 512 + index_blocks ((size + 511) / 512)
unfolding total_blocks
total_blocks-eq size h = ground arith

total_mono : (a b : ℕ) → a ≤ b → a + index_blocks a ≤ b + index_blocks b
total_mono a b h = ground arith

total-bound : (n : ℕ) → n ≤ indirect2_bound → n + index_blocks n < 2 ^ 32
total-bound n h = ground arith

sub_wrap : (t t' : ℕ) → t ≤ t' → t' < 2 ^ 32 → (t' + 2 ^ 32 - t) % 2 ^ 32 ≡ t' - t
sub_wrap t t' h k = omega arith

difference : (t' n x : ℕ) → n + x ≤ t' → t' - (n + x) + n + x ≡ t'
difference t' n x h = omega arith

-- A file grows by the data blocks and the index blocks that it lacks: `blocks_num_needed` is the number
-- of data blocks of the new size less those of the old one, and the same for the index blocks, where
-- one block indexes those after the first 28, and one more each 128 after the first 156, with one that
-- indexes these. It does not wrap around, and the assertion holds. The condition is that the size
-- grows, up to the largest file that two levels of indexing address.
pub blocks_num_needed_lem :
    (inode : DiskInode) (new_size : ℕ)
    → inode.size ≤ new_size
    → new_size ≤ indirect2_bound * block_sz
    → (needed : ℕ) × (blocks_num_needed inode new_size ≡ some needed)
      × (needed + (inode.size + 511) / 512 + index_blocks ((inode.size + 511) / 512)
          ≡ (new_size + 511) / 512 + index_blocks ((new_size + 511) / 512))
unfolding blocks_num_needed
blocks_num_needed_lem inode new_size h k =
    let old = total_blocks-eq inode.size (omega arith) in
    let new = total_blocks-eq new_size k in
    let n = (inode.size + 511) / 512 in
    let n' = (new_size + 511) / 512 in
    let more : n + index_blocks n ≤ n' + index_blocks n' = total_mono n n' (omega arith) in
    let bounded : n' + index_blocks n' < 2 ^ 32 = total-bound n' (omega arith) in
    (
      n' + index_blocks n' - (n + index_blocks n),
      rw old (
          rw new
            (ground (arith, sub_wrap (n + index_blocks n) (n' + index_blocks n') more bounded))),
      difference (n' + index_blocks n') n (index_blocks n) more,
    )

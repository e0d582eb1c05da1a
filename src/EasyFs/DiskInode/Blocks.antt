-- ===== src/EasyFs/DiskInode/Blocks.antt =====
-- The blocks that the indexes of a file reach.
use t_core.Base.{
  ℕ, ◌-◌, ◌/◌, ◌%◌, ◌<◌, ◌≡◌, some, if◌then◌else◌, ltb, arith, Bool-cases, inl, inr, refl, true,
}
use t_core.EasyFs.DiskInode.{
  DiskInode, Disk, entry, get_block_id, inode_direct_count, inode_indirect1_count, indirect1_bound,
  indirect2_bound,
}

-- The number of block `inner_id` of a file, by the inode and its index blocks.
unfoldable pub block_id : DiskInode → ℕ → Disk → ℕ
unfolding entry
block_id inode inner_id disk =
    let last = inner_id - indirect1_bound in
    let indirect1 = entry (disk inode.indirect2) (last / inode_indirect1_count) in
    if ltb inner_id inode_direct_count
    then inode.direct inner_id
    else if ltb inner_id indirect1_bound
    then entry (disk inode.indirect1) (inner_id - inode_direct_count)
    else entry (disk indirect1) (last % inode_indirect1_count)

-- Within the reach of the indexes `get_block_id` does not panic.
pub get_block_id-block_id :
    (inode : DiskInode) (inner_id : ℕ) (disk : Disk)
    → inner_id < indirect2_bound
    → get_block_id inode inner_id disk ≡ some (block_id inode inner_id disk)
unfolding get_block_id block_id
get_block_id-block_id inode inner_id disk h = elim (Bool-cases (ltb inner_id 28)) [
  | inl e ↦ rw e refl
  | inr e ↦ elim (Bool-cases (ltb inner_id 156)) [
    | inl e' ↦ rw e (rw e' refl)
    | inr e' ↦
        let fits : ltb ((inner_id - 156) / 128) 128 ≡ true = ground arith in
        rw e (rw e' (rw fits refl))
  ]
]

-- ===== src/EasyFs/Volume/Areas.antt =====
-- The areas of a file system of efs.rs.
use t_core.Base.{
  ℕ, ◌≡◌, ◌≢◌, ◌≤◌, ◌<◌, ◌+◌, ◌*◌, ◌/◌, ◌%◌, ◌^◌, ◌⊎◌, refl, Bool, true, false, some, arith, ◌==◌,
  inl, inr, Bool-cases, ap, ltb,
}
use t_core.EasyFs.Bitmap.{Store, maximum}
use t_core.EasyFs.Bitmap.Rounds.{bit_at, written, alloc-lowest}
use t_core.EasyFs.DiskInode.{block_sz}
use t_core.EasyFs.Volume.{
  SuperBlock, EasyFileSystem, create, open_volume, super_block, is_valid, inode_area_of,
  get_disk_inode_pos, alloc_data,
}

-- Room for the super block, the inodes and a data block with its bit.
abbrev pub HasRoom : ℕ → ℕ → Type 0
HasRoom total_blocks inode_bitmap_blocks =
    (1 + inode_bitmap_blocks + inode_bitmap_blocks * 1024 + 2 ≤ total_blocks)
    × (total_blocks + 4096 < 2 ^ 32)

-- The super block, the inode bitmap, the inodes, the data bitmap and the data blocks follow each other
-- on the disk and end where it ends; there is a place for each inode of the bitmap, and a bit for each
-- data block.
pub record Areas (total_blocks : ℕ) (efs : EasyFileSystem) (s : SuperBlock) : Type 0 where
  pub valid : is_valid s ≡ true
  pub inodes_follow :
      efs.inode_area_start_block ≡ efs.inode_bitmap.start_block_id + efs.inode_bitmap.blocks
  pub bits_follow :
      efs.data_bitmap.start_block_id ≡ efs.inode_area_start_block + s.inode_area_blocks
  pub data_follow :
      efs.data_area_start_block ≡ efs.data_bitmap.start_block_id + efs.data_bitmap.blocks
  pub ends : efs.data_area_start_block + s.data_area_blocks ≡ total_blocks
  pub inodes_fit : efs.inode_bitmap.blocks * 4096 ≡ 4 * s.inode_area_blocks
  pub bits_suffice : s.data_area_blocks ≤ efs.data_bitmap.blocks * 4096

inode_area-eq : (n : ℕ) → n * 1024 < 2 ^ 32 → inode_area_of n ≡ n * 1024
inode_area-eq n h = omega arith

-- `create` lays out the areas of a file system one after the other, over the whole disk. The condition
-- is that the disk has room for the inodes and a data block, and fewer than 2 ^ 32 - 4096 blocks.
pub create-Areas :
    (total_blocks inode_bitmap_blocks : ℕ)
    → HasRoom total_blocks inode_bitmap_blocks
    → let (efs, s) = create total_blocks inode_bitmap_blocks in Areas total_blocks efs s
unfolding create super_block
create-Areas t n (h, k) = rw (inode_area-eq n (omega arith)) (record {
  valid = refl;
  inodes_follow = omega arith;
  bits_follow = omega arith;
  data_follow = omega arith;
  ends = omega arith;
  inodes_fit = omega arith;
  bits_suffice = omega arith;
})

-- What `create` writes to the super block, `open` reads: it gives the same file system, for every size
-- of the disk and of the inode bitmap.
pub open_volume-create :
    (total_blocks inode_bitmap_blocks : ℕ)
    → let (efs, s) = create total_blocks inode_bitmap_blocks in open_volume s ≡ some efs
unfolding create open_volume super_block
open_volume-create t n =
    let a : ℕ = inode_area_of n in
    let same : (1 + (n + a) % 2 ^ 32) % 2 ^ 32 ≡ (1 + n + a) % 2 ^ 32 = omega arith in rw same refl

-- Each inode of the bitmap has a place of its own: in the inode area, inside one block, and apart from
-- that of any other inode. The condition is that the areas are those of `create`, on a disk with fewer
-- than 2 ^ 32 blocks.
pub get_disk_inode_pos_apart :
    (total_blocks : ℕ) (efs : EasyFileSystem) (s : SuperBlock) (a b : ℕ)
    → Areas total_blocks efs s
    → total_blocks < 2 ^ 32
    → a < efs.inode_bitmap.blocks * 4096
    → b < efs.inode_bitmap.blocks * 4096
    → a ≢ b
    → let (block_a, offset_a) = get_disk_inode_pos efs a in
      let (block_b, offset_b) = get_disk_inode_pos efs b in
      (efs.inode_area_start_block ≤ block_a)
      × (block_a < efs.data_bitmap.start_block_id)
      × (offset_a + 128 ≤ block_sz)
      × ((block_a ≢ block_b) ⊎ ((offset_a + 128 ≤ offset_b) ⊎ (offset_b + 128 ≤ offset_a)))
unfolding get_disk_inode_pos
get_disk_inode_pos_apart t efs s a b v small ha hb ne =
    let i = v.inodes_fit in
    let f = v.bits_follow in
    let d = v.data_follow in
    let z = v.ends in
    (
      omega arith,
      omega arith,
      omega arith,
      elim (Bool-cases (a / 4 == b / 4)) [
        | inl e ↦ elim (Bool-cases (ltb (a % 4) (b % 4))) [
          | inl l ↦ inr (inl (ground arith))
          | inr l ↦ inr (inr (ground arith))
        ]
        | inr e ↦ inl (λ q. ground arith)
      ],
    )

both_ways : (b : Bool) → b ≡ true → b ≡ false → ⊥
both_ways b h k = ground arith

lowest_is :
    (store : Store) (start n b : ℕ)
    → ((c : ℕ) → c < n → bit_at start store c ≡ true)
    → bit_at start store n ≡ false
    → bit_at start store b ≡ false
    → ((c : ℕ) → c < b → bit_at start store c ≡ true)
    → b ≡ n
lowest_is store start n b full clear low lower = elim (Bool-cases (ltb b n)) [
  | inl e ↦ absurd (both_ways (bit_at start store b) (full b (ground arith)) low)
  | inr e ↦ elim (Bool-cases (ltb n b)) [
    | inl e' ↦ absurd (both_ways (bit_at start store n) (lower n (ground arith)) clear)
    | inr e' ↦ ground arith
  ]
]

-- On a disk whose data blocks are all given, the next one that `alloc_data` gives is the block past the
-- end of the disk, and not a panic, when the bitmap has a bit for it. The condition is that the areas
-- are those of `create`, on a disk with fewer than 2 ^ 32 blocks.
pub alloc_data_past_end :
    (total_blocks : ℕ) (efs : EasyFileSystem) (s : SuperBlock) (store : Store)
    → Areas total_blocks efs s
    → total_blocks < 2 ^ 32
    → s.data_area_blocks < efs.data_bitmap.blocks * 4096
    → ((c : ℕ) → c < s.data_area_blocks → bit_at efs.data_bitmap.start_block_id store c ≡ true)
    → bit_at efs.data_bitmap.start_block_id store s.data_area_blocks ≡ false
    → alloc_data efs store
      ≡ some (total_blocks, written efs.data_bitmap.start_block_id s.data_area_blocks true store)
unfolding alloc_data maximum
alloc_data_past_end t efs s store v small spare full clear =
    let n = s.data_area_blocks in
    let past : (n % 2 ^ 32 + efs.data_area_start_block) % 2 ^ 32 ≡ t = omega (arith, v.ends) in
    elim (alloc-lowest efs.data_bitmap store) [
      | inl (_, all) ↦ absurd (both_ways _ (all n spare) clear)
      | inr (b, e, below, low, lower, _) ↦
          let same : b ≡ n =
            lowest_is store efs.data_bitmap.start_block_id n b full clear low lower in
          rw e
            (rw same (ap (λ x. some (x, written efs.data_bitmap.start_block_id n true store)) past))
    ]

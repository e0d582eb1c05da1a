-- ===== src/EasyFs/DiskInode/Resize/Tests.antt =====
-- A file of 28 blocks of layout.rs that grows by two, with the first index block.
use t_core.Base.{ℕ, ◌≡◌, ◌<◌, ◌*◌, ◌+◌, some, List, [], ◌∷◌, ◌++◌, refl, arith}
use t_core.EasyFs.DiskInode.{DiskInode, Disk, file, blocks_num_needed, total_blocks}
use t_core.EasyFs.DiskInode.Read.{content}
use t_core.EasyFs.DiskInode.Resize.{increase_size, clear_size, directs_from, cleared}
use t_core.EasyFs.DiskInode.Resize.RoundTrip.{increase_size-clear_size}

abbrev full_file : DiskInode
full_file = record {
  size = 28 * 512;
  direct = λ i. 40 + i;
  indirect1 = 0;
  indirect2 = 0;
  type_ = file;
}

abbrev blank_disk : Disk
blank_disk = λ b i. 0

abbrev old_blocks : List ℕ
old_blocks =
    40 ∷ 41 ∷ 42 ∷ 43 ∷ 44 ∷ 45 ∷ 46 ∷ 47 ∷ 48 ∷ 49 ∷ 50 ∷ 51 ∷ 52 ∷ 53 ∷ 54 ∷ 55 ∷ 56 ∷ 57 ∷ 58
    ∷ 59 ∷ 60 ∷ 61 ∷ 62 ∷ 63 ∷ 64 ∷ 65 ∷ 66 ∷ 67 ∷ []

abbrev new_blocks : List ℕ
new_blocks = 70 ∷ 71 ∷ 72 ∷ []

clear_full : clear_size full_file blank_disk ≡ some (old_blocks, cleared 28 full_file)
unfolding clear_size directs_from
clear_full = refl

needs_three : blocks_num_needed full_file (30 * 512) ≡ some 3
unfolding blocks_num_needed total_blocks
needs_three = refl

increase_size-clear_size_example :
    (inode : DiskInode) × (disk : Disk) × (emptied : DiskInode) × (increase_size
        (30 * 512)
        new_blocks
        full_file
        blank_disk
      ≡ some (inode, disk))
    × (inode.size ≡ 30 * 512)
    × (inode.type_ ≡ file)
    × (clear_size inode disk ≡ some (old_blocks ++ new_blocks, emptied))
    × ((p : ℕ) → p < 28 * 512 → content inode disk p ≡ content full_file blank_disk p)
increase_size-clear_size_example =
    increase_size-clear_size full_file blank_disk (30 * 512) old_blocks new_blocks clear_full
      (omega arith) (omega arith) needs_three (ground arith) (omega arith)

-- ===== src/EasyFs/Volume/Tests.antt =====
-- Instances of the results about efs.rs on a disk of 32768 blocks with one block of inode bits.
use t_core.Base.{true, ◌≡◌, ◌+◌, ◌*◌, ◌-◌, refl, some, arith, ltb}
use t_core.EasyFs.Bitmap.{Store}
use t_core.EasyFs.Bitmap.Rounds.{written}
use t_core.EasyFs.Volume.{SuperBlock, EasyFileSystem, create, super_block, alloc_data}
use t_core.EasyFs.Volume.Areas.{Areas, create-Areas, alloc_data_past_end}

abbrev volume : EasyFileSystem
volume = record {
  inode_bitmap = record { start_block_id = 1; blocks = 1 };
  data_bitmap = record { start_block_id = 1026; blocks = 8 };
  inode_area_start_block = 2;
  data_area_start_block = 1034;
}

abbrev described : SuperBlock
described = record {
  magic = 998244353;
  total_blocks = 32768;
  inode_bitmap_blocks = 1;
  inode_area_blocks = 1024;
  data_bitmap_blocks = 8;
  data_area_blocks = 31734;
}

create-volume : create 32768 1 ≡ (volume, described)
unfolding create super_block
create-volume = refl

volume-Areas : Areas 32768 volume described
unfolding create super_block
volume-Areas = create-Areas 32768 1 (omega arith, omega arith)

create-Areas_example : Areas 32768 (create 32768 1).0 (create 32768 1).1
create-Areas_example = create-Areas 32768 1 (omega arith, omega arith)

-- The bits of all data blocks are set.
abbrev full : Store
full = λ b i j. ltb ((b - 1026) * 4096 + i * 64 + j) 31734

alloc_data_past_end_example : alloc_data volume full ≡ some (32768, written 1026 31734 true full)
alloc_data_past_end_example =
    alloc_data_past_end 32768 volume described full volume-Areas (omega arith) (omega arith)
      (λ c u. ground arith) refl

-- ===== src/EasyFs/DiskInode/Tests.antt =====
-- Instances of the results about layout.rs at a concrete file, and a run of it.
use t_core.Base.{some, ℕ, ◌≡◌, ◌<◌, ◌+◌, refl, arith, if◌then◌else◌, ltb}
use t_core.EasyFs.DiskInode.{DiskInode, Disk, Buffer, file, write_at, read_at}
use t_core.EasyFs.DiskInode.Blocks.{block_id}
use t_core.EasyFs.DiskInode.Read.{content, read_at-content}
use t_core.EasyFs.DiskInode.Write.{Separate}
use t_core.EasyFs.DiskInode.Write.Whole.{Stored, write_at-Stored, read_at-write_at}

-- A file of 1000 bytes in blocks 40 and 41.
abbrev letter : DiskInode
letter = record { size = 1000; direct = λ i. 40 + i; indirect1 = 0; indirect2 = 0; type_ = file }

abbrev sevens : Disk
sevens = λ b i. 7

-- Four bytes, to be written over the end of the first block.
abbrev word : Buffer
word = record { len = 4; bytes = λ i. 50 + i }

abbrev blank : Buffer
blank = record { len = 4; bytes = λ i. 0 }

letter-Separate : Separate letter 2 sevens
unfolding block_id
letter-Separate = record { distinct = λ i j u v e. ground arith; apart = λ i j u v. ground arith }

read_at-content_example :
    (buf' : Buffer) × (read_at letter 998 blank sevens ≡ some (2, buf'))
    × (buf'.len ≡ 4)
    × ((i : ℕ) → buf'.bytes i ≡ (if ltb i 2 then content letter sevens (998 + i) else 0))
read_at-content_example = read_at-content letter 998 blank sevens (omega arith)

write_at-Stored_example :
    (disk : Disk) × (write_at letter 510 word sevens ≡ some (4, disk))
    × Stored letter 510 4 word sevens disk
write_at-Stored_example =
    write_at-Stored letter 510 word sevens (omega arith) letter-Separate (omega arith) (omega arith)

read_at-write_at_example :
    (disk : Disk) × (read : Buffer) × (write_at letter 510 word sevens ≡ some (4, disk))
    × (read_at letter 510 blank disk ≡ some (4, read))
    × ((i : ℕ) → i < 4 → read.bytes i ≡ 50 + i)
read_at-write_at_example =
    read_at-write_at letter 510 word blank sevens (omega arith) letter-Separate (omega arith)
      (omega arith) refl

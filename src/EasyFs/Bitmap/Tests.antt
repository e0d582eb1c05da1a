-- ===== src/EasyFs/Bitmap/Tests.antt =====
-- Instances of the results about bitmap.rs at a concrete bitmap, and runs of it.
use t_core.Base.{◌⊎◌, ◌<◌, ℕ, ◌≡◌, refl, true, false, some, none, if◌then◌else◌, ◌==◌, ltb, ap}
use t_core.EasyFs.Bitmap.{
  Bitmap, Store, alloc, dealloc, alloc_from, alloc_in, find_word, is_full, trailing_ones, ones_from,
  maximum,
}
use t_core.EasyFs.Bitmap.Rounds.{bit_at, written, alloc-lowest}
use t_core.EasyFs.Bitmap.Release.{dealloc-alloc}

-- One block of bits, at block 5.
abbrev inodes : Bitmap
inodes = record { start_block_id = 5; blocks = 1 }

-- The first two words are full, of the third the lowest bit is set.
abbrev disk : Store
disk = λ b i j. if ltb i 2 then true else if i == 2 then j == 0 else false

alloc-disk : (alloc inodes disk).0 ≡ some 129
unfolding alloc alloc_from alloc_in find_word is_full trailing_ones ones_from
alloc-disk = refl

dealloc-alloc_example :
    (dealloc inodes 129 disk ≡ none)
    × ((left : Store) × (dealloc inodes 129 (alloc inodes disk).1 ≡ some left)
        × ((c : ℕ) → bit_at 5 left c ≡ bit_at 5 disk c))
dealloc-alloc_example =
    dealloc-alloc inodes disk (alloc inodes disk).1 129
      (ap (λ x. (x, (alloc inodes disk).1)) alloc-disk)

alloc-lowest_example :
    ((alloc inodes disk ≡ (none, disk)) × ((c : ℕ) → c < maximum inodes → bit_at 5 disk c ≡ true))
    ⊎ ((b : ℕ) × (alloc inodes disk ≡ (some b, written 5 b true disk))
        × (b < maximum inodes)
        × (bit_at 5 disk b ≡ false)
        × ((c : ℕ) → c < b → bit_at 5 disk c ≡ true)
        × ((c : ℕ)
            → bit_at 5 (written 5 b true disk) c ≡ (if c == b then true else bit_at 5 disk c)))
alloc-lowest_example = alloc-lowest inodes disk

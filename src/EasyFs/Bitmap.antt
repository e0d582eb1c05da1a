-- ===== src/EasyFs/Bitmap.antt =====
-- easy-fs/src/bitmap.rs: the bitmaps of the inodes and of the data blocks.
pub mod Alloc
pub mod Tests
pub mod Rounds
pub mod Release
use t_core.Base.{
  ◌>>=◌, ◌>>◌, ℕ, ◌+◌, ◌*◌, ◌/◌, ◌%◌, Bool, true, false, Option, some, none, if◌then◌else◌, assert,
  zero, suc, ◌==◌,
}

-- A word of a bitmap block as its 64 bits, a block as its 64 words, the store as its blocks.
abbrev pub Word : Type 0
Word = ℕ → Bool

abbrev pub BitmapBlock : Type 0
BitmapBlock = ℕ → Word

abbrev pub Store : Type 0
Store = ℕ → BitmapBlock

abbrev pub block_bits : ℕ
block_bits = 512 * 8

pub record Bitmap : Type 0 where
  pub start_block_id : ℕ
  pub blocks : ℕ

-- `(block_pos, bits64_pos, inner_pos)`
abbrev pub decomposition : ℕ → ℕ × ℕ × ℕ
decomposition bit = let rest = bit % block_bits in (bit / block_bits, rest / 64, rest % 64)

-- Counts the set bits from `pos` on, of which `n` are left: `trailing_ones` for all 64.
ones_from : ℕ → ℕ → Word → ℕ
ones_from pos zero w = 0
ones_from pos (suc n) w = if w pos then 1 + ones_from (pos + 1) n w else 0

trailing_ones : Word → ℕ
unfolding ones_from
trailing_ones w = ones_from 0 64 w

-- `word != u64::MAX`
is_full : ℕ → ℕ → Word → Bool
is_full pos zero w = true
is_full pos (suc n) w = if w pos then is_full (pos + 1) n w else false

-- The first of `n` words from `pos` on that has a clear bit.
find_word : ℕ → ℕ → BitmapBlock → Option ℕ
unfolding is_full
find_word pos zero block = none
find_word pos (suc n) block =
    let rest = find_word (pos + 1) n block in if is_full 0 64 (block pos) then rest else some pos

-- `block[bits64_pos]` with one bit written.
pub set_bit : ℕ → ℕ → Bool → BitmapBlock → BitmapBlock
set_bit word inner b block =
    λ i j. if i == word then (if j == inner then b else block i j) else block i j

pub set_block : ℕ → BitmapBlock → Store → Store
set_block id block store = λ i. if i == id then block else store i

-- The closure that `alloc` applies to one block: the position in the block, and the block after it.
pub alloc_in : BitmapBlock → Option (ℕ × ℕ × BitmapBlock)
unfolding find_word trailing_ones set_bit
alloc_in block = do
  bits64_pos ← find_word 0 64 block
  let inner_pos = trailing_ones (block bits64_pos)
  some (bits64_pos, inner_pos, set_bit bits64_pos inner_pos true block)

-- The loop of `alloc` from `block_id` on, with `n` blocks left.
pub alloc_from : ℕ → ℕ → ℕ → Store → Option ℕ × Store
unfolding alloc_in set_block
alloc_from start block_id zero store = (none, store)
alloc_from start block_id (suc n) store =
    let rest = alloc_from start (block_id + 1) n store in
    elim (alloc_in (store (block_id + start))) [
      | some (bits64_pos, inner_pos, block) ↦ (
        some (block_id * block_bits + bits64_pos * 64 + inner_pos),
        set_block (block_id + start) block store,
      )
      | none ↦ rest
    ]

pub alloc : Bitmap → Store → Option ℕ × Store
unfolding alloc_from
alloc m store = alloc_from m.start_block_id 0 m.blocks store

-- `none` is the failed assertion that the bit is set.
pub dealloc : Bitmap → ℕ → Store → Option Store
unfolding set_bit set_block
dealloc m bit store = do
  let (block_pos, bits64_pos, inner_pos) = decomposition bit
  let id = block_pos + m.start_block_id
  assert (store id bits64_pos inner_pos)
  some (set_block id (set_bit bits64_pos inner_pos false (store id)) store)

unfoldable pub maximum : Bitmap → ℕ
maximum m = m.blocks * block_bits

-- ===== src/Mm/PageTable.antt =====
-- os/src/mm/page_table.rs: page table entries, and the walk over three levels of tables.
pub mod Entries
pub mod Tree
pub mod Walk
pub mod Mapping
pub mod Lookup
pub mod Fresh
pub mod Frames
pub mod Tests
use t_core.Base.{
  ◌>>=◌, ◌>>◌, ℕ, ◌+◌, ◌*◌, ◌/◌, ◌%◌, ◌^◌, not, Bool, Option, none, some, List, [], ◌∷◌, ◌++◌, ◌==◌,
  if◌then◌else◌, assert,
}
use t_core.Mm.FrameAllocator.{StackFrameAllocator, FrameTracker, frame_alloc, phys_page_num}
use t_core.Mm.Address.{indexes, floor, page_offset, address_of, phys_addr}

-- The bits of `PTEFlags`, from 0 to 7.
abbrev pub flag_v : ℕ
flag_v = 0

abbrev pub flag_r : ℕ
flag_r = 1

abbrev pub flag_w : ℕ
flag_w = 2

abbrev pub flag_x : ℕ
flag_x = 3

abbrev pub flag_u : ℕ
flag_u = 4

-- An entry is its 64 bits. `PageTableEntry::new`: flags are 8 bits, the lower 10 bits are theirs.
pub pte : ℕ → ℕ → ℕ
pte ppn flags = ppn * 2 ^ 10 % 2 ^ 64 + flags

abbrev pub empty : ℕ
empty = 0

pub ppn_of : ℕ → ℕ
ppn_of bits = phys_page_num (bits / 2 ^ 10 % 2 ^ 44)

pub flags_of : ℕ → ℕ
flags_of bits = bits % 2 ^ 8

has_flag : ℕ → ℕ → Bool
unfolding flags_of
has_flag flag bits = flags_of bits / 2 ^ flag % 2 == 1

pub is_valid : ℕ → Bool
unfolding has_flag
is_valid bits = has_flag flag_v bits

pub readable : ℕ → Bool
unfolding has_flag
readable bits = has_flag flag_r bits

pub writable : ℕ → Bool
unfolding has_flag
writable bits = has_flag flag_w bits

pub executable : ℕ → Bool
unfolding has_flag
executable bits = has_flag flag_x bits

-- `flags | PTEFlags::V`
abbrev pub or_v : ℕ → ℕ
or_v flags = 2 * (flags / 2) + 1

-- Physical memory: the frames that are handed out, and what the pages hold. A page is used as a table,
-- of 512 entries, or for data, as 4096 bytes, and is cleared between the two.
pub record Memory : Type 0 where
  pub allocator : StackFrameAllocator
  pub entries : ℕ → ℕ → ℕ
  pub bytes : ℕ → ℕ → ℕ

abbrev pub write_entry : ℕ → ℕ → ℕ → Memory → Memory
write_entry ppn idx bits m = record m {
  entries = λ p i. if p == ppn then (if i == idx then bits else m.entries p i) else m.entries p i;
}

-- `FrameTracker::new` clears the page.
pub alloc_cleared : Memory → Option (FrameTracker × Memory)
alloc_cleared m = do
  (frame, allocator) ← frame_alloc m.allocator
  some (
    frame,
    record {
      allocator = allocator;
      entries = λ p i. if p == frame.ppn then 0 else m.entries p i;
      bytes = λ p i. if p == frame.ppn then 0 else m.bytes p i;
    },
  )

pub record PageTable : Type 0 where
  pub root_ppn : ℕ
  pub frames : List FrameTracker

pub new : Memory → Option (PageTable × Memory)
unfolding alloc_cleared
new m = do
  (frame, m') ← alloc_cleared m
  some (record { root_ppn = frame.ppn; frames = frame ∷ [] }, m')

pub from_token : ℕ → PageTable
from_token satp = record { root_ppn = phys_page_num (satp % 2 ^ 44); frames = [] }

-- The root's number fills the lower bits; 8 in the upper ones stands for three levels.
pub token : PageTable → ℕ
token pt = 8 * 2 ^ 60 + pt.root_ppn

-- A round of the loop of `find_pte_create` above the last level: the next table, made if it is missing.
unfoldable pub descend_create : ℕ → ℕ → PageTable → Memory → Option (ℕ × PageTable × Memory)
unfolding alloc_cleared is_valid ppn_of pte
descend_create ppn idx pt m =
    if is_valid (m.entries ppn idx) then some (ppn_of (m.entries ppn idx), pt, m) else do
      (frame, m') ← alloc_cleared m
      let bits = pte frame.ppn (2 ^ flag_v)
      some
          (ppn_of bits, record pt { frames = pt.frames ++ frame ∷ [] }, write_entry ppn idx bits m')

-- The table and the index of the entry for a page.
pub find_pte_create : PageTable → ℕ → Memory → Option ((ℕ × ℕ) × PageTable × Memory)
unfolding descend_create indexes
find_pte_create pt vpn m = do
  (ppn1, pt1, m1) ← descend_create pt.root_ppn (indexes vpn).0 pt m
  (ppn2, pt2, m2) ← descend_create ppn1 (indexes vpn).1 pt1 m1
  some ((ppn2, (indexes vpn).2), pt2, m2)

descend : ℕ → ℕ → Memory → Option ℕ
unfolding is_valid ppn_of
descend ppn idx m = if is_valid (m.entries ppn idx) then some (ppn_of (m.entries ppn idx)) else none

pub find_pte : PageTable → ℕ → Memory → Option (ℕ × ℕ)
unfolding descend indexes
find_pte pt vpn m = do
  ppn1 ← descend pt.root_ppn (indexes vpn).0 m
  ppn2 ← descend ppn1 (indexes vpn).1 m
  some (ppn2, (indexes vpn).2)

-- `none` is a panic: no frame is left, or the page is mapped already.
pub map_page : PageTable → ℕ → ℕ → ℕ → Memory → Option (PageTable × Memory)
unfolding find_pte_create is_valid pte
map_page pt vpn ppn flags m = do
  ((table, idx), pt', m') ← find_pte_create pt vpn m
  assert (not (is_valid (m'.entries table idx)))
  some (pt', write_entry table idx (pte ppn (or_v flags)) m')

-- `none` is a panic: the page is not mapped.
pub unmap_page : PageTable → ℕ → Memory → Option Memory
unfolding find_pte is_valid
unmap_page pt vpn m = do
  (table, idx) ← find_pte pt vpn m
  assert (is_valid (m.entries table idx))
  some (write_entry table idx empty m)

pub translate : PageTable → ℕ → Memory → Option ℕ
unfolding find_pte
translate pt vpn m = do (table, idx) ← find_pte pt vpn m; some (m.entries table idx)

pub translate_va : PageTable → ℕ → Memory → Option ℕ
unfolding find_pte ppn_of
translate_va pt va m = do
  (table, idx) ← find_pte pt (floor va) m
  some (phys_addr (address_of (ppn_of (m.entries table idx)) + page_offset va))

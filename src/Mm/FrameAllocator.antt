-- ===== src/Mm/FrameAllocator.antt =====
-- os/src/mm/frame_allocator.rs: the stack allocator of physical frames and its trackers.
pub mod Live
pub mod Trackers
pub mod Supply
mod Tests
use t_core.Base.{
  ◌>>=◌, ℕ, ◌+◌, ◌-◌, ◌%◌, ◌^◌, ◌||◌, Bool, Option, none, some, List, [], ◌∷◌, leb, ◌==◌, contains,
  if◌then◌else◌,
}

-- The head of `recycled` is the end of the vector.
pub record StackFrameAllocator : Type 0 where
  pub current : ℕ
  pub end : ℕ
  pub recycled : List ℕ

pub new : StackFrameAllocator
new = record { current = 0; end = 0; recycled = [] }

-- The frames `[l, r)` may be handed out; what was recycled stays.
pub init : StackFrameAllocator → ℕ → ℕ → StackFrameAllocator
init a l r = record a { current = l; end = r }

-- `PhysPageNum::from`: the low 44 bits.
abbrev pub phys_page_num : ℕ → ℕ
phys_page_num v = v % 2 ^ 44

-- The branches of `alloc` on an empty vector: `current` wraps as a `usize`.
alloc_fresh : StackFrameAllocator → Option (ℕ × StackFrameAllocator)
alloc_fresh a =
    if a.current == a.end
    then none
    else some (
      phys_page_num (((a.current + 1) % 2 ^ 64 + 2 ^ 64 - 1) % 2 ^ 64),
      record a { current = (a.current + 1) % 2 ^ 64 },
    )

alloc_from : List ℕ → StackFrameAllocator → Option (ℕ × StackFrameAllocator)
unfolding alloc_fresh
alloc_from [] a = alloc_fresh a
alloc_from (ppn ∷ rest) a = some (phys_page_num ppn, record a { recycled = rest })

pub alloc : StackFrameAllocator → Option (ℕ × StackFrameAllocator)
unfolding alloc_from
alloc a = alloc_from a.recycled a

-- `none` is the panic "has not been allocated".
pub dealloc : StackFrameAllocator → ℕ → Option StackFrameAllocator
dealloc a ppn =
    if leb a.current ppn || contains a.recycled ppn
    then none
    else some (record a { recycled = ppn ∷ a.recycled })

-- `FrameTracker`, without the page that it clears: `nodrop` frames are never given back.
pub record FrameTracker : Type 0 where
  pub ppn : ℕ
  pub nodrop : Bool

pub frame_alloc : StackFrameAllocator → Option (FrameTracker × StackFrameAllocator)
frame_alloc a = do (ppn, a') ← alloc a; some (record { ppn = ppn; nodrop = Bool.false }, a')

pub new_noalloc : ℕ → FrameTracker
new_noalloc ppn = record { ppn = ppn; nodrop = Bool.true }

-- `Drop for FrameTracker`
pub drop_tracker : StackFrameAllocator → FrameTracker → Option StackFrameAllocator
drop_tracker a t = if t.nodrop then some a else dealloc a t.ppn

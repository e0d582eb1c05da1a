-- ===== src/Mm/FrameAllocator/Supply.antt =====
-- How many frames of frame_allocator.rs are left to hand out.
use t_core.Base.{ℕ, ◌≡◌, ◌<◌, ◌+◌, ◌-◌, some, List, [], ◌∷◌, arith, length, false, ap, refl}
use t_core.Mm.FrameAllocator.{
  StackFrameAllocator, alloc, alloc_from, frame_alloc, drop_tracker, dealloc, alloc_fresh,
  phys_page_num,
}
use t_core.Mm.FrameAllocator.Live.{IsValid, Allocated, alloc-Allocated}

abbrev pub available : StackFrameAllocator → ℕ
available a = length a.recycled + (a.end - a.current)

alloc_from-available :
    (l : ℕ) (a : StackFrameAllocator) (xs : List ℕ)
    → a.recycled ≡ xs
    → IsValid l a
    → 0 < available a
    → (p : ℕ) × (a' : StackFrameAllocator) × (alloc_from xs a ≡ some (p, a'))
      × (available a' + 1 ≡ available a)
unfolding alloc_from alloc_fresh
alloc_from-available l a [] e v h =
    (phys_page_num a.current, record a { current = a.current + 1 }, ground arith, ground arith)
alloc_from-available l a (x ∷ xs) e v h =
    (phys_page_num x, record a { recycled = xs }, refl, ground (arith, ap length e))

-- What `frame_alloc` gives while frames are left.
abbrev pub Granted : ℕ → StackFrameAllocator → ℕ → StackFrameAllocator → Type 0
Granted l a p a' =
    (frame_alloc a ≡ some (record { ppn = p; nodrop = false }, a'))
    × (available a' + 1 ≡ available a)
    × Allocated l a p a'

-- While frames are left, `frame_alloc` gives one.
pub frame_alloc-Granted :
    (l : ℕ) (a : StackFrameAllocator)
    → IsValid l a
    → 0 < available a
    → (p : ℕ) × (a' : StackFrameAllocator) × Granted l a p a'
unfolding frame_alloc alloc
frame_alloc-Granted l a v h =
    let (p, a', e, n) = alloc_from-available l a a.recycled refl v h in
    (p, a', (rw e refl, n, alloc-Allocated l a v e))

pub drop_tracker-dealloc :
    (a : StackFrameAllocator) (p : ℕ)
    → drop_tracker a (record { ppn = p; nodrop = false }) ≡ dealloc a p
unfolding drop_tracker
drop_tracker-dealloc a p = refl

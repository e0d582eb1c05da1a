-- ===== src/Mm/FrameAllocator/Tests.antt =====
-- Instances of the results about frame_allocator.rs at concrete allocators.
use t_core.Base.{ℕ, ◌≡◌, refl, some, none, [], ◌∷◌, arith, false, if◌then◌else◌, ◌==◌}
use t_core.Mm.FrameAllocator.{
  StackFrameAllocator, FrameTracker, new, init, alloc, dealloc, frame_alloc,
}
use t_core.Mm.FrameAllocator.Live.{
  IsValid, Allocated, live, alloc-Allocated, dealloc-live, dealloc-panics, dealloc_below,
}
use t_core.Mm.FrameAllocator.Trackers.{System, Step, Reach, Tracked, Reach-Tracked}

-- Frames 5 to 9, of which 5 and 7 are in use, and 6 was given back.
abbrev used : StackFrameAllocator
used = record { current = 8; end = 10; recycled = 6 ∷ [] }

used-IsValid : IsValid 5 used
used-IsValid = ground arith

alloc-Allocated_example : Allocated 5 used 6 (record used { recycled = [] })
unfolding alloc
alloc-Allocated_example = alloc-Allocated 5 used used-IsValid refl

dealloc-live_example :
    (a' : StackFrameAllocator) × (dealloc used 7 ≡ some a')
    × IsValid 5 a'
    × (a'.end ≡ 10)
    × ((q : ℕ) → live 5 a' q ≡ (if q == 7 then false else live 5 used q))
dealloc-live_example = dealloc-live 5 used 7 used-IsValid refl

dealloc-panics_example : dealloc used 6 ≡ none
dealloc-panics_example = dealloc-panics 5 used 6 (omega arith) refl

dealloc_below_example :
    (a' : StackFrameAllocator) × (dealloc used 3 ≡ some a') × (alloc a' ≡ some (3, used))
dealloc_below_example = dealloc_below 5 used 3 used-IsValid (omega arith) refl

abbrev five : FrameTracker
five = record { ppn = 5; nodrop = false }

abbrev one_held : System
one_held = record { allocator = record { current = 6; end = 10; recycled = [] }; held = 5 ∷ [] }

one_held-Reach : Reach (record { allocator = init new 5 10; held = [] }) one_held
unfolding init new frame_alloc alloc
one_held-Reach = Reach.next Reach.here (Step.allocate five _ refl refl)

Reach-Tracked_example : Tracked 5 one_held
Reach-Tracked_example = Reach-Tracked 5 10 (omega arith) (omega arith) one_held-Reach

-- ===== src/Task/Id/Tests.antt =====
-- Instances of the results about id.rs at concrete ids.
use t_core.Base.{
  ℕ, ◌+◌, ◌≡◌, refl, some, none, [], ◌∷◌, arith, true, false, if◌then◌else◌, ◌==◌, ◌≤◌, ◌^◌, ◌-◌,
}
use t_core.Task.Id.{RecycleAllocator, alloc, dealloc, kernel_stack_position, trampoline}
use t_core.Task.Id.Recycle.{IsValid, in_use, alloc-in_use, dealloc-in_use, id_dealloc-panics}
use t_core.Task.Id.Layout.{kernel_stacks_apart}

-- 1 and 3 are free.
abbrev two_used : RecycleAllocator
two_used = record { current = 4; recycled = 3 ∷ 1 ∷ [] }

two_used-IsValid : IsValid two_used
two_used-IsValid = ground arith

alloc-in_use_example :
    IsValid (record two_used { recycled = 1 ∷ [] })
    × (in_use two_used 3 ≡ false)
    × ((q : ℕ)
        → in_use (record two_used { recycled = 1 ∷ [] }) q
          ≡ (if q == 3 then true else in_use two_used q))
    × (4 ≤ 4 + 1)
unfolding alloc
alloc-in_use_example = alloc-in_use two_used two_used-IsValid (omega arith)

dealloc-in_use_example :
    (a' : RecycleAllocator) × (dealloc two_used 2 ≡ some a')
    × IsValid a'
    × ((q : ℕ) → in_use a' q ≡ (if q == 2 then false else in_use two_used q))
    × (a'.current ≡ 4)
dealloc-in_use_example = dealloc-in_use two_used 2 two_used-IsValid refl

id_dealloc-panics_example : dealloc two_used 3 ≡ none
id_dealloc-panics_example = id_dealloc-panics two_used 3 refl

kernel_stacks_apart_example :
    let (bi, ti) = kernel_stack_position 2 in
    let (bj, tj) = kernel_stack_position 3 in
    (tj + 4096 ≤ bi)
    × (bj + 8192 ≡ tj)
    × (bi + 8192 ≡ ti)
    × (ti ≤ trampoline)
    × (2 ^ 64 - 2 ^ 38 ≤ bj)
kernel_stacks_apart_example = kernel_stacks_apart 2 3 (omega arith) (omega arith)

-- ===== src/Task/Id/Layout.antt =====
-- The address ranges of id.rs do not overlap.
use t_core.Base.{ℕ, ◌+◌, ◌-◌, ◌*◌, ◌^◌, ◌≤◌, ◌<◌, ◌≡◌, arith, ◌/◌}
use t_core.Task.Id.{
  kernel_stack_position, trap_cx_bottom_from_tid, ustack_bottom_from_tid, ustack_top, page_size,
  kernel_stack_size, user_stack_size, trampoline,
}

-- The number of kernel stacks, with their guard pages, that fit below the trampoline in the upper
-- half of the 39-bit address space.
abbrev pub max_kstacks : ℕ
max_kstacks = 2 ^ 38 / (kernel_stack_size + page_size) - 1

-- Two kernel stacks of different ids are separated by a page at least, both lie below the trampoline and
-- in the upper half of the 39-bit address space, and no address computation wraps, as long as the larger
-- id is at most `max_kstacks`, so that both stacks fit there.
pub kernel_stacks_apart :
    (i j : ℕ)
    → i < j
    → j ≤ max_kstacks
    → let (bi, ti) = kernel_stack_position i in
      let (bj, tj) = kernel_stack_position j in
      (tj + page_size ≤ bi)
      × (bj + kernel_stack_size ≡ tj)
      × (bi + kernel_stack_size ≡ ti)
      × (ti ≤ trampoline)
      × (2 ^ 64 - 2 ^ 38 ≤ bj)
unfolding kernel_stack_position
kernel_stacks_apart i j h k = omega arith

-- Within a process, the user stacks of two threads are separated by a page at least, their trap
-- contexts do not overlap and lie below the trampoline, and a thread's user stack lies below its trap
-- context, as long as the stacks of all threads end in the lower half of the address space.
pub user_regions_apart :
    (base i j : ℕ)
    → i < j
    → base + (j + 1) * (page_size + user_stack_size) ≤ 2 ^ 38
    → (j + 1) * page_size ≤ 2 ^ 38
    → (ustack_top base i + page_size ≤ ustack_bottom_from_tid base j)
      × (trap_cx_bottom_from_tid j + page_size ≤ trap_cx_bottom_from_tid i)
      × (trap_cx_bottom_from_tid i + page_size ≤ trampoline)
      × (ustack_top base j ≤ trap_cx_bottom_from_tid j)
unfolding ustack_top ustack_bottom_from_tid trap_cx_bottom_from_tid
user_regions_apart base i j h k m = omega arith

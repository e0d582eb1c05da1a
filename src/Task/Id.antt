-- ===== src/Task/Id.antt =====
-- os/src/task/id.rs: recycled ids, and where each thread's stacks and trap context lie.
pub mod Recycle
pub mod Layout
mod Tests
use t_core.Base.{
  ◌>>◌, ℕ, ◌+◌, ◌-◌, ◌*◌, ◌%◌, ◌^◌, Option, some, List, [], ◌∷◌, ltb, not, contains, assert,
}

-- The head of `recycled` is the end of the vector.
pub record RecycleAllocator : Type 0 where
  pub current : ℕ
  pub recycled : List ℕ

unfoldable pub new : RecycleAllocator
new = record { current = 0; recycled = [] }

unfoldable pub alloc_from : List ℕ → RecycleAllocator → ℕ × RecycleAllocator
alloc_from [] a = (
  ((a.current + 1) % 2 ^ 64 + 2 ^ 64 - 1) % 2 ^ 64,
  record a { current = (a.current + 1) % 2 ^ 64 },
)
alloc_from (id ∷ rest) a = (id, record a { recycled = rest })

unfoldable pub alloc : RecycleAllocator → ℕ × RecycleAllocator
unfolding alloc_from
alloc a = alloc_from a.recycled a

-- `none` is a failed assertion.
unfoldable pub dealloc : RecycleAllocator → ℕ → Option RecycleAllocator
dealloc a id = do
  assert (ltb id a.current)
  assert (not (contains a.recycled id))
  some (record a { recycled = id ∷ a.recycled })

-- os/src/config.rs
abbrev pub page_size : ℕ
page_size = 0x1000

abbrev pub kernel_stack_size : ℕ
kernel_stack_size = 4096 * 2

abbrev pub user_stack_size : ℕ
user_stack_size = 4096 * 2

abbrev pub trampoline : ℕ
trampoline = 2 ^ 64 - 1 - page_size + 1

abbrev pub trap_context_base : ℕ
trap_context_base = trampoline - page_size

-- `usize` arithmetic of a release build
abbrev pub usize_add : ℕ → ℕ → ℕ
usize_add a b = (a + b) % 2 ^ 64

abbrev pub usize_sub : ℕ → ℕ → ℕ
usize_sub a b = (a + 2 ^ 64 - b) % 2 ^ 64

abbrev pub usize_mul : ℕ → ℕ → ℕ
usize_mul a b = (a * b) % 2 ^ 64

-- (bottom, top)
pub kernel_stack_position : ℕ → ℕ × ℕ
kernel_stack_position kstack_id =
    let top = usize_sub trampoline (usize_mul kstack_id (kernel_stack_size + page_size)) in
    let bottom = usize_sub top kernel_stack_size in (bottom, top)

pub trap_cx_bottom_from_tid : ℕ → ℕ
trap_cx_bottom_from_tid tid = usize_sub trap_context_base (usize_mul tid page_size)

pub ustack_bottom_from_tid : ℕ → ℕ → ℕ
ustack_bottom_from_tid ustack_base tid =
    usize_add ustack_base (usize_mul tid (page_size + user_stack_size))

-- `TaskUserRes::ustack_top`
pub ustack_top : ℕ → ℕ → ℕ
ustack_top ustack_base tid = usize_add (ustack_bottom_from_tid ustack_base tid) user_stack_size

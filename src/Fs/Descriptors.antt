-- ===== src/Fs/Descriptors.antt =====
-- The descriptors of a process: alloc_fd of os/src/task/process.rs, and the calls of os/src/syscall/fs.rs
-- that open, close and copy them.
pub mod Sharing
mod Tests
use t_core.Base.{
  ◌>>=◌, ◌>>◌, ℕ, Option, some, none, List, [], ◌∷◌, ◌++◌, if◌then◌else◌, length, ltb, leb, ℤ, pos,
  negsuc, as_isize, set, assert,
}
use t_core.Sync.Calls.{first_empty, in_slot}

-- A file is its address.
alloc_at : Option ℕ → List (Option ℕ) → ℕ × List (Option ℕ)
alloc_at (some fd) fd_table = (fd, fd_table)
alloc_at none fd_table = (length fd_table, fd_table ++ none ∷ [])

pub alloc_fd : List (Option ℕ) → ℕ × List (Option ℕ)
unfolding alloc_at
alloc_fd fd_table = alloc_at (first_empty fd_table) fd_table

-- `fd_table[fd] = Some(file)`; `none` is the panic past the end.
pub install : ℕ → ℕ → List (Option ℕ) → Option (List (Option ℕ))
install fd file fd_table = do assert (ltb fd (length fd_table)); some (set fd_table fd (some file))

-- The end of `sys_open` and of `sys_eventfd`, with the file that was opened, if any.
pub sys_open : Option ℕ → List (Option ℕ) → Option (ℤ × List (Option ℕ))
unfolding alloc_fd install
sys_open none fd_table = some (negsuc 0, fd_table)
sys_open (some inode) fd_table = do
  let (fd, fd_table1) = alloc_fd fd_table
  fd_table2 ← install fd inode fd_table1
  some (as_isize (pos fd), fd_table2)

pub sys_close : ℕ → List (Option ℕ) → ℤ × List (Option ℕ)
sys_close fd fd_table =
    if leb (length fd_table) fd then (negsuc 0, fd_table) else elim (in_slot fd_table fd) [
      | none ↦ (negsuc 0, fd_table)
      | some file ↦ (pos 0, set fd_table fd none)
    ]

-- The two files are the ends of the new pipe. `first` and `second` are what `translated_refmut` finds for
-- the two words of the caller, if they are mapped; it panics, which is `none`, if they are not. The
-- result is the writes to these words, in their order, and the table; the value returned is 0.
pub sys_pipe :
    ℕ → ℕ → Option ℕ → Option ℕ → List (Option ℕ) → Option (List (ℕ × ℕ) × List (Option ℕ))
unfolding alloc_fd install
sys_pipe pipe_read pipe_write first second fd_table = do
  let (read_fd, fd_table1) = alloc_fd fd_table
  fd_table2 ← install read_fd pipe_read fd_table1
  let (write_fd, fd_table3) = alloc_fd fd_table2
  fd_table4 ← install write_fd pipe_write fd_table3
  first_word ← first
  second_word ← second
  some ((first_word, read_fd) ∷ (second_word, write_fd) ∷ [], fd_table4)

dup_file : Option ℕ → List (Option ℕ) → Option (ℤ × List (Option ℕ))
unfolding alloc_fd install
dup_file none fd_table = some (negsuc 0, fd_table)
dup_file (some file) fd_table = do
  let (new_fd, fd_table1) = alloc_fd fd_table
  fd_table2 ← install new_fd file fd_table1
  some (as_isize (pos new_fd), fd_table2)

pub sys_dup : ℕ → List (Option ℕ) → Option (ℤ × List (Option ℕ))
unfolding dup_file
sys_dup fd fd_table =
    let copied = dup_file (in_slot fd_table fd) fd_table in
    if leb (length fd_table) fd then some (negsuc 0, fd_table) else copied

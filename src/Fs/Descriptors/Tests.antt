-- ===== src/Fs/Descriptors/Tests.antt =====
-- Concrete instances of the theorems on descriptors.
use t_core.Base.{ℕ, ◌≡◌, ◌≢◌, refl, Option, some, none, List, [], ◌∷◌, pos, as_isize}
use t_core.Sync.Calls.{in_slot}
use t_core.Sync.Calls.Slots.{Placed}
use t_core.Fs.Descriptors.{sys_dup, sys_close, sys_pipe}
use t_core.Fs.Descriptors.Sharing.{sys_close-sys_dup, sys_pipe-Placed}

-- Standard input and output, with a gap.
abbrev table : List (Option ℕ)
table = some 0 ∷ none ∷ some 1 ∷ []

sys_close-sys_dup_example :
    (new_fd : ℕ) × (fd_table' : List (Option ℕ)) × (sys_dup 2 table
      ≡ some (as_isize (pos new_fd), fd_table'))
    × Placed 1 table new_fd fd_table'
    × (in_slot (sys_close 2 fd_table').1 new_fd ≡ some 1)
    × ((i : ℕ) → in_slot (sys_close new_fd fd_table').1 i ≡ in_slot table i)
unfolding in_slot
sys_close-sys_dup_example = sys_close-sys_dup table 2 1 refl

sys_pipe-Placed_example :
    (read_fd write_fd : ℕ) × (fd_table' fd_table'' : List (Option ℕ)) × (sys_pipe 7 8
        (some 4096)
        (some 4104)
        table
      ≡ some ((4096, read_fd) ∷ (4104, write_fd) ∷ [], fd_table''))
    × Placed 7 table read_fd fd_table'
    × Placed 8 fd_table' write_fd fd_table''
    × (read_fd ≢ write_fd)
    × (in_slot fd_table'' read_fd ≡ some 7)
sys_pipe-Placed_example = sys_pipe-Placed table 7 8 4096 4104

-- ===== src/Sync/Calls/Tests.antt =====
-- An instance of the result about the slots of syscall/sync.rs.
use t_core.Base.{ℕ, some, none, ◌∷◌, [], List, Option}
use t_core.Sync.Calls.{create_slot}
use t_core.Sync.Calls.Slots.{Placed, create_slot-Placed}

-- Number 1 is free.
abbrev table : List (Option ℕ)
table = some 7 ∷ none ∷ some 8 ∷ none ∷ []

create_slot-Placed_example : Placed 9 table (create_slot 9 table).0 (create_slot 9 table).1
create_slot-Placed_example = create_slot-Placed 9 table

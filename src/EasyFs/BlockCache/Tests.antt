-- ===== src/EasyFs/BlockCache/Tests.antt =====
-- An instance of the result about block_cache.rs at concrete changes.
use t_core.Base.{ℕ, ◌≡◌, ◌+◌, refl, some, List, [], ◌∷◌}
use t_core.EasyFs.DiskInode.{DataBlock, Disk}
use t_core.EasyFs.BlockCache.{Manager, block_cache_sync_all}
use t_core.EasyFs.BlockCache.Refines.Runs.{Fit, seen, run, run_plain, run-refines}

-- Block 3 is changed, then blocks 4 and 3.
abbrev changes : List (ℕ × (DataBlock → DataBlock))
changes = (3, λ d i. 1) ∷ (4, λ d i. d i + 2) ∷ (3, λ d i. d i + 5) ∷ []

abbrev sevens : Disk
sevens = λ b i. 7

changes_add_up : run_plain changes sevens 3 0 ≡ 6
changes_add_up = refl

run-refines_example :
    (m : Manager) × (run changes (record { queue = []; disk = sevens }) ≡ some m)
    × Fit m
    × ((b : ℕ) → seen m b ≡ run_plain changes sevens b)
    × ((b : ℕ) → (block_cache_sync_all m).disk b ≡ run_plain changes sevens b)
run-refines_example = run-refines changes sevens

-- ===== src/Sync/Masking/Tests.antt =====
-- Instances of the results about up.rs at concrete sections.
use t_core.Base.{◌≡◌, true, false, arith, All}
use t_core.Sync.Masking.{Masking}
use t_core.Sync.Masking.Nesting.{
  Sections, done, access, run, outside, run_restores, Off, sie_accessing,
}

-- An access with two others in it, then one more.
abbrev sections : Sections
sections = access (access done (access done done)) (access done done)

run_restores_example :
    (m : Masking) × (run sections (outside true false) ≡ m)
    × (m.sie ≡ true)
    × (m.nested_level ≡ 0)
    × All Off (sie_accessing sections (outside true false))
run_restores_example = run_restores sections true false (omega arith)

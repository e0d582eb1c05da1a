-- ===== src/Mm/Address/Tests.antt =====
-- Instances of the results about address.rs at concrete addresses.
use t_core.Base.{◌+◌, ◌*◌, ℕ, ◌≡◌, ◌≤◌, ◌<◌, ◌↔◌, refl, arith, some, [], ◌∷◌}
use t_core.Mm.Address.{floor, ceil, indexes, collect, next}
use t_core.Mm.Address.Rounding.{floor-ceil}

ceil_zero : ceil 0 ≡ 0
ceil_zero = refl

indexes_example : indexes (3 * 512 + 7) ≡ (0, 3, 7)
unfolding indexes
indexes_example = refl

collect_example : collect 3 (record { current = 5; end = 7 }) ≡ some (5 ∷ 6 ∷ [])
unfolding collect next
collect_example = refl

floor-ceil_example :
    ((floor 100 ≤ 1) × (1 < ceil 5000)) ↔ ((a : ℕ) × (100 ≤ a) × (a < 5000) × (floor a ≡ 1))
floor-ceil_example = floor-ceil 100 5000 1 (omega arith) (omega arith)

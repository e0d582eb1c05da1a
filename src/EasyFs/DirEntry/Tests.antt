-- ===== src/EasyFs/DirEntry/Tests.antt =====
-- Instances of the results about directory entries at concrete names.
use t_core.Base.{
  zero, suc, ◌≢◌, ℕ, ◌≡◌, refl, none, some, [], ◌∷◌, List, arith, replicate, length, All,
}
use t_core.EasyFs.DirEntry.{DirEntry, new, name}
use t_core.EasyFs.DirEntry.Names.{name-new, name-new_too_long}

-- "init"
abbrev init : List ℕ
init = 105 ∷ 110 ∷ 105 ∷ 116 ∷ []

name-new_example :
    (e : DirEntry) × (new init 7 ≡ some e)
    × (name e ≡ some init)
    × (e.inode_number ≡ 7)
    × (length e.name ≡ 28)
name-new_example =
    name-new init 7 (omega arith)
      (λ z. ground arith, (λ z. ground arith, (λ z. ground arith, (λ z. ground arith, tt))))

nonzero : (n : ℕ) → All {A = ℕ} (λ b. b ≢ 0) (replicate n 97)
nonzero zero = tt
nonzero (suc n) = (λ z. ground arith, nonzero n)

name-new_too_long_example : (e : DirEntry) × (new (replicate 28 97) 7 ≡ some e) × (name e ≡ none)
name-new_too_long_example = name-new_too_long (replicate 28 97) 7 refl (nonzero 28)

-- ===== src/EasyFs/DirEntry/Names.antt =====
-- The name that an entry of layout.rs keeps.
use t_core.Base.{
  length-append, length-replicate, ap, ◌∙◌, suc, ◌+◌, ℕ, suc, ◌≡◌, ◌≢◌, ◌≤◌, ◌+◌, ◌-◌, true, false,
  some, none, List, [], ◌∷◌, ◌++◌, arith, refl, ◌==◌, leb, length, replicate, All, length-append,
  length-replicate, append-nil, ap, ◌∙◌,
}
use t_core.EasyFs.DirEntry.{DirEntry, new, name, until_zero}

until_zero-zeros :
    (bytes : List ℕ) (n : ℕ)
    → All (λ b. b ≢ 0) bytes
    → until_zero (bytes ++ replicate (suc n) 0) ≡ some bytes
unfolding until_zero
until_zero-zeros [] n a = refl
until_zero-zeros (b ∷ bytes) n (h, a) =
    let other : b == 0 ≡ false = ground arith in rw other (rw (until_zero-zeros bytes n a) refl)

until_zero-none : (bytes : List ℕ) → All (λ b. b ≢ 0) bytes → until_zero bytes ≡ none
unfolding until_zero
until_zero-none [] a = refl
until_zero-none (b ∷ bytes) (h, a) =
    let other : b == 0 ≡ false = ground arith in rw other (rw (until_zero-none bytes a) refl)

-- An entry gives back the name and the number that it was made with. The conditions are that the name
-- has at most 27 bytes, none of them zero.
pub name-new :
    (bytes : List ℕ) (inode : ℕ)
    → length bytes ≤ 27
    → All (λ b. b ≢ 0) bytes
    → (e : DirEntry) × (new bytes inode ≡ some e)
      × (name e ≡ some bytes)
      × (e.inode_number ≡ inode)
      × (length e.name ≡ 28)
unfolding new name
name-new bytes inode h a =
    let fits : leb (length bytes) 28 ≡ true = ground arith in
    let n : ℕ = 27 - length bytes in
    let pad : 28 - length bytes ≡ suc n = omega arith in
    let zeros : length (replicate {A = ℕ} (suc n) 0) ≡ suc n = length-replicate (suc n) 0 in
    let total : length bytes + suc n ≡ 28 = omega arith in
    let all = length-append bytes (replicate (suc n) 0) in
    rw fits (
      rw pad
        (_, refl, until_zero-zeros bytes n a, refl, all ∙ ap (λ x. length bytes + x) zeros ∙ total))

-- A name of 28 bytes, one more than the limit, makes an entry as well, but to read its name is a panic.
pub name-new_too_long :
    (bytes : List ℕ) (inode : ℕ)
    → length bytes ≡ 28
    → All (λ b. b ≢ 0) bytes
    → (e : DirEntry) × (new bytes inode ≡ some e) × (name e ≡ none)
unfolding new name
name-new_too_long bytes inode h a =
    let fits : leb (length bytes) 28 ≡ true = ground arith in
    let full : 28 - length bytes ≡ 0 = omega arith in
    rw fits (_, refl, rw full (rw (append-nil bytes) (until_zero-none bytes a)))

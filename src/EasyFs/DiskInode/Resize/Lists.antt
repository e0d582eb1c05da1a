-- ===== src/EasyFs/DiskInode/Resize/Lists.antt =====
-- Lists of block numbers of layout.rs, as functions from places to numbers.
use t_core.Base.{
  ℕ, zero, suc, ◌≡◌, ◌<◌, ◌+◌, ◌-◌, true, arith, refl, sym, ap, ◌∙◌, List, [], ◌∷◌, ◌++◌, length,
  get_or, contains, Distinct, All,
}
use t_core.EasyFs.DiskInode.Resize.Growth.{numbers, blocks_left}

-- Number `j` of a list.
abbrev pub at : List ℕ → ℕ → ℕ
at xs j = get_or xs j 0

numbers-suc : (f : ℕ → ℕ) (k n : ℕ) → numbers f (suc k) n ≡ numbers (λ j. f (suc j)) k n
unfolding numbers
numbers-suc f k zero = refl
numbers-suc f k (suc n) = ap (◌∷◌ (f (suc k))) (numbers-suc f (suc k) n)

pub numbers-ext :
    (f g : ℕ → ℕ) (k n : ℕ) → ((j : ℕ) → j < k + n → f j ≡ g j) → numbers f k n ≡ numbers g k n
unfolding numbers
numbers-ext f g k zero h = refl
numbers-ext f g k (suc n) h =
    rw (h k (omega arith)) (ap (◌∷◌ (g k)) (numbers-ext f g (suc k) n (λ j u. h j (omega arith))))

pub length-numbers : (f : ℕ → ℕ) (k n : ℕ) → length (numbers f k n) ≡ n
unfolding numbers
length-numbers f k zero = refl
length-numbers f k (suc n) = ap suc (length-numbers f (suc k) n)

pub at-numbers : (f : ℕ → ℕ) (k n j : ℕ) → j < n → at (numbers f k n) j ≡ f (k + j)
unfolding numbers
at-numbers f k zero j h = absurd (omega arith)
at-numbers f k (suc n) zero h = let a : k ≡ k + zero = omega arith in ap f a
at-numbers f k (suc n) (suc j) h =
    let a : suc k + j ≡ k + suc j = omega arith in at-numbers f (suc k) n j (omega arith) ∙ ap f a

-- What is left of two lists after the first one.
pub blocks_left-append :
    (xs ys : List ℕ) → blocks_left (at (xs ++ ys)) (length xs) (length (xs ++ ys)) ≡ ys
unfolding blocks_left numbers
blocks_left-append [] [] = refl
blocks_left-append [] (y ∷ ys) =
    let a : suc (length ys) - 0 ≡ suc (length ys) = omega arith in
    let b : length ys - 0 ≡ length ys = omega arith in
    rw a (
      ap (◌∷◌ y) (
        numbers-suc (at (y ∷ ys)) 0 (length ys)
        ∙ (ap (numbers (at ys) 0) (sym b) ∙ blocks_left-append [] ys)))
blocks_left-append (x ∷ xs) ys =
    let a : suc (length (xs ++ ys)) - suc (length xs) ≡ length (xs ++ ys) - length xs =
      omega arith in
    rw a (
      numbers-suc (at (x ∷ xs ++ ys)) (length xs) (length (xs ++ ys) - length xs)
      ∙ blocks_left-append xs ys)

pub numbers-at : (xs : List ℕ) → numbers (at xs) 0 (length xs) ≡ xs
unfolding blocks_left
numbers-at xs =
    let a : length xs - 0 ≡ length xs = omega arith in
    ap (numbers (at xs) 0) (sym a) ∙ blocks_left-append [] xs

pub at-append : (xs ys : List ℕ) (j : ℕ) → j < length xs → at (xs ++ ys) j ≡ at xs j
at-append [] ys j h = absurd (omega arith)
at-append (x ∷ xs) ys zero h = refl
at-append (x ∷ xs) ys (suc j) h = at-append xs ys j (omega arith)

contains-at : (xs : List ℕ) (j : ℕ) → j < length xs → contains xs (at xs j) ≡ true
contains-at [] j h = absurd (omega arith)
contains-at (x ∷ xs) zero h = ground arith
contains-at (x ∷ xs) (suc j) h = ground (arith, contains-at xs j)

pub Distinct-at :
    (xs : List ℕ) (i j : ℕ)
    → Distinct xs
    → i < length xs
    → j < length xs
    → at xs i ≡ at xs j
    → i ≡ j
Distinct-at [] i j d h k e = absurd (omega arith)
Distinct-at (x ∷ xs) zero zero d h k e = refl
Distinct-at (x ∷ xs) zero (suc j) d h k e =
    absurd (ground (arith, contains-at xs j (omega arith), d.0))
Distinct-at (x ∷ xs) (suc i) zero d h k e =
    absurd (ground (arith, contains-at xs i (omega arith), d.0))
Distinct-at (x ∷ xs) (suc i) (suc j) d h k e =
    ap suc (Distinct-at xs i j d.1 (omega arith) (omega arith) e)

pub All-at {κ} : (P : ℕ → Type κ) (xs : List ℕ) (j : ℕ) → All P xs → j < length xs → P (at xs j)
All-at P [] j a h = absurd (omega arith)
All-at P (x ∷ xs) zero a h = a.0
All-at P (x ∷ xs) (suc j) a h = All-at P xs j a.1 (omega arith)

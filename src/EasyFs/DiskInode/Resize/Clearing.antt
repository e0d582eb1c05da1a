-- ===== src/EasyFs/DiskInode/Resize/Clearing.antt =====
-- `clear_size` of layout.rs gives back what the places hold, in order.
use t_core.Base.{
  ℕ, zero, suc, ◌≡◌, ◌<◌, ◌≤◌, ◌+◌, ◌-◌, ◌*◌, ◌/◌, ◌%◌, true, false, arith, refl, sym, ap, ◌∙◌, ltb,
  leb, Bool-cases, inl, inr, List, [], ◌∷◌, ◌++◌, some, min,
}
use mathlib.Core.Path.{ap₂}
use t_core.EasyFs.DiskInode.{DiskInode, DataBlock, Disk, entry, data_blocks, indirect2_bound}
use t_core.EasyFs.DiskInode.Resize.{
  clear_size, cleared, full_rows, last_row, entries_from, directs_from,
}
use t_core.EasyFs.DiskInode.Resize.Slots.{
  slot, slot-direct, slot-entry, slot-row, slot-cell, slot-indirect1, slot-indirect2,
}
use t_core.EasyFs.DiskInode.Resize.Growth.{numbers}
use t_core.EasyFs.DiskInode.Resize.Rows.{position}
use t_core.EasyFs.DiskInode.Resize.Needs.{slots_of, slots_of-beyond}

pub numbers-append :
    (f : ℕ → ℕ) (k n m : ℕ) → numbers f k (n + m) ≡ numbers f k n ++ numbers f (k + n) m
unfolding numbers
numbers-append f k zero m =
    let a : zero + m ≡ m = omega arith in let b : k + zero ≡ k = omega arith in rw a (rw b refl)
numbers-append f k (suc n) m =
    let a : suc n + m ≡ suc (n + m) = omega arith in
    let b : k + suc n ≡ suc k + n = omega arith in
    rw a (rw b (ap (◌∷◌ (f k)) (numbers-append f (suc k) n m)))

directs-numbers :
    (f : ℕ → ℕ) (direct : ℕ → ℕ) (i n : ℕ)
    → ((j : ℕ) → j < i + n → direct j ≡ f j)
    → directs_from direct i n ≡ numbers f i n
unfolding numbers directs_from
directs-numbers f direct i zero h = refl
directs-numbers f direct i (suc n) h =
    rw (h i (omega arith))
      (ap (◌∷◌ (f i)) (directs-numbers f direct (suc i) n (λ j u. h j (omega arith))))

at_zero :
    (f : ℕ → ℕ) (block : DataBlock) (i k : ℕ)
    → entry block (i + 0) ≡ f (k + 0)
    → entry block i ≡ f k
at_zero f block i k h =
    let a : i + 0 ≡ i = omega arith in
    let b : k + 0 ≡ k = omega arith in sym (ap (entry block) a) ∙ (h ∙ ap f b)

shifted :
    (f : ℕ → ℕ) (block : DataBlock) (i k j : ℕ)
    → entry block (i + suc j) ≡ f (k + suc j)
    → entry block (suc i + j) ≡ f (suc k + j)
shifted f block i k j h =
    let a : i + suc j ≡ suc i + j = omega arith in
    let b : k + suc j ≡ suc k + j = omega arith in sym (ap (entry block) a) ∙ (h ∙ ap f b)

entries-numbers :
    (f : ℕ → ℕ) (block : DataBlock) (i k n : ℕ)
    → ((j : ℕ) → j < n → entry block (i + j) ≡ f (k + j))
    → entries_from block i n ≡ numbers f k n
unfolding numbers entries_from
entries-numbers f block i k zero h = refl
entries-numbers f block i k (suc n) h =
    let first : entry block i ≡ f k = at_zero f block i k (h 0 (omega arith)) in
    rw first (
      ap (◌∷◌ (f k)) (
        entries-numbers f block (suc i) (suc k) n
          (λ j u. shifted f block i k j (h (suc j) (omega arith)))))

pub numbers-zero : (f : ℕ → ℕ) (k : ℕ) → numbers f k 0 ≡ []
unfolding numbers
numbers-zero f k = refl

cons_eq : (x y : ℕ) (xs ys : List ℕ) → x ≡ y → xs ≡ ys → ◌≡◌ {A = List ℕ} (x ∷ xs) (y ∷ ys)
cons_eq x y xs ys h k = rw h (rw k refl)

module _ (inode : DiskInode) (disk : Disk) where
  abbrev f : ℕ → ℕ
  f = slot inode disk

  cell_at :
      (a j : ℕ)
      → j < 128
      → entry (disk (entry (disk inode.indirect2) a)) (0 + j) ≡ f (suc (158 + 129 * a) + j)
  cell_at a j h =
      let x : 0 + j ≡ j = omega arith in
      let y : 159 + 129 * a + j ≡ suc (158 + 129 * a) + j = omega arith in
      ap (entry (disk (entry (disk inode.indirect2) a))) x
      ∙ (sym (slot-cell inode disk a j h) ∙ ap f y)

  row-numbers :
      (a n : ℕ)
      → n ≤ 128
      → entry (disk inode.indirect2) a ∷ entries_from (disk (entry (disk inode.indirect2) a)) 0 n
        ≡ numbers f (158 + 129 * a) (suc n)
  unfolding numbers
  row-numbers a n h = cons_eq _ _ _ _ (sym (slot-row inode disk a)) (
      entries-numbers f (disk (entry (disk inode.indirect2) a)) 0 (suc (158 + 129 * a)) n
        (λ j u. cell_at a j (omega arith)))

  full_rows-step :
      (i n : ℕ)
      → full_rows disk inode.indirect2 i (suc n)
        ≡ (entry (disk inode.indirect2) i
            ∷ entries_from (disk (entry (disk inode.indirect2) i)) 0 128)
          ++ full_rows disk inode.indirect2 (suc i) n
  unfolding full_rows
  full_rows-step i n = refl

  full_rows-zero : (i : ℕ) → full_rows disk inode.indirect2 i 0 ≡ []
  unfolding full_rows
  full_rows-zero i = refl

  full_rows-numbers :
      (i n : ℕ) → full_rows disk inode.indirect2 i n ≡ numbers f (158 + 129 * i) (129 * n)
  full_rows-numbers i zero = full_rows-zero i ∙ sym (numbers-zero f _)
  full_rows-numbers i (suc n) =
      let count : 129 * suc n ≡ 129 + 129 * n = omega arith in
      let start : 158 + 129 * i + 129 ≡ 158 + 129 * suc i = omega arith in
      full_rows-step i n
      ∙ (ap₂ ◌++◌ (row-numbers i 128 (omega arith))
            (full_rows-numbers (suc i) n ∙ ap (λ x. numbers f x (129 * n)) (sym start))
          ∙ (sym (numbers-append f (158 + 129 * i) 129 (129 * n))
              ∙ ap (numbers f (158 + 129 * i)) (sym count)))

  last_row-zero : (a : ℕ) → last_row disk inode.indirect2 a 0 ≡ []
  unfolding last_row
  last_row-zero a = refl

  last_row-some :
      (a b : ℕ)
      → ltb 0 b ≡ true
      → last_row disk inode.indirect2 a b
        ≡ entry (disk inode.indirect2) a ∷ entries_from (disk (entry (disk inode.indirect2) a)) 0 b
  unfolding last_row
  last_row-some a b h = rw h refl

  last_row-numbers :
      (a b : ℕ)
      → b < 128
      → last_row disk inode.indirect2 a b
        ≡ numbers f (158 + 129 * a) (position a b - (158 + 129 * a))
  last_row-numbers a zero h =
      let none_left : 158 + 129 * a - (158 + 129 * a) ≡ 0 = omega arith in
      last_row-zero a ∙ sym (ap (numbers f (158 + 129 * a)) none_left ∙ numbers-zero f _)
  last_row-numbers a (suc b) h =
      let count : suc (suc b) ≡ position a (suc b) - (158 + 129 * a) = ground arith in
      last_row-some a (suc b) (ground arith)
      ∙ (row-numbers a (suc b) (omega arith) ∙ ap (numbers f (158 + 129 * a)) count)

  abbrev d : ℕ
  d = data_blocks inode

  -- The direct entries, with the first index block and its entries, with the second and its rows.
  abbrev v1 : ℕ → List ℕ
  v1 n = directs_from inode.direct 0 n

  abbrev v2 : ℕ → ℕ → List ℕ
  v2 n n2 = v1 n ++ inode.indirect1 ∷ entries_from (disk inode.indirect1) 0 n2

  abbrev v3 : ℕ → ℕ → ℕ → List ℕ
  v3 n n2 rows =
      v2 n n2
      ++ inode.indirect2 ∷ full_rows disk inode.indirect2 0 (rows / 128)
      ++ last_row disk inode.indirect2 (rows / 128) (rows % 128)

  -- What `clear_size` leaves of the inode.
  abbrev Emptied : DiskInode → Type 0
  Emptied inode' = (inode'.size ≡ 0) × (inode'.type_ ≡ inode.type_)

  v1-numbers : (n : ℕ) → n ≤ 28 → v1 n ≡ numbers f 0 n
  v1-numbers n h =
      directs-numbers f inode.direct 0 n (λ j u. sym (slot-direct inode disk j (omega arith)))

  first_at : (j : ℕ) → j < 128 → entry (disk inode.indirect1) (0 + j) ≡ f (29 + j)
  first_at j h =
      let x : 0 + j ≡ j = omega arith in
      ap (entry (disk inode.indirect1)) x ∙ sym (slot-entry inode disk j h)

  first_entries :
      (n2 : ℕ)
      → n2 ≤ 128
      → inode.indirect1 ∷ entries_from (disk inode.indirect1) 0 n2 ≡ numbers f 28 (suc n2)
  unfolding numbers
  first_entries n2 h =
      cons_eq _ _ _ _ (sym (slot-indirect1 inode disk))
        (entries-numbers f (disk inode.indirect1) 0 29 n2 (λ j u. first_at j (omega arith)))

  v2-numbers : (n2 : ℕ) → n2 ≤ 128 → v2 28 n2 ≡ numbers f 0 (29 + n2)
  v2-numbers n2 h =
      let count : 28 + suc n2 ≡ 29 + n2 = omega arith in
      ap₂ ◌++◌ (v1-numbers 28 (omega arith)) (first_entries n2 h)
      ∙ (sym (numbers-append f 0 28 (suc n2)) ∙ ap (numbers f 0) count)

  second_rows :
      (a : ℕ) → inode.indirect2 ∷ full_rows disk inode.indirect2 0 a ≡ numbers f 157 (suc (129 * a))
  unfolding numbers
  second_rows a = cons_eq _ _ _ _ (sym (slot-indirect2 inode disk)) (full_rows-numbers 0 a)

  numbers-join : (n m : ℕ) → numbers f 0 n ++ numbers f n m ≡ numbers f 0 (n + m)
  numbers-join n m =
      let start : 0 + n ≡ n = omega arith in
      ap (λ x. numbers f 0 n ++ numbers f x m) (sym start) ∙ sym (numbers-append f 0 n m)

  v3-numbers : (rows : ℕ) → v3 28 128 rows ≡ numbers f 0 (position (rows / 128) (rows % 128))
  v3-numbers rows =
      let a : ℕ = rows / 128 in
      let b : ℕ = rows % 128 in
      let first : 158 + 129 * 0 ≡ 158 = refl in
      let end : ℕ = position a b in
      let row : ℕ = 158 + 129 * a in
      let c1 : 157 + suc (129 * a) ≡ row = omega arith in
      let c2 : row + (end - row) ≡ end = ground arith in
      ap₂ ◌++◌
        (ap₂ ◌++◌ (v2-numbers 128 (omega arith)) (second_rows a)
          ∙ (sym (numbers-append f 0 157 (suc (129 * a))) ∙ ap (numbers f 0) c1))
        (last_row-numbers a b (omega arith))
      ∙ (numbers-join row (end - row) ∙ ap (numbers f 0) c2)

  clear_size-small :
      leb d 28 ≡ true
      → (inode' : DiskInode) × (clear_size inode disk ≡ some (v1 (min d 28), inode'))
        × Emptied inode'
  unfolding clear_size
  clear_size-small h = (cleared (min d 28) inode, rw h refl, (refl, refl))

  clear_size-middle :
      leb d 28 ≡ false
      → leb (d - 28) 128 ≡ true
      → (inode' : DiskInode) × (clear_size inode disk
          ≡ some (v2 (min d 28) (min (d - 28) 128), inode'))
        × Emptied inode'
  unfolding clear_size
  clear_size-middle h k =
      (record (cleared (min d 28) inode) { indirect1 = 0 }, rw h (rw k refl), (refl, refl))

  clear_size-large :
      leb d 28 ≡ false
      → leb (d - 28) 128 ≡ false
      → leb (d - 28 - 128) 16384 ≡ true
      → (inode' : DiskInode) × (clear_size inode disk
          ≡ some (v3 (min d 28) (min (d - 28) 128) (d - 28 - 128), inode'))
        × Emptied inode'
  unfolding clear_size
  clear_size-large h k w = (
    record (cleared (min d 28) inode) { indirect1 = 0; indirect2 = 0 },
    rw h (rw k (rw w refl)),
    (refl, refl),
  )

  -- `clear_size` gives the numbers of all blocks of the file, those of the index blocks with them, in the
  -- order of the places, each once, and leaves an empty file.
  pub clear_size-numbers :
      d ≤ indirect2_bound
      → (inode' : DiskInode) × (clear_size inode disk ≡ some (numbers f 0 (slots_of d), inode'))
        × (inode'.size ≡ 0)
        × (inode'.type_ ≡ inode.type_)
  clear_size-numbers h = elim (Bool-cases (leb d 28)) [
    | inl small ↦
        let (inode', e, (size, type)) = clear_size-small small in
        let count : min d 28 ≡ slots_of d = ground arith in
        let all : v1 (min d 28) ≡ numbers f 0 (slots_of d) =
          v1-numbers (min d 28) (omega arith) ∙ ap (numbers f 0) count in
        (inode', e ∙ ap (λ v. some (v, inode')) all, size, type)
    | inr more ↦ elim (Bool-cases (leb (d - 28) 128)) [
      | inl middle ↦
          let (inode', e, (size, type)) = clear_size-middle more middle in
          let full : min d 28 ≡ 28 = ground arith in
          let count : 29 + min (d - 28) 128 ≡ slots_of d = ground arith in
          let all : v2 (min d 28) (min (d - 28) 128) ≡ numbers f 0 (slots_of d) =
            ap (λ x. v2 x (min (d - 28) 128)) full
            ∙ (v2-numbers (min (d - 28) 128) (omega arith) ∙ ap (numbers f 0) count) in
          (inode', e ∙ ap (λ v. some (v, inode')) all, size, type)
      | inr large ↦
          let (inode', e, (size, type)) = clear_size-large more large (ground arith) in
          let full : min d 28 ≡ 28 = ground arith in
          let full2 : min (d - 28) 128 ≡ 128 = ground arith in
          let rest : d - 28 - 128 ≡ d - 156 = omega arith in
          let all : v3 (min d 28) (min (d - 28) 128) (d - 28 - 128) ≡ numbers f 0 (slots_of d) =
            rw full (
              rw full2 (
                rw rest (
                  v3-numbers (d - 156)
                  ∙ ap (numbers f 0) (sym (slots_of-beyond d (ground arith)))))) in
          (inode', e ∙ ap (λ v. some (v, inode')) all, size, type)
    ]
  ]

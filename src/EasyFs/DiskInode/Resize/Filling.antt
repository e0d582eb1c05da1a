-- ===== src/EasyFs/DiskInode/Resize/Filling.antt =====
-- Filling the next place of layout.rs keeps the numbers in all places before it.
use t_core.Base.{
  ℕ, suc, ◌≡◌, ◌≢◌, ◌<◌, ◌+◌, ◌*◌, ◌==◌, Bool, true, false, arith, if◌then◌else◌, refl, sym, ap,
  ◌∙◌, Bool-cases, inl, inr, ==-true, ==-self,
}
use t_core.EasyFs.DiskInode.{DiskInode, Disk, entry}
use t_core.EasyFs.DiskInode.Resize.{write_entry}
use t_core.EasyFs.DiskInode.Resize.Slots.{
  slot, Place, place, at_direct, at_indirect1, at_entry, at_indirect2, at_row, at_cell, slot-direct,
  slot-indirect1, slot-indirect2, slot-entry, slot-row, slot-cell, Filled, Separate,
  write_entry-lem,
}

set_or_old :
    (c : Bool) (a b d : ℕ) → (c ≡ true → a ≡ d) → (c ≡ false → b ≡ d) → (if c then a else b) ≡ d
set_or_old true a b d h g = h refl
set_or_old false a b d h g = g refl

==-false : (a b : ℕ) → a ≢ b → (a == b) ≡ false
==-false a b h = elim (Bool-cases (a == b)) [ inl e ↦ absurd (h (==-true a b e)) | inr e ↦ e ]

ne : (a b : ℕ) → (b == a) ≡ false → 158 + 129 * b ≢ 158 + 129 * a
ne a b h e = ground arith

module _ {f : ℕ → ℕ} {n : ℕ} (s : Separate f n) (k : ℕ) (below : k < n) (inode : DiskInode)
    (disk : Disk) (done : Filled f k inode disk) where
  -- Slots that the fields of the inode hold.
  pub direct-Filled :
      k < 28
      → Filled f
          (suc k)
          (record inode { direct = λ i. if i == k then f k else inode.direct i })
          disk
  direct-Filled h j u = ground (
    arith,
    done j,
    slot-direct inode disk j,
    slot-direct (record inode { direct = λ i. if i == k then f k else inode.direct i }) disk j,
  )

  pub indirect1-Filled : k ≡ 28 → Filled f (suc k) (record inode { indirect1 = f k }) disk
  unfolding slot
  indirect1-Filled e j u = ground (arith, done j)

  pub indirect2-Filled : k ≡ 157 → Filled f (suc k) (record inode { indirect2 = f k }) disk
  unfolding slot
  indirect2-Filled e j u = ground (arith, done j)

  -- The slots that are no entries of index blocks do not depend on the disk.
  kept_direct : (disk' : Disk) (x : ℕ) → x < 28 → x < k → slot inode disk' x ≡ f x
  kept_direct disk' x d u =
      slot-direct inode disk' x d ∙ (sym (slot-direct inode disk x d) ∙ done x u)

  at_28 : 28 < k → inode.indirect1 ≡ f 28
  at_28 u = sym (slot-indirect1 inode disk) ∙ done 28 u

  at_157 : 157 < k → inode.indirect2 ≡ f 157
  at_157 u = sym (slot-indirect2 inode disk) ∙ done 157 u

  at_entries : (y : ℕ) → y < 128 → 29 + y < k → entry (disk inode.indirect1) y ≡ f (29 + y)
  at_entries y d u = sym (slot-entry inode disk y d) ∙ done (29 + y) u

  at_rows : (a : ℕ) → 158 + 129 * a < k → entry (disk inode.indirect2) a ≡ f (158 + 129 * a)
  at_rows a u = sym (slot-row inode disk a) ∙ done (158 + 129 * a) u

  at_cells :
      (a b : ℕ)
      → b < 128
      → 159 + 129 * a + b < k
      → entry (disk (entry (disk inode.indirect2) a)) b ≡ f (159 + 129 * a + b)
  at_cells a b d u = sym (slot-cell inode disk a b d) ∙ done (159 + 129 * a + b) u

  apart : (x y i j : ℕ) → x ≡ f i → y ≡ f j → i < n → j < n → i ≢ j → x ≢ y
  apart x y i j p q u v h e = h (s.distinct i j u v (sym p ∙ (e ∙ q)))

  -- Writing the number of slot `k` to an entry.
  written : ℕ → ℕ → Disk
  written id i = write_entry id i (f k) disk

  written-same :
      (id i y : ℕ) → entry (written id i id) y ≡ (if y == i then f k else entry (disk id) y)
  unfolding written
  written-same id i y =
      write_entry-lem id i (f k) disk id y (s.small k below) ∙ rw (==-self id) refl

  written-other : (id i b y : ℕ) → b ≢ id → entry (written id i b) y ≡ entry (disk b) y
  unfolding written
  written-other id i b y h =
      write_entry-lem id i (f k) disk b y (s.small k below) ∙ rw (==-false b id h) refl

  -- An entry of the first index block.
  entry-Filled_at :
      (i : ℕ)
      → i < 128
      → k ≡ 29 + i
      → (x : ℕ) → x < suc k
      → Place x
      → slot inode (written inode.indirect1 i) x ≡ f x
  entry-Filled_at i h e x u (at_direct d) = kept_direct _ x d (omega arith)
  entry-Filled_at i h e x u (at_indirect1 d) = rw d (slot-indirect1 inode _ ∙ at_28 (omega arith))
  entry-Filled_at i h e x u (at_entry y d eq) =
      ap (slot inode (written inode.indirect1 i)) eq
      ∙ (slot-entry inode _ y d
          ∙ (written-same inode.indirect1 i y
              ∙ (set_or_old (y == i) _ _ _ (λ c. ap f (ground arith))
                    (λ c. at_entries y d (ground arith))
                  ∙ ap f (sym eq))))
  entry-Filled_at i h e x u (at_indirect2 d) = absurd (omega arith)
  entry-Filled_at i h e x u (at_row a d) = absurd (omega arith)
  entry-Filled_at i h e x u (at_cell a b c d) = absurd (omega arith)

  pub entry-Filled :
      (i : ℕ)
      → i < 128
      → k ≡ 29 + i
      → Filled f (suc k) inode (write_entry inode.indirect1 i (f k) disk)
  unfolding written
  entry-Filled i h e j u = entry-Filled_at i h e j u (place j)

  -- An index block of a row.
  row-Filled_at :
      (a : ℕ)
      → k ≡ 158 + 129 * a
      → (x : ℕ) → x < suc k
      → Place x
      → slot inode (written inode.indirect2 a) x ≡ f x
  row-Filled_at a e x u (at_direct d) = kept_direct _ x d (omega arith)
  row-Filled_at a e x u (at_indirect1 d) = rw d (slot-indirect1 inode _ ∙ at_28 (omega arith))
  row-Filled_at a e x u (at_indirect2 d) = rw d (slot-indirect2 inode _ ∙ at_157 (omega arith))
  row-Filled_at a e x u (at_entry y d eq) =
      ap (slot inode (written inode.indirect2 a)) eq
      ∙ (slot-entry inode _ y d
          ∙ (written-other inode.indirect2 a inode.indirect1 y (
                apart _ _ 28 157 (at_28 (omega arith)) (at_157 (omega arith)) (omega arith)
                  (omega arith) (omega arith))
              ∙ (at_entries y d (omega arith) ∙ ap f (sym eq))))
  row-Filled_at a e x u (at_row a' eq) =
      ap (slot inode (written inode.indirect2 a)) eq
      ∙ (slot-row inode _ a'
          ∙ (written-same inode.indirect2 a a'
              ∙ (set_or_old (a' == a) _ _ _ (λ c. ap f (ground arith))
                    (λ c. at_rows a' (ground arith))
                  ∙ ap f (sym eq))))
  row-Filled_at a e x u (at_cell a' b d eq) =
      let old : (a' == a) ≡ false = ground arith in
      let row : entry (written inode.indirect2 a inode.indirect2) a'
          ≡ entry (disk inode.indirect2) a' =
        written-same inode.indirect2 a a' ∙ rw old refl in
      ap (slot inode (written inode.indirect2 a)) eq
      ∙ (slot-cell inode _ a' b d
          ∙ (ap (λ r. entry (written inode.indirect2 a r) b) row
              ∙ (written-other inode.indirect2 a (entry (disk inode.indirect2) a') b (
                    apart _ _ (158 + 129 * a') 157 (at_rows a' (omega arith)) (at_157 (omega arith))
                      (omega arith) (omega arith) (omega arith))
                  ∙ (at_cells a' b d (omega arith) ∙ ap f (sym eq)))))

  pub row-Filled :
      (a : ℕ)
      → k ≡ 158 + 129 * a
      → Filled f (suc k) inode (write_entry inode.indirect2 a (f k) disk)
  unfolding written
  row-Filled a e j u = row-Filled_at a e j u (place j)

  -- An entry of a row.
  table_kept :
      (a b : ℕ)
      → b < 128
      → k ≡ 159 + 129 * a + b
      → (a' : ℕ)
      → entry (written (entry (disk inode.indirect2) a) b inode.indirect2) a'
        ≡ entry (disk inode.indirect2) a'
  table_kept a b h e a' = written-other _ b inode.indirect2 a' (
      apart _ _ 157 (158 + 129 * a) (at_157 (omega arith)) (at_rows a (omega arith)) (omega arith)
        (omega arith) (omega arith))

  cell_value :
      (a b : ℕ)
      → b < 128
      → k ≡ 159 + 129 * a + b
      → (a' b' : ℕ) → b' < 128
      → 159 + 129 * a' + b' < suc k
      → entry (written (entry (disk inode.indirect2) a) b (entry (disk inode.indirect2) a')) b'
        ≡ f (159 + 129 * a' + b')
  cell_value a b h e a' b' d u = elim (Bool-cases (a' == a)) [
    | inl c ↦
        let same : a' ≡ a = ==-true a' a c in
        rw same (
          written-same (entry (disk inode.indirect2) a) b b'
          ∙ set_or_old (b' == b) _ _ _ (λ c'. ap f (ground arith))
              (λ c'. at_cells a b' d (ground arith)))
    | inr c ↦
        written-other _ b (entry (disk inode.indirect2) a') b' (
          apart _ _ (158 + 129 * a') (158 + 129 * a) (at_rows a' (omega arith))
            (at_rows a (omega arith)) (omega arith) (omega arith) (ne a a' c))
        ∙ at_cells a' b' d (ground arith)
  ]

  cell-Filled_at :
      (a b : ℕ)
      → b < 128
      → k ≡ 159 + 129 * a + b
      → (x : ℕ) → x < suc k
      → Place x
      → slot inode (written (entry (disk inode.indirect2) a) b) x ≡ f x
  cell-Filled_at a b h e x u (at_direct d) = kept_direct _ x d (omega arith)
  cell-Filled_at a b h e x u (at_indirect1 d) = rw d (slot-indirect1 inode _ ∙ at_28 (omega arith))
  cell-Filled_at a b h e x u (at_indirect2 d) = rw d (slot-indirect2 inode _ ∙ at_157 (omega arith))
  cell-Filled_at a b h e x u (at_entry y d eq) =
      ap (slot inode (written (entry (disk inode.indirect2) a) b)) eq
      ∙ (slot-entry inode _ y d
          ∙ (written-other _ b inode.indirect1 y (
                apart _ _ 28 (158 + 129 * a) (at_28 (omega arith)) (at_rows a (omega arith))
                  (omega arith) (omega arith) (omega arith))
              ∙ (at_entries y d (omega arith) ∙ ap f (sym eq))))
  cell-Filled_at a b h e x u (at_row a' eq) =
      ap (slot inode (written (entry (disk inode.indirect2) a) b)) eq
      ∙ (slot-row inode _ a' ∙ (table_kept a b h e a' ∙ (at_rows a' (omega arith) ∙ ap f (sym eq))))
  cell-Filled_at a b h e x u (at_cell a' b' d eq) =
      ap (slot inode (written (entry (disk inode.indirect2) a) b)) eq
      ∙ (slot-cell inode _ a' b' d
          ∙ (ap (λ r. entry (written (entry (disk inode.indirect2) a) b r) b')
                (table_kept a b h e a')
              ∙ (cell_value a b h e a' b' d (omega arith) ∙ ap f (sym eq))))

  pub cell-Filled :
      (a b : ℕ)
      → b < 128
      → k ≡ 159 + 129 * a + b
      → Filled f (suc k) inode (write_entry (entry (disk inode.indirect2) a) b (f k) disk)
  unfolding written
  cell-Filled a b h e j u = cell-Filled_at a b h e j u (place j)

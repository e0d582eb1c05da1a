-- ===== src/EasyFs/DiskInode/Resize/Slots.antt =====
-- The places in which layout.rs keeps the numbers of a file's blocks, in the order in which it fills
-- them.
use t_core.Base.{
  ℕ, ◌≡◌, ◌<◌, ◌+◌, ◌-◌, ◌*◌, ◌/◌, ◌%◌, ◌^◌, ◌==◌, false, arith, if◌then◌else◌, refl, ap, ltb,
  Bool-cases, inl, inr, ==-true, ==-self,
}
use t_core.EasyFs.DiskInode.{DiskInode, DataBlock, Disk, entry}
use t_core.EasyFs.DiskInode.Resize.{set_entry, write_entry}

-- What an index block holds after an entry is set.
pub entry-set_entry :
    (block : DataBlock) (i v j : ℕ)
    → v < 2 ^ 32
    → entry (set_entry block i v) j ≡ (if j == i then v else entry block j)
unfolding entry set_entry
entry-set_entry block i v j h = ground arith

-- Slot 28 and slot 157 name the two index blocks, and from 158 on a row takes 129 slots: the first names
-- the row's index block.
unfoldable pub slot : DiskInode → Disk → ℕ → ℕ
slot inode disk k =
    let row = entry (disk inode.indirect2) ((k - 158) / 129) in
    if ltb k 28
    then inode.direct k
    else if k == 28
    then inode.indirect1
    else if ltb k 157
    then entry (disk inode.indirect1) (k - 29)
    else if k == 157
    then inode.indirect2
    else if (k - 158) % 129 == 0
    then row
    else entry (disk row) ((k - 158) % 129 - 1)

pub data Place (j : ℕ) : Type 0 where
  at_direct : j < 28 → Place j
  at_indirect1 : j ≡ 28 → Place j
  at_entry : (i : ℕ) → i < 128 → j ≡ 29 + i → Place j
  at_indirect2 : j ≡ 157 → Place j
  at_row : (a : ℕ) → j ≡ 158 + 129 * a → Place j
  at_cell : (a b : ℕ) → b < 128 → j ≡ 159 + 129 * a + b → Place j

beyond : (j : ℕ) → 157 < j → Place j
beyond j h = elim (Bool-cases ((j - 158) % 129 == 0)) [
  | inl e ↦ at_row ((j - 158) / 129) (ground arith)
  | inr e ↦ at_cell ((j - 158) / 129) ((j - 158) % 129 - 1) (ground arith) (ground arith)
]

pub place : (j : ℕ) → Place j
place j = elim (Bool-cases (ltb j 28)) [
  | inl e ↦ at_direct (ground arith)
  | inr e ↦ elim (Bool-cases (j == 28)) [
    | inl e' ↦ at_indirect1 (ground arith)
    | inr e' ↦ elim (Bool-cases (ltb j 157)) [
      | inl u ↦ at_entry (j - 29) (ground arith) (ground arith)
      | inr u ↦ elim (Bool-cases (j == 157)) [
        | inl w ↦ at_indirect2 (ground arith)
        | inr w ↦ beyond j (ground arith)
      ]
    ]
  ]
]

module _ (inode : DiskInode) (disk : Disk) where
  pub slot-direct : (j : ℕ) → j < 28 → slot inode disk j ≡ inode.direct j
  unfolding slot
  slot-direct j h = ground arith

  pub slot-indirect1 : slot inode disk 28 ≡ inode.indirect1
  unfolding slot
  slot-indirect1 = refl

  pub slot-indirect2 : slot inode disk 157 ≡ inode.indirect2
  unfolding slot
  slot-indirect2 = refl

  pub slot-entry : (i : ℕ) → i < 128 → slot inode disk (29 + i) ≡ entry (disk inode.indirect1) i
  unfolding slot
  slot-entry i h =
      let back : 29 + i - 29 ≡ i = omega arith in
      ground (arith, ap (entry (disk inode.indirect1)) back)

  pub slot-row : (a : ℕ) → slot inode disk (158 + 129 * a) ≡ entry (disk inode.indirect2) a
  unfolding slot
  slot-row a =
      let q : (158 + 129 * a - 158) / 129 ≡ a = omega arith in
      let r : (158 + 129 * a - 158) % 129 ≡ 0 = omega arith in
      ground (arith, ap (entry (disk inode.indirect2)) q)

  pub slot-cell :
      (a b : ℕ)
      → b < 128
      → slot inode disk (159 + 129 * a + b) ≡ entry (disk (entry (disk inode.indirect2) a)) b
  unfolding slot
  slot-cell a b h =
      let q : (159 + 129 * a + b - 158) / 129 ≡ a = omega arith in
      let r : (159 + 129 * a + b - 158) % 129 ≡ b + 1 = omega arith in
      let t1 : ltb (159 + 129 * a + b) 28 ≡ false = ground arith in
      let t2 : (159 + 129 * a + b == 28) ≡ false = ground arith in
      let t3 : ltb (159 + 129 * a + b) 157 ≡ false = ground arith in
      let t4 : (159 + 129 * a + b == 157) ≡ false = ground arith in
      let t5 : (b + 1 == 0) ≡ false = ground arith in
      let back : b + 1 - 1 ≡ b = omega arith in
      rw t1 (rw t2 (rw t3 (rw t4 (rw q (rw r (rw t5 (rw back refl)))))))

-- The slots before `k` hold the numbers that `f` gives.
abbrev pub Filled : (ℕ → ℕ) → ℕ → DiskInode → Disk → Type 0
Filled f k inode disk = (j : ℕ) → j < k → slot inode disk j ≡ f j

-- The first `n` numbers are those of different blocks.
pub record Separate (f : ℕ → ℕ) (n : ℕ) : Type 0 where
  pub small : (j : ℕ) → j < n → f j < 2 ^ 32
  pub distinct : (i j : ℕ) → i < n → j < n → f i ≡ f j → i ≡ j

pub write_entry-lem :
    (id i v : ℕ) (disk : Disk) (b j : ℕ)
    → v < 2 ^ 32
    → entry (write_entry id i v disk b) j
      ≡ (if b == id then (if j == i then v else entry (disk b) j) else entry (disk b) j)
unfolding write_entry
write_entry-lem id i v disk b j h = elim (Bool-cases (b == id)) [
  | inl e ↦ rw (==-true b id e) (rw (==-self id) (entry-set_entry (disk id) i v j h))
  | inr e ↦ rw e refl
]

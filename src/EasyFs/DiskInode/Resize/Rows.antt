-- ===== src/EasyFs/DiskInode/Resize/Rows.antt =====
-- The loop of `increase_size` of layout.rs over the rows of the second index block.
use t_core.Base.{
  ℕ, zero, suc, ◌≡◌, ◌<◌, ◌≤◌, ◌+◌, ◌-◌, ◌*◌, ◌%◌, ◌==◌, ◌&&◌, ◌||◌, true, false, arith,
  if◌then◌else◌, refl, sym, ap, ◌∙◌, ltb, Bool-cases, inl, inr, List, ◌∷◌, some, subst,
}
use t_core.EasyFs.DiskInode.{DiskInode, Disk, entry}
use t_core.EasyFs.DiskInode.Resize.{start_row, fill_rows, write_entry}
use t_core.EasyFs.DiskInode.Resize.Slots.{Filled, Separate, slot-row}
use t_core.EasyFs.DiskInode.Resize.Filling.{row-Filled, cell-Filled}
use t_core.EasyFs.DiskInode.Resize.Growth.{
  blocks_left, blocks_left-cons, Untouched, write_entry-other, is_index,
}

-- The slot to be filled next at the place (a, b).
abbrev pub position : ℕ → ℕ → ℕ
position a b = if b == 0 then 158 + 129 * a else 159 + 129 * a + b

abbrev next_row : ℕ → ℕ → ℕ
next_row a b = if b + 1 == 128 then a + 1 else a

abbrev next_column : ℕ → ℕ
next_column b = if b + 1 == 128 then 0 else b + 1

fill_rows-stop :
    (fuel indirect2 a b : ℕ) (disk : Disk) (blocks : List ℕ)
    → fill_rows (suc fuel) indirect2 a b a b disk blocks ≡ some (disk, blocks)
unfolding fill_rows
fill_rows-stop fuel indirect2 a b disk blocks =
    let stop : (ltb a a || (a == a && ltb b b)) ≡ false = ground arith in rw stop refl

fill_rows-step :
    (fuel indirect2 a0 b0 a1 b1 : ℕ) (disk : Disk) (blocks : List ℕ) (disk1 : Disk) (block : ℕ)
    (rest : List ℕ)
    → (ltb a0 a1 || (a0 == a1 && ltb b0 b1)) ≡ true
    → ltb a0 128 ≡ true
    → start_row indirect2 a0 b0 disk blocks ≡ some (disk1, block ∷ rest)
    → fill_rows (suc fuel) indirect2 a0 b0 a1 b1 disk blocks
      ≡ fill_rows fuel indirect2
          (next_row a0 b0)
          (next_column b0)
          a1
          b1
          (write_entry (entry (disk1 indirect2) a0) b0 block disk1)
          rest
unfolding fill_rows
fill_rows-step fuel indirect2 a0 b0 a1 b1 disk blocks disk1 block rest more room e =
    rw more (rw room (rw e refl))

row_index : (a : ℕ) → is_index (158 + 129 * a) ≡ true
row_index a = let r : (158 + 129 * a - 158) % 129 ≡ 0 = omega arith in ground arith

module _ {f : ℕ → ℕ} {end : ℕ} (s : Separate f end) (inode : DiskInode) where
  start_row-Filled :
      (a b : ℕ) (disk : Disk)
      → b < 128
      → 159 + 129 * a + b < end
      → inode.indirect2 ≡ f 157
      → Filled f (position a b) inode disk
      → (disk' : Disk) × (start_row inode.indirect2 a b disk (blocks_left f (position a b) end)
          ≡ some (disk', blocks_left f (159 + 129 * a + b) end))
        × Filled f (159 + 129 * a + b) inode disk'
        × Untouched f end disk disk'
  unfolding start_row
  start_row-Filled a b disk h within id done = elim (Bool-cases (b == 0)) [
    | inl e ↦
        let k : ℕ = 158 + 129 * a in
        let here : position a b ≡ k = rw e refl in
        let next_slot : suc k ≡ 159 + 129 * a + b = ground arith in
        (
          write_entry inode.indirect2 a (f k) disk,
          rw e (
              rw (blocks_left-cons f k end (omega arith)) (
                ap (λ x. some (write_entry inode.indirect2 a (f k) disk, blocks_left f x end))
                  next_slot)),
          subst (λ x. Filled f x inode (write_entry inode.indirect2 a (f k) disk)) next_slot
              (row-Filled s k (omega arith) inode disk
                (subst (λ x. Filled f x inode disk) here done) a refl),
          λ x u.
              write_entry-other inode.indirect2 a (f k) disk x
                (λ y. u 157 (omega arith) refl (y ∙ id)),
        )
    | inr e ↦ (disk, rw e refl, rw e at done, λ x u. refl)
  ]

  pub fill_rows-Filled :
      (fuel a0 b0 a1 b1 : ℕ) (disk : Disk)
      → b0 < 128
      → b1 < 128
      → a0 * 128 + b0 ≤ a1 * 128 + b1
      → a1 * 128 + b1 ≤ 128 * 128
      → a1 * 128 + b1 < fuel + (a0 * 128 + b0)
      → end ≡ position a1 b1
      → inode.indirect2 ≡ f 157
      → Filled f (position a0 b0) inode disk
      → (disk' : Disk) × (fill_rows fuel inode.indirect2 a0 b0 a1 b1 disk
            (blocks_left f (position a0 b0) end)
          ≡ some (disk', blocks_left f end end))
        × Filled f end inode disk'
        × Untouched f end disk disk'
  fill_rows-Filled zero a0 b0 a1 b1 disk h0 h1 le most lt last id done = absurd (omega arith)
  fill_rows-Filled (suc fuel) a0 b0 a1 b1 disk h0 h1 le most lt last id done =
      elim (Bool-cases (ltb a0 a1 || (a0 == a1 && ltb b0 b1))) [
        | inl more ↦
            let k : ℕ = 159 + 129 * a0 + b0 in
            let within : k < end = ground arith in
            let (disk1, e1, done1, kept1) = start_row-Filled a0 b0 disk h0 within id done in
            let row : ℕ = entry (disk1 inode.indirect2) a0 in
            let row_number : row ≡ f (158 + 129 * a0) =
              sym (slot-row inode disk1 a0) ∙ done1 (158 + 129 * a0) (omega arith) in
            let disk2 : Disk = write_entry row b0 (f k) disk1 in
            let after : suc k ≡ position (next_row a0 b0) (next_column b0) = ground arith in
            let done2 =
              subst (λ x. Filled f x inode disk2) after
                (cell-Filled s k within inode disk1 done1 a0 b0 h0 refl) in
            let (disk', e2, done', kept2) =
              fill_rows-Filled fuel (next_row a0 b0) (next_column b0) a1 b1 disk2 (ground arith) h1
                (ground arith) most (ground arith) last id done2 in
            (
              disk',
              fill_rows-step fuel inode.indirect2 a0 b0 a1 b1 disk _ disk1 (f k)
                    (blocks_left f (suc k) end) more (ground arith)
                    (e1 ∙ ap (λ x. some (disk1, x)) (blocks_left-cons f k end within))
                  ∙ (ap
                        (λ x.
                          fill_rows fuel inode.indirect2 (next_row a0 b0) (next_column b0) a1 b1
                            disk2 (blocks_left f x end))
                        after
                      ∙ e2),
              done',
              λ x u.
                  kept2 x u
                  ∙ (write_entry-other row b0 (f k) disk1 x
                        (λ y. u (158 + 129 * a0) (omega arith) (row_index a0) (y ∙ row_number))
                      ∙ kept1 x u),
            )
        | inr stop ↦
            let same_row : a0 ≡ a1 = ground arith in
            let same_column : b0 ≡ b1 = ground arith in
            let here : position a0 b0 ≡ end = rw same_row (rw same_column (sym last)) in
            (
              disk,
              rw here (
                  rw same_row (
                    rw same_column
                      (fill_rows-stop fuel inode.indirect2 a1 b1 disk (blocks_left f end end)))),
              subst (λ x. Filled f x inode disk) here done,
              λ x u. refl,
            )
      ]

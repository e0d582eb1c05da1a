-- ===== src/EasyFs/DiskInode/Resize/Indirect.antt =====
-- The part of `increase_size` beyond the direct entries.
use t_core.Base.{
  ℕ, ◌≡◌, ◌<◌, ◌≤◌, ◌+◌, ◌-◌, ◌*◌, ◌/◌, ◌%◌, ◌==◌, arith, if◌then◌else◌, refl, sym, ap, ◌∙◌, ltb,
  leb, Bool-cases, inl, inr, List, some, subst, min, max,
}
use t_core.EasyFs.DiskInode.{DiskInode, Disk, indirect2_bound}
use t_core.EasyFs.DiskInode.Resize.{fill_entries, take_if, grow_indirect1, grow_indirect2}
use t_core.EasyFs.DiskInode.Resize.Slots.{Filled, Separate, slot-indirect1, slot-indirect2}
use t_core.EasyFs.DiskInode.Resize.Filling.{indirect1-Filled, indirect2-Filled}
use t_core.EasyFs.DiskInode.Resize.Growth.{
  blocks_left, blocks_left-cons, Untouched, fill_entries-Filled,
}
use t_core.EasyFs.DiskInode.Resize.Rows.{position, fill_rows-Filled}
use t_core.EasyFs.DiskInode.Resize.Needs.{
  slots_of, slots_of-beyond, many, position_mono, position-ge,
}

-- What growing leaves.
pub record Grown (f : ℕ → ℕ) (end : ℕ) (old : DiskInode) (disk : Disk) (inode : DiskInode)
    (disk' : Disk) : Type 0 where
  pub filled : Filled f end inode disk'
  pub untouched : Untouched f end disk disk'
  pub same_size : inode.size ≡ old.size
  pub same_type : inode.type_ ≡ old.type_

grow_indirect1-step :
    (c total : ℕ) (inode : DiskInode) (disk : Disk) (blocks : List ℕ) (block : ℕ) (rest : List ℕ)
    (disk1 : Disk) (rest1 : List ℕ)
    → take_if (c == 28) inode.indirect1 blocks ≡ some (block, rest)
    → fill_entries (min (total - 28) 128 - (c - 28)) (c - 28) block disk rest ≡ some (disk1, rest1)
    → grow_indirect1 c total inode blocks disk ≡ (
        if ltb 128 (total - 28)
        then grow_indirect2
            (max (c - 28) (min (total - 28) 128))
            (total - 28)
            (record inode { indirect1 = block })
            rest1
            disk1
        else some (record inode { indirect1 = block }, disk1))
unfolding grow_indirect1
grow_indirect1-step c total inode disk blocks block rest disk1 rest1 e1 e2 = rw e1 (rw e2 refl)

fill_entries-zero :
    (i id : ℕ) (disk : Disk) (blocks : List ℕ)
    → fill_entries 0 i id disk blocks ≡ some (disk, blocks)
unfolding fill_entries
fill_entries-zero i id disk blocks = refl

module _ {f : ℕ → ℕ} {end : ℕ} (s : Separate f end) where
  -- The second index block, if it is needed now.
  take_indirect2 :
      (c k : ℕ) (inode : DiskInode) (disk : Disk)
      → 128 ≤ c
      → k ≡ position ((c - 128) / 128) ((c - 128) % 128)
      → k ≤ end
      → Filled f (slots_of (c + 28)) inode disk
      → (block : ℕ) × (take_if (c == 128) inode.indirect2 (blocks_left f (slots_of (c + 28)) end)
          ≡ some (block, blocks_left f k end))
        × (block ≡ f 157)
        × Filled f k (record inode { indirect2 = block }) disk
  unfolding take_if
  take_indirect2 c k inode disk h p within done = elim (Bool-cases (c == 128)) [
    | inl e ↦
        let here : slots_of (c + 28) ≡ 157 = ground arith in
        let there : k ≡ 158 = ground arith in
        (
          f 157,
          rw here (rw there (rw e (rw (blocks_left-cons f 157 end (omega arith)) refl))),
          refl,
          rw there (
              indirect2-Filled s 157 (omega arith) inode disk
                (subst (λ x. Filled f x inode disk) here done) refl),
        )
    | inr e ↦
        let shift : c + 28 - 156 ≡ c - 128 = omega arith in
        let here : slots_of (c + 28) ≡ k =
          slots_of-beyond (c + 28) (ground arith) ∙ (rw shift (sym p)) in
        let much : 157 < slots_of (c + 28) = rw here (rw p (position-ge _ _)) in
        (
          inode.indirect2,
          rw here (rw e refl),
          sym (slot-indirect2 inode disk) ∙ done 157 much,
          subst (λ x. Filled f x inode disk) here done,
        )
  ]

  grow_indirect2-Grown :
      (c total : ℕ) (inode : DiskInode) (disk : Disk)
      → 128 ≤ c
      → c ≤ total
      → 128 < total
      → total - 128 ≤ 128 * 128
      → end ≡ slots_of (total + 28)
      → Filled f (slots_of (c + 28)) inode disk
      → (inode' : DiskInode) × (disk' : Disk) × (grow_indirect2 c total inode
            (blocks_left f (slots_of (c + 28)) end)
            disk
          ≡ some (inode', disk'))
        × Grown f end inode disk inode' disk'
  unfolding grow_indirect2
  grow_indirect2-Grown c total inode disk hc le big most last done =
      let k : ℕ = position ((c - 128) / 128) ((c - 128) % 128) in
      let shift : total + 28 - 156 ≡ total - 128 = omega arith in
      let end_place : end ≡ position ((total - 128) / 128) ((total - 128) % 128) =
        last ∙ (slots_of-beyond (total + 28) (omega arith) ∙ rw shift refl) in
      let (block, e, id, done1) =
        take_indirect2 c k inode disk hc refl
          (rw end_place (position_mono (c - 128) (total - 128) (omega arith))) done in
      let (disk', e', done', kept) =
        fill_rows-Filled s (record inode { indirect2 = block }) (total - 128 + 1) ((c - 128) / 128)
          ((c - 128) % 128) ((total - 128) / 128) ((total - 128) % 128) disk (omega arith)
          (omega arith) (omega arith) (omega arith) (omega arith) end_place id done1 in
      (
        record inode { indirect2 = block },
        disk',
        rw e (rw e' refl),
        record { filled = done'; untouched = kept; same_size = refl; same_type = refl },
      )

  -- The first index block, if it is needed now.
  take_indirect1 :
      (c k : ℕ) (inode : DiskInode) (disk : Disk)
      → 28 ≤ c
      → k ≡ (if c == 28 then 29 else slots_of c)
      → 28 < end
      → Filled f (slots_of c) inode disk
      → (block : ℕ) × (take_if (c == 28) inode.indirect1 (blocks_left f (slots_of c) end)
          ≡ some (block, blocks_left f k end))
        × (block ≡ f 28)
        × Filled f k (record inode { indirect1 = block }) disk
  unfolding take_if
  take_indirect1 c k inode disk h p within done = elim (Bool-cases (c == 28)) [
    | inl e ↦
        let here : slots_of c ≡ 28 = ground arith in
        let there : k ≡ 29 = ground arith in
        (
          f 28,
          rw here (rw there (rw e (rw (blocks_left-cons f 28 end within) refl))),
          refl,
          rw there (
              indirect1-Filled s 28 within inode disk (subst (λ x. Filled f x inode disk) here done)
                refl),
        )
    | inr e ↦
        let here : slots_of c ≡ k = sym (p ∙ rw e refl) in
        (
          inode.indirect1,
          rw here (rw e refl),
          sym (slot-indirect1 inode disk) ∙ done 28 (many c (ground arith)),
          subst (λ x. Filled f x inode disk) here done,
        )
  ]

  -- The entries of the first index block that are needed now.
  fill_first :
      (c total k : ℕ) (inode : DiskInode) (disk : Disk)
      → 28 ≤ c
      → c ≤ total
      → k ≡ (if c == 28 then 29 else slots_of c)
      → end ≡ slots_of total
      → 28 < total
      → inode.indirect1 ≡ f 28
      → Filled f k inode disk
      → (disk' : Disk) × (fill_entries
            (min (total - 28) 128 - (c - 28))
            (c - 28)
            inode.indirect1
            disk
            (blocks_left f k end)
          ≡ some (disk', blocks_left f (slots_of (max (c - 28) (min (total - 28) 128) + 28)) end))
        × Filled f (slots_of (max (c - 28) (min (total - 28) 128) + 28)) inode disk'
        × Untouched f end disk disk'
  fill_first c total k inode disk hc le p last big id done = elim (Bool-cases (leb c 156)) [
    | inl small ↦
        fill_entries-Filled s (min (total - 28) 128 - (c - 28)) (c - 28) k
          (slots_of (max (c - 28) (min (total - 28) 128) + 28)) inode disk (ground arith)
          (ground arith) (ground arith) (ground arith) id done
    | inr much ↦
        let none_left : min (total - 28) 128 - (c - 28) ≡ 0 = ground arith in
        let same : max (c - 28) (min (total - 28) 128) + 28 ≡ c = ground arith in
        let here : k ≡ slots_of c = ground arith in
        let there : k ≡ slots_of (max (c - 28) (min (total - 28) 128) + 28) =
          here ∙ ap (λ x. slots_of x) (sym same) in
        (
          disk,
          rw none_left (
              fill_entries-zero (c - 28) inode.indirect1 disk _
              ∙ ap (λ x. some (disk, blocks_left f x end)) there),
          subst (λ x. Filled f x inode disk) there done,
          λ b u. refl,
        )
  ]

  -- What is done for the index blocks.
  pub grow_indirect1-Grown :
      (c total : ℕ) (inode : DiskInode) (disk : Disk)
      → 28 ≤ c
      → c ≤ total
      → 28 < total
      → total ≤ indirect2_bound
      → end ≡ slots_of total
      → Filled f (slots_of c) inode disk
      → (inode' : DiskInode) × (disk' : Disk) × (grow_indirect1 c total inode
            (blocks_left f (slots_of c) end)
            disk
          ≡ some (inode', disk'))
        × Grown f end inode disk inode' disk'
  grow_indirect1-Grown c total inode disk hc le big most last done =
      let k : ℕ = if c == 28 then 29 else slots_of c in
      let (block, e1, id, done1) =
        take_indirect1 c k inode disk hc refl (rw last (many total big)) done in
      let inode1 : DiskInode = record inode { indirect1 = block } in
      let (disk1, e2, done2, kept) =
        fill_first c total k inode1 disk hc le refl last big id done1 in
      let filled : ℕ = min (total - 28) 128 in
      elim (Bool-cases (ltb 128 (total - 28))) [
        | inl more ↦
            let back : total - 28 + 28 ≡ total = omega arith in
            let (inode2, disk2, e3, g) =
              grow_indirect2-Grown (max (c - 28) filled) (total - 28) inode1 disk1 (ground arith)
                (ground arith) (ground arith) (omega arith) (last ∙ ap (λ x. slots_of x) (sym back))
                done2 in
            (
              inode2,
              disk2,
              grow_indirect1-step c total inode disk _ block _ disk1 _ e1 e2 ∙ rw more e3,
              record {
                filled = g.filled;
                untouched = λ b u. g.untouched b u ∙ kept b u;
                same_size = g.same_size;
                same_type = g.same_type;
              },
            )
        | inr stop ↦
            let count : max (c - 28) filled + 28 ≡ total = ground arith in
            let all : slots_of (max (c - 28) filled + 28) ≡ end =
              ap (λ x. slots_of x) count ∙ sym last in
            (
              inode1,
              disk1,
              grow_indirect1-step c total inode disk _ block _ disk1 _ e1 e2 ∙ rw stop refl,
              record {
                filled = subst (λ x. Filled f x inode1 disk1) all done2;
                untouched = kept;
                same_size = refl;
                same_type = refl;
              },
            )
      ]

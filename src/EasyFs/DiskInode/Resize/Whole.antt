-- ===== src/EasyFs/DiskInode/Resize/Whole.antt =====
-- `increase_size` of layout.rs as a whole.
use t_core.Base.{
  ℕ, ◌≡◌, ◌≤◌, ◌-◌, arith, if◌then◌else◌, refl, sym, ap, ◌∙◌, ltb, leb, Bool-cases, inl, inr, List,
  some, subst, min, max,
}
use t_core.EasyFs.DiskInode.{DiskInode, Disk, data_blocks, data_blocks_of, indirect2_bound}
use t_core.EasyFs.DiskInode.Resize.{fill_direct, grow_indirect1, increase_size}
use t_core.EasyFs.DiskInode.Resize.Slots.{slot, Filled, Separate}
use t_core.EasyFs.DiskInode.Resize.Growth.{blocks_left, fill_direct-Filled}
use t_core.EasyFs.DiskInode.Resize.Needs.{slots_of, slots_of-small, slots_of_mono}
use t_core.EasyFs.DiskInode.Resize.Indirect.{Grown, grow_indirect1-Grown}

fill_direct-zero :
    (i : ℕ) (inode : DiskInode) (blocks : List ℕ)
    → fill_direct 0 i inode blocks ≡ some (inode, blocks)
unfolding fill_direct
fill_direct-zero i inode blocks = refl

Filled-size :
    (f : ℕ → ℕ) (k : ℕ) (inode : DiskInode) (size : ℕ) (disk : Disk)
    → Filled f k inode disk
    → Filled f k (record inode { size = size }) disk
unfolding slot
Filled-size f k inode size disk h j u = h j u

increase_size-step :
    (new_size : ℕ) (blocks : List ℕ) (inode : DiskInode) (disk : Disk) (inode1 : DiskInode)
    (rest : List ℕ)
    → fill_direct
        (min (data_blocks_of new_size) 28 - data_blocks inode)
        (data_blocks inode)
        (record inode { size = new_size })
        blocks
      ≡ some (inode1, rest)
    → increase_size new_size blocks inode disk ≡ (
        if ltb 28 (data_blocks_of new_size)
        then grow_indirect1
            (max (data_blocks inode) (min (data_blocks_of new_size) 28))
            (data_blocks_of new_size)
            inode1
            rest
            disk
        else some (inode1, disk))
unfolding increase_size
increase_size-step new_size blocks inode disk inode1 rest e = rw e refl

module _ {f : ℕ → ℕ} {end : ℕ} (s : Separate f end) where
  fill_directs-small :
      (c total : ℕ) (inode : DiskInode) (disk : Disk)
      → c ≤ 28
      → c ≤ total
      → end ≡ slots_of total
      → Filled f (slots_of c) inode disk
      → (inode' : DiskInode) × (fill_direct
            (min total 28 - c)
            c
            inode
            (blocks_left f (slots_of c) end)
          ≡ some (inode', blocks_left f (slots_of (max c (min total 28))) end))
        × Filled f (slots_of (max c (min total 28))) inode' disk
        × (inode'.size ≡ inode.size)
        × (inode'.type_ ≡ inode.type_)
  fill_directs-small c total inode disk small le last done =
      let m : ℕ = max c (min total 28) in
      let start : slots_of c ≡ c = slots_of-small c small in
      let stop : slots_of m ≡ m = slots_of-small m (omega arith) in
      let (inode', e, done', size, type) =
        fill_direct-Filled s (min total 28 - c) c m inode disk (omega arith) (omega arith)
          (omega (arith, last, stop, slots_of_mono m total))
          (subst (λ x. Filled f x inode disk) start done) in
      (
        inode',
        ap (λ x. fill_direct (min total 28 - c) c inode (blocks_left f x end)) start
            ∙ (e ∙ ap (λ x. some (inode', blocks_left f x end)) (sym stop)),
        subst (λ x. Filled f x inode' disk) (sym stop) done',
        size,
        type,
      )

  -- The direct entries that are needed now.
  fill_directs :
      (c total : ℕ) (inode : DiskInode) (disk : Disk)
      → c ≤ total
      → end ≡ slots_of total
      → Filled f (slots_of c) inode disk
      → (inode' : DiskInode) × (fill_direct
            (min total 28 - c)
            c
            inode
            (blocks_left f (slots_of c) end)
          ≡ some (inode', blocks_left f (slots_of (max c (min total 28))) end))
        × Filled f (slots_of (max c (min total 28))) inode' disk
        × (inode'.size ≡ inode.size)
        × (inode'.type_ ≡ inode.type_)
  fill_directs c total inode disk le last done = elim (Bool-cases (leb c 28)) [
    | inl small ↦ fill_directs-small c total inode disk (ground arith) le last done
    | inr much ↦
        let none_left : min total 28 - c ≡ 0 = ground arith in
        let same : c ≡ max c (min total 28) = ground arith in
        let there : slots_of c ≡ slots_of (max c (min total 28)) = ap (λ x. slots_of x) same in
        (
          inode,
          rw none_left
              (fill_direct-zero c inode _ ∙ ap (λ x. some (inode, blocks_left f x end)) there),
          subst (λ x. Filled f x inode disk) there done,
          refl,
          refl,
        )
  ]

  -- What `increase_size` does, the number `f` gives being those of the old blocks and then the new ones.
  pub increase_size-Grown :
      (new_size : ℕ) (inode : DiskInode) (disk : Disk)
      → data_blocks inode ≤ data_blocks_of new_size
      → data_blocks_of new_size ≤ indirect2_bound
      → end ≡ slots_of (data_blocks_of new_size)
      → Filled f (slots_of (data_blocks inode)) inode disk
      → (inode' : DiskInode) × (disk' : Disk) × (increase_size new_size
            (blocks_left f (slots_of (data_blocks inode)) end)
            inode
            disk
          ≡ some (inode', disk'))
        × Grown f end (record inode { size = new_size }) disk inode' disk'
  increase_size-Grown new_size inode disk le most last done =
      let c : ℕ = data_blocks inode in
      let total : ℕ = data_blocks_of new_size in
      let filled : ℕ = min total 28 in
      let sized : DiskInode = record inode { size = new_size } in
      let (inode1, e1, done1, size1, type1) =
        fill_directs c total sized disk le last (Filled-size f _ inode new_size disk done) in
      elim (Bool-cases (ltb 28 total)) [
        | inl more ↦
            let (inode2, disk2, e2, g) =
              grow_indirect1-Grown s (max c filled) total inode1 disk (ground arith) (ground arith)
                (ground arith) most last done1 in
            (
              inode2,
              disk2,
              increase_size-step new_size _ inode disk inode1 _ e1 ∙ rw more e2,
              record {
                filled = g.filled;
                untouched = g.untouched;
                same_size = g.same_size ∙ size1;
                same_type = g.same_type ∙ type1;
              },
            )
        | inr stop ↦
            let count : max c filled ≡ total = ground arith in
            let all : slots_of (max c filled) ≡ end = ap (λ x. slots_of x) count ∙ sym last in
            (
              inode1,
              disk,
              increase_size-step new_size _ inode disk inode1 _ e1 ∙ rw stop refl,
              record {
                filled = subst (λ x. Filled f x inode1 disk) all done1;
                untouched = λ b u. refl;
                same_size = size1;
                same_type = type1;
              },
            )
      ]

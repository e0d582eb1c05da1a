-- ===== src/EasyFs/DiskInode/Resize/RoundTrip.antt =====
-- Growing and clearing a file of layout.rs fit together, and what the file held stays.
use t_core.Base.{
  ℕ, ◌≡◌, ◌≢◌, ◌<◌, ◌≤◌, ◌+◌, ◌-◌, ◌*◌, ◌/◌, ◌%◌, ◌^◌, true, false, arith, if◌then◌else◌, refl, sym,
  ap, ◌∙◌, ltb, Bool-cases, inl, inr, List, ◌++◌, some, Option, length, Distinct, All,
  length-append,
}
use t_core.EasyFs.DiskInode.{
  DiskInode, Disk, block_sz, data_blocks, data_blocks_of, indirect2_bound, blocks_num_needed,
}
use t_core.EasyFs.DiskInode.Blocks.{block_id}
use t_core.EasyFs.DiskInode.Sizes.{index_blocks, blocks_num_needed_lem}
use t_core.EasyFs.DiskInode.Read.{content}
use t_core.EasyFs.DiskInode.Resize.{increase_size, clear_size}
use t_core.EasyFs.DiskInode.Resize.Slots.{
  slot, Filled, Separate, slot-direct, slot-entry, slot-cell,
}
use t_core.EasyFs.DiskInode.Resize.Growth.{numbers, blocks_left, is_index}
use t_core.EasyFs.DiskInode.Resize.Whole.{increase_size-Grown}
use t_core.EasyFs.DiskInode.Resize.Indirect.{Grown}
use t_core.EasyFs.DiskInode.Resize.Needs.{slots_of, slots_of_mono}
use t_core.EasyFs.DiskInode.Resize.Clearing.{clear_size-numbers}
use t_core.EasyFs.DiskInode.Resize.Lists.{
  at, numbers-ext, length-numbers, at-numbers, blocks_left-append, numbers-at, at-append,
  Distinct-at, All-at,
}

-- The slot of a data block.
abbrev slot_of : ℕ → ℕ
slot_of i =
    if ltb i 28
    then i
    else if ltb i 156
    then 29 + (i - 28)
    else 159 + 129 * ((i - 156) / 128) + (i - 156) % 128

block_id-slot :
    (inode : DiskInode) (disk : Disk) (i : ℕ) → block_id inode i disk ≡ slot inode disk (slot_of i)
unfolding block_id
block_id-slot inode disk i = elim (Bool-cases (ltb i 28)) [
  | inl small ↦ rw small (sym (slot-direct inode disk i (ground arith)))
  | inr more ↦ elim (Bool-cases (ltb i 156)) [
    | inl middle ↦ rw more (rw middle (sym (slot-entry inode disk (i - 28) (ground arith))))
    | inr large ↦
        rw more
          (rw large (sym (slot-cell inode disk ((i - 156) / 128) ((i - 156) % 128) (omega arith))))
  ]
]

slot_of-lt : (i d : ℕ) → i < d → slot_of i < slots_of d
slot_of-lt i d h = ground arith

slot_of-data : (i : ℕ) → is_index (slot_of i) ≡ false
slot_of-data i = ground arith

slots-count : (d : ℕ) → slots_of d ≡ d + index_blocks d
slots-count d = ground arith

same_some : (a b : ℕ) → some a ≡ some b → a ≡ b
same_some a b h = cc

counted :
    (d d' n q q' : ℕ)
    → n + q + index_blocks q ≡ q' + index_blocks q'
    → d ≡ q
    → d' ≡ q'
    → slots_of d' ≡ slots_of d + n
counted d d' n q q' h e e' =
    let total : slots_of q' ≡ slots_of q + n = omega (arith, slots-count q, slots-count q') in
    ap (λ x. slots_of x) e' ∙ (total ∙ ap (λ x. slots_of x + n) (sym e))

same_pair :
    (a b : List ℕ) (x y : DiskInode)
    → ◌≡◌ {A = Option (List ℕ × DiskInode)} (some (a, x)) (some (b, y))
    → a ≡ b
same_pair a b x y h = cc

true-ne-false : true ≢ false
true-ne-false h = cc

-- A file, the blocks that it has and those that it is to get.
module _ (inode : DiskInode) (disk : Disk) (new_size : ℕ) (old new : List ℕ)
    (had : old ≡ numbers (slot inode disk) 0 (slots_of (data_blocks inode)))
    (grows : inode.size ≤ new_size) (fits : new_size ≤ indirect2_bound * block_sz)
    (needed : blocks_num_needed inode new_size ≡ some (length new))
    (different : Distinct (old ++ new)) (small : All (λ b. b < 2 ^ 32) (old ++ new)) where
  abbrev f : ℕ → ℕ
  f = at (old ++ new)

  abbrev before : ℕ
  before = slots_of (data_blocks inode)

  abbrev after : ℕ
  after = slots_of (data_blocks_of new_size)

  length-old : length old ≡ before
  length-old = ap length had ∙ length-numbers (slot inode disk) 0 before

  count : after ≡ before + length new
  count =
      let (n, e, sum) = blocks_num_needed_lem inode new_size grows fits in
      let same : n ≡ length new = same_some n (length new) (sym e ∙ needed) in
      counted (data_blocks inode) (data_blocks_of new_size) (length new) _ _
        (ap (λ x. x + (inode.size + 511) / 512 + index_blocks ((inode.size + 511) / 512)) (sym same)
          ∙ sum)
        (omega arith) (omega arith)

  length-all : length (old ++ new) ≡ after
  length-all = omega (arith, length-append old new, length-old, count)

  numbers-Separate : Separate f after
  numbers-Separate = record {
    small = λ j u. All-at (λ b. b < 2 ^ 32) (old ++ new) j small (omega (arith, length-all));
    distinct = λ i j u v e.
        Distinct-at (old ++ new) i j different (omega (arith, length-all))
          (omega (arith, length-all)) e;
  }

  old_number : (j : ℕ) → j < before → f j ≡ slot inode disk j
  old_number j u =
      let zero_add : 0 + j ≡ j = omega arith in
      at-append old new j (omega (arith, length-old))
      ∙ (ap (λ x. at x j) had
          ∙ (at-numbers (slot inode disk) 0 before j u ∙ ap (slot inode disk) zero_add))

  old-Filled : Filled f before inode disk
  old-Filled j u = sym (old_number j u)

  left_over : blocks_left f before after ≡ new
  left_over =
      ap (λ x. blocks_left f x after) (sym length-old)
      ∙ (ap (blocks_left f (length old)) (sym length-all) ∙ blocks_left-append old new)

  -- The blocks of the file that has grown.
  module _ (inode' : DiskInode) (disk' : Disk)
      (g : Grown f after (record inode { size = new_size }) disk inode' disk') where
    all_numbers : numbers (slot inode' disk') 0 (slots_of (data_blocks inode')) ≡ old ++ new
    all_numbers =
        let size : data_blocks inode' ≡ data_blocks_of new_size = ap data_blocks_of g.same_size in
        ap (λ x. numbers (slot inode' disk') 0 (slots_of x)) size
        ∙ (numbers-ext (slot inode' disk') f 0 after (λ j u. g.filled j (omega arith))
            ∙ (ap (numbers f 0) (sym length-all) ∙ numbers-at (old ++ new)))

    same_block : (i : ℕ) → i < data_blocks inode → block_id inode' i disk' ≡ block_id inode i disk
    same_block i u =
        block_id-slot inode' disk' i
        ∙ (g.filled (slot_of i) (
              omega (
                arith,
                slot_of-lt i _ u,
                slots_of_mono (data_blocks inode) (data_blocks_of new_size),
              ))
            ∙ (old_number (slot_of i) (slot_of-lt i _ u) ∙ sym (block_id-slot inode disk i)))

    not_index :
        (i : ℕ)
        → i < data_blocks inode
        → (j : ℕ) → j < after
        → is_index j ≡ true
        → block_id inode i disk ≢ f j
    not_index i u j v w e =
        let number : f (slot_of i) ≡ f j =
          old_number (slot_of i) (slot_of-lt i _ u) ∙ (sym (block_id-slot inode disk i) ∙ e) in
        let bound : slot_of i < after =
          omega (
            arith,
            slot_of-lt i _ u,
            slots_of_mono (data_blocks inode) (data_blocks_of new_size),
          ) in
        let same : slot_of i ≡ j = numbers-Separate.distinct (slot_of i) j bound v number in
        true-ne-false (sym w ∙ (ap (λ x. is_index x) (sym same) ∙ slot_of-data i))

    same_data :
        (i : ℕ)
        → i < data_blocks inode
        → disk' (block_id inode i disk) ≡ disk (block_id inode i disk)
    same_data i u = g.untouched _ (λ j v w e. not_index i u j v w e)

    same_content : (p : ℕ) → p < inode.size → content inode' disk' p ≡ content inode disk p
    same_content p u =
        let within : p / 512 < data_blocks inode = omega arith in
        ap (λ b. disk' b (p % 512)) (same_block (p / 512) within)
        ∙ ap (λ b. b (p % 512)) (same_data (p / 512) within)

-- A file that grows keeps its blocks, and gets the new ones after them, those for its indexes with them:
-- `increase_size` with as many blocks as `blocks_num_needed` says does not run out of them, and of the
-- grown file `clear_size` gives all blocks that it gives of the file before, and then the new ones, in
-- order and each once. The file has the new size and its type, and the bytes that it held. The
-- conditions are that the file does not shrink or grow beyond what its indexes reach, and that the
-- blocks, old and new, are different ones, with numbers of 32 bits.
pub increase_size-clear_size :
    (inode : DiskInode) (disk : Disk) (new_size : ℕ) (old new : List ℕ) {emptied : DiskInode}
    → clear_size inode disk ≡ some (old, emptied)
    → inode.size ≤ new_size
    → new_size ≤ indirect2_bound * block_sz
    → blocks_num_needed inode new_size ≡ some (length new)
    → Distinct (old ++ new)
    → All (λ b. b < 2 ^ 32) (old ++ new)
    → (inode' : DiskInode) × (disk' : Disk) × (emptied' : DiskInode) × (increase_size new_size new
          inode disk
        ≡ some (inode', disk'))
      × (inode'.size ≡ new_size)
      × (inode'.type_ ≡ inode.type_)
      × (clear_size inode' disk' ≡ some (old ++ new, emptied'))
      × ((p : ℕ) → p < inode.size → content inode' disk' p ≡ content inode disk p)
increase_size-clear_size inode disk new_size old new h grows fits needed different small =
    let (e0, cleared, _, _) = clear_size-numbers inode disk (omega arith) in
    let had : old ≡ numbers (slot inode disk) 0 (slots_of (data_blocks inode)) =
      same_pair _ _ _ _ (sym h ∙ cleared) in
    let s = numbers-Separate inode disk new_size old new had grows fits needed different small in
    let (inode', disk', e, g) =
      increase_size-Grown s new_size inode disk (omega arith) (omega arith) refl
        (old-Filled inode disk new_size old new had grows fits needed different small) in
    let (e1, cleared', _, _) = clear_size-numbers inode' disk' (omega (arith, g.same_size)) in
    (
      inode',
      disk',
      e1,
      ap (λ x. increase_size new_size x inode disk)
            (sym (left_over inode disk new_size old new had grows fits needed different small))
          ∙ e,
      g.same_size,
      g.same_type,
      cleared'
          ∙ ap (λ x. some (x, e1))
              (all_numbers inode disk new_size old new had grows fits needed different small inode'
                disk' g),
      same_content inode disk new_size old new had grows fits needed different small inode' disk' g,
    )

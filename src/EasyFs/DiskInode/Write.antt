-- ===== src/EasyFs/DiskInode/Write.antt =====
-- Writing a file of layout.rs, a round of the loop at a time.
pub mod Whole
use t_core.Base.{
  suc, some, ℕ, ◌≡◌, ◌≢◌, ◌≤◌, ◌<◌, ◌+◌, ◌-◌, ◌*◌, ◌/◌, ◌%◌, ◌^◌, refl, true, false, some, List, [],
  ◌∷◌, arith, if◌then◌else◌, suc, ◌==◌, leb, ltb, inl, inr, Bool-cases, contains, sym, ◌∙◌, ap,
  subst, ==-true,
}
use t_core.EasyFs.DiskInode.{
  DiskInode, Disk, DataBlock, Buffer, block_sz, copy_in, write_loop, entry, indirect2_bound,
}
use t_core.EasyFs.DiskInode.Blocks.{block_id, get_block_id-block_id}
use t_core.EasyFs.DiskInode.Read.{content, spliced, spliced_trans, stop_of}

-- The index blocks that `get_block_id` reads for block `j` of the file.
abbrev pub consulted : DiskInode → Disk → ℕ → List ℕ
consulted inode disk j =
    if ltb j 28
    then []
    else if ltb j 156
    then inode.indirect1 ∷ []
    else inode.indirect2 ∷ entry (disk inode.indirect2) ((j - 156) / 128) ∷ []

-- The first `nb` blocks of the file are distinct, and none is one of their index blocks.
pub record Separate (inode : DiskInode) (nb : ℕ) (disk : Disk) : Type 0 where
  pub distinct : (i j : ℕ) → i < nb → j < nb → block_id inode i disk ≡ block_id inode j disk → i ≡ j
  pub apart :
      (i j : ℕ)
      → i < nb
      → j < nb
      → contains (consulted inode disk j) (block_id inode i disk) ≡ false

-- A disk that differs in other blocks only.
abbrev SameIndex : DiskInode → Disk → Disk → ℕ → Type 0
SameIndex inode disk disk' j =
    (block_id inode j disk' ≡ block_id inode j disk)
    × (consulted inode disk' j ≡ consulted inode disk j)

index_same :
    (inode : DiskInode) (disk disk' : Disk) (j : ℕ)
    → ((b : ℕ) → contains (consulted inode disk j) b ≡ true → disk' b ≡ disk b)
    → SameIndex inode disk disk' j
unfolding block_id
index_same inode disk disk' j h = elim (Bool-cases (ltb j 28)) [
  | inl e ↦ rw e (refl, refl)
  | inr e ↦ elim (Bool-cases (ltb j 156)) [
    | inl e' ↦
        let one : disk' inode.indirect1 ≡ disk inode.indirect1 =
          h inode.indirect1 (rw e (rw e' (ground arith))) in
        rw e (rw e' (rw one (refl, refl)))
    | inr e' ↦
        let two : disk' inode.indirect2 ≡ disk inode.indirect2 =
          h inode.indirect2 (rw e (rw e' (ground arith))) in
        let one =
          h (entry (disk inode.indirect2) ((j - 156) / 128)) (rw e (rw e' (ground arith))) in
        rw e (rw e' (rw two (rw one (refl, refl))))
  ]
]

-- `n` bytes of the buffer, from `at` on, are written to the file from `start` on; nothing else is.
pub record Written (inode : DiskInode) (nb : ℕ) (disk : Disk) (start at n : ℕ) (buf : Buffer)
    (disk' : Disk) : Type 0 where
  pub same_index : (j : ℕ) → j < nb → SameIndex inode disk disk' j
  pub bytes :
      (p : ℕ)
      → p < nb * block_sz
      → content inode disk' p ≡ spliced buf.bytes at start n (content inode disk) p
  pub others : (b : ℕ) → ((j : ℕ) → j < nb → block_id inode j disk ≢ b) → disk' b ≡ disk b

Written-trans :
    (inode : DiskInode) (nb : ℕ) (start at n m : ℕ) (buf : Buffer) (a b c : Disk)
    → Written inode nb a start at n buf b
    → Written inode nb b (start + n) (at + n) m buf c
    → Written inode nb a start at (n + m) buf c
Written-trans inode nb start at n m buf a b c v w = record {
  same_index = λ j u.
      ((w.same_index j u).0 ∙ (v.same_index j u).0, (w.same_index j u).1 ∙ (v.same_index j u).1);
  bytes = λ p u.
      spliced_trans buf.bytes at start n m (content inode a) (content inode b) (content inode c) p
        (v.bytes p u) (w.bytes p u);
  others = λ d h. w.others d (λ j u. rw (v.same_index j u).0 (h j u)) ∙ v.others d h;
}

Written-Separate :
    (inode : DiskInode) (nb : ℕ) (start at n : ℕ) (buf : Buffer) (a b : Disk)
    → Separate inode nb a
    → Written inode nb a start at n buf b
    → Separate inode nb b
Written-Separate inode nb start at n buf a b s w = record {
  distinct = λ i j u v e. s.distinct i j u v (sym (w.same_index i u).0 ∙ e ∙ (w.same_index j v).0);
  apart = λ i j u v. rw (w.same_index i u).0 (rw (w.same_index j v).1 (s.apart i j u v));
}

-- One block of the disk is replaced.
abbrev replaced : ℕ → DataBlock → Disk → Disk
replaced id block disk = λ b. if b == id then block else disk b

replaced-same :
    (inode : DiskInode) (nb k : ℕ) (disk : Disk) (block : DataBlock) (j : ℕ)
    → Separate inode nb disk
    → k < nb
    → j < nb
    → SameIndex inode disk (replaced (block_id inode k disk) block disk) j
replaced-same inode nb k disk block j s u v =
    let id : ℕ = block_id inode k disk in
    index_same inode disk (replaced id block disk) j λ b h. elim (Bool-cases (b == id)) [
      | inl e ↦
          let same : b ≡ id = ==-true b id e in
          let used : contains (consulted inode disk j) id ≡ true =
            subst (λ x. contains (consulted inode disk j) x ≡ true) same h in
          absurd (ground (arith, s.apart k j u v))
      | inr e ↦ rw e refl
    ]

-- The block that a round writes.
abbrev overwritten : DataBlock → ℕ → ℕ → (ℕ → ℕ) → ℕ → DataBlock
overwritten block from n bytes at j =
    if leb from j then (if ltb j (from + n) then bytes (at + (j - from)) else block j) else block j

different : (a b : ℕ) → (a == b) ≡ false → a ≢ b
different a b e = ground arith

replaced-other :
    (id : ℕ) (block : DataBlock) (disk : Disk) (b : ℕ) → b ≢ id → replaced id block disk b ≡ disk b
replaced-other id block disk b h = elim (Bool-cases (b == id)) [
  | inl e ↦ absurd (h (==-true b id e))
  | inr e ↦ rw e refl
]

overwritten-spliced :
    (block : DataBlock) (start at n p : ℕ) (bytes : ℕ → ℕ) (old : ℕ)
    → start % block_sz + n ≤ block_sz
    → p / block_sz ≡ start / block_sz
    → old ≡ block (p % block_sz)
    → overwritten block (start % block_sz) n bytes at (p % block_sz)
      ≡ spliced bytes at start n (λ x. old) p
overwritten-spliced block start at n p bytes old h e o =
    let a : leb (start % 512) (p % 512) ≡ leb start p = ground arith in
    let b : ltb (p % 512) (start % 512 + n) ≡ ltb p (start + n) = ground arith in
    let c : p % 512 - start % 512 ≡ p - start = omega arith in rw a (rw b (rw c (rw o refl)))

outside-spliced :
    (start at n p : ℕ) (bytes old : ℕ → ℕ)
    → start % block_sz + n ≤ block_sz
    → p / block_sz ≢ start / block_sz
    → old p ≡ spliced bytes at start n old p
outside-spliced start at n p bytes old h ne = elim (Bool-cases (leb start p)) [
  | inl e ↦ elim (Bool-cases (ltb p (start + n))) [
    | inl e' ↦
        let low : start ≤ p = ground arith in
        let high : p < start + n = ground arith in absurd (ne (omega arith))
    | inr e' ↦ rw e (rw e' refl)
  ]
  | inr e ↦ rw e refl
]

round-bytes :
    (inode : DiskInode) (nb start at n p : ℕ) (buf : Buffer) (disk : Disk)
    → Separate inode nb disk
    → start / block_sz < nb
    → p / block_sz < nb
    → start % block_sz + n ≤ block_sz
    → let id : ℕ = block_id inode (start / block_sz) disk in
      replaced id
        (overwritten (disk id) (start % block_sz) n buf.bytes at)
        disk
        (block_id inode (p / block_sz) disk)
        (p % block_sz)
      ≡ spliced buf.bytes at start n (content inode disk) p
round-bytes inode nb start at n p buf disk s u v h =
    let id : ℕ = block_id inode (start / block_sz) disk in
    let mine : ℕ = block_id inode (p / block_sz) disk in
    elim (Bool-cases (mine == id)) [
      | inl e ↦
          let same : mine ≡ id = ==-true mine id e in
          rw e (
            overwritten-spliced (disk id) start at n p buf.bytes (content inode disk p) h
              (s.distinct (p / block_sz) (start / block_sz) v u same)
              (ap (λ x. disk x (p % block_sz)) same))
      | inr e ↦ rw e (
          outside-spliced start at n p buf.bytes (content inode disk) h
            λ q. different mine id e (ap (λ x. block_id inode x disk) q))
    ]

round-Written :
    (inode : DiskInode) (nb start at n : ℕ) (buf : Buffer) (disk : Disk)
    → Separate inode nb disk
    → start / block_sz < nb
    → start % block_sz + n ≤ block_sz
    → let id : ℕ = block_id inode (start / block_sz) disk in
      Written inode nb disk start at n buf
        (replaced id (overwritten (disk id) (start % block_sz) n buf.bytes at) disk)
round-Written inode nb start at n buf disk s u h =
    let k : ℕ = start / block_sz in
    let id : ℕ = block_id inode k disk in
    let block : DataBlock = overwritten (disk id) (start % block_sz) n buf.bytes at in
    record {
      same_index = λ j v. replaced-same inode nb k disk block j s u v;
      bytes = λ p v.
          let q : p / block_sz < nb = omega arith in
          ap (λ x. replaced id block disk x (p % block_sz))
            (replaced-same inode nb k disk block (p / block_sz) s u q).0
          ∙ round-bytes inode nb start at n p buf disk s u q h;
      others = λ b f. replaced-other id block disk b (λ e. f k u (sym e));
    }

-- The rounds of the loop.
abbrev source : DiskInode → ℕ → Disk → DataBlock
source inode start_block disk = disk (block_id inode (start_block % 2 ^ 32) disk)

copy_in-overwritten :
    (block : DataBlock) (from n at : ℕ) (buf : Buffer)
    → from + n ≤ block_sz
    → at + n ≤ buf.len
    → copy_in block from n buf at ≡ some (overwritten block from n buf.bytes at)
unfolding copy_in
copy_in-overwritten block from n at buf h l =
    let in_block : leb (from + n) block_sz ≡ true = ground arith in
    let in_buf : leb (at + n) buf.len ≡ true = ground arith in rw in_block (rw in_buf refl)

write_loop-last :
    (inode : DiskInode) (buf : Buffer) (end fuel start start_block at : ℕ) (disk : Disk)
    (block : DataBlock)
    → start_block % 2 ^ 32 < indirect2_bound
    → copy_in (source inode start_block disk) (start % block_sz) (stop_of start end - start) buf at
      ≡ some block
    → stop_of start end == end ≡ true
    → write_loop inode buf end (suc fuel) start start_block at disk
      ≡ some (
        at + (stop_of start end - start),
        replaced (block_id inode (start_block % 2 ^ 32) disk) block disk,
      )
unfolding write_loop
write_loop-last inode buf end fuel start start_block at disk block g e last =
    rw (get_block_id-block_id inode (start_block % 2 ^ 32) disk g) (rw e (rw last refl))

write_loop-more :
    (inode : DiskInode) (buf : Buffer) (end fuel start start_block at : ℕ) (disk : Disk)
    (block : DataBlock)
    → start_block % 2 ^ 32 < indirect2_bound
    → copy_in (source inode start_block disk) (start % block_sz) (stop_of start end - start) buf at
      ≡ some block
    → stop_of start end == end ≡ false
    → write_loop inode buf end (suc fuel) start start_block at disk
      ≡ write_loop inode buf end fuel
          (stop_of start end)
          (start_block + 1)
          (at + (stop_of start end - start))
          (replaced (block_id inode (start_block % 2 ^ 32) disk) block disk)
unfolding write_loop
write_loop-more inode buf end fuel start start_block at disk block g e more =
    rw (get_block_id-block_id inode (start_block % 2 ^ 32) disk g) (rw e (rw more refl))

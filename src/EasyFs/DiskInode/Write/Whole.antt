-- ===== src/EasyFs/DiskInode/Write/Whole.antt =====
-- Whole calls of `write_at` of layout.rs, and reading back what they wrote.
use t_core.Base.{
  zero, suc, some, ℕ, ◌≡◌, ◌≢◌, ◌≤◌, ◌<◌, ◌+◌, ◌-◌, ◌*◌, ◌/◌, ◌%◌, ◌^◌, refl, true, arith,
  if◌then◌else◌, ◌==◌, leb, ltb, inl, inr, Bool-cases, min, sym, ◌∙◌, ap, subst, ==-true,
}
use t_core.EasyFs.DiskInode.{
  DiskInode, Disk, Buffer, block_sz, data_blocks, write_loop, write_at, read_at, indirect2_bound,
}
use t_core.EasyFs.DiskInode.Blocks.{block_id}
use t_core.EasyFs.DiskInode.Read.{stop_of, read_at-content, content, spliced}
use t_core.EasyFs.DiskInode.Write.{
  Separate, Written, Written-trans, Written-Separate, round-Written, replaced, overwritten, source,
  copy_in-overwritten, write_loop-last, write_loop-more,
}

-- The disk after a round.
abbrev after_round : DiskInode → ℕ → ℕ → ℕ → Buffer → Disk → Disk
after_round inode start at n buf disk =
    replaced (block_id inode (start / block_sz % 2 ^ 32) disk)
      (overwritten (source inode (start / block_sz) disk) (start % block_sz) n buf.bytes at) disk

after_round-Written :
    (inode : DiskInode) (nb start at n : ℕ) (buf : Buffer) (disk : Disk)
    → Separate inode nb disk
    → start / block_sz < nb
    → start < 2 ^ 32
    → start % block_sz + n ≤ block_sz
    → Written inode nb disk start at n buf (after_round inode start at n buf disk)
after_round-Written inode nb start at n buf disk s u b h =
    let small : start / block_sz % 2 ^ 32 ≡ start / block_sz = omega arith in
    rw small (round-Written inode nb start at n buf disk s u h)

write_loop-Written :
    (inode : DiskInode) (nb end fuel start at : ℕ) (buf : Buffer) (disk : Disk)
    → Separate inode nb disk
    → start < end
    → end ≤ nb * block_sz
    → end ≤ start + fuel
    → end ≤ indirect2_bound * block_sz
    → at + (end - start) ≤ buf.len
    → (disk' : Disk) × (write_loop inode buf end fuel start (start / block_sz) at disk
        ≡ some (at + (end - start), disk'))
      × Written inode nb disk start at (end - start) buf disk'
write_loop-Written inode nb end zero start at buf disk sep h z k s l = absurd (omega arith)
write_loop-Written inode nb end (suc fuel) start at buf disk sep h z k s l =
    let stop : ℕ = stop_of start end in
    let n : ℕ = stop - start in
    let in_block : start % block_sz + n ≤ block_sz = omega arith in
    let copies =
      copy_in-overwritten (source inode (start / block_sz) disk) (start % block_sz) n at buf
        in_block (omega arith) in
    let next : Disk = after_round inode start at n buf disk in
    let w : Written inode nb disk start at n buf next =
      after_round-Written inode nb start at n buf disk sep (omega arith) (omega arith) in_block in
    elim (Bool-cases (stop == end)) [
      | inl last ↦
          let same : stop ≡ end = ==-true stop end last in
          (
            next,
            write_loop-last inode buf end fuel start (start / block_sz) at disk _ (omega arith)
                  copies last
                ∙ ap (λ x. some (at + (x - start), next)) same,
            subst (λ x. Written inode nb disk start at (x - start) buf next) same w,
          )
      | inr more ↦
          let lt : stop < end = ground arith in
          let up : stop / block_sz ≡ start / block_sz + 1 = ground arith in
          let (final, e, v) =
            write_loop-Written inode nb end fuel stop (at + n) buf next
              (Written-Separate inode nb start at n buf disk next sep w) lt z (omega arith) s
              (omega arith) in
          let total : at + n + (end - stop) ≡ at + (end - start) = omega arith in
          let parts : n + (end - stop) ≡ end - start = omega arith in
          let reached : start + n ≡ stop = omega arith in
          let v' : Written inode nb next (start + n) (at + n) (end - stop) buf final =
            rw reached v in
          (
            final,
            write_loop-more inode buf end fuel start (start / block_sz) at disk _ (omega arith)
                  copies more
                ∙ ap (λ x. write_loop inode buf end fuel stop x (at + n) next) (sym up)
                ∙ e
                ∙ ap (λ x. some (x, final)) total,
            subst (λ x. Written inode nb disk start at x buf final) parts
                (Written-trans inode nb start at n (end - stop) buf disk next final w v'),
          )
    ]

-- What a call of `write_at` at `offset` that writes `n` bytes leaves.
pub record Stored (inode : DiskInode) (offset n : ℕ) (buf : Buffer) (disk disk' : Disk)
    : Type 0 where
  pub separate : Separate inode (data_blocks inode) disk'
  pub bytes :
      (p : ℕ)
      → p < inode.size
      → content inode disk' p ≡ (
          if leb offset p
          then (if ltb p (offset + n) then buf.bytes (p - offset) else content inode disk p)
          else content inode disk p)
  pub others :
      (b : ℕ) → ((j : ℕ) → j < data_blocks inode → block_id inode j disk ≢ b) → disk' b ≡ disk b

from_zero :
    (f : ℕ → ℕ) (offset n : ℕ) (old : ℕ → ℕ) (p : ℕ)
    → spliced f 0 offset n old p
      ≡ (if leb offset p then (if ltb p (offset + n) then f (p - offset) else old p) else old p)
from_zero f offset n old p = let same : 0 + (p - offset) ≡ p - offset = omega arith in rw same refl

Written-Stored :
    (inode : DiskInode) (offset n : ℕ) (buf : Buffer) (disk disk' : Disk)
    → inode.size ≤ indirect2_bound * block_sz
    → Separate inode (data_blocks inode) disk
    → Written inode (data_blocks inode) disk offset 0 n buf disk'
    → Stored inode offset n buf disk disk'
Written-Stored inode offset n buf disk disk' h s w = record {
  separate = Written-Separate inode (data_blocks inode) offset 0 n buf disk disk' s w;
  bytes = λ p u. w.bytes p (omega arith) ∙ from_zero buf.bytes offset n (content inode disk) p;
  others = w.others;
}

write_from :
    (inode : DiskInode) (end offset : ℕ) (buf : Buffer) (disk : Disk)
    → inode.size ≤ indirect2_bound * block_sz
    → Separate inode (data_blocks inode) disk
    → offset < end
    → end ≤ inode.size
    → end - offset ≤ buf.len
    → (disk' : Disk) × (write_loop inode buf end
          (end - offset + 1)
          offset
          (offset / block_sz)
          0
          disk
        ≡ some (end - offset, disk'))
      × Stored inode offset (end - offset) buf disk disk'
write_from inode end offset buf disk h s o z l =
    let fits : end ≤ data_blocks inode * block_sz = omega arith in
    let (disk', e, w) =
      write_loop-Written inode (data_blocks inode) end (end - offset + 1) offset 0 buf disk s o fits
        (omega arith) (omega arith) (omega arith) in
    let count : 0 + (end - offset) ≡ end - offset = omega arith in
    (
      disk',
      e ∙ ap (λ x. some (x, disk')) count,
      Written-Stored inode offset (end - offset) buf disk disk' h s w,
    )

-- `write_at` writes the buffer to the file from `offset` on, up to the end of the file, and returns how
-- many bytes that are: in the file these bytes are those of the buffer, the others as they were; no
-- block that is not of the file changes, and the blocks of the file stay separate. It does not panic,
-- nor run out of the rounds that the model gives its loop. The conditions are that the blocks of the
-- file are distinct and none is one of its index blocks, that the size is at most what the index blocks
-- reach, that `offset` is inside the file, and that the buffer is not empty.
pub write_at-Stored :
    (inode : DiskInode) (offset : ℕ) (buf : Buffer) (disk : Disk)
    → inode.size ≤ indirect2_bound * block_sz
    → Separate inode (data_blocks inode) disk
    → offset < inode.size
    → 0 < buf.len
    → let n : ℕ = min (offset + buf.len) inode.size - offset in
      (disk' : Disk) × (write_at inode offset buf disk ≡ some (n, disk'))
      × Stored inode offset n buf disk disk'
unfolding write_at
write_at-Stored inode offset buf disk h s o l =
    let end : ℕ = min (offset + buf.len) inode.size in
    let inside : leb offset end ≡ true = ground arith in
    rw inside (write_from inode end offset buf disk h s (omega arith) (omega arith) (omega arith))

read_back :
    (offset n n' len i : ℕ) (bytes before : ℕ → ℕ) (stored read old : ℕ)
    → n ≡ len
    → n' ≡ len
    → i < len
    → stored ≡ (
        if leb offset (offset + i)
        then (if ltb (offset + i) (offset + n)
            then bytes (offset + i - offset)
            else before (offset + i))
        else before (offset + i))
    → read ≡ (if ltb i n' then stored else old)
    → read ≡ bytes i
read_back offset n n' len i bytes before stored read old e e' u st rd =
    let place : offset + i - offset ≡ i = omega arith in
    let same : bytes (offset + i - offset) ≡ bytes i = ap bytes place in
    let a : leb offset (offset + i) ≡ true = ground arith in
    let b : ltb (offset + i) (offset + n) ≡ true = ground arith in
    let c : ltb i n' ≡ true = ground arith in ground (arith, st, rd, same, a, b, c)

-- What `write_at` wrote, `read_at` reads: after a call with a buffer that fits in the file, a call with
-- the same offset and a buffer of the same length returns the whole length, and the same bytes. The
-- conditions are those of `write_at`.
pub read_at-write_at :
    (inode : DiskInode) (offset : ℕ) (buf other : Buffer) (disk : Disk)
    → inode.size ≤ indirect2_bound * block_sz
    → Separate inode (data_blocks inode) disk
    → offset + buf.len ≤ inode.size
    → 0 < buf.len
    → other.len ≡ buf.len
    → (disk' : Disk) × (read : Buffer) × (write_at inode offset buf disk ≡ some (buf.len, disk'))
      × (read_at inode offset other disk' ≡ some (buf.len, read))
      × ((i : ℕ) → i < buf.len → read.bytes i ≡ buf.bytes i)
read_at-write_at inode offset buf other disk h s o l e =
    let (disk', w, st) = write_at-Stored inode offset buf disk h s (omega arith) l in
    let (read, r, _, rb) = read_at-content inode offset other disk' (omega arith) in
    let n : min (offset + buf.len) inode.size - offset ≡ buf.len = omega arith in
    let n' : min (offset + other.len) inode.size - offset ≡ buf.len = omega arith in
    (
      disk',
      read,
      w ∙ ap (λ x. some (x, disk')) n,
      r ∙ ap (λ x. some (x, read)) n',
      λ i u.
          read_back offset _ _ buf.len i buf.bytes (content inode disk) _ _ (other.bytes i) n n' u
            (st.bytes (offset + i) (omega arith)) (rb i),
    )

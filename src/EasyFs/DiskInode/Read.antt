-- ===== src/EasyFs/DiskInode/Read.antt =====
-- Reading a file of layout.rs.
use t_core.Base.{
  zero, suc, some, ℕ, ◌/◌, ◌%◌, ◌+◌, ◌≡◌, if◌then◌else◌, ◌∙◌, ◌≤◌, leb, ◌<◌, ltb, ◌^◌, some, ◌-◌,
  arith, true, Bool-cases, refl, inl, ap, inr, suc, min, ◌*◌, ◌==◌, ==-true, subst, sym, false,
}
use t_core.EasyFs.DiskInode.{
  DiskInode, Disk, block_sz, Buffer, copy_out, read_loop, read_at, indirect2_bound,
}
use t_core.EasyFs.DiskInode.Blocks.{block_id, get_block_id-block_id}

-- Byte `p` of the file.
abbrev pub content : DiskInode → Disk → ℕ → ℕ
content inode disk p = disk (block_id inode (p / block_sz) disk) (p % block_sz)

-- `n` values of `f` from `offset` on, put in place of those of `old` from `at` on.
abbrev pub spliced : (ℕ → ℕ) → ℕ → ℕ → ℕ → (ℕ → ℕ) → ℕ → ℕ
spliced f offset at n old i =
    if leb at i then (if ltb i (at + n) then f (offset + (i - at)) else old i) else old i

pub spliced_trans :
    (f : ℕ → ℕ) (offset at n m : ℕ) (a b c : ℕ → ℕ) (i : ℕ)
    → b i ≡ spliced f offset at n a i
    → c i ≡ spliced f (offset + n) (at + n) m b i
    → c i ≡ spliced f offset at (n + m) a i
spliced_trans f offset at n m a b c i h k =
    let shift : offset + n + (i - (at + n)) ≡ offset + n + (i - at - n) = omega arith in
    elim (Bool-cases (leb (at + n) i)) [
      | inl e ↦
          let same : offset + n + (i - (at + n)) ≡ offset + (i - at) = ground arith in
          let moved : f (offset + n + (i - (at + n))) ≡ f (offset + (i - at)) = ap f same in
          ground (arith, h, k)
      | inr e ↦ ground (arith, h, k)
    ]

-- `n` bytes of the file from `offset` on stand in the buffer from `at` on, the rest is as in `old`.
abbrev Holds : DiskInode → Disk → ℕ → ℕ → ℕ → Buffer → Buffer → Type 0
Holds inode disk offset at n old new =
    (new.len ≡ old.len)
    × ((i : ℕ) → new.bytes i ≡ spliced (content inode disk) offset at n old.bytes i)

-- The bytes of the file that stand in one block.
pub content-in_block :
    (inode : DiskInode) (disk : Disk) (start k : ℕ)
    → start % block_sz + k < block_sz
    → disk (block_id inode (start / block_sz) disk) (start % block_sz + k)
      ≡ content inode disk (start + k)
content-in_block inode disk start k h =
    let q : (start + k) / 512 ≡ start / 512 = omega arith in
    let r : (start + k) % 512 ≡ start % 512 + k = omega arith in rw q (rw r refl)

spliced_ext :
    (f g : ℕ → ℕ) (offset from at n : ℕ) (old : ℕ → ℕ)
    → ((k : ℕ) → k < n → f (offset + k) ≡ g (from + k))
    → (i : ℕ) → spliced f offset at n old i ≡ spliced g from at n old i
spliced_ext f g offset from at n old h i = elim (Bool-cases (leb at i)) [
  | inl e ↦ elim (Bool-cases (ltb i (at + n))) [
    | inl e' ↦ rw e (rw e' (h (i - at) (ground arith)))
    | inr e' ↦ rw e (rw e' refl)
  ]
  | inr e ↦ rw e refl
]

-- One round copies up to the end of the block, or of the file.
copy_out-Holds :
    (inode : DiskInode) (disk : Disk) (start at n : ℕ) (buf : Buffer)
    → start % block_sz + n ≤ block_sz
    → start < 2 ^ 32
    → at + n ≤ buf.len
    → (buf' : Buffer) × (copy_out
          (disk (block_id inode (start / block_sz % 2 ^ 32) disk))
          (start % block_sz)
          n
          buf
          at
        ≡ some buf')
      × Holds inode disk start at n buf buf'
unfolding copy_out
copy_out-Holds inode disk start at n buf h s l =
    let small : start / block_sz % 2 ^ 32 ≡ start / block_sz = omega arith in
    let in_block : leb (start % block_sz + n) block_sz ≡ true = ground arith in
    let in_buf : leb (at + n) buf.len ≡ true = ground arith in
    let copied =
      spliced_ext (disk (block_id inode (start / block_sz) disk)) (content inode disk)
        (start % block_sz) start at n buf.bytes
        (λ k u. content-in_block inode disk start k (omega arith)) in
    rw small (rw in_block (rw in_buf (_, refl, (refl, copied))))

Holds-trans :
    (inode : DiskInode) (disk : Disk) (offset at n m : ℕ) (a b c : Buffer)
    → Holds inode disk offset at n a b
    → Holds inode disk (offset + n) (at + n) m b c
    → Holds inode disk offset at (n + m) a c
Holds-trans inode disk offset at n m a b c (la, h) (lb, k) = (
  lb ∙ la,
  λ i. spliced_trans (content inode disk) offset at n m a.bytes b.bytes c.bytes i (h i) (k i),
)

-- Where a round that starts at `start` ends.
abbrev pub stop_of : ℕ → ℕ → ℕ
stop_of start end = min ((start / block_sz + 1) * block_sz) end

read_loop-last :
    (inode : DiskInode) (disk : Disk) (end fuel start start_block at : ℕ) (buf b : Buffer)
    → start_block % 2 ^ 32 < indirect2_bound
    → copy_out
        (disk (block_id inode (start_block % 2 ^ 32) disk))
        (start % block_sz)
        (stop_of start end - start)
        buf
        at
      ≡ some b
    → stop_of start end == end ≡ true
    → read_loop inode disk end (suc fuel) start start_block at buf
      ≡ some (at + (stop_of start end - start), b)
unfolding read_loop
read_loop-last inode disk end fuel start start_block at buf b g e last =
    rw (get_block_id-block_id inode (start_block % 2 ^ 32) disk g) (rw e (rw last refl))

read_loop-more :
    (inode : DiskInode) (disk : Disk) (end fuel start start_block at : ℕ) (buf b : Buffer)
    → start_block % 2 ^ 32 < indirect2_bound
    → copy_out
        (disk (block_id inode (start_block % 2 ^ 32) disk))
        (start % block_sz)
        (stop_of start end - start)
        buf
        at
      ≡ some b
    → stop_of start end == end ≡ false
    → read_loop inode disk end (suc fuel) start start_block at buf
      ≡ read_loop inode disk end fuel
          (stop_of start end)
          (start_block + 1)
          (at + (stop_of start end - start))
          b
unfolding read_loop
read_loop-more inode disk end fuel start start_block at buf b g e more =
    rw (get_block_id-block_id inode (start_block % 2 ^ 32) disk g) (rw e (rw more refl))

read_loop-Holds :
    (inode : DiskInode) (disk : Disk) (end fuel start at : ℕ) (buf : Buffer)
    → start < end
    → end ≤ start + fuel
    → end ≤ indirect2_bound * block_sz
    → at + (end - start) ≤ buf.len
    → (buf' : Buffer) × (read_loop inode disk end fuel start (start / block_sz) at buf
        ≡ some (at + (end - start), buf'))
      × Holds inode disk start at (end - start) buf buf'
unfolding read_loop
read_loop-Holds inode disk end zero start at buf h k s l = absurd (omega arith)
read_loop-Holds inode disk end (suc fuel) start at buf h k s l =
    let stop : ℕ = stop_of start end in
    let (b, e, w) =
      copy_out-Holds inode disk start at (stop - start) buf (omega arith) (omega arith)
        (omega arith) in
    elim (Bool-cases (stop == end)) [
      | inl last ↦
          let same : stop ≡ end = ==-true stop end last in
          (
            b,
            read_loop-last inode disk end fuel start (start / block_sz) at buf b (omega arith) e
                  last
                ∙ ap (λ x. some (at + (x - start), b)) same,
            subst (λ x. Holds inode disk start at (x - start) buf b) same w,
          )
      | inr more ↦
          let lt : stop < end = ground arith in
          let up : stop / block_sz ≡ start / block_sz + 1 = ground arith in
          let (b', e', w') =
            read_loop-Holds inode disk end fuel stop (at + (stop - start)) b lt (omega arith) s
              (rw w.0 (omega arith)) in
          let total : at + (stop - start) + (end - stop) ≡ at + (end - start) = omega arith in
          let parts : stop - start + (end - stop) ≡ end - start = omega arith in
          let reached : start + (stop - start) ≡ stop = omega arith in
          let w'' : Holds inode disk (start + (stop - start)) (at + (stop - start)) (end - stop) b
              b' =
            rw reached w' in
          (
            b',
            read_loop-more inode disk end fuel start (start / block_sz) at buf b (omega arith) e
                  more
                ∙ ap (λ x. read_loop inode disk end fuel stop x (at + (stop - start)) b) (sym up)
                ∙ e'
                ∙ ap (λ x. some (x, b')) total,
            subst (λ x. Holds inode disk start at x buf b') parts
                (Holds-trans inode disk start at (stop - start) (end - stop) buf b b' w w''),
          )
    ]

from_start :
    (f : ℕ → ℕ) (offset n : ℕ) (old : ℕ → ℕ) (i : ℕ)
    → spliced f offset 0 n old i ≡ (if ltb i n then f (offset + i) else old i)
from_start f offset n old i =
    let same : ltb i (0 + n) ≡ ltb i n = ground arith in
    let place : offset + (i - 0) ≡ offset + i = omega arith in
    let from : leb 0 i ≡ true = ground arith in rw from (rw same (rw place refl))

read_from_start :
    (inode : DiskInode) (disk : Disk) (end offset : ℕ) (buf : Buffer)
    → offset < end
    → end ≤ indirect2_bound * block_sz
    → end - offset ≤ buf.len
    → (buf' : Buffer) × (read_loop inode disk end (end - offset) offset (offset / block_sz) 0 buf
        ≡ some (end - offset, buf'))
      × (buf'.len ≡ buf.len)
      × ((i : ℕ)
          → buf'.bytes i
            ≡ (if ltb i (end - offset) then content inode disk (offset + i) else buf.bytes i))
read_from_start inode disk end offset buf h s l =
    let (b, r, w) =
      read_loop-Holds inode disk end (end - offset) offset 0 buf h (omega arith) s (omega arith) in
    let count : 0 + (end - offset) ≡ end - offset = omega arith in
    (
      b,
      r ∙ ap (λ x. some (x, b)) count,
      w.0,
      λ i. w.1 i ∙ from_start (content inode disk) offset (end - offset) buf.bytes i,
    )

-- `read_at` reads what the file holds from `offset` on, up to its end or that of the buffer: it
-- returns how many bytes these are, puts them at the start of the buffer, and leaves the rest of the
-- buffer as it was. It does not panic, nor run out of the rounds that the model gives its loop. The
-- condition is that the size is at most what the index blocks reach.
pub read_at-content :
    (inode : DiskInode) (offset : ℕ) (buf : Buffer) (disk : Disk)
    → inode.size ≤ indirect2_bound * block_sz
    → let n : ℕ = min (offset + buf.len) inode.size - offset in
      (buf' : Buffer) × (read_at inode offset buf disk ≡ some (n, buf'))
      × (buf'.len ≡ buf.len)
      × ((i : ℕ)
          → buf'.bytes i ≡ (if ltb i n then content inode disk (offset + i) else buf.bytes i))
unfolding read_at
read_at-content inode offset buf disk h =
    let end : ℕ = min (offset + buf.len) inode.size in
    elim (Bool-cases (leb end offset)) [
      | inl e ↦
          let none_left : end - offset ≡ 0 = ground arith in
          rw e (rw none_left (buf, refl, refl, λ i. ground arith))
      | inr e ↦
          let some_left : offset < end = ground arith in
          rw e (read_from_start inode disk end offset buf some_left (omega arith) (omega arith))
    ]

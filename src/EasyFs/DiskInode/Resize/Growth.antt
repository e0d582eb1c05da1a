-- ===== src/EasyFs/DiskInode/Resize/Growth.antt =====
-- The loops of `increase_size` of layout.rs put the new blocks into the places in order.
use t_core.Base.{
  ℕ, zero, suc, ◌≡◌, ◌≢◌, ◌<◌, ◌≤◌, ◌+◌, ◌-◌, ◌%◌, ◌==◌, ◌&&◌, ◌||◌, Bool, true, arith,
  if◌then◌else◌, refl, sym, ap, ◌∙◌, leb, Bool-cases, inl, inr, ==-true, List, [], ◌∷◌, some,
}
use t_core.EasyFs.DiskInode.{DiskInode, Disk}
use t_core.EasyFs.DiskInode.Resize.{fill_direct, fill_entries, write_entry}
use t_core.EasyFs.DiskInode.Resize.Slots.{Filled, Separate}
use t_core.EasyFs.DiskInode.Resize.Filling.{direct-Filled, entry-Filled}

-- `n` values of `f`, from that at `k` on.
unfoldable pub numbers : (ℕ → ℕ) → ℕ → ℕ → List ℕ
numbers f k zero = []
numbers f k (suc n) = f k ∷ numbers f (suc k) n

-- The new blocks that are left when the slots before `k` are filled.
unfoldable pub blocks_left : (ℕ → ℕ) → ℕ → ℕ → List ℕ
blocks_left f k end = numbers f k (end - k)

pub blocks_left-cons :
    (f : ℕ → ℕ) (k end : ℕ) → k < end → blocks_left f k end ≡ f k ∷ blocks_left f (suc k) end
unfolding blocks_left numbers
blocks_left-cons f k end h =
    let less : end - k ≡ suc (end - suc k) = omega arith in ap (numbers f k) less

-- A block that holds no slot keeps its bytes.
abbrev pub is_index : ℕ → Bool
is_index j = j == 28 || (j == 157 || (leb 158 j && (j - 158) % 129 == 0))

abbrev pub Untouched : (ℕ → ℕ) → ℕ → Disk → Disk → Type 0
Untouched f n disk disk' =
    (b : ℕ) → ((j : ℕ) → j < n → is_index j ≡ true → b ≢ f j) → disk' b ≡ disk b

pub write_entry-other :
    (id i v : ℕ) (disk : Disk) (b : ℕ) → b ≢ id → write_entry id i v disk b ≡ disk b
unfolding write_entry
write_entry-other id i v disk b h = elim (Bool-cases (b == id)) [
  | inl e ↦ absurd (h (==-true b id e))
  | inr e ↦ rw e refl
]

module _ {f : ℕ → ℕ} {end : ℕ} (s : Separate f end) where
  pub fill_direct-Filled :
      (n k e : ℕ) (inode : DiskInode) (disk : Disk)
      → e ≡ k + n
      → e ≤ 28
      → e ≤ end
      → Filled f k inode disk
      → (inode' : DiskInode) × (fill_direct n k inode (blocks_left f k end)
          ≡ some (inode', blocks_left f e end))
        × Filled f e inode' disk
        × (inode'.size ≡ inode.size)
        × (inode'.type_ ≡ inode.type_)
  unfolding fill_direct
  fill_direct-Filled zero k e inode disk h small within done =
      let same : k ≡ e = omega arith in
      (inode, ap (λ x. some (inode, blocks_left f x end)) same, rw (sym same) done, refl, refl)
  fill_direct-Filled (suc n) k e inode disk h small within done =
      let inode1 : DiskInode = record inode {
        direct = λ i. if i == k then f k else inode.direct i;
      } in
      let (inode', e', done', size, type) =
        fill_direct-Filled n (suc k) e inode1 disk (omega arith) small within
          (direct-Filled s k (omega arith) inode disk done (omega arith)) in
      (inode', rw (blocks_left-cons f k end (omega arith)) e', done', size, type)

  pub fill_entries-Filled :
      (n i k e : ℕ) (inode : DiskInode) (disk : Disk)
      → k ≡ 29 + i
      → e ≡ k + n
      → e ≤ 157
      → e ≤ end
      → inode.indirect1 ≡ f 28
      → Filled f k inode disk
      → (disk' : Disk) × (fill_entries n i inode.indirect1 disk (blocks_left f k end)
          ≡ some (disk', blocks_left f e end))
        × Filled f e inode disk'
        × Untouched f end disk disk'
  unfolding fill_entries
  fill_entries-Filled zero i k e inode disk p h small within id done =
      let same : k ≡ e = omega arith in
      (disk, ap (λ x. some (disk, blocks_left f x end)) same, rw (sym same) done, λ b u. refl)
  fill_entries-Filled (suc n) i k e inode disk p h small within id done =
      let disk1 : Disk = write_entry inode.indirect1 i (f k) disk in
      let (disk', e', done', kept) =
        fill_entries-Filled n (suc i) (suc k) e inode disk1 (omega arith) (omega arith) small within
          id (entry-Filled s k (omega arith) inode disk done i (omega arith) p) in
      (
        disk',
        rw (blocks_left-cons f k end (omega arith)) e',
        done',
        λ b u.
            kept b u
            ∙ write_entry-other inode.indirect1 i (f k) disk b
                (λ x. u 28 (omega arith) refl (x ∙ id)),
      )

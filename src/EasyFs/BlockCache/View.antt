-- ===== src/EasyFs/BlockCache/View.antt =====
-- What a reader of block_cache.rs sees of the disk.
use t_core.Base.{
  ℕ, ◌≡◌, ◌≢◌, ◌+◌, refl, Bool, true, false, some, none, List, [], ◌∷◌, arith, if◌then◌else◌, ◌==◌,
  ◌⊎◌, inl, inr, Bool-cases, sym, ◌∙◌, subst, ==-true, ==-self, length, All,
}
use t_core.EasyFs.DiskInode.{Disk}
use t_core.EasyFs.BlockCache.{BlockCache, sync_disk, is_cached, evict}

-- Each block as its cache has it, or else the disk.
abbrev pub view : List BlockCache → Disk → Disk
view [] disk b = disk b
view (c ∷ q) disk b = if c.block_id == b then c.cache else view q disk b

-- A cache that was not modified has what the disk has.
abbrev pub IsClean : Disk → BlockCache → Type 0
IsClean disk c = c.modified ≡ false → c.cache ≡ disk c.block_id

-- The caches are of distinct blocks, and what is not modified is clean.
abbrev pub IsSound : List BlockCache → Disk → Type 0
IsSound [] disk = Unit {0}
IsSound (c ∷ q) disk = (is_cached c.block_id q ≡ false) × IsClean disk c × IsSound q disk

pub view-uncached :
    (q : List BlockCache) (disk : Disk) (b : ℕ) → is_cached b q ≡ false → view q disk b ≡ disk b
unfolding is_cached
view-uncached [] disk b h = refl
view-uncached (c ∷ q) disk b h = elim (Bool-cases (c.block_id == b)) [
  | inl e ↦ absurd (ground arith)
  | inr e ↦ rw e (view-uncached q disk b (ground arith))
]

pub view-beneath :
    (q : List BlockCache) (disk disk' : Disk) (b : ℕ)
    → disk' b ≡ disk b
    → view q disk' b ≡ view q disk b
view-beneath [] disk disk' b h = h
view-beneath (c ∷ q) disk disk' b h = elim (Bool-cases (c.block_id == b)) [
  | inl e ↦ rw e refl
  | inr e ↦ rw e (view-beneath q disk disk' b h)
]

-- Writing a cache back changes its block only, which gets what the cache has.
pub sync_disk-other :
    (c : BlockCache) (disk : Disk) (b : ℕ) → c.block_id ≢ b → sync_disk c disk b ≡ disk b
unfolding sync_disk
sync_disk-other c disk b h = elim (Bool-cases c.modified) [
  | inl e ↦ let other : b == c.block_id ≡ false = ground arith in rw e (rw other refl)
  | inr e ↦ rw e refl
]

pub sync_disk_self :
    (c : BlockCache) (disk : Disk) → IsClean disk c → sync_disk c disk c.block_id ≡ c.cache
unfolding sync_disk
sync_disk_self c disk h = elim (Bool-cases c.modified) [
  | inl e ↦ rw e (rw (==-self c.block_id) refl)
  | inr e ↦ rw e (sym (h e))
]

pub not_both : (b : Bool) → b ≡ false → b ≡ true → ⊥
not_both b h k = ground arith

cached_behind :
    (c : BlockCache) (q : List BlockCache) (b : ℕ)
    → is_cached b q ≡ true
    → is_cached b (c ∷ q) ≡ true
unfolding is_cached
cached_behind c q b h = ground arith

pub IsSound-beneath :
    (q : List BlockCache) (disk disk' : Disk)
    → ((b : ℕ) → is_cached b q ≡ true → disk' b ≡ disk b)
    → IsSound q disk
    → IsSound q disk'
unfolding is_cached
IsSound-beneath [] disk disk' h s = tt
IsSound-beneath (c ∷ q) disk disk' h (fresh, clean, rest) =
    let here : is_cached c.block_id (c ∷ q) ≡ true = rw (==-self c.block_id) refl in
    (
      fresh,
      λ e. clean e ∙ sym (h c.block_id here),
      IsSound-beneath q disk disk' (λ b i. h b (cached_behind c q b i)) rest,
    )

pub record Evicted (q : List BlockCache) (disk : Disk) (q' : List BlockCache) (disk' : Disk)
    : Type 0 where
  pub sound : IsSound q' disk'
  pub same_view : (b : ℕ) → view q' disk' b ≡ view q disk b
  pub fewer : (b : ℕ) → is_cached b q ≡ false → (is_cached b q' ≡ false) × (disk' b ≡ disk b)
  pub shorter : length q ≡ length q' + 1

pub Evicted-head :
    (c : BlockCache) (q : List BlockCache) (disk : Disk)
    → IsSound (c ∷ q) disk
    → Evicted (c ∷ q) disk q (sync_disk c disk)
unfolding is_cached
Evicted-head c q disk (fresh, clean, rest) = record {
  sound =
      IsSound-beneath q disk (sync_disk c disk)
        (λ b i.
          sync_disk-other c disk b
            (λ e. not_both (is_cached b q) (subst (λ x. is_cached x q ≡ false) e fresh) i))
        rest;
  same_view = λ b. elim (Bool-cases (c.block_id == b)) [
    | inl e ↦
        let same : c.block_id ≡ b = ==-true c.block_id b e in
        rw e (
          subst (λ x. view q (sync_disk c disk) x ≡ c.cache) same
            (view-uncached q (sync_disk c disk) c.block_id fresh ∙ sync_disk_self c disk clean))
    | inr e ↦
        rw e
          (view-beneath q disk (sync_disk c disk) b (sync_disk-other c disk b (λ z. ground arith)))
  ];
  fewer = λ b h. (ground arith, sync_disk-other c disk b (λ z. ground arith));
  shorter = omega arith;
}

Evicted-behind :
    (c : BlockCache) (q q' : List BlockCache) (disk disk' : Disk)
    → IsSound (c ∷ q) disk
    → Evicted q disk q' disk'
    → Evicted (c ∷ q) disk (c ∷ q') disk'
unfolding is_cached
Evicted-behind c q q' disk disk' (fresh, clean, rest) v =
    let (f, d) = v.fewer c.block_id fresh in
    record {
      sound = (f, λ e. clean e ∙ sym d, v.sound);
      same_view = λ b. elim (Bool-cases (c.block_id == b)) [
        | inl e ↦ rw e refl
        | inr e ↦ rw e (v.same_view b)
      ];
      fewer = λ b h. elim (Bool-cases (c.block_id == b)) [
        | inl e ↦ absurd (ground arith)
        | inr e ↦ rw e (v.fewer b (ground arith))
      ];
      shorter = omega (arith, v.shorter);
    }

abbrev pub InUse : List BlockCache → Type 0
InUse = All (λ c. c.strong ≢ 1)

pub evict-cases :
    (q : List BlockCache) (disk : Disk)
    → IsSound q disk
    → ((evict q disk ≡ none) × InUse q)
      ⊎ ((q' : List BlockCache) × (disk' : Disk) × (evict q disk ≡ some (q', disk'))
          × Evicted q disk q' disk')
unfolding evict
evict-cases [] disk s = inl (refl, tt)
evict-cases (c ∷ q) disk s = elim (Bool-cases (c.strong == 1)) [
  | inl e ↦ rw e (inr (q, sync_disk c disk, refl, Evicted-head c q disk s))
  | inr e ↦ elim (evict-cases q disk s.2) [
    | inl (h, u) ↦ rw e (rw h (inl (refl, (λ z. ground arith, u))))
    | inr (q', disk', h, v) ↦
        rw e (rw h (inr (c ∷ q', disk', refl, Evicted-behind c q q' disk disk' s v)))
  ]
]

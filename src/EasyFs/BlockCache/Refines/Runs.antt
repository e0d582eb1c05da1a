-- ===== src/EasyFs/BlockCache/Refines/Runs.antt =====
-- Sequences of changes through the cache of block_cache.rs.
use t_core.Base.{
  ℕ, ◌≡◌, ◌≤◌, ◌<◌, refl, true, false, Option, some, List, [], ◌∷◌, ◌++◌, arith, if◌then◌else◌,
  ◌==◌, inl, inr, Bool-cases, ◌∙◌, ap, length, length-append, ◌>>=◌,
}
use t_core.EasyFs.DiskInode.{DataBlock, Disk}
use t_core.EasyFs.BlockCache.{
  BlockCache, Manager, load, sync_disk, is_cached, on_cached, evict, hold, release, modify,
  get_block_cache, modify_block, block_cache_size, sync_each, block_cache_sync_all,
}
use t_core.EasyFs.BlockCache.View.{view, IsSound, Evicted-head}
use t_core.EasyFs.BlockCache.Refines.{
  touched, loaded, touched-Writes, loaded-Writes, AllIdle, AllIdle-touched, AllIdle-loaded,
  on_cached-on_cached, length-on_cached, view-on_cached, IsSound-on_cached, view-load, IsSound-load,
  is_cached-load,
}

-- Between two changes: the queue is sound, nothing is held, and there are at most 16 caches.
pub record Fit (m : Manager) : Type 0 where
  pub sound : IsSound m.queue m.disk
  pub idle : AllIdle m.queue
  pub small : length m.queue ≤ block_cache_size

-- What readers see.
abbrev pub seen : Manager → Disk
seen m = view m.queue m.disk

abbrev pub changed : ℕ → (DataBlock → DataBlock) → Disk → Disk
changed id f disk = λ b. if b == id then f (disk id) else disk b

-- The block is cached.
cached-Fit :
    (f : DataBlock → DataBlock) (q : List BlockCache) (disk : Disk) (id : ℕ)
    → is_cached id q ≡ true
    → Fit (record { queue = q; disk = disk })
    → Fit (record { queue = on_cached id (touched f) q; disk = disk })
cached-Fit f q disk id h v = record {
  sound = IsSound-on_cached f (touched f) q disk id (touched-Writes f) v.sound;
  idle = AllIdle-touched f q id v.idle;
  small = rw (length-on_cached (touched f) q id) v.small;
}

-- The block is loaded, into a queue with room for it.
abbrev after_load : (DataBlock → DataBlock) → ℕ → List BlockCache → Disk → Manager
after_load f id q disk = record {
  queue = on_cached id (loaded f) (q ++ load id disk ∷ []);
  disk = disk;
}

loaded-Fit :
    (f : DataBlock → DataBlock) (q : List BlockCache) (disk : Disk) (id : ℕ)
    → is_cached id q ≡ false
    → IsSound q disk
    → AllIdle q
    → length q < block_cache_size
    → Fit (after_load f id q disk)
loaded-Fit f q disk id h s i l = record {
  sound =
      IsSound-on_cached f (loaded f) (q ++ load id disk ∷ []) disk id (loaded-Writes f)
        (IsSound-load q id disk s h);
  idle = AllIdle-loaded f q id disk i h;
  small =
      rw (length-on_cached (loaded f) (q ++ load id disk ∷ []) id)
        (omega (arith, length-append q (load id disk ∷ [])));
}

loaded-seen :
    (f : DataBlock → DataBlock) (q : List BlockCache) (disk : Disk) (id b : ℕ)
    → seen (after_load f id q disk) b ≡ changed id f (view q disk) b
loaded-seen f q disk id b =
    view-on_cached f (loaded f) (q ++ load id disk ∷ []) disk id b (loaded-Writes f)
      (is_cached-load q id disk)
    ∙ ap (λ x. if b == id then f x else view (q ++ load id disk ∷ []) disk b)
        (view-load q id disk id)
    ∙ ap (λ x. if b == id then f (view q disk id) else x) (view-load q id disk b)

modify_block-cached :
    (f : DataBlock → DataBlock) (q : List BlockCache) (disk : Disk) (id : ℕ)
    → is_cached id q ≡ true
    → modify_block id f (record { queue = q; disk = disk })
      ≡ some (record { queue = on_cached id (touched f) q; disk = disk })
unfolding modify_block get_block_cache
modify_block-cached f q disk id h =
    let held = ap (on_cached id release) (on_cached-on_cached hold (modify f) q id (λ c. refl)) in
    let all = on_cached-on_cached (λ c. modify f (hold c)) release q id (λ c. refl) in
    rw h (ap (λ x. some (record { queue = x; disk = disk })) (held ∙ all))

modify_block-room :
    (f : DataBlock → DataBlock) (q : List BlockCache) (disk : Disk) (id : ℕ)
    → is_cached id q ≡ false
    → length q == block_cache_size ≡ false
    → modify_block id f (record { queue = q; disk = disk }) ≡ some (after_load f id q disk)
unfolding modify_block get_block_cache
modify_block-room f q disk id h l = rw h (
    rw l (
      ap (λ x. some (record { queue = x; disk = disk }))
        (on_cached-on_cached (modify f) release (q ++ load id disk ∷ []) id (λ c. refl))))

modify_block-full :
    (f : DataBlock → DataBlock) (c : BlockCache) (q : List BlockCache) (disk : Disk) (id : ℕ)
    → is_cached id (c ∷ q) ≡ false
    → length (c ∷ q) == block_cache_size ≡ true
    → c.strong ≡ 1
    → modify_block id f (record { queue = c ∷ q; disk = disk })
      ≡ some (after_load f id q (sync_disk c disk))
unfolding modify_block get_block_cache evict
modify_block-full f c q disk id h l i = rw h (
    rw l (
      rw i (
        ap (λ x. some (record { queue = x; disk = sync_disk c disk }))
          (on_cached-on_cached (modify f) release (q ++ load id (sync_disk c disk) ∷ []) id
            (λ c. refl)))))

-- One change through the cache is one change of what readers see.
Refined : ℕ → (DataBlock → DataBlock) → Manager → Type 0
Refined id f m =
    (m' : Manager) × (modify_block id f m ≡ some m')
    × Fit m'
    × ((b : ℕ) → seen m' b ≡ changed id f (seen m) b)

modify_block-full-Refined :
    (f : DataBlock → DataBlock) (q : List BlockCache) (disk : Disk) (id : ℕ)
    → Fit (record { queue = q; disk = disk })
    → is_cached id q ≡ false
    → length q == block_cache_size ≡ true
    → Refined id f (record { queue = q; disk = disk })
unfolding Refined is_cached
modify_block-full-Refined f [] disk id v h l = absurd (ground arith)
modify_block-full-Refined f (c ∷ q) disk id v h l =
    let e = Evicted-head c q disk v.sound in
    let fresh : is_cached id q ≡ false = ground arith in
    (
      after_load f id q (sync_disk c disk),
      modify_block-full f c q disk id h l v.idle.0,
      loaded-Fit f q (sync_disk c disk) id fresh e.sound v.idle.1 (omega (arith, v.small)),
      λ b.
          loaded-seen f q (sync_disk c disk) id b
          ∙ ap (λ x. if b == id then f x else view q (sync_disk c disk) b) (e.same_view id)
          ∙ ap (λ x. if b == id then f (view (c ∷ q) disk id) else x) (e.same_view b),
    )

room : (n : ℕ) → n ≤ block_cache_size → n == block_cache_size ≡ false → n < block_cache_size
room n h l = ground arith

modify_block-Refined :
    (id : ℕ) (f : DataBlock → DataBlock) (q : List BlockCache) (disk : Disk)
    → Fit (record { queue = q; disk = disk })
    → Refined id f (record { queue = q; disk = disk })
unfolding Refined
modify_block-Refined id f q disk v = elim (Bool-cases (is_cached id q)) [
  | inl h ↦ (
    record { queue = on_cached id (touched f) q; disk = disk },
    modify_block-cached f q disk id h,
    cached-Fit f q disk id h v,
    λ b. view-on_cached f (touched f) q disk id b (touched-Writes f) h,
  )
  | inr h ↦ elim (Bool-cases (length q == block_cache_size)) [
    | inl l ↦ modify_block-full-Refined f q disk id v h l
    | inr l ↦ (
      after_load f id q disk,
      modify_block-room f q disk id h l,
      loaded-Fit f q disk id h v.sound v.idle (room (length q) v.small l),
      λ b. loaded-seen f q disk id b,
    )
  ]
]

-- A sequence of changes: through the cache, and on a disk without one.
abbrev pub run : List (ℕ × (DataBlock → DataBlock)) → Manager → Option Manager
run [] m = some m
run ((id, f) ∷ changes) m = modify_block id f m >>= run changes

abbrev pub run_plain : List (ℕ × (DataBlock → DataBlock)) → Disk → Disk
run_plain [] disk = disk
run_plain ((id, f) ∷ changes) disk = run_plain changes (changed id f disk)

run_plain-same :
    (changes : List (ℕ × (DataBlock → DataBlock))) (disk disk' : Disk)
    → ((b : ℕ) → disk b ≡ disk' b)
    → (b : ℕ) → run_plain changes disk b ≡ run_plain changes disk' b
run_plain-same [] disk disk' h b = h b
run_plain-same ((id, f) ∷ changes) disk disk' h b =
    run_plain-same changes (changed id f disk) (changed id f disk')
      (λ c.
        ap (λ x. if c == id then f x else disk c) (h id)
        ∙ ap (λ x. if c == id then f (disk' id) else x) (h c))
      b

run-Fit :
    (changes : List (ℕ × (DataBlock → DataBlock))) (m : Manager)
    → Fit m
    → (m' : Manager) × (run changes m ≡ some m')
      × Fit m'
      × ((b : ℕ) → seen m' b ≡ run_plain changes (seen m) b)
unfolding Refined
run-Fit [] m v = (m, refl, v, λ b. refl)
run-Fit ((id, f) ∷ changes) m v =
    let (m1, e1, v1, s1) = modify_block-Refined id f m.queue m.disk v in
    let (m2, e2, v2, s2) = run-Fit changes m1 v1 in
    (
      m2,
      ap (λ x. x >>= run changes) e1 ∙ e2,
      v2,
      λ b. s2 b ∙ run_plain-same changes (seen m1) (changed id f (seen m)) s1 b,
    )

sync_each-view :
    (q : List BlockCache) (disk : Disk)
    → IsSound q disk
    → (b : ℕ) → (sync_each q disk).1 b ≡ view q disk b
unfolding sync_each
sync_each-view [] disk s b = refl
sync_each-view (c ∷ q) disk s b =
    let e = Evicted-head c q disk s in sync_each-view q (sync_disk c disk) e.sound b ∙ e.same_view b

-- The cache does not show: a sequence of changes to blocks, each through `get_block_cache` and `modify`
-- and each letting its reference go, starting with an empty cache, never runs out of caches, however
-- many blocks it touches and evicts; afterwards readers see each block as the same changes would leave
-- it on a disk without a cache, and after `block_cache_sync_all` the disk holds exactly that.
pub run-refines :
    (changes : List (ℕ × (DataBlock → DataBlock))) (disk : Disk)
    → (m : Manager) × (run changes (record { queue = []; disk = disk }) ≡ some m)
      × Fit m
      × ((b : ℕ) → seen m b ≡ run_plain changes disk b)
      × ((b : ℕ) → (block_cache_sync_all m).disk b ≡ run_plain changes disk b)
unfolding block_cache_sync_all
run-refines changes disk =
    let (m, e, v, s) =
      run-Fit changes (record { queue = []; disk = disk })
        (record { sound = tt; idle = tt; small = omega arith }) in
    (m, e, v, s, λ b. sync_each-view m.queue m.disk v.sound b ∙ s b)

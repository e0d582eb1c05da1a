-- ===== src/EasyFs/BlockCache/Refines.antt =====
-- Changing blocks through the cache of block_cache.rs, against changing them on the disk.
pub mod Runs
use t_core.Base.{
  ap, ℕ, ◌≡◌, ◌≢◌, refl, true, false, List, [], ◌∷◌, ◌++◌, arith, if◌then◌else◌, ◌==◌, inl, inr,
  Bool-cases, ◌∙◌, ap, ==-true, ==-self, All, length, suc,
}
use t_core.EasyFs.DiskInode.{DataBlock, Disk}
use t_core.EasyFs.BlockCache.{BlockCache, load, is_cached, on_cached, hold, release, modify}
use t_core.EasyFs.BlockCache.View.{view, IsSound, not_both}

is_cached-load :
    (q : List BlockCache) (b : ℕ) (disk : Disk) → is_cached b (q ++ load b disk ∷ []) ≡ true
unfolding is_cached load
is_cached-load [] b disk = rw (==-self b) refl
is_cached-load (c ∷ q) b disk = ground (arith, is_cached-load q b disk)

is_cached-append :
    (q : List BlockCache) (b id : ℕ) (disk : Disk)
    → is_cached b q ≡ false
    → id ≢ b
    → is_cached b (q ++ load id disk ∷ []) ≡ false
unfolding is_cached load
is_cached-append [] b id disk h n = ground arith
is_cached-append (c ∷ q) b id disk h n = ground (arith, is_cached-append q b id disk)

IsSound-load :
    (q : List BlockCache) (id : ℕ) (disk : Disk)
    → IsSound q disk
    → is_cached id q ≡ false
    → IsSound (q ++ load id disk ∷ []) disk
unfolding is_cached load
IsSound-load [] id disk s h = (refl, λ e. refl, tt)
IsSound-load (c ∷ q) id disk (fresh, clean, rest) h = (
  is_cached-append q c.block_id id disk fresh (λ e. ground arith),
  clean,
  IsSound-load q id disk rest (ground arith),
)

view-load :
    (q : List BlockCache) (id : ℕ) (disk : Disk) (b : ℕ)
    → view (q ++ load id disk ∷ []) disk b ≡ view q disk b
unfolding load
view-load [] id disk b = elim (Bool-cases (id == b)) [
  | inl e ↦ rw e (ap disk (==-true id b e))
  | inr e ↦ rw e refl
]
view-load (c ∷ q) id disk b = elim (Bool-cases (c.block_id == b)) [
  | inl e ↦ rw e refl
  | inr e ↦ rw e (view-load q id disk b)
]

-- A change of a cache that writes to its block.
record Writes (f : DataBlock → DataBlock) (g : BlockCache → BlockCache) : Type 0 where
  same_block : (c : BlockCache) → (g c).block_id ≡ c.block_id
  written : (c : BlockCache) → (g c).cache ≡ f c.cache
  marked : (c : BlockCache) → (g c).modified ≡ true

is_cached-on_cached :
    (f : DataBlock → DataBlock) (g : BlockCache → BlockCache) (q : List BlockCache) (id b : ℕ)
    → Writes f g
    → is_cached b (on_cached id g q) ≡ is_cached b q
unfolding is_cached on_cached
is_cached-on_cached f g [] id b w = refl
is_cached-on_cached f g (c ∷ q) id b w = elim (Bool-cases (c.block_id == id)) [
  | inl e ↦ rw e (ap (λ x. if x == b then true else is_cached b q) (w.same_block c))
  | inr e ↦ rw e (ap (λ x. if c.block_id == b then true else x) (is_cached-on_cached f g q id b w))
]

IsSound-on_cached :
    (f : DataBlock → DataBlock) (g : BlockCache → BlockCache) (q : List BlockCache) (disk : Disk)
    (id : ℕ)
    → Writes f g
    → IsSound q disk
    → IsSound (on_cached id g q) disk
unfolding on_cached
IsSound-on_cached f g [] disk id w s = tt
IsSound-on_cached f g (c ∷ q) disk id w (fresh, clean, rest) =
    elim (Bool-cases (c.block_id == id)) [
      | inl e ↦
          rw e (
            (rw (w.same_block c) fresh, λ z. absurd (not_both (g c).modified z (w.marked c)), rest))
      | inr e ↦ rw e (
          (
            is_cached-on_cached f g q id c.block_id w ∙ fresh,
            clean,
            IsSound-on_cached f g q disk id w rest,
          ))
    ]

view-on_cached :
    (f : DataBlock → DataBlock) (g : BlockCache → BlockCache) (q : List BlockCache) (disk : Disk)
    (id b : ℕ)
    → Writes f g
    → is_cached id q ≡ true
    → view (on_cached id g q) disk b ≡ (if b == id then f (view q disk id) else view q disk b)
unfolding on_cached is_cached
view-on_cached f g [] disk id b w h = absurd (ground arith)
view-on_cached f g (c ∷ q) disk id b w h = elim (Bool-cases (c.block_id == id)) [
  | inl e ↦ elim (Bool-cases (b == id)) [
    | inl at_id ↦
        let mine : c.block_id == b ≡ true = ground arith in
        rw e (rw at_id (rw (w.same_block c) (rw mine (w.written c))))
    | inr elsewhere ↦
        let other : c.block_id == b ≡ false = ground arith in
        rw e (rw elsewhere (rw (w.same_block c) (rw other refl)))
  ]
  | inr e ↦ elim (Bool-cases (c.block_id == b)) [
    | inl mine ↦
        let elsewhere : b == id ≡ false = ground arith in rw e (rw mine (rw elsewhere refl))
    | inr other ↦ rw e (rw other (view-on_cached f g q disk id b w (ground arith)))
  ]
]

-- Two changes of the same cache, one after the other.
on_cached-on_cached :
    (g h : BlockCache → BlockCache) (q : List BlockCache) (id : ℕ)
    → ((c : BlockCache) → (g c).block_id ≡ c.block_id)
    → on_cached id h (on_cached id g q) ≡ on_cached id (λ c. h (g c)) q
unfolding on_cached
on_cached-on_cached g h [] id same = refl
on_cached-on_cached g h (c ∷ q) id same = elim (Bool-cases (c.block_id == id)) [
  | inl e ↦ rw e (rw (same c) (rw e refl))
  | inr e ↦ rw e (rw e (ap (◌∷◌ c) (on_cached-on_cached g h q id same)))
]

-- What `modify_block` leaves of a queue in which the block is cached, and what it leaves when it loads.
abbrev touched : (DataBlock → DataBlock) → BlockCache → BlockCache
touched f c = release (modify f (hold c))

abbrev loaded : (DataBlock → DataBlock) → BlockCache → BlockCache
loaded f c = release (modify f c)

touched-Writes : (f : DataBlock → DataBlock) → Writes f (touched f)
touched-Writes f = record { same_block = λ c. refl; written = λ c. refl; marked = λ c. refl }

loaded-Writes : (f : DataBlock → DataBlock) → Writes f (loaded f)
loaded-Writes f = record { same_block = λ c. refl; written = λ c. refl; marked = λ c. refl }

-- Only the manager refers to the caches.
abbrev pub AllIdle : List BlockCache → Type 0
AllIdle = All (λ c. c.strong ≡ 1)

AllIdle-touched :
    (f : DataBlock → DataBlock) (q : List BlockCache) (id : ℕ)
    → AllIdle q
    → AllIdle (on_cached id (touched f) q)
unfolding on_cached
AllIdle-touched f [] id a = tt
AllIdle-touched f (c ∷ q) id (i, a) = elim (Bool-cases (c.block_id == id)) [
  | inl e ↦ rw e ((rw i refl, a))
  | inr e ↦ rw e ((i, AllIdle-touched f q id a))
]

AllIdle-loaded :
    (f : DataBlock → DataBlock) (q : List BlockCache) (id : ℕ) (disk : Disk)
    → AllIdle q
    → is_cached id q ≡ false
    → AllIdle (on_cached id (loaded f) (q ++ load id disk ∷ []))
unfolding on_cached is_cached load
AllIdle-loaded f [] id disk a h = rw (==-self id) ((refl, tt))
AllIdle-loaded f (c ∷ q) id disk (i, a) h = elim (Bool-cases (c.block_id == id)) [
  | inl e ↦ absurd (ground arith)
  | inr e ↦ rw e ((i, AllIdle-loaded f q id disk a (ground arith)))
]

length-on_cached :
    (g : BlockCache → BlockCache) (q : List BlockCache) (id : ℕ)
    → length (on_cached id g q) ≡ length q
unfolding on_cached
length-on_cached g [] id = refl
length-on_cached g (c ∷ q) id = elim (Bool-cases (c.block_id == id)) [
  | inl e ↦ rw e refl
  | inr e ↦ rw e (ap suc (length-on_cached g q id))
]

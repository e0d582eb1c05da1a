-- ===== src/EasyFs/BlockCache.antt =====
-- easy-fs/src/block_cache.rs: the cache of disk blocks and its manager.
pub mod View
pub mod Refines
pub mod Tests
use t_core.Base.{
  ◌>>=◌, ℕ, ◌+◌, ◌-◌, Bool, true, false, Option, some, none, List, [], ◌∷◌, ◌++◌, if◌then◌else◌,
  ◌==◌, length,
}
use t_core.EasyFs.DiskInode.{DataBlock, Disk}

-- `strong` is the number of references to the cache, the manager's own included.
pub record BlockCache : Type 0 where
  pub cache : DataBlock
  pub block_id : ℕ
  pub modified : Bool
  pub strong : ℕ

abbrev pub block_cache_size : ℕ
block_cache_size = 16

-- A new cache, which the manager and its caller refer to.
pub load : ℕ → Disk → BlockCache
load block_id disk = record {
  cache = disk block_id;
  block_id = block_id;
  modified = false;
  strong = 2;
}

-- What `sync` leaves on the disk; it also resets `modified`.
pub sync_disk : BlockCache → Disk → Disk
sync_disk c disk = if c.modified then (λ b. if b == c.block_id then c.cache else disk b) else disk

abbrev pub synced : BlockCache → BlockCache
synced c = record c { modified = false }

-- The manager's queue, and the disk beneath.
pub record Manager : Type 0 where
  pub queue : List BlockCache
  pub disk : Disk

pub is_cached : ℕ → List BlockCache → Bool
is_cached block_id [] = false
is_cached block_id (c ∷ q) = if c.block_id == block_id then true else is_cached block_id q

-- The first cache of a block, changed.
pub on_cached : ℕ → (BlockCache → BlockCache) → List BlockCache → List BlockCache
on_cached block_id f [] = []
on_cached block_id f (c ∷ q) =
    if c.block_id == block_id then f c ∷ q else c ∷ on_cached block_id f q

-- Drops the first cache that only the manager refers to, which writes it back if it was modified;
-- `none` is the panic when there is none.
pub evict : List BlockCache → Disk → Option (List BlockCache × Disk)
unfolding sync_disk
evict [] disk = none
evict (c ∷ q) disk =
    let rest : Option (List BlockCache × Disk) = do (q', disk') ← evict q disk; some (c ∷ q', disk')
    in if c.strong == 1 then some (q, sync_disk c disk) else rest

abbrev pub hold : BlockCache → BlockCache
hold c = record c { strong = c.strong + 1 }

abbrev pub release : BlockCache → BlockCache
release c = record c { strong = c.strong - 1 }

-- Loads a block, and puts its cache at the end of the queue.
abbrev pub load_into : ℕ → List BlockCache → Disk → Manager
load_into block_id queue disk = record { queue = queue ++ load block_id disk ∷ []; disk = disk }

pub get_block_cache : ℕ → Manager → Option Manager
unfolding is_cached on_cached evict load
get_block_cache block_id m =
    let substitute : Option Manager = do
      (q, disk) ← evict m.queue m.disk
      some (load_into block_id q disk)
    in if is_cached block_id m.queue
      then some (record m { queue = on_cached block_id hold m.queue })
      else if length m.queue == block_cache_size
      then substitute
      else some (load_into block_id m.queue m.disk)

-- `BlockCache::modify` with a function on the whole block.
abbrev pub modify : (DataBlock → DataBlock) → BlockCache → BlockCache
modify f c = record c { cache = f c.cache; modified = true }

-- `get_block_cache(block_id, ..).lock().modify(0, f)`: the reference is dropped at the end.
pub modify_block : ℕ → (DataBlock → DataBlock) → Manager → Option Manager
unfolding get_block_cache on_cached
modify_block block_id f m = do
  m' ← get_block_cache block_id m
  some (record m' { queue = on_cached block_id release (on_cached block_id (modify f) m'.queue) })

pub sync_each : List BlockCache → Disk → List BlockCache × Disk
unfolding sync_disk
sync_each [] disk = ([], disk)
sync_each (c ∷ q) disk = let (q', disk') = sync_each q (sync_disk c disk) in (synced c ∷ q', disk')

pub block_cache_sync_all : Manager → Manager
unfolding sync_each
block_cache_sync_all m =
    let (q, disk) = sync_each m.queue m.disk in record { queue = q; disk = disk }

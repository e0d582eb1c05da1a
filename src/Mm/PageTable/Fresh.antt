-- ===== src/Mm/PageTable/Fresh.antt =====
-- A new table of page_table.rs.
use t_core.Base.{ℕ, ◌≡◌, ◌<◌, ◌+◌, none, some, arith, refl, false, [], ◌∷◌}
use t_core.Mm.FrameAllocator.Live.{IsValid, Allocated}
use t_core.Mm.FrameAllocator.Supply.{available, frame_alloc-Granted}
use t_core.Mm.FrameAllocator.{StackFrameAllocator}
use t_core.Mm.PageTable.{PageTable, Memory, new, alloc_cleared}
use t_core.Mm.PageTable.Entries.{is_valid-empty}
use t_core.Mm.PageTable.Tree.{other, root, assign, clear, look}
use t_core.Mm.PageTable.Walk.{IsTree}
use t_core.Mm.PageTable.Mapping.{WellFormed, mapping}

module _ (l : ℕ) (m : Memory) (p : ℕ) (a : StackFrameAllocator)
    (g : Allocated l m.allocator p a) where
  abbrev cleared : Memory
  cleared = record { allocator = a; entries = clear p m.entries; bytes = clear p m.bytes }

  cleared-IsTree : IsTree l (assign p root (λ q. other)) p cleared
  cleared-IsTree = record {
    frames = g.0;
    shape = record { at_root = ground arith; leads = λ q i h v. ground (arith, is_valid-empty) };
    owned = λ q h. ground (arith, g.2, g.4 q);
  }

look-empty : (e : ℕ → ℕ → ℕ) (p i j k : ℕ) → e p i ≡ 0 → look e p i j k ≡ none
look-empty e p i j k h = rw h (rw is_valid-empty refl)

-- A new table maps no page, and takes one frame, when one is left.
pub new-WellFormed :
    (l : ℕ) (m : Memory)
    → IsValid l m.allocator
    → 0 < available m.allocator
    → (pt : PageTable) × (m' : Memory) × (new m ≡ some (pt, m'))
      × WellFormed l pt m'
      × (available m'.allocator + 1 ≡ available m.allocator)
      × ((v : ℕ) → mapping pt m' v ≡ none)
unfolding new alloc_cleared
new-WellFormed l m v supply =
    let (p, a, (e, n, g)) = frame_alloc-Granted l m.allocator v supply in
    (
      record { root_ppn = p; frames = record { ppn = p; nodrop = false } ∷ [] },
      cleared l m p a g,
      rw e refl,
      (assign p root (λ q. other), cleared-IsTree l m p a g),
      n,
      λ v. look-empty (clear p m.entries) p _ _ _ (ground arith),
    )

-- ===== src/Mm/PageTable/Tests.antt =====
-- Instances of the results about page_table.rs at a table whose root is page 10.
use t_core.Base.{
  ℕ, ◌≡◌, ◌≤◌, ◌<◌, ◌+◌, ◌*◌, ◌^◌, ◌==◌, refl, arith, none, some, [], ◌∷◌, if◌then◌else◌, false,
}
use t_core.Mm.FrameAllocator.Supply.{available}
use t_core.Mm.PageTable.{PageTable, Memory, pte, map_page, unmap_page, translate_va}
use t_core.Mm.PageTable.Entries.{is_valid-empty}
use t_core.Mm.PageTable.Tree.{other, root, assign}
use t_core.Mm.PageTable.Mapping.{WellFormed, mapping, map_page-mapping}
use t_core.Mm.PageTable.Lookup.{unmap_page-map_page}

abbrev pub table : PageTable
table = record { root_ppn = 10; frames = record { ppn = 10; nodrop = false } ∷ [] }

-- Frames 11 to 39 are left.
abbrev pub memory : Memory
memory = record {
  allocator = record { current = 11; end = 40; recycled = [] };
  entries = λ p i. 0;
  bytes = λ p i. 0;
}

pub table-WellFormed : WellFormed 10 table memory
table-WellFormed = (
  assign 10 root (λ p. other),
  record {
    frames = record {
      started = omega arith;
      bounded = omega arith;
      narrow = omega arith;
      distinct = tt;
      within = tt;
    };
    shape = record { at_root = refl; leads = λ p i h v. ground (arith, is_valid-empty) };
    owned = λ p h. ground arith;
  },
)

pub nothing_mapped : (v : ℕ) → mapping table memory v ≡ none
nothing_mapped v = rw is_valid-empty refl

map_page-mapping_example :
    (pt : PageTable) × (m : Memory) × (map_page table 700 35 14 memory ≡ some (pt, m))
    × WellFormed 10 pt m
    × (pt.root_ppn ≡ 10)
    × (29 ≤ available m.allocator + 2)
    × ((v : ℕ)
        → v < 2 ^ 27
        → mapping pt m v ≡ (if v == 700 then some (pte 35 15) else mapping table memory v))
map_page-mapping_example =
    map_page-mapping 10 table memory 700 35 14 table-WellFormed (omega arith) (omega arith)
      (omega arith) (omega arith) (nothing_mapped 700)

unmap_page-map_page_example :
    (pt : PageTable) × (m : Memory) × (m' : Memory) × (map_page table 700 35 14 memory
      ≡ some (pt, m))
    × ((offset : ℕ)
        → offset < 4096
        → translate_va pt (700 * 4096 + offset) m ≡ some (35 * 4096 + offset))
    × (unmap_page pt 700 m ≡ some m')
    × ((v : ℕ) → v < 2 ^ 27 → mapping pt m' v ≡ mapping table memory v)
unmap_page-map_page_example =
    unmap_page-map_page 10 table memory 700 35 14 table-WellFormed (omega arith) (omega arith)
      (omega arith) (omega arith) (nothing_mapped 700)

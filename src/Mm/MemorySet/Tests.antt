-- ===== src/Mm/MemorySet/Tests.antt =====
-- Instances of the results about memory_set.rs at an empty space.
use t_core.Base.{ℕ, ◌≡◌, ◌<◌, ◌^◌, arith, some, [], if◌then◌else◌, true, false}
use t_core.Mm.FrameAllocator.Live.{live}
use t_core.Mm.PageTable.{Memory, pte}
use t_core.Mm.PageTable.Mapping.{WellFormed, mapping}
use t_core.Mm.PageTable.Tests.{table, memory, table-WellFormed, nothing_mapped}
use t_core.Mm.MemorySet.{MemorySet, insert_framed_area, remove_area_with_start_vpn}
use t_core.Mm.MemorySet.Areas.{within}
use t_core.Mm.MemorySet.Insertion.{insert_framed_area-maps, remove_area-insert_framed_area}

abbrev space : MemorySet
space = record { page_table = table; areas = [] }

insert_framed_area-maps_example :
    (set : MemorySet) × (m : Memory) × (frame : ℕ → ℕ) × (insert_framed_area 8192 16384 6 space
        memory
      ≡ some (set, m))
    × WellFormed 10 set.page_table m
    × ((v : ℕ)
        → v < 2 ^ 27
        → mapping set.page_table m v
          ≡ (if within 2 2 v then some (pte (frame v) 7) else mapping table memory v))
    × ((v : ℕ)
        → within 2 2 v ≡ true
        → (live 10 memory.allocator (frame v) ≡ false)
          × (live 10 m.allocator (frame v) ≡ true)
          × ((i : ℕ) → m.bytes (frame v) i ≡ 0))
    × ((v w : ℕ) → within 2 2 v ≡ true → within 2 2 w ≡ true → frame v ≡ frame w → v ≡ w)
insert_framed_area-maps_example =
    insert_framed_area-maps 10 space memory 8192 16384 6 table-WellFormed (omega arith)
      (omega arith) (omega arith) (omega arith) (λ v h. nothing_mapped v)

remove_area-insert_framed_area_example :
    (set : MemorySet) × (m : Memory) × (set' : MemorySet) × (m' : Memory) × (insert_framed_area 8192
        16384 6 space memory
      ≡ some (set, m))
    × (remove_area_with_start_vpn 2 set m ≡ some (set', m'))
    × WellFormed 10 set'.page_table m'
    × (set'.areas ≡ [])
    × ((v : ℕ) → v < 2 ^ 27 → mapping set'.page_table m' v ≡ mapping table memory v)
    × ((v : ℕ)
        → within 2 2 v ≡ true
        → (p : ℕ) × (mapping set.page_table m v ≡ some (pte p 7))
          × (live 10 m.allocator p ≡ true)
          × (live 10 m'.allocator p ≡ false))
remove_area-insert_framed_area_example =
    remove_area-insert_framed_area 10 space memory 8192 16384 6 table-WellFormed (omega arith)
      (omega arith) (omega arith) (omega arith) (λ v h. nothing_mapped v) tt

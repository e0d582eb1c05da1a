-- ===== src/Mm/MemorySet.antt =====
-- os/src/mm/memory_set.rs: areas of pages, and the address space that they make up.
pub mod Areas
pub mod Removal
pub mod Insertion
mod Tests
use t_core.Base.{
  ◌>>=◌, ◌>>◌, ℕ, zero, suc, ◌+◌, ◌-◌, ◌/◌, Bool, true, false, Option, none, some, List, [], ◌∷◌,
  ◌++◌, leb, ltb, ◌==◌, if◌then◌else◌, assert, min,
}
use t_core.Mm.FrameAllocator.{FrameTracker, new_noalloc, drop_tracker}
use t_core.Mm.Address.{
  page_bytes, virt_addr, floor, ceil, page_of, phys_addr, VpnRange, new_range, pages,
}
use t_core.Mm.PageTable.{PageTable, Memory, alloc_cleared, map_page, unmap_page, translate, ppn_of}
use t_core.Mm.PageTable

pub data MapType : Type 0 where
  identical framed noalloc : MapType

pub data SectionType : Type 0 where
  unknow rodata data_section text bss stack heap trap_context kernel_stack device : SectionType

-- `data_frames` is the map from pages to trackers.
pub record MapArea : Type 0 where
  pub vpn_range : VpnRange
  pub data_frames : List (ℕ × FrameTracker)
  pub map_type : MapType
  pub map_perm : ℕ
  pub section_type : SectionType

-- `none` is the failed assertion of the range.
pub new_area : ℕ → ℕ → MapType → ℕ → SectionType → Option MapArea
unfolding new_range
new_area start_va end_va map_type map_perm section_type = do
  range ← new_range (floor start_va) (ceil end_va)
  some (record {
    vpn_range = range;
    data_frames = [];
    map_type = map_type;
    map_perm = map_perm;
    section_type = section_type;
  })

pub from_another : MapArea → MapArea
from_another another = record another { data_frames = [] }

-- `BTreeMap::insert`, without the order.
pub insert_frame : ℕ → FrameTracker → List (ℕ × FrameTracker) → List (ℕ × FrameTracker)
insert_frame vpn frame [] = (vpn, frame) ∷ []
insert_frame vpn frame ((v, f) ∷ frames) =
    if v == vpn then (vpn, frame) ∷ frames else (v, f) ∷ insert_frame vpn frame frames

-- `BTreeMap::remove`: the tracker that is taken out, and the others. A page stands in the list once.
pub take_frame : ℕ → List (ℕ × FrameTracker) → Option FrameTracker × List (ℕ × FrameTracker)
take_frame vpn [] = (none, [])
take_frame vpn ((v, f) ∷ frames) =
    let (taken, rest) = take_frame vpn frames in
    if v == vpn then (some f, rest) else (taken, (v, f) ∷ rest)

-- The frame that a page is mapped to, by the type of the area.
frame_for : MapType → ℕ → MapArea → Memory → Option (ℕ × MapArea × Memory)
unfolding insert_frame
frame_for identical vpn area m = some (vpn, area, m)
frame_for framed vpn area m = do
  (frame, m') ← alloc_cleared m
  some (frame.ppn, record area { data_frames = insert_frame vpn frame area.data_frames }, m')
frame_for noalloc vpn area m = none

-- `none` is a panic: no frame is left, the area is not to be mapped so, or the page is mapped already.
pub map_one : MapArea → PageTable → ℕ → Memory → Option (MapArea × PageTable × Memory)
unfolding frame_for
map_one area pt vpn m = do
  (ppn, area', m') ← frame_for area.map_type vpn area m
  (pt', m'') ← map_page pt vpn ppn area.map_perm m'
  some (area', pt', m'')

drop_frame : Option FrameTracker → Memory → Option Memory
drop_frame none m = some m
drop_frame (some frame) m = do
  allocator ← drop_tracker m.allocator frame
  some (record m { allocator = allocator })

abbrev is_framed : MapType → Bool
is_framed framed = true
is_framed _ = false

pub unmap_one : MapArea → PageTable → ℕ → Memory → Option (MapArea × Memory)
unfolding take_frame drop_frame
unmap_one area pt vpn m = do
  let (taken, rest) = take_frame vpn area.data_frames
  let removed : MapArea × Option FrameTracker =
      if is_framed area.map_type then (record area { data_frames = rest }, taken) else (area, none)
  m' ← drop_frame removed.1 m
  m'' ← unmap_page pt vpn m'
  some (removed.0, m'')

-- The loops over the pages of the range.
pub map_pages : List ℕ → MapArea → PageTable → Memory → Option (MapArea × PageTable × Memory)
map_pages [] area pt m = some (area, pt, m)
map_pages (vpn ∷ rest) area pt m = do
  (area', pt', m') ← map_one area pt vpn m
  map_pages rest area' pt' m'

abbrev pub pages_of : VpnRange → List ℕ
pages_of range = pages range.l (range.r - range.l)

pub map_area : MapArea → PageTable → Memory → Option (MapArea × PageTable × Memory)
unfolding map_pages
map_area area pt m = map_pages (pages_of area.vpn_range) area pt m

pub unmap_pages : List ℕ → MapArea → PageTable → Memory → Option (MapArea × Memory)
unmap_pages [] area pt m = some (area, m)
unmap_pages (vpn ∷ rest) area pt m = do
  (area', m') ← unmap_one area pt vpn m
  unmap_pages rest area' pt m'

pub unmap_area : MapArea → PageTable → Memory → Option (MapArea × Memory)
unfolding unmap_pages
unmap_area area pt m = unmap_pages (pages_of area.vpn_range) area pt m

-- The pages with the frames of another range, as far as the shorter one goes.
map_noalloc_pages :
    List ℕ → List ℕ → MapArea → PageTable → Memory → Option (MapArea × PageTable × Memory)
map_noalloc_pages (vpn ∷ vpns) (ppn ∷ ppns) area pt m = do
  let area' = record area { data_frames = insert_frame vpn (new_noalloc ppn) area.data_frames }
  (pt', m') ← map_page pt vpn ppn area.map_perm m
  map_noalloc_pages vpns ppns area' pt' m'
map_noalloc_pages _ _ area pt m = some (area, pt, m)

pub map_noalloc : MapArea → PageTable → VpnRange → Memory → Option (MapArea × PageTable × Memory)
unfolding map_noalloc_pages
map_noalloc area pt ppn_range m =
    map_noalloc_pages (pages_of area.vpn_range) (pages_of ppn_range) area pt m

-- The first `n` bytes of the page, from the data.
abbrev pub write_bytes : ℕ → ℕ → (ℕ → ℕ) → Memory → Memory
write_bytes ppn n bytes m = record m {
  bytes = λ p i. if p == ppn then (if ltb i n then bytes i else m.bytes p i) else m.bytes p i;
}

-- The loop of `copy_data`; `none` is a panic, or no fuel left.
copy_loop : ℕ → PageTable → ℕ → ℕ → ℕ → (ℕ → ℕ) → Memory → Option Memory
copy_loop zero pt current_vpn start len bytes m = none
copy_loop (suc fuel) pt current_vpn start len bytes m = do
  let n = min len (start + page_bytes) - start
  entry ← translate pt current_vpn m
  let m' = write_bytes (ppn_of entry) n (λ i. bytes (start + i)) m
  let rest = copy_loop fuel pt (current_vpn + 1) (start + page_bytes) len bytes m'
  if leb len (start + page_bytes) then some m' else rest

-- The data is its length and its bytes; a round takes a page of it.
pub copy_data : MapArea → PageTable → ℕ → (ℕ → ℕ) → Memory → Option Memory
unfolding copy_loop
copy_data area pt len bytes m = do
  assert (is_framed area.map_type)
  copy_loop (len / page_bytes + 1) pt area.vpn_range.l 0 len bytes m

pub record MemorySet : Type 0 where
  pub page_table : PageTable
  pub areas : List MapArea

pub new_bare : Memory → Option (MemorySet × Memory)
new_bare m = do (pt, m') ← PageTable.new m; some (record { page_table = pt; areas = [] }, m')

copy_if : Option (ℕ × (ℕ → ℕ)) → MapArea → PageTable → Memory → Option Memory
copy_if none area pt m = some m
copy_if (some (len, bytes)) area pt m = copy_data area pt len bytes m

pub push : MapArea → Option (ℕ × (ℕ → ℕ)) → MemorySet → Memory → Option (MemorySet × Memory)
unfolding map_area copy_if
push area bytes set m = do
  (area', pt, m') ← map_area area set.page_table m
  m'' ← copy_if bytes area' pt m'
  some (record { page_table = pt; areas = set.areas ++ area' ∷ [] }, m'')

pub push_noalloc : MapArea → VpnRange → MemorySet → Memory → Option (MemorySet × Memory)
unfolding map_noalloc
push_noalloc area ppn_range set m = do
  (area', pt, m') ← map_noalloc area set.page_table ppn_range m
  some (record { page_table = pt; areas = set.areas ++ area' ∷ [] }, m')

pub insert_framed_area : ℕ → ℕ → ℕ → MemorySet → Memory → Option (MemorySet × Memory)
unfolding new_area push
insert_framed_area start_va end_va permission set m = do
  area ← new_area start_va end_va framed permission kernel_stack
  push area none set m

-- Dropping an area drops its trackers.
pub drop_frames : List (ℕ × FrameTracker) → Memory → Option Memory
drop_frames [] m = some m
drop_frames ((v, frame) ∷ frames) m = do m' ← drop_frame (some frame) m; drop_frames frames m'

-- The first area that starts at the page is unmapped and taken out.
remove_from : ℕ → List MapArea → PageTable → Memory → Option (List MapArea × Memory)
unfolding unmap_area drop_frames
remove_from start_vpn [] pt m = some ([], m)
remove_from start_vpn (area ∷ areas) pt m =
    let removed : Option (List MapArea × Memory) = (do
      (area', m') ← unmap_area area pt m
      m'' ← drop_frames area'.data_frames m'
      some (areas, m'')) in
    let others : Option (List MapArea × Memory) = (do
      (areas', m') ← remove_from start_vpn areas pt m
      some (area ∷ areas', m')) in
    if area.vpn_range.l == start_vpn then removed else others

pub remove_area_with_start_vpn : ℕ → MemorySet → Memory → Option (MemorySet × Memory)
unfolding remove_from
remove_area_with_start_vpn start_vpn set m = do
  (areas, m') ← remove_from start_vpn set.areas set.page_table m
  some (record set { areas = areas }, m')

-- The trampoline is mapped to the page of `strampoline`, readable and executable.
pub map_trampoline : ℕ → ℕ → MemorySet → Memory → Option (MemorySet × Memory)
unfolding page_of
map_trampoline trampoline strampoline set m = do
  vpn ← page_of (virt_addr trampoline)
  ppn ← page_of (phys_addr strampoline)
  (pt, m') ← map_page set.page_table vpn ppn (2 + 8) m
  some (record set { page_table = pt }, m')

-- The loop that copies an area's pages from one space to the other.
copy_pages : List ℕ → PageTable → PageTable → Memory → Option Memory
copy_pages [] src dst m = some m
copy_pages (vpn ∷ rest) src dst m = do
  src_entry ← translate src vpn m
  dst_entry ← translate dst vpn m
  copy_pages rest src dst (write_bytes (ppn_of dst_entry) page_bytes (m.bytes (ppn_of src_entry)) m)

copy_areas : List MapArea → PageTable → MemorySet → Memory → Option (MemorySet × Memory)
unfolding push copy_pages
copy_areas [] src set m = some (set, m)
copy_areas (area ∷ rest) src set m = do
  (set', m') ← push (from_another area) none set m
  m'' ← copy_pages (pages_of area.vpn_range) src set'.page_table m'
  copy_areas rest src set' m''

pub from_existed_user : ℕ → ℕ → MemorySet → Memory → Option (MemorySet × Memory)
unfolding new_bare map_trampoline copy_areas
from_existed_user trampoline strampoline user_space m = do
  (set, m') ← new_bare m
  (set', m'') ← map_trampoline trampoline strampoline set m'
  copy_areas user_space.areas user_space.page_table set' m''

drop_areas : List MapArea → Memory → Option Memory
unfolding drop_frames
drop_areas [] m = some m
drop_areas (area ∷ areas) m = do m' ← drop_frames area.data_frames m; drop_areas areas m'

pub recycle_data_pages : MemorySet → Memory → Option (MemorySet × Memory)
unfolding drop_areas
recycle_data_pages set m = do m' ← drop_areas set.areas m; some (record set { areas = [] }, m')

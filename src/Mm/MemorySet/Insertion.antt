-- ===== src/Mm/MemorySet/Insertion.antt =====
-- Putting an area into an address space of memory_set.rs, and taking it out again.
use t_core.Base.{
  ℕ, ◌≡◌, ◌<◌, ◌≤◌, ◌+◌, ◌-◌, ◌*◌, ◌^◌, ◌==◌, Option, none, some, arith, if◌then◌else◌, refl, Bool,
  true, false, ◌∙◌, sym, List, [], ◌∷◌, ◌++◌, ==-self, ap, All, Bool-cases, inl, inr,
}
use t_core.Mm.Address.{pages, floor, ceil}
use t_core.Mm.FrameAllocator.{FrameTracker}
use t_core.Mm.FrameAllocator.Live.{live}
use t_core.Mm.FrameAllocator.Supply.{available}
use t_core.Mm.PageTable.{PageTable, Memory, pte, or_v}
use t_core.Mm.PageTable.Tree.{Role}
use t_core.Mm.PageTable.Mapping.{WellFormed, mapping}
use t_core.Mm.MemorySet.{
  MapArea, framed, kernel_stack, MemorySet, new_area, map_pages, insert_framed_area, unmap_area,
  unmap_pages, remove_from, remove_area_with_start_vpn,
}
use t_core.Mm.MemorySet.Areas.{tracker, within, AreaMapped, map_pages-AreaMapped}
use t_core.Mm.MemorySet.Removal.{Backed, Released, unmap_pages-Released}

-- The area that `insert_framed_area` makes.
abbrev fresh_area : ℕ → ℕ → ℕ → MapArea
fresh_area start_va end_va permission = record {
  vpn_range = record { l = floor start_va; r = ceil end_va };
  data_frames = [];
  map_type = framed;
  map_perm = permission;
  section_type = kernel_stack;
}

abbrev pub page_count : ℕ → ℕ → ℕ
page_count start_va end_va = ceil end_va - floor start_va

new_area-fresh :
    (start_va end_va permission : ℕ)
    → floor start_va ≤ ceil end_va
    → new_area start_va end_va framed permission kernel_stack
      ≡ some (fresh_area start_va end_va permission)
unfolding new_area
new_area-fresh start_va end_va permission h = ground arith

insert_framed_area-step :
    (start_va end_va permission : ℕ) (set : MemorySet) (m : Memory) (area : MapArea)
    (pt : PageTable) (m' : Memory)
    → floor start_va ≤ ceil end_va
    → map_pages
        (pages (floor start_va) (page_count start_va end_va))
        (fresh_area start_va end_va permission)
        set.page_table
        m
      ≡ some (area, pt, m')
    → insert_framed_area start_va end_va permission set m
      ≡ some (record { page_table = pt; areas = set.areas ++ area ∷ [] }, m')
unfolding insert_framed_area
insert_framed_area-step start_va end_va permission set m area pt m' h e =
    rw (new_area-fresh start_va end_va permission h) (rw e refl)

tracker-none :
    (frames : List (ℕ × FrameTracker)) → ((v : ℕ) → tracker frames v ≡ none) → frames ≡ []
tracker-none [] h = refl
tracker-none ((w, f) ∷ frames) h = ground (arith, h w)

-- The areas before the one that starts at the page stay.
remove_from-last :
    (vpn : ℕ) (areas : List MapArea) (area area' : MapArea) (pt : PageTable) (m m' : Memory)
    → All (λ a. (a.vpn_range.l == vpn) ≡ false) areas
    → (area.vpn_range.l == vpn) ≡ true
    → unmap_area area pt m ≡ some (area', m')
    → area'.data_frames ≡ []
    → remove_from vpn (areas ++ area ∷ []) pt m ≡ some (areas, m')
unfolding remove_from
remove_from-last vpn [] area area' pt m m' others here e none_left =
    rw here (rw e (rw none_left refl))
remove_from-last vpn (a ∷ areas) area area' pt m m' others here e none_left =
    rw others.0 (rw (remove_from-last vpn areas area area' pt m m' others.1 here e none_left) refl)

AreaMapped-Backed :
    (l : ℕ) (role : ℕ → Role) (area : MapArea) (pt : PageTable) (m : Memory) (s n : ℕ)
    (frame : ℕ → ℕ) (area' : MapArea) (pt' : PageTable) (m' : Memory)
    → s + n ≤ 2 ^ 27
    → (a : AreaMapped l role area pt m s n frame area' pt' m')
    → Backed l a.role area' pt' m' s n frame
AreaMapped-Backed l role area pt m s n frame area' pt' m' bound a = record {
  tree = a.tree;
  bits = λ v. pte (frame v) (or_v area.map_perm);
  mapped = λ v h. a.maps v (ground arith) ∙ rw h refl;
  tracked = λ v h. a.trackers v ∙ rw h refl;
  held = a.now_live;
  data_page = a.data_page;
  distinct = a.distinct;
}

-- `insert_framed_area` maps each page of the area, with the permission, to a cleared frame of its own,
-- which was in nobody's hands; no other page is mapped otherwise than before, and there is no panic.
-- The conditions are that the area does not end before it starts, that no page of it is mapped yet, that
-- three frames are left for each of them, that the addresses have 39 bits, and that the permission has 8.
pub insert_framed_area-maps :
    (l : ℕ) (set : MemorySet) (m : Memory) (start_va end_va permission : ℕ)
    → WellFormed l set.page_table m
    → start_va ≤ end_va
    → end_va ≤ 2 ^ 39
    → permission < 2 ^ 8
    → 3 * page_count start_va end_va ≤ available m.allocator
    → ((v : ℕ)
        → within (floor start_va) (page_count start_va end_va) v ≡ true
        → mapping set.page_table m v ≡ none)
    → (set' : MemorySet) × (m' : Memory) × (frame : ℕ → ℕ) × (insert_framed_area start_va end_va
          permission set m
        ≡ some (set', m'))
      × WellFormed l set'.page_table m'
      × ((v : ℕ)
          → v < 2 ^ 27
          → mapping set'.page_table m' v ≡ (
              if within (floor start_va) (page_count start_va end_va) v
              then some (pte (frame v) (or_v permission))
              else mapping set.page_table m v))
      × ((v : ℕ)
          → within (floor start_va) (page_count start_va end_va) v ≡ true
          → (live l m.allocator (frame v) ≡ false)
            × (live l m'.allocator (frame v) ≡ true)
            × ((i : ℕ) → m'.bytes (frame v) i ≡ 0))
      × ((v w : ℕ)
          → within (floor start_va) (page_count start_va end_va) v ≡ true
          → within (floor start_va) (page_count start_va end_va) w ≡ true
          → frame v ≡ frame w
          → v ≡ w)
insert_framed_area-maps l set m start_va end_va permission (role, t) h k hp supply unmapped =
    let ordered : floor start_va ≤ ceil end_va = omega arith in
    let (frame, area', pt', m', e, a) =
      map_pages-AreaMapped l role (fresh_area start_va end_va permission) set.page_table m
        (floor start_va) (page_count start_va end_va) t refl hp supply (omega arith) unmapped in
    (
      record { page_table = pt'; areas = set.areas ++ area' ∷ [] },
      m',
      frame,
      insert_framed_area-step start_va end_va permission set m area' pt' m' ordered e,
      (a.role, a.tree),
      a.maps,
      λ v u. (a.was_free v u, a.now_live v u, a.cleared v u),
      a.distinct,
    )

none-left {ℓ} :
    {A : Type ℓ} (b : Bool) (x y z : Option A)
    → x ≡ (if b then none else y)
    → y ≡ (if b then z else none)
    → x ≡ none
none-left b x y h k = ground arith

back {ℓ} :
    {A : Type ℓ} (b : Bool) (x y z : Option A) (w : Option A)
    → x ≡ (if b then none else y)
    → y ≡ (if b then w else z)
    → (b ≡ true → z ≡ none)
    → x ≡ z
back b x y z w h k u = elim (Bool-cases b) [
  | inl e ↦ (rw e at h) ∙ sym (u e)
  | inr e ↦ (rw e at h) ∙ (rw e at k)
]

-- The loop over the pages of the area's range.
unmap_area-step :
    (area : MapArea) (pt : PageTable) (m : Memory) (s n : ℕ)
    → area.vpn_range.l ≡ s
    → area.vpn_range.r - area.vpn_range.l ≡ n
    → unmap_area area pt m ≡ unmap_pages (pages s n) area pt m
unfolding unmap_area
unmap_area-step area pt m s n h k = rw k (rw h refl)

remove_area-step :
    (vpn : ℕ) (set : MemorySet) (m : Memory) (areas : List MapArea) (m' : Memory)
    → remove_from vpn set.areas set.page_table m ≡ some (areas, m')
    → remove_area_with_start_vpn vpn set m ≡ some (record set { areas = areas }, m')
unfolding remove_area_with_start_vpn
remove_area-step vpn set m areas m' e = rw e refl

-- The area that has been inserted last is taken out again.
module _ (l : ℕ) (role : ℕ → Role) (set : MemorySet) (m : Memory) (start_va end_va permission : ℕ)
    (frame : ℕ → ℕ) (area : MapArea) (pt : PageTable) (m1 : Memory)
    (bound : floor start_va + page_count start_va end_va ≤ 2 ^ 27)
    (first : All (λ x. (x.vpn_range.l == floor start_va) ≡ false) set.areas)
    (a : AreaMapped l role
      (fresh_area start_va end_va permission)
      set.page_table
      m
      (floor start_va)
      (page_count start_va end_va)
      frame
      area
      pt
      m1) where
  abbrev s : ℕ
  s = floor start_va

  abbrev n : ℕ
  n = page_count start_va end_va

  emptied :
      (area' : MapArea) (m2 : Memory)
      → Released l a.role area pt m1 s n frame area' m2
      → area'.data_frames ≡ []
  emptied area' m2 r =
      tracker-none area'.data_frames (λ v. none-left _ _ _ _ (r.trackers v) (a.trackers v))

  remove-last :
      (m2 : Memory) × (remove_area_with_start_vpn s
          (record { page_table = pt; areas = set.areas ++ area ∷ [] })
          m1
        ≡ some (record { page_table = pt; areas = set.areas }, m2))
      × WellFormed l pt m2
      × ((v : ℕ) → v < 2 ^ 27 → mapping pt m2 v ≡ (if within s n v then none else mapping pt m1 v))
      × ((v : ℕ) → within s n v ≡ true → live l m2.allocator (frame v) ≡ false)
  remove-last =
      let backed =
        AreaMapped-Backed l role (fresh_area start_va end_va permission) set.page_table m s n frame
          area pt m1 bound a in
      let (area', m2, e, r) =
        unmap_pages-Released l a.role area pt m1 s n frame a.same_type bound backed in
      let starts : area.vpn_range.l ≡ s = ap (λ x. x.l) a.same_range in
      let ends : area.vpn_range.r - area.vpn_range.l ≡ n = ap (λ x. x.r - x.l) a.same_range in
      (
        m2,
        remove_area-step s (record { page_table = pt; areas = set.areas ++ area ∷ [] }) m1 set.areas
            m2
            (remove_from-last s set.areas area area' pt m1 m2 first
              (ap (λ x. x == s) starts ∙ ==-self s) (unmap_area-step area pt m1 s n starts ends ∙ e)
              (emptied area' m2 r)),
        (a.role, r.tree),
        r.maps,
        r.freed,
      )

-- `remove_area_with_start_vpn` undoes `insert_framed_area`: every page is mapped as it was before, the
-- areas are the same, and the frames that the pages had are in nobody's hands again. The conditions are
-- those of `insert_framed_area`, and that no other area starts at the same page.
pub remove_area-insert_framed_area :
    (l : ℕ) (set : MemorySet) (m : Memory) (start_va end_va permission : ℕ)
    → WellFormed l set.page_table m
    → start_va ≤ end_va
    → end_va ≤ 2 ^ 39
    → permission < 2 ^ 8
    → 3 * page_count start_va end_va ≤ available m.allocator
    → ((v : ℕ)
        → within (floor start_va) (page_count start_va end_va) v ≡ true
        → mapping set.page_table m v ≡ none)
    → All (λ x. (x.vpn_range.l == floor start_va) ≡ false) set.areas
    → (set' : MemorySet) × (m' : Memory) × (set'' : MemorySet) × (m'' : Memory)
      × (insert_framed_area start_va end_va permission set m ≡ some (set', m'))
      × (remove_area_with_start_vpn (floor start_va) set' m' ≡ some (set'', m''))
      × WellFormed l set''.page_table m''
      × (set''.areas ≡ set.areas)
      × ((v : ℕ) → v < 2 ^ 27 → mapping set''.page_table m'' v ≡ mapping set.page_table m v)
      × ((v : ℕ)
          → within (floor start_va) (page_count start_va end_va) v ≡ true
          → (p : ℕ) × (mapping set'.page_table m' v ≡ some (pte p (or_v permission)))
            × (live l m'.allocator p ≡ true)
            × (live l m''.allocator p ≡ false))
remove_area-insert_framed_area l set m start_va end_va permission (role, t) h k hp supply unmapped
      first =
    let ordered : floor start_va ≤ ceil end_va = omega arith in
    let bound : floor start_va + page_count start_va end_va ≤ 2 ^ 27 = omega arith in
    let (frame, area, pt, m1, e, a) =
      map_pages-AreaMapped l role (fresh_area start_va end_va permission) set.page_table m
        (floor start_va) (page_count start_va end_va) t refl hp supply bound unmapped in
    let (m2, e', w, maps, freed) =
      remove-last l role set m start_va end_va permission frame area pt m1 bound first a in
    (
      record { page_table = pt; areas = set.areas ++ area ∷ [] },
      m1,
      record { page_table = pt; areas = set.areas },
      m2,
      insert_framed_area-step start_va end_va permission set m area pt m1 ordered e,
      e',
      w,
      refl,
      λ v u. back _ _ _ _ _ (maps v u) (a.maps v u) (unmapped v),
      λ v u. (frame v, a.maps v (ground arith) ∙ rw u refl, a.now_live v u, freed v u),
    )

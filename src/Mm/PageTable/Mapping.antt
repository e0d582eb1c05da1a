-- ===== src/Mm/PageTable/Mapping.antt =====
-- What page_table.rs maps: a page table is a map from page numbers to entries.
use t_core.Base.{
  ℕ, ◌≡◌, ◌≤◌, ◌+◌, true, Option, some, arith, refl, ◌∙◌, if◌then◌else◌, ◌<◌, ◌^◌, none, ◌==◌,
  false, ◌&&◌, sym,
}
use t_core.Mm.Address.{indexes}
use t_core.Mm.Address.Rounding.{indexes_lem}
use t_core.Mm.FrameAllocator.Live.{live}
use t_core.Mm.FrameAllocator.Supply.{available}
use t_core.Mm.PageTable.{
  PageTable, Memory, find_pte_create, map_page, is_valid, pte, or_v, write_entry,
}
use t_core.Mm.PageTable.Entries.{is_valid-pte}
use t_core.Mm.PageTable.Tree.{written-Shape, look-written, Role, child, look, is_inner}
use t_core.Mm.PageTable.Walk.{IsTree, descend_create_lem}

abbrev pub WellFormed : ℕ → PageTable → Memory → Type 0
WellFormed l pt m = (role : ℕ → Role) × IsTree l role pt.root_ppn m

-- The valid entry of a page.
abbrev pub mapping_at : ℕ → Memory → ℕ → Option ℕ
mapping_at r m v = look m.entries r (indexes v).0 (indexes v).1 (indexes v).2

abbrev pub mapping : PageTable → Memory → ℕ → Option ℕ
mapping pt m v = mapping_at pt.root_ppn m v

-- What the walk finds for `vpn`, having made the tables on its way.
pub record Found (l : ℕ) (old : ℕ → Role) (r vpn : ℕ) (m : Memory) (table : ℕ) (pt : PageTable)
    (m' : Memory) : Type 0 where
  pub role : ℕ → Role
  pub tree : IsTree l role r m'
  pub same_root : pt.root_ppn ≡ r
  pub middle : ℕ
  pub first : child m'.entries r (indexes vpn).0 ≡ some middle
  pub second : child m'.entries middle (indexes vpn).1 ≡ some table
  pub looks : (i j n : ℕ) → look m'.entries r i j n ≡ look m.entries r i j n
  pub left : available m.allocator ≤ available m'.allocator + 2
  pub lives : (x : ℕ) → live l m.allocator x ≡ true → live l m'.allocator x ≡ true
  pub same_role : (x : ℕ) → live l m.allocator x ≡ true → role x ≡ old x
  pub same_bytes : (x i : ℕ) → live l m.allocator x ≡ true → m'.bytes x i ≡ m.bytes x i

pub find_pte_create-Found :
    (l : ℕ) (role : ℕ → Role) (pt : PageTable) (m : Memory) (vpn : ℕ)
    → IsTree l role pt.root_ppn m
    → 2 ≤ available m.allocator
    → (table : ℕ) × (pt' : PageTable) × (m' : Memory) × (find_pte_create pt vpn m
        ≡ some ((table, (indexes vpn).2), pt', m'))
      × Found l role pt.root_ppn vpn m table pt' m'
unfolding find_pte_create
find_pte_create-Found l role pt m vpn t supply =
    let root_inner : is_inner (role pt.root_ppn) ≡ true = ground (arith, t.shape.at_root) in
    let (p, pt1, m1, e1, d1) =
      descend_create_lem pt.root_ppn (indexes vpn).0 pt m t refl root_inner (omega arith) in
    let p_inner : is_inner (d1.role' p) ≡ true = ground (arith, t.shape.at_root, d1.role_c) in
    let (c, pt2, m2, e2, d2) =
      descend_create_lem p (indexes vpn).1 pt1 m1 d1.tree d1.same_root p_inner
        (omega (arith, d1.left)) in
    let root_inner' : is_inner (d1.role' pt.root_ppn) ≡ true =
      ground (arith, t.shape.at_root, d1.kept_role) in
    (
      c,
      pt2,
      m2,
      rw e1 (rw e2 refl),
      record {
        role = d2.role';
        tree = d2.tree;
        same_root = d2.same_root;
        middle = p;
        first = d2.kept pt.root_ppn (indexes vpn).0 p root_inner' d1.leads;
        second = d2.leads;
        looks = λ i j n. d2.looks i j n ∙ d1.looks i j n;
        left = omega (arith, d1.left, d2.left);
        lives = λ x h. d2.lives x (d1.lives x h);
        same_role = λ x h. d2.same_role x (d1.lives x h) ∙ d1.same_role x h;
        same_bytes = λ x i h. d2.same_bytes x i (d1.lives x h) ∙ d1.same_bytes x i h;
      },
    )

same_indexes :
    (v w : ℕ)
    → v < 2 ^ 27
    → w < 2 ^ 27
    → ((indexes v).0 == (indexes w).0
        && ((indexes v).1 == (indexes w).1 && (indexes v).2 == (indexes w).2))
      ≡ (v == w)
same_indexes v w h k = let a = indexes_lem v h in let b = indexes_lem w k in ground arith

-- The entry that two steps lead to is the last of the three.
pub look-found :
    (e : ℕ → ℕ → ℕ) (r p t i j k : ℕ)
    → child e r i ≡ some p
    → child e p j ≡ some t
    → look e r i j k ≡ (if is_valid (e t k) then some (e t k) else none)
look-found e r p t i j k h g = rw h (rw g refl)

-- A write to the entry that the indexes of `vpn` lead to.
pub written_lem :
    (l : ℕ) (role : ℕ → Role) (r vpn p t bits : ℕ) (m : Memory)
    → IsTree l role r m
    → vpn < 2 ^ 27
    → child m.entries r (indexes vpn).0 ≡ some p
    → child m.entries p (indexes vpn).1 ≡ some t
    → IsTree l role r (write_entry t (indexes vpn).2 bits m)
      × ((v : ℕ)
          → v < 2 ^ 27
          → mapping_at r (write_entry t (indexes vpn).2 bits m) v
            ≡ (if v == vpn then (if is_valid bits then some bits else none) else mapping_at r m v))
written_lem l role r vpn p t bits m tree h first second =
    let i : ℕ = (indexes vpn).0 in
    let j : ℕ = (indexes vpn).1 in
    let k : ℕ = (indexes vpn).2 in
    (
      record {
        frames = tree.frames;
        shape = written-Shape i j k p t bits m.entries tree.shape first second;
        owned = tree.owned;
      },
      λ v w.
          look-written i j k p t bits m.entries tree.shape first second (indexes v).0 (indexes v).1
            (indexes v).2
          ∙ rw (same_indexes v vpn w h) refl,
    )

pub entry-invalid :
    (bits : ℕ) → (if is_valid bits then some bits else none) ≡ none → is_valid bits ≡ false
entry-invalid bits h = ground arith

pub entry-valid :
    (bits b : ℕ)
    → (if is_valid bits then some bits else none) ≡ some b
    → (is_valid bits ≡ true) × (bits ≡ b)
entry-valid bits b h = ground arith

pub map_page-step :
    (pt : PageTable) (vpn ppn flags : ℕ) (m : Memory) (table k : ℕ) (pt' : PageTable) (m' : Memory)
    → find_pte_create pt vpn m ≡ some ((table, k), pt', m')
    → map_page pt vpn ppn flags m ≡ (
        if is_valid (m'.entries table k)
        then none
        else some (pt', write_entry table k (pte ppn (or_v flags)) m'))
unfolding map_page
map_page-step pt vpn ppn flags m table k pt' m' e = rw e (ground arith)

-- What `map` leaves, the entry `bits` at `vpn`.
pub record Mapped (l : ℕ) (old : ℕ → Role) (pt : PageTable) (m : Memory) (vpn bits : ℕ)
    (pt' : PageTable) (m' : Memory) : Type 0 where
  pub role : ℕ → Role
  pub tree : IsTree l role pt'.root_ppn m'
  pub same_root : pt'.root_ppn ≡ pt.root_ppn
  pub left : available m.allocator ≤ available m'.allocator + 2
  pub lives : (x : ℕ) → live l m.allocator x ≡ true → live l m'.allocator x ≡ true
  pub same_role : (x : ℕ) → live l m.allocator x ≡ true → role x ≡ old x
  pub same_bytes : (x i : ℕ) → live l m.allocator x ≡ true → m'.bytes x i ≡ m.bytes x i
  pub maps :
      (v : ℕ) → v < 2 ^ 27 → mapping pt' m' v ≡ (if v == vpn then some bits else mapping pt m v)

pub map_page-Mapped :
    (l : ℕ) (role : ℕ → Role) (pt : PageTable) (m : Memory) (vpn ppn flags : ℕ)
    → IsTree l role pt.root_ppn m
    → 2 ≤ available m.allocator
    → vpn < 2 ^ 27
    → ppn < 2 ^ 44
    → flags < 2 ^ 8
    → mapping pt m vpn ≡ none
    → (pt' : PageTable) × (m' : Memory) × (map_page pt vpn ppn flags m ≡ some (pt', m'))
      × Mapped l role pt m vpn (pte ppn (or_v flags)) pt' m'
map_page-Mapped l role pt m vpn ppn flags t supply hv hp hf free =
    let (table, pt', m', e, f) = find_pte_create-Found l role pt m vpn t supply in
    let k : ℕ = (indexes vpn).2 in
    let bits : ℕ = pte ppn (or_v flags) in
    let (tree, maps) =
      written_lem l f.role pt.root_ppn vpn f.middle table bits m' f.tree hv f.first f.second in
    let unmapped : mapping_at pt.root_ppn m' vpn ≡ none = f.looks _ _ _ ∙ free in
    let invalid : is_valid (m'.entries table k) ≡ false =
      entry-invalid (m'.entries table k)
        (sym (look-found m'.entries _ f.middle table _ _ k f.first f.second) ∙ unmapped) in
    (
      pt',
      write_entry table k bits m',
      map_page-step pt vpn ppn flags m table k pt' m' e ∙ rw invalid refl,
      record {
        role = f.role;
        tree = rw f.same_root tree;
        same_root = f.same_root;
        left = f.left;
        lives = f.lives;
        same_role = f.same_role;
        same_bytes = f.same_bytes;
        maps = λ v h. rw f.same_root (
            maps v h
            ∙ rw (is_valid-pte ppn flags hp hf)
                (rw (f.looks (indexes v).0 (indexes v).1 (indexes v).2) refl));
      },
    )

-- `map` maps the page, and no other page is mapped otherwise than before. It makes two tables at most,
-- and there is no panic. The conditions are that the page is not mapped, that two frames are left for
-- tables, and that the page number has 27 bits, the frame's 44 and the flags 8.
pub map_page-mapping :
    (l : ℕ) (pt : PageTable) (m : Memory) (vpn ppn flags : ℕ)
    → WellFormed l pt m
    → 2 ≤ available m.allocator
    → vpn < 2 ^ 27
    → ppn < 2 ^ 44
    → flags < 2 ^ 8
    → mapping pt m vpn ≡ none
    → (pt' : PageTable) × (m' : Memory) × (map_page pt vpn ppn flags m ≡ some (pt', m'))
      × WellFormed l pt' m'
      × (pt'.root_ppn ≡ pt.root_ppn)
      × (available m.allocator ≤ available m'.allocator + 2)
      × ((v : ℕ)
          → v < 2 ^ 27
          → mapping pt' m' v ≡ (if v == vpn then some (pte ppn (or_v flags)) else mapping pt m v))
map_page-mapping l pt m vpn ppn flags (role, t) supply hv hp hf free =
    let (pt', m', e, d) = map_page-Mapped l role pt m vpn ppn flags t supply hv hp hf free in
    (pt', m', e, (d.role, d.tree), d.same_root, d.left, d.maps)

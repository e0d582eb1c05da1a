-- ===== src/Mm/MemorySet/Areas.antt =====
-- Mapping the pages of an area of memory_set.rs, each to a frame of its own.
use t_core.Base.{
  ==-true, ◌⊎◌, ℕ, zero, suc, ◌≡◌, ◌≢◌, ◌<◌, ◌≤◌, ◌+◌, ◌*◌, ◌^◌, ◌&&◌, ◌==◌, Option, none, some,
  arith, if◌then◌else◌, refl, Bool, true, false, Bool-cases, inl, inr, ◌∙◌, sym, leb, ltb, List, [],
  ◌∷◌,
}
use t_core.Mm.Address.{pages}
use t_core.Mm.FrameAllocator.{FrameTracker}
use t_core.Mm.FrameAllocator.Live.{live}
use t_core.Mm.FrameAllocator.Supply.{available}
use t_core.Mm.PageTable.{PageTable, Memory, alloc_cleared, map_page, pte, or_v}
use t_core.Mm.PageTable.Tree.{Role, other}
use t_core.Mm.PageTable.Walk.{IsTree}
use t_core.Mm.PageTable.Mapping.{mapping, Mapped, map_page-Mapped}
use t_core.Mm.PageTable.Frames.{Given, alloc_cleared-Given}
use t_core.Mm.MemorySet.{MapArea, framed, map_one, map_pages, insert_frame}

-- The tracker of a page.
abbrev pub tracker : List (ℕ × FrameTracker) → ℕ → Option FrameTracker
tracker [] v = none
tracker ((w, f) ∷ frames) v = if w == v then some f else tracker frames v

pub tracker-insert_frame :
    (vpn v : ℕ) (f : FrameTracker) (frames : List (ℕ × FrameTracker))
    → tracker (insert_frame vpn f frames) v ≡ (if vpn == v then some f else tracker frames v)
unfolding insert_frame
tracker-insert_frame vpn v f [] = refl
tracker-insert_frame vpn v f ((w, g) ∷ frames) = ground (arith, tracker-insert_frame vpn v f frames)

abbrev pub with_frame : MapArea → ℕ → ℕ → MapArea
with_frame area vpn p = record area {
  data_frames = insert_frame vpn (record { ppn = p; nodrop = false }) area.data_frames;
}

map_one-step :
    (area : MapArea) (pt : PageTable) (vpn p : ℕ) (m m1 : Memory) (pt' : PageTable) (m' : Memory)
    → area.map_type ≡ framed
    → alloc_cleared m ≡ some (record { ppn = p; nodrop = false }, m1)
    → map_page pt vpn p area.map_perm m1 ≡ some (pt', m')
    → map_one area pt vpn m ≡ some (with_frame area vpn p, pt', m')
unfolding map_one
map_one-step area pt vpn p m m1 pt' m' k e e' = rw k (rw e (rw e' refl))

abbrev pub within : ℕ → ℕ → ℕ → Bool
within s n v = leb s v && ltb v (s + n)

-- `n` pages from `s` on have been mapped, page `v` to `frame v`, which was free before.
pub record AreaMapped (l : ℕ) (old : ℕ → Role) (area : MapArea) (pt : PageTable) (m : Memory)
    (s n : ℕ) (frame : ℕ → ℕ) (area' : MapArea) (pt' : PageTable) (m' : Memory) : Type 0 where
  pub role : ℕ → Role
  pub tree : IsTree l role pt'.root_ppn m'
  pub same_root : pt'.root_ppn ≡ pt.root_ppn
  pub left : available m.allocator ≤ available m'.allocator + 3 * n
  pub lives : (x : ℕ) → live l m.allocator x ≡ true → live l m'.allocator x ≡ true
  pub same_role : (x : ℕ) → live l m.allocator x ≡ true → role x ≡ old x
  pub same_bytes : (x i : ℕ) → live l m.allocator x ≡ true → m'.bytes x i ≡ m.bytes x i
  pub maps :
      (v : ℕ)
      → v < 2 ^ 27
      → mapping pt' m' v
        ≡ (if within s n v then some (pte (frame v) (or_v area.map_perm)) else mapping pt m v)
  pub was_free : (v : ℕ) → within s n v ≡ true → live l m.allocator (frame v) ≡ false
  pub now_live : (v : ℕ) → within s n v ≡ true → live l m'.allocator (frame v) ≡ true
  pub cleared : (v : ℕ) → within s n v ≡ true → (i : ℕ) → m'.bytes (frame v) i ≡ 0
  pub data_page : (v : ℕ) → within s n v ≡ true → role (frame v) ≡ other
  pub narrow : (v : ℕ) → within s n v ≡ true → frame v < 2 ^ 44
  pub distinct : (v w : ℕ) → within s n v ≡ true → within s n w ≡ true → frame v ≡ frame w → v ≡ w
  pub trackers :
      (v : ℕ)
      → tracker area'.data_frames v ≡ (
          if within s n v
          then some (record { ppn = frame v; nodrop = false })
          else tracker area.data_frames v)
  pub same_type : area'.map_type ≡ area.map_type
  pub same_perm : area'.map_perm ≡ area.map_perm
  pub same_range : area'.vpn_range ≡ area.vpn_range

true-ne-false : (b : Bool) → b ≡ true → b ≢ false
true-ne-false b h k = cc

maps-first :
    (s n v p : ℕ) (frame : ℕ → ℕ) (f : ℕ → Option ℕ) (x y z : Option ℕ)
    → x ≡ (if within (suc s) n v then f (frame v) else y)
    → y ≡ (if v == s then f p else z)
    → x ≡ (if within s (suc n) v then f (if v == s then p else frame v) else z)
maps-first s n v p frame f x y z h k = ground arith

-- The first page, then the others.
module _ (l : ℕ) (role : ℕ → Role) (area : MapArea) (pt : PageTable) (m : Memory) (s n : ℕ)
    (bound : s + suc n ≤ 2 ^ 27) {p : ℕ} {m1 : Memory} (g : Given l role pt.root_ppn m p m1)
    {pt2 : PageTable} {m2 : Memory} (d : Mapped l role pt m1 s (pte p (or_v area.map_perm)) pt2 m2)
    {frame : ℕ → ℕ} {area' : MapArea} {pt' : PageTable} {m' : Memory}
    (a : AreaMapped l d.role (with_frame area s p) pt2 m2 (suc s) n frame area' pt' m') where
  abbrev first_frame : ℕ → ℕ
  first_frame v = if v == s then p else frame v

  live-p : live l m2.allocator p ≡ true
  live-p = d.lives p g.now_live

  apart : (v : ℕ) → within (suc s) n v ≡ true → frame v ≢ p
  apart v h e = ground (arith, a.was_free v h, live-p)

  split :
      (v : ℕ)
      → within s (suc n) v ≡ true
      → ((v == s) ≡ true) ⊎ (((v == s) ≡ false) × (within (suc s) n v ≡ true))
  split v h = elim (Bool-cases (v == s)) [ inl e ↦ inl e | inr e ↦ inr (e, ground arith) ]

  -- What holds of the first frame and of the others holds of all.
  on_each {κ} :
      (P : ℕ → Type κ)
      → P p
      → ((v : ℕ) → within (suc s) n v ≡ true → P (frame v))
      → (v : ℕ) → within s (suc n) v ≡ true
      → P (first_frame v)
  on_each P h k v w = elim (split v w) [ inl e ↦ rw e h | inr (e, w') ↦ rw e (k v w') ]

  kept_live : (x : ℕ) → live l m.allocator x ≡ true → live l m2.allocator x ≡ true
  kept_live x h = d.lives x (g.lives x h)

  still_free : (v : ℕ) → within (suc s) n v ≡ true → live l m.allocator (frame v) ≡ false
  still_free v h = elim (Bool-cases (live l m.allocator (frame v))) [
    | inl u ↦ absurd (true-ne-false _ (kept_live (frame v) u) (a.was_free v h))
    | inr u ↦ u
  ]

  cons-maps :
      (v : ℕ)
      → v < 2 ^ 27
      → mapping pt' m' v ≡ (
          if within s (suc n) v
          then some (pte (first_frame v) (or_v area.map_perm))
          else mapping pt m v)
  cons-maps v h =
      maps-first s n v p frame (λ x. some (pte x (or_v area.map_perm))) _ _ _ (a.maps v h)
        (d.maps v h ∙ rw (g.looks _ _ _) refl)

  cons-distinct :
      (v w : ℕ)
      → within s (suc n) v ≡ true
      → within s (suc n) w ≡ true
      → first_frame v ≡ first_frame w
      → v ≡ w
  cons-distinct v w h k e = elim (split v h) [
    | inl x ↦ elim (split w k) [
      | inl y ↦ ==-true v s x ∙ sym (==-true w s y)
      | inr (y, k') ↦ absurd (apart w k' (sym (rw x at (rw y at e))))
    ]
    | inr (x, h') ↦ elim (split w k) [
      | inl y ↦ absurd (apart v h' (rw y at (rw x at e)))
      | inr (y, k') ↦ a.distinct v w h' k' (rw y at (rw x at e))
    ]
  ]

  AreaMapped-cons : AreaMapped l role area pt m s (suc n) first_frame area' pt' m'
  AreaMapped-cons = record {
    role = a.role;
    tree = a.tree;
    same_root = a.same_root ∙ d.same_root;
    left = omega (arith, a.left, d.left, g.left);
    lives = λ x h. a.lives x (d.lives x (g.lives x h));
    same_role = λ x h. a.same_role x (d.lives x (g.lives x h)) ∙ d.same_role x (g.lives x h);
    same_bytes = λ x i h.
        a.same_bytes x i (d.lives x (g.lives x h))
        ∙ (d.same_bytes x i (g.lives x h) ∙ g.same_bytes x i h);
    maps = cons-maps;
    was_free = on_each (λ x. live l m.allocator x ≡ false) g.was_free still_free;
    now_live = on_each (λ x. live l m'.allocator x ≡ true) (a.lives p live-p) a.now_live;
    cleared =
        on_each (λ x. (i : ℕ) → m'.bytes x i ≡ 0)
          (λ i. a.same_bytes p i live-p ∙ (d.same_bytes p i g.now_live ∙ g.cleared i)) a.cleared;
    data_page =
        on_each (λ x. a.role x ≡ other)
          (a.same_role p live-p ∙ (d.same_role p g.now_live ∙ g.data_page)) a.data_page;
    narrow = on_each (λ x. x < 2 ^ 44) g.narrow a.narrow;
    distinct = cons-distinct;
    trackers = λ v. ground (
      arith,
      a.trackers v,
      tracker-insert_frame s v (record { ppn = p; nodrop = false }) area.data_frames,
    );
    same_type = a.same_type;
    same_perm = a.same_perm;
    same_range = a.same_range;
  }

none-AreaMapped :
    (l : ℕ) (role : ℕ → Role) (area : MapArea) (pt : PageTable) (m : Memory) (s : ℕ)
    → IsTree l role pt.root_ppn m
    → AreaMapped l role area pt m s 0 (λ v. 0) area pt m
none-AreaMapped l role area pt m s t = record {
  role = role;
  tree = t;
  same_root = refl;
  left = omega arith;
  lives = λ x h. h;
  same_role = λ x h. refl;
  same_bytes = λ x i h. refl;
  maps = λ v h. ground arith;
  was_free = λ v h. absurd (ground arith);
  now_live = λ v h. absurd (ground arith);
  cleared = λ v h i. absurd (ground arith);
  data_page = λ v h. absurd (ground arith);
  narrow = λ v h. absurd (ground arith);
  distinct = λ v w h k e. absurd (ground arith);
  trackers = λ v. ground arith;
  same_type = refl;
  same_perm = refl;
  same_range = refl;
}

still-unmapped :
    (l : ℕ) (role : ℕ → Role) (perm : ℕ) (pt : PageTable) (m : Memory) (s n : ℕ)
    → s + suc n ≤ 2 ^ 27
    → {p : ℕ} {m1 : Memory} → Given l role pt.root_ppn m p m1
    → {pt2 : PageTable} {m2 : Memory} → (d : Mapped l role pt m1 s (pte p (or_v perm)) pt2 m2)
    → ((v : ℕ) → within s (suc n) v ≡ true → mapping pt m v ≡ none)
    → (v : ℕ) → within (suc s) n v ≡ true
    → mapping pt2 m2 v ≡ none
still-unmapped l role perm pt m s n bound g d unmapped v h =
    let later : (v == s) ≡ false = ground arith in
    d.maps v (ground arith) ∙ rw later (g.looks _ _ _ ∙ unmapped v (ground arith))

pub map_pages-AreaMapped :
    (l : ℕ) (role : ℕ → Role) (area : MapArea) (pt : PageTable) (m : Memory) (s n : ℕ)
    → IsTree l role pt.root_ppn m
    → area.map_type ≡ framed
    → area.map_perm < 2 ^ 8
    → 3 * n ≤ available m.allocator
    → s + n ≤ 2 ^ 27
    → ((v : ℕ) → within s n v ≡ true → mapping pt m v ≡ none)
    → (frame : ℕ → ℕ) × (area' : MapArea) × (pt' : PageTable) × (m' : Memory) × (map_pages
          (pages s n)
          area
          pt
          m
        ≡ some (area', pt', m'))
      × AreaMapped l role area pt m s n frame area' pt' m'
unfolding map_pages
map_pages-AreaMapped l role area pt m s zero t k hp supply bound unmapped =
    (λ v. 0, area, pt, m, refl, none-AreaMapped l role area pt m s t)
map_pages-AreaMapped l role area pt m s (suc n) t k hp supply bound unmapped =
    let (p, m1, e1, g) = alloc_cleared-Given l role pt.root_ppn m t (omega arith) in
    let (pt2, m2, e2, d) =
      map_page-Mapped l role pt m1 s p area.map_perm g.tree (omega (arith, g.left)) (omega arith)
        g.narrow hp (g.looks _ _ _ ∙ unmapped s (ground arith)) in
    let step = map_one-step area pt s p m m1 pt2 m2 k e1 e2 in
    let others : (v : ℕ) → within (suc s) n v ≡ true → mapping pt2 m2 v ≡ none =
      still-unmapped l role area.map_perm pt m s n bound g d unmapped in
    let (frame, area', pt', m', e, a) =
      map_pages-AreaMapped l d.role (with_frame area s p) pt2 m2 (suc s) n d.tree k hp
        (omega (arith, d.left, g.left)) (omega arith) others in
    (
      λ v. if v == s then p else frame v,
      area',
      pt',
      m',
      rw step e,
      AreaMapped-cons l role area pt m s n bound g d a,
    )

-- ===== src/Mm/MemorySet/Removal.antt =====
-- Unmapping the pages of an area of memory_set.rs, and giving their frames back.
use t_core.Base.{
  ℕ, zero, suc, ◌≡◌, ◌≢◌, ◌<◌, ◌≤◌, ◌+◌, ◌^◌, ◌==◌, Option, none, some, arith, if◌then◌else◌, refl,
  true, false, Bool-cases, inl, inr, ◌∙◌, sym, List, [], ◌∷◌, ==-true, ==-self, ap,
}
use t_core.Mm.Address.{pages}
use t_core.Mm.FrameAllocator.{StackFrameAllocator, FrameTracker, drop_tracker}
use t_core.Mm.FrameAllocator.Live.{live, dealloc-live}
use t_core.Mm.FrameAllocator.Supply.{drop_tracker-dealloc}
use t_core.Mm.PageTable.{PageTable, Memory, unmap_page}
use t_core.Mm.PageTable.Tree.{Role, other}
use t_core.Mm.PageTable.Walk.{IsTree}
use t_core.Mm.PageTable.Mapping.{mapping}
use t_core.Mm.PageTable.Lookup.{unmap_page-IsTree}
use t_core.Mm.MemorySet.{MapArea, framed, unmap_one, unmap_pages, take_frame}
use t_core.Mm.MemorySet.Areas.{tracker, within}

-- The tracker of a page, and those that are left.
pub take_frame_lem :
    (vpn : ℕ) (frames : List (ℕ × FrameTracker))
    → ((take_frame vpn frames).0 ≡ tracker frames vpn)
      × ((v : ℕ)
          → tracker (take_frame vpn frames).1 v ≡ (if v == vpn then none else tracker frames v))
unfolding take_frame
take_frame_lem vpn [] = (refl, λ v. ground arith)
take_frame_lem vpn ((w, f) ∷ frames) =
    let (a, b) = take_frame_lem vpn frames in (ground arith, λ v. ground (arith, b v))

-- `n` pages from `s` on are mapped, and page `v` has the frame `frame v`.
pub record Backed (l : ℕ) (role : ℕ → Role) (area : MapArea) (pt : PageTable) (m : Memory) (s n : ℕ)
    (frame : ℕ → ℕ) : Type 0 where
  pub tree : IsTree l role pt.root_ppn m
  pub bits : ℕ → ℕ
  pub mapped : (v : ℕ) → within s n v ≡ true → mapping pt m v ≡ some (bits v)
  pub tracked :
      (v : ℕ)
      → within s n v ≡ true
      → tracker area.data_frames v ≡ some (record { ppn = frame v; nodrop = false })
  pub held : (v : ℕ) → within s n v ≡ true → live l m.allocator (frame v) ≡ true
  pub data_page : (v : ℕ) → within s n v ≡ true → role (frame v) ≡ other
  pub distinct : (v w : ℕ) → within s n v ≡ true → within s n w ≡ true → frame v ≡ frame w → v ≡ w

-- They have been unmapped.
pub record Released (l : ℕ) (role : ℕ → Role) (area : MapArea) (pt : PageTable) (m : Memory)
    (s n : ℕ) (frame : ℕ → ℕ) (area' : MapArea) (m' : Memory) : Type 0 where
  pub tree : IsTree l role pt.root_ppn m'
  pub maps :
      (v : ℕ) → v < 2 ^ 27 → mapping pt m' v ≡ (if within s n v then none else mapping pt m v)
  pub trackers :
      (v : ℕ)
      → tracker area'.data_frames v ≡ (if within s n v then none else tracker area.data_frames v)
  pub freed : (v : ℕ) → within s n v ≡ true → live l m'.allocator (frame v) ≡ false
  pub others :
      (q : ℕ)
      → ((v : ℕ) → within s n v ≡ true → frame v ≢ q)
      → live l m'.allocator q ≡ live l m.allocator q

abbrev without : MapArea → ℕ → MapArea
without area vpn = record area { data_frames = (take_frame vpn area.data_frames).1 }

unmap_one-step :
    (area : MapArea) (pt : PageTable) (vpn p : ℕ) (m : Memory) (a : StackFrameAllocator)
    (m' : Memory)
    → area.map_type ≡ framed
    → (take_frame vpn area.data_frames).0 ≡ some (record { ppn = p; nodrop = false })
    → drop_tracker m.allocator (record { ppn = p; nodrop = false }) ≡ some a
    → unmap_page pt vpn (record m { allocator = a }) ≡ some m'
    → unmap_one area pt vpn m ≡ some (without area vpn, m')
unfolding unmap_one
unmap_one-step area pt vpn p m a m' k e e' e'' = rw k (rw e (rw e' (rw e'' refl)))

-- What dropping the tracker of a data page leaves.
record Dropped (l : ℕ) (role : ℕ → Role) (r : ℕ) (m : Memory) (p : ℕ) (a : StackFrameAllocator)
    : Type 0 where
  pub dropped : drop_tracker m.allocator (record { ppn = p; nodrop = false }) ≡ some a
  pub tree : IsTree l role r (record m { allocator = a })
  pub lives : (q : ℕ) → live l a q ≡ (if q == p then false else live l m.allocator q)

drop-Dropped :
    (l : ℕ) (role : ℕ → Role) (r : ℕ) (m : Memory) (p : ℕ)
    → IsTree l role r m
    → live l m.allocator p ≡ true
    → role p ≡ other
    → (a : StackFrameAllocator) × Dropped l role r m p a
drop-Dropped l role r m p t h free =
    let (a, e, v, _, q) = dealloc-live l m.allocator p t.frames h in
    (
      a,
      record {
        dropped = drop_tracker-dealloc m.allocator p ∙ e;
        tree = record {
          frames = v;
          shape = t.shape;
          owned = λ x u. ground (arith, q x, t.owned x);
        };
        lives = q;
      },
    )

Released-none :
    (l : ℕ) (role : ℕ → Role) (area : MapArea) (pt : PageTable) (m : Memory) (s : ℕ) (frame : ℕ → ℕ)
    → IsTree l role pt.root_ppn m
    → Released l role area pt m s 0 frame area m
Released-none l role area pt m s frame t = record {
  tree = t;
  maps = λ v h. ground arith;
  trackers = λ v. ground arith;
  freed = λ v h. absurd (ground arith);
  others = λ q h. refl;
}

-- The first page is unmapped; its frame is `frame s`, and `m1` is the memory then.
record FirstGone (l : ℕ) (role : ℕ → Role) (pt : PageTable) (m : Memory) (s p : ℕ) (m1 : Memory)
    : Type 0 where
  tree : IsTree l role pt.root_ppn m1
  maps : (v : ℕ) → v < 2 ^ 27 → mapping pt m1 v ≡ (if v == s then none else mapping pt m v)
  lives : (q : ℕ) → live l m1.allocator q ≡ (if q == p then false else live l m.allocator q)

unmap_one-FirstGone :
    (l : ℕ) (role : ℕ → Role) (area : MapArea) (pt : PageTable) (m : Memory) (s n : ℕ)
    (frame : ℕ → ℕ)
    → area.map_type ≡ framed
    → s + suc n ≤ 2 ^ 27
    → Backed l role area pt m s (suc n) frame
    → (m1 : Memory) × (unmap_one area pt s m ≡ some (without area s, m1))
      × FirstGone l role pt m s (frame s) m1
unmap_one-FirstGone l role area pt m s n frame k bound b =
    let at_s : within s (suc n) s ≡ true = ground arith in
    let (a, d) =
      drop-Dropped l role pt.root_ppn m (frame s) b.tree (b.held s at_s) (b.data_page s at_s) in
    let (m1, e, t, same, maps) =
      unmap_page-IsTree l role pt (record m { allocator = a }) s d.tree (omega arith)
        (b.mapped s at_s) in
    (
      m1,
      unmap_one-step area pt s (frame s) m a m1 k
          ((take_frame_lem s area.data_frames).0 ∙ b.tracked s at_s) d.dropped e,
      record { tree = t; maps = maps; lives = λ q. ap (λ x. live l x q) same ∙ d.lives q },
    )

==-false : (a b : ℕ) → b ≢ a → (a == b) ≡ false
==-false a b h = elim (Bool-cases (a == b)) [ inl e ↦ absurd (h (sym (==-true a b e))) | inr e ↦ e ]

gone-first {ℓ} :
    {A : Type ℓ} (s n v : ℕ) (x y z : Option A)
    → x ≡ (if within (suc s) n v then none else y)
    → y ≡ (if v == s then none else z)
    → x ≡ (if within s (suc n) v then none else z)
gone-first s n v x y z h k = ground arith

-- The pages after the first are as they were.
module _ (l : ℕ) (role : ℕ → Role) (area : MapArea) (pt : PageTable) (m : Memory) (s n : ℕ)
    (frame : ℕ → ℕ) (bound : s + suc n ≤ 2 ^ 27) (b : Backed l role area pt m s (suc n) frame)
    {m1 : Memory} (g : FirstGone l role pt m s (frame s) m1) where
  later : (v : ℕ) → within (suc s) n v ≡ true → within s (suc n) v ≡ true
  later v h = ground arith

  differs : (v : ℕ) → within (suc s) n v ≡ true → (v == s) ≡ false
  differs v h = ground arith

  other_frame : (v : ℕ) → within (suc s) n v ≡ true → (frame v == frame s) ≡ false
  other_frame v h = elim (Bool-cases (frame v == frame s)) [
    | inl e ↦
        let same : v ≡ s =
          b.distinct v s (later v h) (ground arith) (==-true (frame v) (frame s) e) in
        absurd (ground (arith, differs v h))
    | inr e ↦ e
  ]

  rest-Backed : Backed l role (without area s) pt m1 (suc s) n frame
  rest-Backed = record {
    tree = g.tree;
    bits = b.bits;
    mapped = λ v h. g.maps v (ground arith) ∙ rw (differs v h) (b.mapped v (later v h));
    tracked =
        λ v h. (take_frame_lem s area.data_frames).1 v ∙ rw (differs v h) (b.tracked v (later v h));
    held = λ v h. g.lives (frame v) ∙ rw (other_frame v h) (b.held v (later v h));
    data_page = λ v h. b.data_page v (later v h);
    distinct = λ v w h k e. b.distinct v w (later v h) (later w k) e;
  }

  Released-cons :
      {area' : MapArea} {m' : Memory}
      → Released l role (without area s) pt m1 (suc s) n frame area' m'
      → Released l role area pt m s (suc n) frame area' m'
  Released-cons {m'} r = record {
    tree = r.tree;
    maps = λ v h. gone-first s n v _ _ _ (r.maps v h) (g.maps v h);
    trackers = λ v. gone-first s n v _ _ _ (r.trackers v) ((take_frame_lem s area.data_frames).1 v);
    freed = λ v h. elim (Bool-cases (v == s)) [
      | inl e ↦ rw (==-true v s e) (
          r.others (frame s) (λ w k x. ground (arith, other_frame w k))
          ∙ (g.lives (frame s) ∙ rw (==-self (frame s)) refl))
      | inr e ↦ r.freed v (ground arith)
    ];
    others = λ q h.
        r.others q (λ v k. h v (later v k))
        ∙ (g.lives q ∙ rw (==-false q (frame s) (h s (ground arith))) refl);
  }

pub unmap_pages-Released :
    (l : ℕ) (role : ℕ → Role) (area : MapArea) (pt : PageTable) (m : Memory) (s n : ℕ)
    (frame : ℕ → ℕ)
    → area.map_type ≡ framed
    → s + n ≤ 2 ^ 27
    → Backed l role area pt m s n frame
    → (area' : MapArea) × (m' : Memory) × (unmap_pages (pages s n) area pt m ≡ some (area', m'))
      × Released l role area pt m s n frame area' m'
unfolding unmap_pages
unmap_pages-Released l role area pt m s zero frame k bound b =
    (area, m, refl, Released-none l role area pt m s frame b.tree)
unmap_pages-Released l role area pt m s (suc n) frame k bound b =
    let (m1, e1, g) = unmap_one-FirstGone l role area pt m s n frame k bound b in
    let (area', m', e, r) =
      unmap_pages-Released l role (without area s) pt m1 (suc s) n frame k (omega arith)
        (rest-Backed l role area pt m s n frame bound b g) in
    (area', m', rw e1 e, Released-cons l role area pt m s n frame bound b g r)

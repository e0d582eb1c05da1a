-- ===== src/Mm/PageTable/Frames.antt =====
-- A frame for data beside the tables of page_table.rs.
use t_core.Base.{ℕ, ◌≡◌, ◌<◌, ◌≤◌, ◌+◌, ◌^◌, some, arith, refl, true, false, Option-cases, inl, inr}
use t_core.Mm.FrameAllocator.Live.{live}
use t_core.Mm.FrameAllocator.Supply.{available, frame_alloc-Granted}
use t_core.Mm.PageTable.{Memory, alloc_cleared}
use t_core.Mm.PageTable.Entries.{is_valid-empty}
use t_core.Mm.PageTable.Tree.{
  Role, other, mid, leaf, Shape, Entries, clear, child, look, child-role,
}
use t_core.Mm.PageTable.Walk.{IsTree}

-- Clearing a page that is no table.
module _ {role : ℕ → Role} {r : ℕ} (p : ℕ) (e : Entries) (s : Shape role r e)
    (free : role p ≡ other) where
  cleared-Shape : Shape role r (clear p e)
  cleared-Shape = record {
    at_root = s.at_root;
    leads = λ x i h v. ground (arith, is_valid-empty, s.leads x i);
  }

  look-cleared : (a b c : ℕ) → look (clear p e) r a b c ≡ look e r a b c
  look-cleared a b c = elim (Option-cases (child e r a)) [
    | inl g ↦ ground (arith, s.at_root, is_valid-empty)
    | inr (p1, g) ↦
        let role_p1 : role p1 ≡ mid a = ground (arith, child-role r a p1 s, s.at_root) in
        elim (Option-cases (child e p1 b)) [
          | inl g' ↦ ground (arith, s.at_root, is_valid-empty)
          | inr (y, g') ↦
              let role_y : role y ≡ leaf a b = ground (arith, child-role p1 b y s) in
              ground (arith, s.at_root, is_valid-empty)
        ]
  ]

-- What `frame_alloc` leaves: the frame `p`, cleared, is no table.
pub record Given (l : ℕ) (role : ℕ → Role) (r : ℕ) (m : Memory) (p : ℕ) (m' : Memory) : Type 0 where
  pub tree : IsTree l role r m'
  pub data_page : role p ≡ other
  pub was_free : live l m.allocator p ≡ false
  pub now_live : live l m'.allocator p ≡ true
  pub narrow : p < 2 ^ 44
  pub lives : (x : ℕ) → live l m.allocator x ≡ true → live l m'.allocator x ≡ true
  pub left : available m.allocator ≤ available m'.allocator + 1
  pub cleared : (i : ℕ) → m'.bytes p i ≡ 0
  pub same_bytes : (x i : ℕ) → live l m.allocator x ≡ true → m'.bytes x i ≡ m.bytes x i
  pub looks : (i j n : ℕ) → look m'.entries r i j n ≡ look m.entries r i j n

pub alloc_cleared-Given :
    (l : ℕ) (role : ℕ → Role) (r : ℕ) (m : Memory)
    → IsTree l role r m
    → 0 < available m.allocator
    → (p : ℕ) × (m' : Memory) × (alloc_cleared m ≡ some (record { ppn = p; nodrop = false }, m'))
      × Given l role r m p m'
unfolding alloc_cleared
alloc_cleared-Given l role r m t supply =
    let (p, a, (e, n, (v, (above, under), free, end, lives))) =
      frame_alloc-Granted l m.allocator t.frames supply in
    let data_page : role p ≡ other = t.owned p free in
    (
      p,
      record { allocator = a; entries = clear p m.entries; bytes = clear p m.bytes },
      rw e refl,
      record {
        tree = record {
          frames = v;
          shape = cleared-Shape p m.entries t.shape data_page;
          owned = λ x h. ground (arith, t.owned x, lives x);
        };
        data_page = data_page;
        was_free = free;
        now_live = ground (arith, lives p);
        narrow = omega (arith, t.frames.narrow);
        lives = λ x h. ground (arith, lives x);
        left = omega (arith, n);
        cleared = λ i. ground arith;
        same_bytes = λ x i h. ground arith;
        looks = look-cleared p m.entries t.shape data_page;
      },
    )

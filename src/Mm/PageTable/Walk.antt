-- ===== src/Mm/PageTable/Walk.antt =====
-- The walk of page_table.rs that makes the tables that are missing.
use t_core.Base.{
  ℕ, ◌≡◌, ◌<◌, ◌≤◌, ◌+◌, ◌^◌, true, false, some, arith, refl, ◌∙◌, Bool-cases, inl, inr, ◌∷◌, [],
  ◌++◌,
}
use t_core.Mm.FrameAllocator.{StackFrameAllocator, frame_alloc}
use t_core.Mm.FrameAllocator.Live.{IsValid, live, Allocated}
use t_core.Mm.FrameAllocator.Supply.{available, frame_alloc-Granted}
use t_core.Mm.PageTable.{PageTable, Memory, descend_create, alloc_cleared, is_valid, ppn_of}
use t_core.Mm.PageTable.Entries.{of-pte}
use t_core.Mm.PageTable.Tree.{
  clear, Role, other, below, is_inner, Shape, child, look, grown, assign, child-grown,
  child-grown_lem, grown-Shape, look-grown,
}

-- The tables below the root `r` form a tree, and their pages are frames that the allocator gave.
pub record IsTree (l : ℕ) (role : ℕ → Role) (r : ℕ) (m : Memory) : Type 0 where
  pub frames : IsValid l m.allocator
  pub shape : Shape role r m.entries
  pub owned : (p : ℕ) → live l m.allocator p ≡ false → role p ≡ other

-- What a round of the walk leaves: the next table `c`, and all that was mapped.
pub record Descended (l : ℕ) (role : ℕ → Role) (r q k : ℕ) (m : Memory) (c : ℕ) (pt : PageTable)
    (m' : Memory) : Type 0 where
  pub role' : ℕ → Role
  pub tree : IsTree l role' r m'
  pub same_root : pt.root_ppn ≡ r
  pub leads : child m'.entries q k ≡ some c
  pub kept_role : role' q ≡ role q
  pub role_c : role' c ≡ below (role q) k
  pub kept :
      (x y z : ℕ)
      → is_inner (role x) ≡ true
      → child m.entries x y ≡ some z
      → child m'.entries x y ≡ some z
  pub looks : (i j n : ℕ) → look m'.entries r i j n ≡ look m.entries r i j n
  pub left : available m.allocator ≤ available m'.allocator + 1
  pub lives : (x : ℕ) → live l m.allocator x ≡ true → live l m'.allocator x ≡ true
  pub same_role : (x : ℕ) → live l m.allocator x ≡ true → role' x ≡ role x
  pub same_bytes : (x i : ℕ) → live l m.allocator x ≡ true → m'.bytes x i ≡ m.bytes x i

module _ {l : ℕ} {role : ℕ → Role} {r : ℕ} (q k : ℕ) (pt : PageTable) (m : Memory)
    (t : IsTree l role r m) (same : pt.root_ppn ≡ r) (inner : is_inner (role q) ≡ true) where
  descend_create_old :
      is_valid (m.entries q k) ≡ true
      → (descend_create q k pt m ≡ some (ppn_of (m.entries q k), pt, m))
        × Descended l role r q k m (ppn_of (m.entries q k)) pt m
  unfolding descend_create
  descend_create_old h = (
    rw h refl,
    record {
      role' = role;
      tree = t;
      same_root = same;
      leads = rw h refl;
      kept_role = refl;
      role_c = t.shape.leads q k inner h;
      kept = λ x y z _ g. g;
      looks = λ i j n. refl;
      left = omega arith;
      lives = λ x h. h;
      same_role = λ x h. refl;
      same_bytes = λ x i h. refl;
    },
  )

  -- The frame `p` becomes the table that was missing.
  abbrev hung : ℕ → StackFrameAllocator → Memory
  hung p a = record { allocator = a; entries = grown q k p m.entries; bytes = clear p m.bytes }

  abbrev with_frame : ℕ → PageTable
  with_frame p = record pt { frames = pt.frames ++ record { ppn = p; nodrop = false } ∷ [] }

  descend_create-new :
      (p : ℕ) (a : StackFrameAllocator)
      → is_valid (m.entries q k) ≡ false
      → frame_alloc m.allocator ≡ some (record { ppn = p; nodrop = false }, a)
      → p < 2 ^ 44
      → descend_create q k pt m ≡ some (p, with_frame p, hung p a)
  unfolding descend_create alloc_cleared
  descend_create-new p a h e small = rw h (rw e (rw (of-pte p 1 small (omega arith)).0 refl))

  hung-Descended :
      (p : ℕ) (a : StackFrameAllocator)
      → is_valid (m.entries q k) ≡ false
      → available a + 1 ≡ available m.allocator
      → Allocated l m.allocator p a
      → Descended l role r q k m p (with_frame p) (hung p a)
  hung-Descended p a h n (v, (above, under), free, end, lives) =
      let fresh : role p ≡ other = t.owned p free in
      let small : p < 2 ^ 44 = omega (arith, t.frames.narrow) in
      record {
        role' = assign p (below (role q) k) role;
        tree = record {
          frames = v;
          shape = grown-Shape q k p m.entries t.shape inner h fresh small;
          owned = λ x u. ground (arith, t.owned x, lives x);
        };
        same_root = same;
        leads = child-grown q k p m.entries t.shape inner h fresh small;
        kept_role = ground arith;
        role_c = ground arith;
        kept = λ x y z i g.
            child-grown_lem q k p m.entries t.shape inner h fresh small x y ∙ ground (arith);
        looks = look-grown q k p m.entries t.shape inner h fresh small;
        left = omega (arith, n);
        lives = λ x h. ground (arith, lives x);
        same_role = λ x h. ground arith;
        same_bytes = λ x i h. ground arith;
      }

  pub descend_create_lem :
      0 < available m.allocator
      → (c : ℕ) × (pt' : PageTable) × (m' : Memory) × (descend_create q k pt m ≡ some (c, pt', m'))
        × Descended l role r q k m c pt' m'
  descend_create_lem supply = elim (Bool-cases (is_valid (m.entries q k))) [
    | inl h ↦ let (e, d) = descend_create_old h in (ppn_of (m.entries q k), pt, m, e, d)
    | inr h ↦
        let (p, a, (e, n, granted)) = frame_alloc-Granted l m.allocator t.frames supply in
        (
          p,
          with_frame p,
          hung p a,
          descend_create-new p a h e (omega (arith, granted.1.1, t.frames.narrow)),
          hung-Descended p a h n granted,
        )
  ]

-- ===== src/Mm/FrameAllocator/Trackers.antt =====
-- Clients of frame_allocator.rs: a tracker gives its frame back when it is dropped, and only then.
use t_core.Base.{
  ℕ, ◌^◌, ◌≤◌, ◌≡◌, true, false, some, List, [], ◌∷◌, arith, contains, remove, contains-remove,
  remove-Distinct, Distinct, sym, subst, ◌∙◌,
}
use t_core.Mm.FrameAllocator.{
  StackFrameAllocator, FrameTracker, new, init, frame_alloc, drop_tracker, alloc,
}
use t_core.Mm.FrameAllocator.Live.{live, IsValid, Allocated, alloc-Allocated, dealloc-live}

-- The allocator, and the frames of the trackers that live.
pub record System : Type 0 where
  pub allocator : StackFrameAllocator
  pub held : List ℕ

pub data Step (s : System) (t : System) : Type 0 where
  allocate :
      (f : FrameTracker) (a : StackFrameAllocator)
      → frame_alloc s.allocator ≡ some (f, a)
      → t ≡ record { allocator = a; held = f.ppn ∷ s.held }
      → Step s t
  release :
      (f : FrameTracker) (a : StackFrameAllocator)
      → f.nodrop ≡ false
      → contains s.held f.ppn ≡ true
      → drop_tracker s.allocator f ≡ some a
      → t ≡ record { allocator = a; held = remove s.held f.ppn }
      → Step s t

pub data Reach (s : System) : System → Type 0 where
  here : Reach s s
  next : {t u : System} → Reach s t → Step t u → Reach s u

-- The trackers' frames are the allocator's frames in use, each held once.
pub record Tracked (l : ℕ) (s : System) : Type 0 where
  pub valid : IsValid l s.allocator
  pub distinct : Distinct s.held
  pub agree : (p : ℕ) → contains s.held p ≡ live l s.allocator p

frame_alloc-alloc :
    (a : StackFrameAllocator) (f : FrameTracker) (a' : StackFrameAllocator)
    → frame_alloc a ≡ some (f, a')
    → (alloc a ≡ some (f.ppn, a')) × (f.nodrop ≡ false)
unfolding frame_alloc
frame_alloc-alloc a f a' h = ground arith

allocate-Tracked :
    (l : ℕ) (s : System) (f : FrameTracker) (a : StackFrameAllocator)
    → Tracked l s
    → frame_alloc s.allocator ≡ some (f, a)
    → Tracked l (record { allocator = a; held = f.ppn ∷ s.held })
allocate-Tracked l s f a v h =
    let step : Allocated l s.allocator f.ppn a =
      alloc-Allocated l s.allocator v.valid (frame_alloc-alloc s.allocator f a h).0 in
    record {
      valid = step.0;
      distinct = (v.agree f.ppn ∙ step.2, v.distinct);
      agree = λ p. ground (arith, v.agree p, step.4 p);
    }

-- Dropping a tracker whose frame is held succeeds, and the frame is then in nobody's hands.
pub drop_tracker-Tracked :
    (l : ℕ) (s : System) (f : FrameTracker)
    → Tracked l s
    → f.nodrop ≡ false
    → contains s.held f.ppn ≡ true
    → (a : StackFrameAllocator) × (drop_tracker s.allocator f ≡ some a)
      × Tracked l (record { allocator = a; held = remove s.held f.ppn })
unfolding drop_tracker
drop_tracker-Tracked l s f v n h =
    let (a, e, va, _, q) = dealloc-live l s.allocator f.ppn v.valid (sym (v.agree f.ppn) ∙ h) in
    (
      a,
      ground arith,
      record {
        valid = va;
        distinct = remove-Distinct s.held f.ppn v.distinct;
        agree = λ p. ground (arith, v.agree p, q p, contains-remove s.held f.ppn p v.distinct);
      },
    )

Step-Tracked : (l : ℕ) {s t : System} → Tracked l s → Step s t → Tracked l t
Step-Tracked l {s} {t} v (allocate f a h e) = rw e (allocate-Tracked l s f a v h)
Step-Tracked l {s} {t} v (release f a n c h e) =
    let (a', h', w) = drop_tracker-Tracked l s f v n c in
    let q : a' ≡ a = cc in
    rw e (subst (λ b. Tracked l (record { allocator = b; held = remove s.held f.ppn })) q w)

-- However trackers are made and dropped after the allocator is set up, the frames that are held are
-- distinct and are exactly those in use, and the allocator is well formed.
pub Reach-Tracked :
    (l r : ℕ) {s : System}
    → l ≤ r
    → r ≤ 2 ^ 44
    → Reach (record { allocator = init new l r; held = [] }) s
    → Tracked l s
unfolding init new
Reach-Tracked l r h k here = record {
  valid = record { started = omega arith; bounded = h; narrow = k; distinct = tt; within = tt };
  distinct = tt;
  agree = λ p. ground arith;
}
Reach-Tracked l r h k (next reach step) = Step-Tracked l (Reach-Tracked l r h k reach) step

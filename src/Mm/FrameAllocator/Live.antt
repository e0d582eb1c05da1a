-- ===== src/Mm/FrameAllocator/Live.antt =====
-- The frames of frame_allocator.rs that clients hold, and what each call does to them.
use t_core.Base.{
  ℕ, ◌^◌, ◌≤◌, ◌<◌, ◌≡◌, ◌&&◌, not, Bool, true, false, some, List, [], ◌∷◌, arith, ltb, leb, ◌==◌,
  contains, Distinct, All, if◌then◌else◌, none, refl,
}
use t_core.Mm.FrameAllocator.{StackFrameAllocator, alloc_from, alloc, dealloc}

-- The frame `p` of an allocator that was set up at `l` is in a client's hands.
abbrev pub live : ℕ → StackFrameAllocator → ℕ → Bool
live l a p = leb l p && (ltb p a.current && not (contains a.recycled p))

abbrev pub Within : ℕ → ℕ → ℕ → Type 0
Within l r p = (l ≤ p) × (p < r)

-- No frame is recycled twice, and all are frames of the range.
pub record IsValid (l : ℕ) (a : StackFrameAllocator) : Type 0 where
  pub started : l ≤ a.current
  pub bounded : a.current ≤ a.end
  pub narrow : a.end ≤ 2 ^ 44
  pub distinct : Distinct a.recycled
  pub within : All (Within l a.current) a.recycled

-- What a successful call of `alloc` gives: a frame of the range that nobody held, now held.
abbrev pub Allocated : ℕ → StackFrameAllocator → ℕ → StackFrameAllocator → Type 0
Allocated l a p a' =
    IsValid l a'
    × Within l a.end p
    × (live l a p ≡ false)
    × (a'.end ≡ a.end)
    × ((q : ℕ) → live l a' q ≡ (if q == p then true else live l a q))

alloc_from-Allocated :
    (l : ℕ) (c e : ℕ) (xs : List ℕ) {p : ℕ} {a' : StackFrameAllocator}
    → let a : StackFrameAllocator = record { current = c; end = e; recycled = xs } in
      IsValid l a → alloc_from xs a ≡ some (p, a') → Allocated l a p a'
unfolding alloc_from
alloc_from-Allocated l c e [] {p} {a'} v h =
    (ground arith, ground arith, ground (arith), ground arith, λ q. ground arith)
alloc_from-Allocated l c e (x ∷ xs) {p} {a'} v h =
    (ground arith, ground arith, ground arith, ground arith, λ q. ground arith)

-- A frame that `alloc` hands out lies in the range, was in nobody's hands and is now; all other
-- frames stay as they were, and the allocator stays well formed.
pub alloc-Allocated :
    (l : ℕ) (a : StackFrameAllocator) {p : ℕ} {a' : StackFrameAllocator}
    → IsValid l a
    → alloc a ≡ some (p, a')
    → Allocated l a p a'
unfolding alloc
alloc-Allocated l a v h = alloc_from-Allocated l a.current a.end a.recycled v h

alloc_from-none :
    (l : ℕ) (a : StackFrameAllocator) (xs : List ℕ) (p : ℕ)
    → alloc_from xs a ≡ none
    → a.recycled ≡ xs
    → Within l a.end p
    → live l a p ≡ true
unfolding alloc_from
alloc_from-none l a [] p h e w = ground arith
alloc_from-none l a (x ∷ xs) p h e w = cc

-- `alloc` fails only when every frame of the range is in a client's hands.
pub alloc-none :
    (l : ℕ) (a : StackFrameAllocator) (p : ℕ)
    → alloc a ≡ none
    → Within l a.end p
    → live l a p ≡ true
unfolding alloc
alloc-none l a p h w = alloc_from-none l a a.recycled p h refl w

-- `dealloc` takes back a frame that is in a client's hands, and nothing else changes hands.
pub dealloc-live :
    (l : ℕ) (a : StackFrameAllocator) (p : ℕ)
    → IsValid l a
    → live l a p ≡ true
    → (a' : StackFrameAllocator) × (dealloc a p ≡ some a')
      × IsValid l a'
      × (a'.end ≡ a.end)
      × ((q : ℕ) → live l a' q ≡ (if q == p then false else live l a q))
unfolding dealloc
dealloc-live l a p v h =
    (record a { recycled = p ∷ a.recycled }, ground arith, ground arith, refl, λ q. ground arith)

-- At or above the start of the range, `dealloc` panics on a frame that is in nobody's hands.
pub dealloc-panics :
    (l : ℕ) (a : StackFrameAllocator) (p : ℕ) → l ≤ p → live l a p ≡ false → dealloc a p ≡ none
unfolding dealloc
dealloc-panics l a p w h = ground arith

-- Below the start of the range the check of `dealloc` lets a frame through that was never handed
-- out, and the next `alloc` gives it to a client.
pub dealloc_below :
    (l : ℕ) (a : StackFrameAllocator) (p : ℕ)
    → IsValid l a
    → p < l
    → contains a.recycled p ≡ false
    → (a' : StackFrameAllocator) × (dealloc a p ≡ some a') × (alloc a' ≡ some (p, a))
unfolding dealloc alloc alloc_from
dealloc_below l a p v w h = (record a { recycled = p ∷ a.recycled }, ground arith, ground arith)

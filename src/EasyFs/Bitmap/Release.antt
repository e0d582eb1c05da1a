-- ===== src/EasyFs/Bitmap/Release.antt =====
-- Giving back what the bitmaps of bitmap.rs gave.
use t_core.Base.{
  ℕ, ◌≡◌, refl, true, false, Option, some, none, arith, if◌then◌else◌, ◌==◌, inl, inr, Bool-cases,
  ==-true, ◌∙◌, ==-self, ap, sym, subst₂,
}
use t_core.EasyFs.Bitmap.{Store, Bitmap, alloc, dealloc}
use t_core.EasyFs.Bitmap.Rounds.{bit_at, written, bit_at-written, alloc-lowest}

-- What releasing bit `b` of `taken` does, which is clear in `store`.
abbrev Releases : Bitmap → Store → ℕ → Store → Type 0
Releases m store b taken =
    (dealloc m b store ≡ none)
    × ((left : Store) × (dealloc m b taken ≡ some left)
        × ((c : ℕ) → bit_at m.start_block_id left c ≡ bit_at m.start_block_id store c))

dealloc-set :
    (m : Bitmap) (store : Store) (b : ℕ)
    → bit_at m.start_block_id store b ≡ true
    → dealloc m b store ≡ some (written m.start_block_id b false store)
unfolding dealloc
dealloc-set m store b h = rw h refl

dealloc-clear :
    (m : Bitmap) (store : Store) (b : ℕ)
    → bit_at m.start_block_id store b ≡ false
    → dealloc m b store ≡ none
unfolding dealloc
dealloc-clear m store b h = rw h refl

dealloc-Releases :
    (m : Bitmap) (store : Store) (b : ℕ)
    → bit_at m.start_block_id store b ≡ false
    → Releases m store b (written m.start_block_id b true store)
dealloc-Releases m store b h =
    let taken : Store = written m.start_block_id b true store in
    let bits : (c : ℕ)
        → bit_at m.start_block_id taken c
          ≡ (if c == b then true else bit_at m.start_block_id store c) =
      bit_at-written m.start_block_id b true store in
    let again : (c : ℕ)
        → bit_at m.start_block_id (written m.start_block_id b false taken) c
          ≡ (if c == b then false else bit_at m.start_block_id taken c) =
      bit_at-written m.start_block_id b false taken in
    (
      dealloc-clear m store b h,
      (
        written m.start_block_id b false taken,
        dealloc-set m taken b (bits b ∙ rw (==-self b) refl),
        λ c. again c ∙ elim (Bool-cases (c == b)) [
          | inl e ↦ rw e (sym (rw (==-true c b e) h))
          | inr e ↦ rw e (bits c ∙ rw e refl)
        ],
      ),
    )

-- A bit that `alloc` gave can be released, which restores every bit of the bitmap; to release it
-- before it is given is a panic.
pub dealloc-alloc :
    (m : Bitmap) (store store' : Store) (b : ℕ)
    → alloc m store ≡ (some b, store')
    → (dealloc m b store ≡ none)
      × ((left : Store) × (dealloc m b store' ≡ some left)
          × ((c : ℕ) → bit_at m.start_block_id left c ≡ bit_at m.start_block_id store c))
dealloc-alloc m store store' b h = elim (alloc-lowest m store) [
  | inl (e, _) ↦ absurd (ground arith)
  | inr (d, e, _, clear, _, _) ↦
      let both : ◌≡◌ {A = Option ℕ × Store} (some d, written m.start_block_id d true store)
          (some b, store') =
        sym e ∙ h in
      let same_b : d ≡ b = ground arith in
      let same_store : written m.start_block_id d true store ≡ store' = ap (λ x. x.1) both in
      subst₂ (Releases m store) same_b same_store (dealloc-Releases m store d clear)
]

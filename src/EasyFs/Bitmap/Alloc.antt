-- ===== src/EasyFs/Bitmap/Alloc.antt =====
-- What bitmap.rs gives out.
use t_core.Base.{
  ℕ, ◌≡◌, ◌≤◌, ◌<◌, ◌+◌, refl, Bool, true, false, some, none, arith, zero, suc, ◌==◌, ◌⊎◌, inl, inr,
  Bool-cases, ap, ==-true, ◌∙◌, subst,
}
use t_core.EasyFs.Bitmap.{
  Word, BitmapBlock, Store, Bitmap, decomposition, ones_from, trailing_ones, is_full, find_word,
  set_bit, alloc_in,
}

-- Bit `b` of a bitmap.
abbrev pub bit_at : Bitmap → Store → ℕ → Bool
bit_at m store b =
    let (block_pos, bits64_pos, inner_pos) = decomposition b in
    store (block_pos + m.start_block_id) bits64_pos inner_pos

-- A word that is full has all its bits from `pos` on.
abbrev pub FullFrom : ℕ → ℕ → Word → Type 0
FullFrom pos n w = (j : ℕ) → pos ≤ j → j < pos + n → w j ≡ true

full_next : (pos n : ℕ) (w : Word) → w pos ≡ true → FullFrom (pos + 1) n w → FullFrom pos (suc n) w
full_next pos n w h f j l u = elim (Bool-cases (j == pos)) [
  | inl e ↦ ground arith
  | inr e ↦ f j (ground arith) (omega arith)
]

is_full-FullFrom : (pos n : ℕ) (w : Word) → is_full pos n w ≡ true → FullFrom pos n w
unfolding is_full
is_full-FullFrom pos zero w h = λ j l u. absurd (omega arith)
is_full-FullFrom pos (suc n) w h =
    full_next pos n w (ground arith) (is_full-FullFrom (pos + 1) n w (ground arith))

-- Where the set bits end.
record EndsAt (pos n : ℕ) (w : Word) (k : ℕ) : Type 0 where
  inside : k < n
  clear : w (pos + k) ≡ false
  set_below : FullFrom pos k w

ones_from-EndsAt :
    (pos n : ℕ) (w : Word) → is_full pos n w ≡ false → EndsAt pos n w (ones_from pos n w)
unfolding is_full ones_from
ones_from-EndsAt pos zero w h = absurd (ground arith)
ones_from-EndsAt pos (suc n) w h = elim (Bool-cases (w pos)) [
  | inl e ↦
      let r = ones_from-EndsAt (pos + 1) n w (ground arith) in
      rw e (record {
        inside = omega (arith, r.inside);
        clear = ground (arith, r.clear);
        set_below =
            λ j l u. full_next pos (ones_from (pos + 1) n w) w e r.set_below j l (omega arith);
      })
  | inr e ↦ rw e (record {
    inside = omega arith;
    clear = ground arith;
    set_below = λ j l u. absurd (omega arith);
  })
]

before :
    (pos : ℕ) (block : BitmapBlock) (q : ℕ)
    → is_full 0 64 (block pos) ≡ true
    → pos ≤ q
    → (pos + 1 ≤ q → is_full 0 64 (block q) ≡ true)
    → is_full 0 64 (block q) ≡ true
before pos block q e l f = elim (Bool-cases (q == pos)) [
  | inl same ↦ ap (λ x. is_full 0 64 (block x)) (==-true q pos same) ∙ e
  | inr other ↦ f (ground arith)
]

-- The first word that is not full.
record Found (pos n : ℕ) (block : BitmapBlock) (p : ℕ) : Type 0 where
  from : pos ≤ p
  below : p < pos + n
  not_full : is_full 0 64 (block p) ≡ false
  full_before : (q : ℕ) → pos ≤ q → q < p → is_full 0 64 (block q) ≡ true

find_word-cases :
    (pos n : ℕ) (block : BitmapBlock)
    → ((find_word pos n block ≡ none)
        × ((q : ℕ) → pos ≤ q → q < pos + n → is_full 0 64 (block q) ≡ true))
      ⊎ ((p : ℕ) × (find_word pos n block ≡ some p) × Found pos n block p)
unfolding find_word
find_word-cases pos zero block = inl (refl, λ q l u. absurd (omega arith))
find_word-cases pos (suc n) block = elim (Bool-cases (is_full 0 64 (block pos))) [
  | inl e ↦ elim (find_word-cases (pos + 1) n block) [
    | inl (none_left, full) ↦
        rw e (inl (none_left, λ q l u. before pos block q e l (λ h. full q h (omega arith))))
    | inr (p, found, f) ↦ rw e (
        inr (
          p,
          found,
          record {
            from = omega (arith, f.from);
            below = omega (arith, f.below);
            not_full = f.not_full;
            full_before = λ q l u. before pos block q e l (λ h. f.full_before q h u);
          },
        ))
  ]
  | inr e ↦ rw e (
      inr (
        pos,
        refl,
        record {
          from = omega arith;
          below = omega arith;
          not_full = e;
          full_before = λ q l u. absurd (omega arith);
        },
      ))
]

-- The lowest clear bit of a block, by its word and its place in it.
pub record Lowest (block : BitmapBlock) (p i : ℕ) : Type 0 where
  pub word_in : p < 64
  pub bit_in : i < 64
  pub clear : block p i ≡ false
  pub words_before : (q : ℕ) → q < p → FullFrom 0 64 (block q)
  pub bits_before : FullFrom 0 i (block p)

pub alloc_in-cases :
    (block : BitmapBlock)
    → ((alloc_in block ≡ none) × ((q : ℕ) → q < 64 → FullFrom 0 64 (block q)))
      ⊎ ((p i : ℕ) × (alloc_in block ≡ some (p, i, set_bit p i true block)) × Lowest block p i)
unfolding alloc_in trailing_ones
alloc_in-cases block = elim (find_word-cases 0 64 block) [
  | inl (h, full) ↦
      inl (rw h refl, λ q l. is_full-FullFrom 0 64 (block q) (full q (omega arith) (omega arith)))
  | inr (p, h, f) ↦
      let r = ones_from-EndsAt 0 64 (block p) f.not_full in
      inr (
        p,
        trailing_ones (block p),
        rw h refl,
        record {
          word_in = omega (arith, f.below);
          bit_in = r.inside;
          clear = subst (λ x. block p x ≡ false) (omega arith) r.clear;
          words_before = λ q l. is_full-FullFrom 0 64 (block q) (f.full_before q (omega arith) l);
          bits_before = r.set_below;
        },
      )
]

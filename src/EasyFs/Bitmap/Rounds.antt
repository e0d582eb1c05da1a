-- ===== src/EasyFs/Bitmap/Rounds.antt =====
-- Allocation and release in the bitmaps of bitmap.rs, bit by bit.
use t_core.Base.{
  ℕ, ◌≡◌, ◌≤◌, ◌<◌, ◌+◌, ◌*◌, ◌/◌, ◌%◌, refl, Bool, true, false, some, none, arith, if◌then◌else◌,
  zero, suc, ◌==◌, ltb, ◌⊎◌, inl, inr, Bool-cases, ==-true, ◌∙◌, ap, sym,
}
use t_core.EasyFs.Bitmap.{
  BitmapBlock, Store, Bitmap, decomposition, block_bits, set_bit, set_block, alloc_in, alloc_from,
  alloc, maximum,
}
use t_core.EasyFs.Bitmap.Alloc.{FullFrom, Lowest, alloc_in-cases}

-- Bit `b` of a bitmap that starts at block `start`.
abbrev pub bit_at : ℕ → Store → ℕ → Bool
bit_at start store b =
    let (block_pos, bits64_pos, inner_pos) = decomposition b in
    store (block_pos + start) bits64_pos inner_pos

-- The store after bit `b` is written.
abbrev pub written : ℕ → ℕ → Bool → Store → Store
written start b v store =
    let (block_pos, bits64_pos, inner_pos) = decomposition b in
    set_block (block_pos + start) (set_bit bits64_pos inner_pos v (store (block_pos + start))) store

pub bit_at-written :
    (start b : ℕ) (v : Bool) (store : Store) (c : ℕ)
    → bit_at start (written start b v store) c ≡ (if c == b then v else bit_at start store c)
unfolding set_block set_bit
bit_at-written start b v store c = ground arith

-- Bit `i` of word `p` of block `k`.
block_of : (k p i : ℕ) → p < 64 → i < 64 → (k * block_bits + p * 64 + i) / block_bits ≡ k
block_of k p i hp hi = omega arith

word_of : (k p i : ℕ) → p < 64 → i < 64 → (k * block_bits + p * 64 + i) % block_bits / 64 ≡ p
word_of k p i hp hi = omega arith

place_of : (k p i : ℕ) → p < 64 → i < 64 → (k * block_bits + p * 64 + i) % block_bits % 64 ≡ i
place_of k p i hp hi = omega arith

bit_at-eq :
    (start k p i : ℕ) (store : Store)
    → p < 64
    → i < 64
    → bit_at start store (k * block_bits + p * 64 + i) ≡ store (k + start) p i
bit_at-eq start k p i store hp hi =
    rw (block_of k p i hp hi) (rw (word_of k p i hp hi) (rw (place_of k p i hp hi) refl))

written-eq :
    (start k p i : ℕ) (v : Bool) (store : Store)
    → p < 64
    → i < 64
    → written start (k * block_bits + p * 64 + i) v store
      ≡ set_block (k + start) (set_bit p i v (store (k + start))) store
written-eq start k p i v store hp hi =
    rw (block_of k p i hp hi) (rw (word_of k p i hp hi) (rw (place_of k p i hp hi) refl))

-- All bits of the blocks `k` to `k + n` are set.
abbrev AllSet : ℕ → ℕ → ℕ → Store → Type 0
AllSet start from to store = (c : ℕ) → from ≤ c → c < to → bit_at start store c ≡ true

full_block :
    (start k : ℕ) (store : Store)
    → ((q : ℕ) → q < 64 → FullFrom 0 64 (store (k + start) q))
    → AllSet start (k * block_bits) (k * block_bits + block_bits) store
full_block start k store f c l u =
    let same : c / block_bits ≡ k = omega arith in
    rw same
      (f (c % block_bits / 64) (omega arith) (c % block_bits % 64) (omega arith) (omega arith))

-- The lowest clear bit from block `k` on.
record Given (start k n : ℕ) (store : Store) (b : ℕ) : Type 0 where
  from : k * block_bits ≤ b
  below : b < (k + n) * block_bits
  clear : bit_at start store b ≡ false
  set_before : AllSet start (k * block_bits) b store

below-Lowest :
    (start k p i : ℕ) (store : Store) (c : ℕ)
    → Lowest (store (k + start)) p i
    → k * block_bits ≤ c
    → c < k * block_bits + p * 64 + i
    → bit_at start store c ≡ true
below-Lowest start k p i store c l f u =
    let hi = l.bit_in in
    let hp = l.word_in in
    let same : c / block_bits ≡ k = omega arith in
    rw same (elim (Bool-cases (c % block_bits / 64 == p)) [
      | inl e ↦
          let e' : c % block_bits / 64 ≡ p = ==-true _ _ e in
          rw e' (l.bits_before (c % block_bits % 64) (omega arith) (omega arith))
      | inr e ↦
          let small : c % block_bits / 64 ≤ p = omega arith in
          let other : c % block_bits / 64 < p = ground arith in
          l.words_before (c % block_bits / 64) other (c % block_bits % 64) (omega arith)
            (omega arith)
    ])

Lowest-Given :
    (start k n p i : ℕ) (store : Store)
    → Lowest (store (k + start)) p i
    → Given start k (suc n) store (k * block_bits + p * 64 + i)
Lowest-Given start k n p i store l = record {
  from = omega arith;
  below = omega (arith, l.word_in, l.bit_in);
  clear = bit_at-eq start k p i store l.word_in l.bit_in ∙ l.clear;
  set_before = λ c f u. below-Lowest start k p i store c l f u;
}

alloc_from-next :
    (start k n : ℕ) (store : Store)
    → alloc_in (store (k + start)) ≡ none
    → alloc_from start k (suc n) store ≡ alloc_from start (k + 1) n store
unfolding alloc_from
alloc_from-next start k n store h = rw (h, alloc_from) refl

alloc_from-here :
    (start k n p i : ℕ) (store : Store) (block : BitmapBlock)
    → alloc_in (store (k + start)) ≡ some (p, i, block)
    → alloc_from start k (suc n) store
      ≡ (some (k * block_bits + p * 64 + i), set_block (k + start) block store)
unfolding alloc_from
alloc_from-here start k n p i store block h = rw (h, alloc_from) refl

full_then :
    (start k n to : ℕ) (store : Store)
    → AllSet start (k * block_bits) (k * block_bits + block_bits) store
    → AllSet start ((k + 1) * block_bits) to store
    → AllSet start (k * block_bits) to store
full_then start k n to store a b c l u = elim (Bool-cases (ltb c (k * block_bits + block_bits))) [
  | inl e ↦ a c l (ground arith)
  | inr e ↦ b c (ground arith) u
]

alloc_from-cases :
    (start k n : ℕ) (store : Store)
    → ((alloc_from start k n store ≡ (none, store))
        × AllSet start (k * block_bits) ((k + n) * block_bits) store)
      ⊎ ((b : ℕ) × (alloc_from start k n store ≡ (some b, written start b true store))
          × Given start k n store b)
unfolding alloc_from
alloc_from-cases start k zero store = inl (refl, λ c l u. absurd (omega arith))
alloc_from-cases start k (suc n) store = elim (alloc_in-cases (store (k + start))) [
  | inl (h, full) ↦
      let all = full_block start k store full in
      elim (alloc_from-cases start (k + 1) n store) [
        | inl (none_left, rest) ↦ inl (
          alloc_from-next start k n store h ∙ none_left,
          λ c l u. full_then start k n ((k + 1 + n) * block_bits) store all rest c l (omega arith),
        )
        | inr (b, found, g) ↦ inr (
          b,
          alloc_from-next start k n store h ∙ found,
          record {
            from = omega (arith, g.from);
            below = omega (arith, g.below);
            clear = g.clear;
            set_before = full_then start k n b store all g.set_before;
          },
        )
      ]
  | inr (p, i, h, l) ↦ inr (
    k * block_bits + p * 64 + i,
    alloc_from-here start k n p i store _ h
        ∙ ap (λ x. (some (k * block_bits + p * 64 + i), x))
            (sym (written-eq start k p i true store l.word_in l.bit_in)),
    Lowest-Given start k n p i store l,
  )
]

-- `alloc` gives the lowest clear bit of the bitmap, which is below `maximum`, and sets it and no other
-- bit of any block; when all bits are set it gives nothing, and changes nothing.
pub alloc-lowest :
    (m : Bitmap) (store : Store)
    → ((alloc m store ≡ (none, store))
        × ((c : ℕ) → c < maximum m → bit_at m.start_block_id store c ≡ true))
      ⊎ ((b : ℕ) × (alloc m store ≡ (some b, written m.start_block_id b true store))
          × (b < maximum m)
          × (bit_at m.start_block_id store b ≡ false)
          × ((c : ℕ) → c < b → bit_at m.start_block_id store c ≡ true)
          × ((c : ℕ)
              → bit_at m.start_block_id (written m.start_block_id b true store) c
                ≡ (if c == b then true else bit_at m.start_block_id store c)))
unfolding alloc maximum
alloc-lowest m store = elim (alloc_from-cases m.start_block_id 0 m.blocks store) [
  | inl (h, all) ↦ inl (h, λ c u. all c (omega arith) (omega arith))
  | inr (b, h, g) ↦ inr (
    b,
    h,
    omega (arith, g.below),
    g.clear,
    λ c u. g.set_before c (omega arith) u,
    bit_at-written m.start_block_id b true store,
  )
]

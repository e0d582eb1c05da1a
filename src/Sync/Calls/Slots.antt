-- ===== src/Sync/Calls/Slots.antt =====
-- The numbers that the calls of syscall/sync.rs give to new objects.
use t_core.Base.{
  ℕ, zero, suc, ◌≡◌, ◌≢◌, ◌<◌, refl, Option, some, none, List, [], ◌∷◌, arith, sym, ap, ◌>>=◌,
  subst,
}
use t_core.Sync.Calls.{first_empty, put, create_slot, in_slot}

-- A place for a new object: it was the first one free, and holds the object; the others are as they
-- were.
pub record Placed {ℓ} {A : Type ℓ} (a : A) (slots : List (Option A)) (id : ℕ)
    (slots' : List (Option A)) : Type ℓ where
  pub free : in_slot slots id ≡ none
  pub lowest : (i : ℕ) → i < id → in_slot slots i ≢ none
  pub holds : in_slot slots' id ≡ some a
  pub others : (i : ℕ) → i ≢ id → in_slot slots' i ≡ in_slot slots i

Placed-behind {ℓ} :
    {A : Type ℓ} (a b : A) (slots : List (Option A)) (id : ℕ) (slots' : List (Option A))
    → Placed a slots id slots'
    → Placed a (some b ∷ slots) (suc id) (some b ∷ slots')
unfolding in_slot
Placed-behind a b slots id slots' p = record {
  free = p.free;
  lowest = λ i h. low i h;
  holds = p.holds;
  others = λ i h. behind i h;
}
  where
    low : (i : ℕ) → i < suc id → in_slot (some b ∷ slots) i ≢ none
    low zero h = λ e. ground arith
    low (suc i) h = p.lowest i (omega arith)

    behind : (i : ℕ) → i ≢ suc id → in_slot (some b ∷ slots') i ≡ in_slot (some b ∷ slots) i
    behind zero h = refl
    behind (suc i) h = p.others i (λ e. h (ap suc e))

put-behind {ℓ} :
    {A : Type ℓ} (a b : A) (o : Option ℕ) (slots : List (Option A))
    → put (o >>= λ id. some (suc id)) a (some b ∷ slots)
      ≡ (suc (put o a slots).0, some b ∷ (put o a slots).1)
unfolding put
put-behind a b none slots = refl
put-behind a b (some id) slots = refl

-- A new object gets the lowest number that no object has, past the end of the table when all slots are
-- taken; it can be found under that number, and under every other number the same as before.
pub create_slot-Placed {ℓ} :
    {A : Type ℓ} (a : A) (slots : List (Option A))
    → let (id, slots') = create_slot a slots in Placed a slots id slots'
unfolding create_slot first_empty put in_slot
create_slot-Placed a [] = record {
  free = refl;
  lowest = λ i h. absurd (omega arith);
  holds = refl;
  others = λ i h. past i h;
}
  where
    past : (i : ℕ) → i ≢ 0 → in_slot (some a ∷ []) i ≡ none
    past zero h = absurd (h refl)
    past (suc i) h = refl
create_slot-Placed a (none ∷ slots) = record {
  free = refl;
  lowest = λ i h. absurd (omega arith);
  holds = refl;
  others = λ i h. other i h;
}
  where
    other : (i : ℕ) → i ≢ 0 → in_slot (some a ∷ slots) i ≡ in_slot (none ∷ slots) i
    other zero h = absurd (h refl)
    other (suc i) h = refl
create_slot-Placed a (some b ∷ slots) =
    subst (λ r. Placed a (some b ∷ slots) r.0 r.1) (sym (put-behind a b (first_empty slots) slots))
      (Placed-behind a b slots (create_slot a slots).0 (create_slot a slots).1
        (create_slot-Placed a slots))

-- ===== src/Sync/Masking/Nesting.antt =====
-- Nested sections of up.rs.
use t_core.Base.{
  ℕ, ◌≡◌, ◌<◌, ◌+◌, refl, Bool, true, false, arith, suc, max, ◌^◌, List, [], ◌∷◌, ◌++◌, All,
  All-append,
}
use t_core.Sync.Masking.{Masking, enter, exit}

-- The accesses to cells of a program: each one holds those that happen while it is open, then come
-- those after it.
pub data Sections : Type 0 where
  done : Sections
  access : Sections → Sections → Sections

-- How deep the accesses nest.
abbrev pub depth : Sections → ℕ
depth done = 0
depth (access inside after) = max (depth inside + 1) (depth after)

abbrev pub run : Sections → Masking → Masking
run done s = s
run (access inside after) s = run after (exit (run inside (enter s)))

-- SIE at each point between the accesses in `p`, those inside of them included, and at the points inside
-- of accesses alone.
abbrev pub sie_in : Sections → Masking → List Bool
sie_in done s = s.sie ∷ []
sie_in (access inside after) s =
    s.sie ∷ (sie_in inside (enter s) ++ sie_in after (exit (run inside (enter s))))

abbrev pub sie_accessing : Sections → Masking → List Bool
sie_accessing done s = []
sie_accessing (access inside after) s =
    sie_in inside (enter s) ++ sie_accessing after (exit (run inside (enter s)))

abbrev pub Off : Bool → Type 0
Off b = b ≡ false

abbrev masked : ℕ → Bool → Masking
masked n b = record { sie = false; nested_level = n; sie_before_masking = b }

enter-masked :
    (n : ℕ) (b : Bool) → suc n + 1 < 2 ^ 64 → enter (masked (suc n) b) ≡ masked (suc (suc n)) b
unfolding enter
enter-masked n b h = ground arith

exit-masked :
    (n : ℕ) (b : Bool) → suc n + 1 < 2 ^ 64 → exit (masked (suc (suc n)) b) ≡ masked (suc n) b
unfolding exit
exit-masked n b h = ground arith

max_below : (n a b : ℕ) → n + max (a + 1) b < 2 ^ 64 → (n + 1 + a < 2 ^ 64) × (n + b < 2 ^ 64)
max_below n a b h = (omega arith, omega arith)

-- Sections that run inside another leave interrupts off, and the saved bit alone.
run-masked :
    (p : Sections) (n : ℕ) (b : Bool)
    → suc n + depth p < 2 ^ 64
    → run p (masked (suc n) b) ≡ masked (suc n) b
run-masked done n b h = refl
run-masked (access inside after) n b h =
    let (deep, long) = max_below (suc n) (depth inside) (depth after) h in
    rw (enter-masked n b (omega arith)) (
      rw (run-masked inside (suc n) b (omega arith))
        (rw (exit-masked n b (omega arith)) (run-masked after n b long)))

in-masked :
    (p : Sections) (n : ℕ) (b : Bool)
    → suc n + depth p < 2 ^ 64
    → All Off (sie_in p (masked (suc n) b))
in-masked done n b h = (refl, tt)
in-masked (access inside after) n b h =
    let (deep, long) = max_below (suc n) (depth inside) (depth after) h in
    rw (enter-masked n b (omega arith)) (
      rw (run-masked inside (suc n) b (omega arith)) (
        rw (exit-masked n b (omega arith)) (
          refl,
          All-append Off (sie_in inside (masked (suc (suc n)) b)) (sie_in after (masked (suc n) b))
              (in-masked inside (suc n) b (omega arith)) (in-masked after n b long),
        )))

enter-new : (s : Masking) → s.nested_level ≡ 0 → enter s ≡ masked 1 s.sie
unfolding enter
enter-new s e = rw e refl

-- Outside of all sections: the level is zero.
abbrev pub outside : Bool → Bool → Masking
outside sie before = record { sie = sie; nested_level = 0; sie_before_masking = before }

exit-last : (b : Bool) → exit (masked 1 b) ≡ outside b b
unfolding exit
exit-last true = refl
exit-last false = refl

-- At each point inside an access, and the accesses nested in it, interrupts are off; when the
-- outermost access ends, they are on exactly if they were on when it began, whatever was saved
-- before, and the level is back at zero. The condition is that the accesses do not nest 2 ^ 64 deep.
pub run_restores :
    (p : Sections) (sie before : Bool)
    → depth p < 2 ^ 64
    → (m : Masking) × (run p (outside sie before) ≡ m)
      × (m.sie ≡ sie)
      × (m.nested_level ≡ 0)
      × All Off (sie_accessing p (outside sie before))
run_restores done sie before h = (outside sie before, refl, refl, refl, tt)
run_restores (access inside after) sie before h =
    let (deep, long) = max_below 0 (depth inside) (depth after) (omega arith) in
    let same : exit (run inside (enter (outside sie before))) ≡ outside sie sie =
      rw (enter-new (outside sie before) refl)
        (rw (run-masked inside 0 sie (omega arith)) (exit-last sie)) in
    let off : All Off (sie_in inside (enter (outside sie before))) =
      rw (enter-new (outside sie before) refl) (in-masked inside 0 sie (omega arith)) in
    let (m, r, i, l, later) = run_restores after sie sie (omega arith) in
    (
      m,
      rw same r,
      i,
      l,
      rw same (
          All-append Off (sie_in inside (enter (outside sie before)))
            (sie_accessing after (outside sie sie)) off later),
    )

-- What a nested access leaves is what it found: interrupts off, and the same level and saved bit. So
-- they are off in the whole of an open access.
pub access_keeps_off :
    (p : Sections) (s : Masking)
    → depth p + 1 < 2 ^ 64
    → s.nested_level ≡ 0
    → run p (enter s) ≡ record { sie = false; nested_level = 1; sie_before_masking = s.sie }
access_keeps_off p s h e = rw (enter-new s e) (run-masked p 0 s.sie (omega arith))

-- ===== src/Task/Id/Recycle.antt =====
-- The ids of id.rs that are in use (process ids, kernel stacks, threads), over any history of calls.
use t_core.Base.{
  ℕ, ◌+◌, ◌^◌, ◌≤◌, ◌<◌, ◌≡◌, refl, ◌&&◌, not, Bool, true, false, Option, none, some, List, [], ◌∷◌,
  arith, ltb, ◌==◌, contains, Distinct, All, if◌then◌else◌, ◌>>=◌, length, remove, ◌∙◌, Bool-cases,
  inr, inl, sym, remove-Distinct, contains-remove, ap,
}
use t_core.Task.Id.{RecycleAllocator, new, alloc, alloc_from, dealloc}

abbrev pub in_use : RecycleAllocator → ℕ → Bool
in_use a id = ltb id a.current && not (contains a.recycled id)

pub record IsValid (a : RecycleAllocator) : Type 0 where
  pub narrow : a.current < 2 ^ 64
  pub distinct : Distinct a.recycled
  pub below : All (λ id. id < a.current) a.recycled

pub data Call : Type 0 where
  take : Call
  give : ℕ → Call

-- What an id becomes in use by a call.
alloc_from-lem :
    (c : ℕ) (xs : List ℕ)
    → let a : RecycleAllocator = record { current = c; recycled = xs } in
      IsValid a
      → c + 1 < 2 ^ 64
      → let (id, a') = alloc_from xs a in
        IsValid a'
        × (in_use a id ≡ false)
        × ((q : ℕ) → in_use a' q ≡ (if q == id then true else in_use a q))
        × (a'.current ≤ c + 1)
unfolding alloc_from
alloc_from-lem c [] v h = (ground arith, ground arith, λ q. ground arith, ground arith)
alloc_from-lem c (x ∷ xs) v h = (ground arith, ground arith, λ q. ground arith, ground arith)

-- While the counter does not wrap, an id that `alloc` returns was free and is in use afterwards,
-- all other ids stay as they were, and the counter grows by one at most.
pub alloc-in_use :
    (a : RecycleAllocator)
    → IsValid a
    → a.current + 1 < 2 ^ 64
    → let (id, a') = alloc a in
      IsValid a'
      × (in_use a id ≡ false)
      × ((q : ℕ) → in_use a' q ≡ (if q == id then true else in_use a q))
      × (a'.current ≤ a.current + 1)
unfolding alloc
alloc-in_use a v h = alloc_from-lem a.current a.recycled v h

-- `dealloc` of an id in use succeeds, and frees that id and no other.
pub dealloc-in_use :
    (a : RecycleAllocator) (id : ℕ)
    → IsValid a
    → in_use a id ≡ true
    → (a' : RecycleAllocator) × (dealloc a id ≡ some a')
      × IsValid a'
      × ((q : ℕ) → in_use a' q ≡ (if q == id then false else in_use a q))
      × (a'.current ≡ a.current)
unfolding dealloc
dealloc-in_use a id v h =
    (record a { recycled = id ∷ a.recycled }, ground arith, ground arith, λ q. ground arith, refl)

-- `dealloc` panics on every number that is not an id in use.
pub id_dealloc-panics : (a : RecycleAllocator) (id : ℕ) → in_use a id ≡ false → dealloc a id ≡ none
unfolding dealloc
id_dealloc-panics a id h = ground arith

-- An allocator, and the ids that its clients hold.
pub record System : Type 0 where
  pub allocator : RecycleAllocator
  pub held : List ℕ

-- A client gives back only what it holds, as `Drop` makes sure.
pub step : System → Call → Option System
step s take = let (id, a) = alloc s.allocator in some (record { allocator = a; held = id ∷ s.held })
step s (give id) =
    if contains s.held id
    then (dealloc s.allocator id >>= λ a. some (record { allocator = a; held = remove s.held id }))
    else some s

pub run : System → List Call → Option System
run s [] = some s
run s (c ∷ cs) = step s c >>= λ s'. run s' cs

pub record Tracked (s : System) : Type 0 where
  pub valid : IsValid s.allocator
  pub distinct : Distinct s.held
  pub agree : (id : ℕ) → contains s.held id ≡ in_use s.allocator id

step-Tracked :
    (s : System) (c : Call)
    → Tracked s
    → s.allocator.current + 1 < 2 ^ 64
    → (t : System) × (step s c ≡ some t)
      × Tracked t
      × (t.allocator.current ≤ s.allocator.current + 1)
unfolding step
step-Tracked s take v h =
    let (va, fresh, q, le) = alloc-in_use s.allocator v.valid h in
    (
      record { allocator = (alloc s.allocator).1; held = (alloc s.allocator).0 ∷ s.held },
      refl,
      record {
        valid = va;
        distinct = (v.agree _ ∙ fresh, v.distinct);
        agree = λ p. ground (arith, v.agree p, q p);
      },
      le,
    )
step-Tracked s (give id) v h = elim (Bool-cases (contains s.held id)) [
  | inr no_id ↦ (s, rw no_id, v, omega arith)
  | inl held ↦
      let (a, e, va, q, same) = dealloc-in_use s.allocator id v.valid (sym (v.agree id) ∙ held) in
      (
        record { allocator = a; held = remove s.held id },
        rw (held, e),
        record {
          valid = va;
          distinct = remove-Distinct s.held id v.distinct;
          agree = λ p. ground (arith, v.agree p, q p, contains-remove s.held id p v.distinct);
        },
        omega arith,
      )
]

run-Tracked :
    (cs : List Call) (s : System)
    → Tracked s
    → s.allocator.current + length cs < 2 ^ 64
    → (t : System) × (run s cs ≡ some t) × Tracked t
unfolding run
run-Tracked [] s v h = (s, refl, v)
run-Tracked (c ∷ cs) s v h =
    let (s', e, v', le) = step-Tracked s c v (omega arith) in
    let (t, r, w) = run-Tracked cs s' v' (omega arith) in (t, rw e r, w)

-- From a new allocator, any history of fewer than 2^64 calls runs without a panic, and the ids that
-- are held at its end are distinct and are exactly those in use.
pub run-new :
    (cs : List Call)
    → length cs < 2 ^ 64
    → (t : System) × (run (record { allocator = new; held = [] }) cs ≡ some t) × Tracked t
unfolding new
run-new cs h =
    run-Tracked cs _
      (record {
        valid = record { narrow = omega arith; distinct = tt; below = tt };
        distinct = tt;
        agree = λ p. ground arith;
      })
      (omega arith)

-- The id that was freed last is given next.
pub alloc-dealloc : (a a' : RecycleAllocator) (id : ℕ) → dealloc a id ≡ some a' → (alloc a').0 ≡ id
unfolding alloc alloc_from dealloc
alloc-dealloc a a' id h = elim (Bool-cases (ltb id a.current)) [
  | inl e ↦ elim (Bool-cases (contains a.recycled id)) [
    | inl q ↦ let k = rw (e, q) at h in absurd (ground arith)
    | inr q ↦
        let k = rw (e, q) at h in
        let r : a' ≡ record a { recycled = id ∷ a.recycled } = ground arith in
        ap (λ x. (alloc_from x.recycled x).0) r
  ]
  | inr e ↦ let k = rw e at h in absurd (ground arith)
]

-- ===== src/Task/Process/Reaping.antt =====
-- A child that is waited for: it leaves the list of its parent, and its pid is free.
use t_core.Base.{
  ℕ, ◌+◌, ◌<◌, ◌≤◌, ◌≡◌, refl, sym, ◌∙◌, ap, subst, true, false, Option, some, none, ◌⊎◌, List,
  arith, ◌==◌, Bool-cases, Option-cases, inl, inr, ==-true, ==-self, if◌then◌else◌, All-map, ℤ, pos,
  as_isize,
}
use t_core.Task.Id.{RecycleAllocator, dealloc}
use t_core.Task.Id.Recycle.{IsValid, in_use, dealloc-in_use}
use t_core.Task.Process.{Processes, put, count, held, tabled, references, take_zombie, reap}
use t_core.Task.Process.Effects.{Running, held-change, take_zombie-found}
use t_core.Task.Process.Family.{Sound, Fewer, Fewer-Sound, tabled-zombie}

-- The processes when a child is taken from a list.
abbrev without : ℕ → List ℕ → Processes → Processes
without self rest s = record s {
  process = put self (record (s.process self) { children = rest }) s.process;
}

without-held :
    (s : Processes) (self pid child : ℕ) (rest : List ℕ)
    → self < s.next
    → take_zombie pid s.process (s.process self).children ≡ some (child, rest)
    → (c : ℕ) → held (without self rest s) c + (if child == c then 1 else 0) ≡ held s c
without-held s self pid child rest h t c =
    let s1 = without self rest s in
    let (z, m, n) = take_zombie-found pid s.process (s.process self).children child rest t in
    let same : (b : ℕ) → (b == self) ≡ false → (s.process b).children ≡ (s1.process b).children =
      λ b e. rw e refl in
    let now : (s1.process self).children ≡ rest = rw (==-self self) refl in
    let d : held s c + count c (s1.process self).children
        ≡ held s1 c + count c (s.process self).children =
      held-change s s1 self c h refl same in
    let nc : count c (s.process self).children ≡ count c rest + (if child == c then 1 else 0) =
      n c in
    let d' : held s c + count c rest ≡ held s1 c + count c (s.process self).children =
      ap (λ ys. held s c + count c ys) (sym now) ∙ d in
    omega arith

reap-step :
    (s : Processes) (self child : ℕ) (rest : List ℕ) (a : RecycleAllocator)
    → references (without self rest s) child ≡ 0
    → dealloc s.pid_allocator (s.process child).pid ≡ some a
    → s.on_stacks child ≡ 0
    → (place : ℕ)
    → reap self child rest (some place) s
      ≡ some (
        as_isize (pos (s.process child).pid),
        some (s.process child).exit_code,
        record (without self rest s) { pid_allocator = a },
      )
unfolding reap
reap-step s self child rest a r d k place = rw r (rw k (rw d refl))

held-allocator :
    (s : Processes) (a : RecycleAllocator) (c : ℕ)
    → held (record s { pid_allocator = a }) c ≡ held s c
unfolding held
held-allocator s a c = refl

-- The child that is taken loses its last reference, and its pid is free; all others stay.
dropped-Fewer :
    (s : Processes) (self child : ℕ) (rest : List ℕ) (a : RecycleAllocator)
    → Sound s
    → references (without self rest s) child ≡ 0
    → ((c : ℕ) → held (without self rest s) c + (if child == c then 1 else 0) ≡ held s c)
    → IsValid a
    → a.current ≡ s.pid_allocator.current
    → ((q : ℕ)
        → in_use a q ≡ (if q == (s.process child).pid then false else in_use s.pid_allocator q))
    → Fewer s (record (without self rest s) { pid_allocator = a })
unfolding held
dropped-Fewer s self child rest a v gone taken va ca ia =
    let one : held (without self rest s) child + 1 ≡ held s child =
      sym (ap (λ b. held (without self rest s) child + (if b then 1 else 0)) (==-self child))
      ∙ taken child in
    record {
      next = refl;
      pid = λ x. ground arith;
      held_less =
          λ c. let k = taken c in let r = held-allocator (without self rest s) a c in omega arith;
      tabled_less = λ c. omega arith;
      table =
          All-map (Running s.process s.next) (Running (without self rest s).process s.next)
            s.pid2process (λ e r. ground arith) v.table;
      kept = λ c k.
          let other : (child == c) ≡ false = elim (Bool-cases (child == c)) [
            | inl e ↦ absurd (
                let k' : 1 ≤ tabled child s.pid2process =
                  subst (λ x. 1 ≤ tabled x s.pid2process) (sym (==-true child c e)) k in
                omega arith)
            | inr e ↦ e
          ] in
          let g = taken c in let r = held-allocator (without self rest s) a c in ground arith;
      valid = va;
      current = ca;
      used = λ c k.
          let g = taken c in
          let r = held-allocator (without self rest s) a c in
          let k' : 1 ≤ references s c = omega arith in
          let other : ((s.process c).pid == (s.process child).pid) ≡ false =
            elim (Bool-cases ((s.process c).pid == (s.process child).pid)) [
              | inl e ↦ absurd (
                  let q =
                    v.distinct c child k' (omega arith)
                      (==-true (s.process c).pid (s.process child).pid e) in
                  let k'' : 1 ≤ references (without self rest s) child =
                    subst
                      (λ x. 1 ≤ references (record (without self rest s) { pid_allocator = a }) x) q
                      k in
                  let r' = held-allocator (without self rest s) a child in omega arith)
              | inr e ↦ e
            ] in
          ia (s.process c).pid ∙ rw other (v.used c k');
    }

-- The child has no other reference than that of its parent and those on kernel stacks, so that
-- `reap` does not panic when there are none of these.
pub reap-Sound :
    (s : Processes) (self pid child : ℕ) (rest : List ℕ)
    → Sound s
    → self < s.next
    → take_zombie pid s.process (s.process self).children ≡ some (child, rest)
    → s.on_stacks child ≡ 0
    → (place : ℕ)
    → (s' : Processes) × (reap self child rest (some place) s
        ≡ some (as_isize (pos (s.process child).pid), some (s.process child).exit_code, s'))
      × Sound s'
      × (references s' child ≡ 0)
      × (in_use s'.pid_allocator (s.process child).pid ≡ false)
reap-Sound s self pid child rest v h t idle place =
    let s1 = without self rest s in
    let (z, m, n) = take_zombie-found pid s.process (s.process self).children child rest t in
    let taken : (c : ℕ) → held s1 c + (if child == c then 1 else 0) ≡ held s c =
      without-held s self pid child rest h t in
    let one : held s1 child + 1 ≡ held s child =
      sym (ap (λ b. held s1 child + (if b then 1 else 0)) (==-self child)) ∙ taken child in
    let most = v.once child in
    let no_entry = tabled-zombie s child v z in
    let gone : references s1 child ≡ 0 = omega arith in
    let used : in_use s.pid_allocator (s.process child).pid ≡ true = v.used child (ground arith) in
    let (a, d, va, ia, ca) = dealloc-in_use s.pid_allocator (s.process child).pid v.valid used in
    let s' : Processes = record s1 { pid_allocator = a } in
    (
      s',
      reap-step s self child rest a gone d idle place,
      Fewer-Sound s s' v (dropped-Fewer s self child rest a v gone taken va ca ia),
      ap (λ n. n + tabled child s.pid2process) (held-allocator s1 a child) ∙ gone,
      ia (s.process child).pid ∙ rw (==-self (s.process child).pid) refl,
    )

-- A reference on a kernel stack fails the assertion, and so does a pointer that is not mapped.
pub reap-panics :
    (s : Processes) (self child : ℕ) (rest : List ℕ) (ptr : Option ℕ)
    → (1 ≤ s.on_stacks child) ⊎ (ptr ≡ none)
    → reap self child rest ptr s ≡ none
unfolding reap
reap-panics s self child rest ptr h =
    elim (Bool-cases (1 + references (without self rest s) child + s.on_stacks child == 1)) [
      | inr e ↦ rw e refl
      | inl e ↦ elim h [ inl k ↦ absurd (ground arith) | inr k ↦ rw (e, k) refl ]
    ]

-- Waiting makes no process.
pub reap-next :
    (s t : Processes) (self child : ℕ) (rest : List ℕ) (ptr : Option ℕ) (result : ℤ)
    (exit_code : Option ℤ)
    → reap self child rest ptr s ≡ some (result, exit_code, t)
    → t.next ≡ s.next
unfolding reap
reap-next s t self child rest none result exit_code h = absurd (
    let k : reap self child rest none s ≡ none = reap-panics s self child rest none (inr refl) in
    ground arith)
reap-next s t self child rest (some place) result exit_code h =
    elim (Bool-cases (1 + references (without self rest s) child + s.on_stacks child == 1)) [
      | inr e ↦ let k = rw e at h in absurd (ground arith)
      | inl e ↦ elim (Option-cases (dealloc s.pid_allocator (s.process child).pid)) [
        | inl q ↦ let k = rw (e, q) at h in absurd (ground arith)
        | inr (a, q) ↦ let k = rw (e, q) at h in ground arith
      ]
    ]

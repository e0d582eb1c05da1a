-- ===== src/Task/Process/Effects.antt =====
-- What the calls on processes do to the children, the pids and the table.
use t_core.Base.{
  ℕ, ◌+◌, ◌<◌, ◌≤◌, ◌≡◌, refl, sym, ◌∙◌, ap, true, false, ◌&&◌, some, none, List, [], ◌∷◌, ◌++◌,
  arith, ◌==◌, Bool-cases, Option-cases, inl, inr, ==-true, if◌then◌else◌, All, append_assoc,
  append-nil, subst,
}
use t_core.Task.Process.{
  Process, Processes, put, others, reparent, initproc, count, held, tabled, take_zombie, any_child,
  matches,
}
use t_core.Task.Process.Counting.{total-change}

-- An entry of the table is of a process that runs, under its pid.
abbrev pub Running : (ℕ → Process) → ℕ → ℕ × ℕ → Type 0
Running process next e =
    ((process e.1).pid ≡ e.0) × ((process e.1).is_zombie ≡ false) × (e.1 < next)

pub tabled-others : (c pid : ℕ) (es : List (ℕ × ℕ)) → tabled c (others pid es) ≤ tabled c es
unfolding tabled others
tabled-others c pid [] = omega arith
tabled-others c pid (e ∷ es) =
    let i = tabled-others c pid es in
    elim (Bool-cases (e.0 == pid)) [ inl h ↦ ground arith | inr h ↦ ground arith ]

-- The entries left are those of the same kind, under other pids.
pub others-All {ℓ} :
    (P : ℕ × ℕ → Type ℓ) (pid : ℕ) (es : List (ℕ × ℕ))
    → All P es
    → All (λ e. P e × ((e.0 == pid) ≡ false)) (others pid es)
unfolding others
others-All P pid [] h = h
others-All P pid (e ∷ es) h =
    let i = others-All P pid es h.1 in
    elim (Bool-cases (e.0 == pid)) [ inl k ↦ rw k i | inr k ↦ rw k ((h.0, k), i) ]

pub All-tabled :
    (P : ℕ → Type 0) (c : ℕ) (es : List (ℕ × ℕ)) → All (λ e. P e.1) es → 1 ≤ tabled c es → P c
unfolding tabled
All-tabled P c [] h k = absurd (omega arith)
All-tabled P c (e ∷ es) h k = elim (Bool-cases (e.1 == c)) [
  | inl q ↦ subst P (==-true e.1 c q) h.0
  | inr q ↦ All-tabled P c es h.1 (ground arith)
]

-- The children that `reparent` moves, and what it leaves as it is.
pub record Moved (cs : List ℕ) (process process' : ℕ → Process) : Type 0 where
  pub children :
      (x : ℕ)
      → (process' x).children
        ≡ (if x == initproc then (process x).children ++ cs else (process x).children)
  pub pid : (x : ℕ) → (process' x).pid ≡ (process x).pid
  pub is_zombie : (x : ℕ) → (process' x).is_zombie ≡ (process x).is_zombie
  pub exit_code : (x : ℕ) → (process' x).exit_code ≡ (process x).exit_code

pub reparent-Moved : (cs : List ℕ) (process : ℕ → Process) → Moved cs process (reparent cs process)
unfolding reparent
reparent-Moved [] process = record {
  children = λ x. elim (Bool-cases (x == initproc)) [
    | inl e ↦ rw e (sym (append-nil (process x).children))
    | inr e ↦ rw e refl
  ];
  pid = λ x. refl;
  is_zombie = λ x. refl;
  exit_code = λ x. refl;
}
reparent-Moved (c ∷ cs) process =
    let process1 = put c (record (process c) { parent = some initproc }) process in
    let process2 =
      put initproc
        (record (process1 initproc) { children = (process1 initproc).children ++ c ∷ [] })
        process1 in
    let r = reparent-Moved cs process2 in
    record {
      children = λ x. r.children x ∙ elim (Bool-cases (x == initproc)) [
        | inl e ↦ rw (==-true x initproc e) (
            append_assoc (process1 initproc).children (c ∷ []) cs
            ∙ ap (λ ys. ys ++ c ∷ cs) (ground arith))
        | inr e ↦ rw e (ground arith)
      ];
      pid = λ x. r.pid x ∙ ground arith;
      is_zombie = λ x. r.is_zombie x ∙ ground arith;
      exit_code = λ x. r.exit_code x ∙ ground arith;
    }

-- What is left of a sum over the children when the children of one process change.
pub held-change :
    (s s' : Processes) (a c : ℕ)
    → a < s.next
    → s'.next ≡ s.next
    → ((b : ℕ) → (b == a) ≡ false → (s.process b).children ≡ (s'.process b).children)
    → held s c + count c (s'.process a).children ≡ held s' c + count c (s.process a).children
unfolding held
held-change s s' a c h n same = rw n (
    total-change (λ b. count c (s.process b).children) (λ b. count c (s'.process b).children) a
      s.next h (λ b e. ap (count c) (same b e)))

-- A child that is taken is a zombie among the children that matches; when none is, there is none.
pub take_zombie-found :
    (pid : ℕ) (process : ℕ → Process) (cs : List ℕ) (child : ℕ) (rest : List ℕ)
    → take_zombie pid process cs ≡ some (child, rest)
    → ((process child).is_zombie ≡ true)
      × (matches pid (process child) ≡ true)
      × ((c : ℕ) → count c cs ≡ count c rest + (if child == c then 1 else 0))
unfolding take_zombie count
take_zombie-found pid process [] child rest h = absurd (ground arith)
take_zombie-found pid process (c ∷ cs) child rest h =
    elim (Bool-cases ((process c).is_zombie && matches pid (process c))) [
      | inl e ↦ ground arith
      | inr e ↦ elim (Option-cases (take_zombie pid process cs)) [
        | inl q ↦ let k = rw (e, q) at h in absurd (ground arith)
        | inr ((found, rest'), q) ↦
            let k = rw (e, q) at h in
            let (z, m, n) = take_zombie-found pid process cs found rest' q in
            let n' : (x : ℕ) → count x cs ≡ count x rest' + (if found == x then 1 else 0) = n in
            ground arith
      ]
    ]

pub take_zombie-none :
    (pid : ℕ) (process : ℕ → Process) (cs : List ℕ)
    → take_zombie pid process cs ≡ none
    → All (λ c. ((process c).is_zombie && matches pid (process c)) ≡ false) cs
unfolding take_zombie
take_zombie-none pid process [] h = tt
take_zombie-none pid process (c ∷ cs) h =
    elim (Bool-cases ((process c).is_zombie && matches pid (process c))) [
      | inl e ↦ let k = rw e at h in absurd (ground arith)
      | inr e ↦ elim (Option-cases (take_zombie pid process cs)) [
        | inl q ↦ (e, take_zombie-none pid process cs q)
        | inr ((found, rest'), q) ↦ let k = rw (e, q) at h in absurd (ground arith)
      ]
    ]

-- A child that is a zombie and matches is reached, or one before it.
pub take_zombie-some :
    (pid : ℕ) (process : ℕ → Process) (cs : List ℕ) (c : ℕ)
    → (process c).is_zombie ≡ true
    → matches pid (process c) ≡ true
    → 1 ≤ count c cs
    → (child : ℕ) × (rest : List ℕ) × (take_zombie pid process cs ≡ some (child, rest))
unfolding take_zombie count
take_zombie-some pid process [] c z m h = absurd (omega arith)
take_zombie-some pid process (x ∷ cs) c z m h =
    elim (Bool-cases ((process x).is_zombie && matches pid (process x))) [
      | inl e ↦ (x, cs, rw e refl)
      | inr e ↦
          let other : (x == c) ≡ false = elim (Bool-cases (x == c)) [
            | inl q ↦ absurd (let k = rw (==-true x c q) at e in ground arith)
            | inr q ↦ q
          ] in
          let (child, rest, r) = take_zombie-some pid process cs c z m (ground arith) in
          (child, x ∷ rest, rw e (rw r refl))
    ]

pub any_child-count :
    (pid : ℕ) (process : ℕ → Process) (cs : List ℕ) (c : ℕ)
    → matches pid (process c) ≡ true
    → 1 ≤ count c cs
    → any_child pid process cs ≡ true
unfolding any_child count
any_child-count pid process [] c m h = absurd (omega arith)
any_child-count pid process (x ∷ cs) c m h = elim (Bool-cases (x == c)) [
  | inl e ↦ rw (==-true x c e) (rw m refl)
  | inr e ↦ let i = any_child-count pid process cs c m (ground arith) in ground arith
]

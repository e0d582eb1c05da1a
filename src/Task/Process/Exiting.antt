-- ===== src/Task/Process/Exiting.antt =====
-- A process that exits: its children go to the first process, and it stays with its parent.
use t_core.Base.{
  ℕ, ◌+◌, ◌<◌, ◌≡◌, refl, sym, ◌∙◌, ap, subst, true, false, some, [], ◌++◌, arith, ◌==◌, Bool-cases,
  inl, inr, ==-true, ==-self, if◌then◌else◌, All-map, ℤ,
}
use t_core.Task.Process.{
  Process, Processes, put, others, has_pid, reparent, initproc, idle_pid, count, held, exit_main,
  remove_from_pid2process,
}
use t_core.Task.Process.Counting.{count-append}
use t_core.Task.Process.Effects.{Running, tabled-others, others-All, reparent-Moved, held-change}
use t_core.Task.Process.Family.{Sound, Fewer}

-- The processes after a process exits, as `exit_main` makes them.
abbrev pub handed_on : ℕ → ℤ → Processes → Processes
handed_on self exit_code s = record s {
  process =
      reparent (s.process self).children
        (put self (record (s.process self) { is_zombie = true; exit_code = exit_code }) s.process);
}

abbrev pub exited : ℕ → ℤ → Processes → Processes
exited self exit_code s = record s {
  process =
      put self
        (record ((handed_on self exit_code s).process self) {
          children = [];
          fd_table = [];
          tasks = [];
        })
        (handed_on self exit_code s).process;
  pid2process = others (s.process self).pid s.pid2process;
}

pub exit_main-exited :
    (s s' : Processes) (self : ℕ) (exit_code : ℤ)
    → exit_main self exit_code s ≡ some s'
    → (((s.process self).pid == idle_pid) ≡ false) × (s' ≡ exited self exit_code s)
unfolding exit_main remove_from_pid2process
exit_main-exited s s' self exit_code h = elim (Bool-cases ((s.process self).pid == idle_pid)) [
  | inl e ↦ let k = rw e at h in absurd (ground arith)
  | inr e ↦ elim (Bool-cases (has_pid (s.process self).pid s.pid2process)) [
    | inl q ↦ let k = rw (e, q) at h in (e, ground arith)
    | inr q ↦ let k = rw (e, q) at h in absurd (ground arith)
  ]
]

-- What an exit does to each process but to its children.
pub exited-process :
    (s : Processes) (self : ℕ) (exit_code : ℤ) (x : ℕ)
    → let p = (exited self exit_code s).process x in
      (p.pid ≡ (s.process x).pid)
      × (p.is_zombie ≡ (if x == self then true else (s.process x).is_zombie))
      × (p.exit_code ≡ (if x == self then exit_code else (s.process x).exit_code))
exited-process s self exit_code x =
    let process1 =
      put self (record (s.process self) { is_zombie = true; exit_code = exit_code }) s.process in
    let m = reparent-Moved (s.process self).children process1 in
    elim (Bool-cases (x == self)) [
      | inl e ↦ rw (==-true x self e) (
          rw (==-self self) (
            m.pid self ∙ rw (==-self self) refl,
            m.is_zombie self ∙ rw (==-self self) refl,
            m.exit_code self ∙ rw (==-self self) refl,
          ))
      | inr e ↦ rw e (m.pid x ∙ rw e refl, m.is_zombie x ∙ rw e refl, m.exit_code x ∙ rw e refl)
    ]

exited-count :
    (s : Processes) (self : ℕ) (exit_code : ℤ) (c : ℕ)
    → count c ((exited self exit_code s).process self).children ≡ 0
unfolding count
exited-count s self exit_code c = rw (==-self self) refl

exited-Running :
    (s : Processes) (self : ℕ) (exit_code : ℤ) (e : ℕ × ℕ)
    → Running s.process s.next e
    → (e.0 == (s.process self).pid) ≡ false
    → Running (exited self exit_code s).process s.next e
exited-Running s self exit_code e (p, z, n) k =
    let other : (e.1 == self) ≡ false = elim (Bool-cases (e.1 == self)) [
      | inl q ↦ absurd (
          let r : (s.process self).pid ≡ e.0 =
            subst (λ x. (s.process x).pid ≡ e.0) (==-true e.1 self q) p in
          ground arith)
      | inr q ↦ q
    ] in
    let (pid, zombie, code) = exited-process s self exit_code e.1 in
    (pid ∙ p, zombie ∙ rw other z, n)

-- All children keep one parent.
pub exited-held :
    (s : Processes) (self : ℕ) (exit_code : ℤ)
    → 0 < s.next
    → self < s.next
    → (self == initproc) ≡ false
    → (c : ℕ) → held (exited self exit_code s) c ≡ held s c
exited-held s self exit_code first h k c =
    let cs = (s.process self).children in
    let p1 : Process = record (s.process self) { is_zombie = true; exit_code = exit_code } in
    let process1 = put self p1 s.process in
    let m = reparent-Moved cs process1 in
    let s1 = handed_on self exit_code s in
    let s2 = exited self exit_code s in
    let kept1 : (b : ℕ) → (process1 b).children ≡ (s.process b).children = λ b.
      elim (Bool-cases (b == self)) [
        | inl e ↦ rw e (ap (λ x. (s.process x).children) (sym (==-true b self e)))
        | inr e ↦ rw e refl
      ] in
    let same1 : (b : ℕ)
        → (b == initproc) ≡ false
        → (s.process b).children ≡ (s1.process b).children =
      λ b e. sym (kept1 b) ∙ sym (m.children b ∙ rw e refl) in
    let init1 : (s1.process initproc).children ≡ (s.process initproc).children ++ cs =
      m.children initproc ∙ ap (λ ys. ys ++ cs) (kept1 initproc) in
    let self1 : (s1.process self).children ≡ cs = sym (same1 self k) in
    let d1 : held s c + count c (s1.process initproc).children
        ≡ held s1 c + count c (s.process initproc).children =
      held-change s s1 initproc c first refl same1 in
    let n1 : count c (s1.process initproc).children
        ≡ count c (s.process initproc).children + count c cs =
      ap (count c) init1 ∙ count-append c (s.process initproc).children cs in
    let same2 : (b : ℕ) → (b == self) ≡ false → (s1.process b).children ≡ (s2.process b).children =
      λ b e. rw e refl in
    let d2 : held s1 c + count c (s2.process self).children
        ≡ held s2 c + count c (s1.process self).children =
      held-change s1 s2 self c h refl same2 in
    let self2 : count c (s2.process self).children ≡ 0 = exited-count s self exit_code c in
    let n2 : count c (s1.process self).children ≡ count c cs = ap (count c) self1 in omega arith

pub exited-Fewer :
    (s : Processes) (self : ℕ) (exit_code : ℤ)
    → Sound s
    → self < s.next
    → ((s.process self).pid == idle_pid) ≡ false
    → Fewer s (exited self exit_code s)
exited-Fewer s self exit_code v h i =
    let not_init : (self == initproc) ≡ false = elim (Bool-cases (self == initproc)) [
      | inl e ↦ absurd (
          let q : (s.process self).pid ≡ idle_pid =
            subst (λ x. (s.process x).pid ≡ idle_pid) (sym (==-true self initproc e)) v.init in
          ground arith)
      | inr e ↦ e
    ] in
    let same = exited-held s self exit_code v.first h not_init in
    record {
      next = refl;
      pid = λ x. (exited-process s self exit_code x).0;
      held_less = λ c. let e = same c in omega arith;
      tabled_less = λ c. tabled-others c (s.process self).pid s.pid2process;
      table =
          All-map _ _ (others (s.process self).pid s.pid2process)
            (λ e r. exited-Running s self exit_code e r.0 r.1)
            (others-All (Running s.process s.next) (s.process self).pid s.pid2process v.table);
      kept = λ c k. same c;
      valid = v.valid;
      current = refl;
      used = λ c k. v.used c (
          let e = same c in
          let l = tabled-others c (s.process self).pid s.pid2process in omega arith);
    }

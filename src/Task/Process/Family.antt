-- ===== src/Task/Process/Family.antt =====
-- What holds of the processes and the references to them.
use t_core.Base.{
  ℕ, ◌<◌, ◌≤◌, ◌≡◌, sym, ◌∙◌, true, false, arith, ◌==◌, Bool-cases, inl, inr, All, All-map, ltb,
}
use t_core.Task.Id.Recycle.{IsValid, in_use}
use t_core.Task.Process.{Processes, initproc, idle_pid, held, tabled, references}
use t_core.Task.Process.Effects.{Running, All-tabled}

-- Each process is the child of one process at most, and of one exactly if it runs and is not the first;
-- the table has the processes that run, under their pids; the pids of the processes that are left are
-- different, and in use.
pub record Sound (s : Processes) : Type 0 where
  pub first : 0 < s.next
  pub init : (s.process initproc).pid ≡ idle_pid
  pub valid : IsValid s.pid_allocator
  pub few : s.pid_allocator.current ≤ s.next
  pub once : (c : ℕ) → held s c ≤ 1
  pub fresh : (c : ℕ) → s.next ≤ c → held s c ≡ 0
  pub table : All (Running s.process s.next) s.pid2process
  pub kept : (c : ℕ) → (c == initproc) ≡ false → 1 ≤ tabled c s.pid2process → held s c ≡ 1
  pub used : (c : ℕ) → 1 ≤ references s c → in_use s.pid_allocator (s.process c).pid ≡ true
  pub distinct :
      (a b : ℕ)
      → 1 ≤ references s a
      → 1 ≤ references s b
      → (s.process a).pid ≡ (s.process b).pid
      → a ≡ b

-- A step that only takes references away.
pub record Fewer (s s' : Processes) : Type 0 where
  pub next : s'.next ≡ s.next
  pub pid : (x : ℕ) → (s'.process x).pid ≡ (s.process x).pid
  pub held_less : (c : ℕ) → held s' c ≤ held s c
  pub tabled_less : (c : ℕ) → tabled c s'.pid2process ≤ tabled c s.pid2process
  pub table : All (Running s'.process s'.next) s'.pid2process
  pub kept : (c : ℕ) → 1 ≤ tabled c s'.pid2process → held s' c ≡ held s c
  pub valid : IsValid s'.pid_allocator
  pub current : s'.pid_allocator.current ≡ s.pid_allocator.current
  pub used : (c : ℕ) → 1 ≤ references s' c → in_use s'.pid_allocator (s.process c).pid ≡ true

pub Fewer-Sound : (s s' : Processes) → Sound s → Fewer s s' → Sound s'
Fewer-Sound s s' v f = record {
  first = rw f.next v.first;
  init = f.pid initproc ∙ v.init;
  valid = f.valid;
  few = rw (f.current, f.next) v.few;
  once = λ c. let o = v.once c in let l = f.held_less c in omega arith;
  fresh = λ c h. let o = v.fresh c (rw f.next at h) in let l = f.held_less c in omega arith;
  table = f.table;
  kept = λ c n h. f.kept c h ∙ v.kept c n (let l = f.tabled_less c in omega arith);
  used = λ c h. rw (f.pid c) (f.used c h);
  distinct = λ a b ha hb e. v.distinct a b (still a ha) (still b hb) (sym (f.pid a) ∙ e ∙ f.pid b);
}
  where
    still : (c : ℕ) → 1 ≤ references s' c → 1 ≤ references s c
    still c h = let l = f.held_less c in let k = f.tabled_less c in omega arith

-- No process beyond the last is in the table.
pub tabled-fresh : (s : Processes) (c : ℕ) → Sound s → s.next ≤ c → tabled c s.pid2process ≡ 0
tabled-fresh s c v h = elim (Bool-cases (ltb 0 (tabled c s.pid2process))) [
  | inl e ↦ absurd (
      let k : c < s.next =
        All-tabled (λ x. x < s.next) c s.pid2process
          (All-map (Running s.process s.next) (λ e. e.1 < s.next) s.pid2process (λ e r. r.2)
            v.table)
          (ground arith) in
      omega arith)
  | inr e ↦ ground arith
]

-- A zombie is not in the table.
pub tabled-zombie :
    (s : Processes) (c : ℕ) → Sound s → (s.process c).is_zombie ≡ true → tabled c s.pid2process ≡ 0
tabled-zombie s c v h = elim (Bool-cases (ltb 0 (tabled c s.pid2process))) [
  | inl e ↦ absurd (
      let k : (s.process c).is_zombie ≡ false =
        All-tabled (λ x. (s.process x).is_zombie ≡ false) c s.pid2process
          (All-map (Running s.process s.next) (λ e. (s.process e.1).is_zombie ≡ false) s.pid2process
            (λ e r. r.1) v.table)
          (ground arith) in
      ground arith)
  | inr e ↦ ground arith
]

-- ===== src/Task/Process/Forking.antt =====
-- A process that forks: the child is new, has a pid of its own, and one reference as a child.
use t_core.Base.{
  ℕ, suc, ◌+◌, ◌<◌, ◌≤◌, ◌≡◌, ◌^◌, refl, sym, ◌∙◌, ap, subst, true, false, some, [], ◌∷◌, ◌++◌,
  arith, ◌==◌, Bool-cases, Option-cases, inl, inr, ==-true, ==-self, if◌then◌else◌, All-map, length,
}
use t_core.Task.Id.{alloc}
use t_core.Task.Id.Recycle.{in_use, alloc-in_use}
use t_core.Task.Process.{
  Processes, put, others, initproc, count, total, held, tabled, references, forked, fork, get_task,
  thread_count, insert_into_pid2process,
}
use t_core.Task.Process.Counting.{count-append, total-same, total-change}
use t_core.Task.Process.Effects.{Running, tabled-others, others-All}
use t_core.Task.Process.Family.{Sound}

abbrev pub with_child : ℕ → Processes → Processes
with_child self s = record {
  process = put s.next (forked (alloc s.pid_allocator).0 self (s.process self)) (
      put self (record (s.process self) { children = (s.process self).children ++ s.next ∷ [] })
        s.process);
  next = suc s.next;
  pid_allocator = (alloc s.pid_allocator).1;
  pid2process = insert_into_pid2process (alloc s.pid_allocator).0 s.next s.pid2process;
  on_stacks = λ c. if c == s.next then 0 else s.on_stacks c;
}

pub fork-with_child :
    (s s' : Processes) (self child : ℕ)
    → fork self s ≡ some (child, s')
    → (child ≡ s.next) × (s' ≡ with_child self s) × (length (s.process self).tasks ≡ 1)
unfolding fork
fork-with_child s s' self child h = elim (Bool-cases (thread_count (s.process self) == 1)) [
  | inl e ↦ elim (Option-cases (get_task (s.process self) 0)) [
    | inl q ↦ let k = rw (e, q) at h in absurd (ground arith)
    | inr (t, q) ↦ let k = rw (e, q) at h in ground arith
  ]
  | inr e ↦ let k = rw e at h in absurd (ground arith)
]

-- The processes that were there keep their pids and exit codes, and run or do not run as before.
pub with_child-process :
    (s : Processes) (self x : ℕ)
    → (s.next == x) ≡ false
    → ((((with_child self s).process x).pid ≡ (s.process x).pid)
        × (((with_child self s).process x).is_zombie ≡ (s.process x).is_zombie))
with_child-process s self x h = elim (Bool-cases (x == self)) [
  | inl e ↦
      let n : (x == s.next) ≡ false = ground arith in
      rw (n, e)
        (
          ap (λ y. (s.process y).pid) (sym (==-true x self e)),
          ap (λ y. (s.process y).is_zombie) (sym (==-true x self e)),
        )
  | inr e ↦ let n : (x == s.next) ≡ false = ground arith in rw (n, e) (refl, refl)
]

-- Each process is as often among the children as before, and the new one once.
with_child-held :
    (s : Processes) (self : ℕ)
    → self < s.next
    → (c : ℕ) → held (with_child self s) c ≡ held s c + (if s.next == c then 1 else 0)
unfolding held total count
with_child-held s self h c =
    let parent = record (s.process self) { children = (s.process self).children ++ s.next ∷ [] } in
    let s' = with_child self s in
    let f : ℕ → ℕ = λ a. count c (s.process a).children in
    let k : ℕ → ℕ = λ a. count c (put self parent s.process a).children in
    let g : ℕ → ℕ = λ a. count c (s'.process a).children in
    let last : g s.next ≡ 0 = rw (==-self s.next) refl in
    let older : total g s.next ≡ total k s.next =
      total-same g k s.next (λ a l. let n : (a == s.next) ≡ false = ground arith in rw n refl) in
    let change : total f s.next + k self ≡ total k s.next + f self =
      total-change f k self s.next h (λ b e. rw e refl) in
    let mine : k self ≡ f self + count c (s.next ∷ []) =
      rw (==-self self) (count-append c (s.process self).children (s.next ∷ [])) in
    let one : count c (s.next ∷ []) ≡ (if s.next == c then 1 else 0) = omega arith in
    let sum : total g s.next + g s.next ≡ total f s.next + (if s.next == c then 1 else 0) =
      omega arith in
    sum

-- The pid that the child gets, and what has a pid that is in use.
with_child-pid :
    (s : Processes) (self x : ℕ)
    → Sound s
    → s.pid_allocator.current + 1 < 2 ^ 64
    → 1 ≤ references s x
    → (((s.process x).pid == (alloc s.pid_allocator).0) ≡ false)
      × (in_use (alloc s.pid_allocator).1 (s.process x).pid ≡ true)
with_child-pid s self x v b h =
    let (va, free, now, grows) = alloc-in_use s.pid_allocator v.valid b in
    let used = v.used x h in
    let differs : ((s.process x).pid == (alloc s.pid_allocator).0) ≡ false =
      elim (Bool-cases ((s.process x).pid == (alloc s.pid_allocator).0)) [
        | inl e ↦ absurd (
            let q : in_use s.pid_allocator (alloc s.pid_allocator).0 ≡ true =
              subst (λ y. in_use s.pid_allocator y ≡ true)
                (==-true (s.process x).pid (alloc s.pid_allocator).0 e) used in
            ground arith)
        | inr e ↦ e
      ] in
    (differs, now (s.process x).pid ∙ rw differs used)

with_child-Running :
    (s : Processes) (self : ℕ) (e : ℕ × ℕ)
    → Running s.process s.next e
    → Running (with_child self s).process (suc s.next) e
with_child-Running s self e (p, z, n) =
    let other : (s.next == e.1) ≡ false = ground arith in
    let (p', z') = with_child-process s self e.1 other in (p' ∙ p, z' ∙ z, omega arith)

-- What refers to a process after the fork, referred to it before, or it is the child.
with_child-references :
    (s : Processes) (self c : ℕ)
    → self < s.next
    → (s.next == c) ≡ false
    → references (with_child self s) c ≤ references s c
unfolding tabled
with_child-references s self c h n =
    let a : held (with_child self s) c ≡ held s c =
      with_child-held s self h c ∙ rw n (omega arith) in
    let l = tabled-others c (alloc s.pid_allocator).0 s.pid2process in ground arith

pub with_child-Sound :
    (s : Processes) (self : ℕ)
    → Sound s
    → self < s.next
    → s.next + 1 < 2 ^ 64
    → Sound (with_child self s)
unfolding tabled
with_child-Sound s self v h b =
    let few = v.few in
    let (va, free, now, grows) = alloc-in_use s.pid_allocator v.valid (omega arith) in
    let s' = with_child self s in
    let counts = with_child-held s self h in
    let child_pid : (s'.process s.next).pid ≡ (alloc s.pid_allocator).0 =
      rw (==-self s.next) refl in
    let init : (s.next == initproc) ≡ false = let f = v.first in ground arith in
    record {
      first = omega arith;
      init = (with_child-process s self initproc init).0 ∙ v.init;
      valid = va;
      few = omega arith;
      once = λ c. elim (Bool-cases (s.next == c)) [
        | inl e ↦
            let z = v.fresh c (ground arith) in
            let k : held s' c ≡ held s c + 1 = counts c ∙ rw e refl in omega arith
        | inr e ↦
            let o = v.once c in
            let k : held s' c ≡ held s c + 0 = counts c ∙ rw e refl in omega arith
      ];
      fresh = λ c l.
          let z = v.fresh c (omega arith) in
          let n : (s.next == c) ≡ false = ground arith in
          let k : held s' c ≡ held s c + 0 = counts c ∙ rw n refl in omega arith;
      table = (
        (child_pid, rw (==-self s.next) refl, omega arith),
        All-map _ (Running s'.process (suc s.next)) (others (alloc s.pid_allocator).0 s.pid2process)
            (λ e r. with_child-Running s self e r.0)
            (others-All (Running s.process s.next) (alloc s.pid_allocator).0 s.pid2process v.table),
      );
      kept = λ c n k. elim (Bool-cases (s.next == c)) [
        | inl e ↦
            let z = v.fresh c (ground arith) in
            let k' : held s' c ≡ held s c + 1 = counts c ∙ rw e refl in omega arith
        | inr e ↦
            let l = tabled-others c (alloc s.pid_allocator).0 s.pid2process in
            let k' : held s' c ≡ held s c + 0 = counts c ∙ rw e refl in
            let k1 = rw e at k in let o = v.kept c n (omega arith) in omega arith
      ];
      used = λ c k. elim (Bool-cases (s.next == c)) [
        | inl e ↦
            subst (λ x. in_use s'.pid_allocator (s'.process x).pid ≡ true) (==-true s.next c e)
              (rw child_pid
                (now (alloc s.pid_allocator).0 ∙ rw (==-self (alloc s.pid_allocator).0) refl))
        | inr e ↦ rw (with_child-process s self c e).0 (older c e k).1
      ];
      distinct = λ x y hx hy q. elim (Bool-cases (s.next == x)) [
        | inl ex ↦ elim (Bool-cases (s.next == y)) [
          | inl ey ↦ sym (==-true s.next x ex) ∙ ==-true s.next y ey
          | inr ey ↦ apart x y ex ey hy q
        ]
        | inr ex ↦ elim (Bool-cases (s.next == y)) [
          | inl ey ↦ sym (apart y x ey ex hx (sym q))
          | inr ey ↦
              v.distinct x y (was x ex hx) (was y ey hy)
                (sym (with_child-process s self x ex).0 ∙ q ∙ (with_child-process s self y ey).0)
        ]
      ];
    }
  where
    was :
        (c : ℕ) → (s.next == c) ≡ false → 1 ≤ references (with_child self s) c → 1 ≤ references s c
    was c e k = let l = with_child-references s self c h e in omega arith

    older :
        (c : ℕ)
        → (s.next == c) ≡ false
        → 1 ≤ references (with_child self s) c
        → (((s.process c).pid == (alloc s.pid_allocator).0) ≡ false)
          × (in_use (alloc s.pid_allocator).1 (s.process c).pid ≡ true)
    older c e k = with_child-pid s self c v (let f = v.few in omega arith) (was c e k)

    apart :
        (x y : ℕ)
        → (s.next == x) ≡ true
        → (s.next == y) ≡ false
        → 1 ≤ references (with_child self s) y
        → ((with_child self s).process x).pid ≡ ((with_child self s).process y).pid
        → x ≡ y
    apart x y ex ey hy q =
        let child : ((with_child self s).process s.next).pid ≡ (alloc s.pid_allocator).0 =
          rw (==-self s.next) refl in
        let child_x : ((with_child self s).process x).pid ≡ (alloc s.pid_allocator).0 =
          ap (λ z. ((with_child self s).process z).pid) (sym (==-true s.next x ex)) ∙ child in
        let same : (s.process y).pid ≡ (alloc s.pid_allocator).0 =
          sym (with_child-process s self y ey).0 ∙ sym q ∙ child_x in
        let (differs, used) = older y ey hy in absurd (ground arith)

-- ===== src/Task/Process/Waiting.antt =====
-- Waiting for children, in whatever state the calls on processes lead to.
use t_core.Base.{
  ℕ, suc, ◌<◌, ◌≤◌, ◌≡◌, ◌^◌, refl, sym, ◌∙◌, ap, subst, true, false, ◌&&◌, Option, some, none, ltb,
  ◌⊎◌, List, [], ◌∷◌, arith, Bool-cases, Option-cases, inl, inr, ==-self, All, ℤ, pos, negsuc,
  as_isize,
}
use t_core.Task.Id.{alloc}
use t_core.Task.Id.Recycle.{in_use}
use t_core.Task.Process.{
  Process, Processes, others, count, total, held, tabled, references, take_zombie, any_child,
  matches, fork, exit_main, sys_waitpid, wait_for, reap,
}
use t_core.Task.Process.Effects.{take_zombie-found, take_zombie-none}
use t_core.Task.Process.Family.{Sound, Fewer-Sound}
use t_core.Task.Process.Reaping.{reap-Sound, reap-next, reap-panics}
use t_core.Task.Process.Exiting.{exit_main-exited, exited-Fewer}
use t_core.Task.Process.Forking.{fork-with_child, with_child-Sound}
use t_core.Task.Process.{new}
use t_core.Task

-- A call of some process; system calls begin and end, by which the references on kernel stacks change.
pub data Step (s t : Processes) : Type 0 where
  forks : (self child : ℕ) → self < s.next → fork self s ≡ some (child, t) → Step s t
  exits :
      (self : ℕ) (exit_code : ℤ) → self < s.next → exit_main self exit_code s ≡ some t → Step s t
  waits :
      (self pid : ℕ) (exit_code_ptr : Option ℕ) (result : ℤ) (exit_code : Option ℤ)
      → self < s.next
      → sys_waitpid self pid exit_code_ptr s ≡ some (result, exit_code, t)
      → Step s t
  calls : (on_stacks : ℕ → ℕ) → t ≡ record s { on_stacks = on_stacks } → Step s t

pub data Reach (s : Processes) : Processes → Type 0 where
  here : Reach s s
  next : {t u : Processes} → Reach s t → Step t u → Reach s u

abbrev pub start : Processes
start = new Task.Id.new

start-Sound : Sound start
unfolding new held total count tabled others Task.Id.new Task.Id.alloc Task.Id.alloc_from
start-Sound = record {
  first = omega arith;
  init = refl;
  valid = record { narrow = omega arith; distinct = tt; below = tt };
  few = omega arith;
  once = λ c. omega arith;
  fresh = λ c h. omega arith;
  table = ((refl, refl, omega arith), tt);
  kept = λ c n h. ground arith;
  used = λ c h. ground arith;
  distinct = λ a b ha hb e. ground arith;
}

any_child-none :
    (pid : ℕ) (process : ℕ → Process) (cs : List ℕ)
    → any_child pid process cs ≡ false
    → All (λ c. matches pid (process c) ≡ false) cs
unfolding any_child
any_child-none pid process [] h = tt
any_child-none pid process (c ∷ cs) h = elim (Bool-cases (matches pid (process c))) [
  | inl e ↦ let k = rw e at h in absurd (ground arith)
  | inr e ↦ (e, any_child-none pid process cs (rw e at h))
]

-- What `sys_waitpid` does, by the children.
pub data Outcome (self pid : ℕ) (exit_code_ptr : Option ℕ) (s : Processes)
    (r : Option (ℤ × Option ℤ × Processes)) : Type 0 where
  no_child :
      All (λ c. matches pid (s.process c) ≡ false) (s.process self).children
      → r ≡ some (negsuc 0, none, s)
      → Outcome self pid exit_code_ptr s r
  still_running :
      any_child pid s.process (s.process self).children ≡ true
      → All
          (λ c. ((s.process c).is_zombie && matches pid (s.process c)) ≡ false)
          (s.process self).children
      → r ≡ some (negsuc 1, none, s)
      → Outcome self pid exit_code_ptr s r
  reaped :
      (child place : ℕ) (s' : Processes)
      → 1 ≤ count child (s.process self).children
      → (s.process child).is_zombie ≡ true
      → matches pid (s.process child) ≡ true
      → s.on_stacks child ≡ 0
      → exit_code_ptr ≡ some place
      → r ≡ some (as_isize (pos (s.process child).pid), some (s.process child).exit_code, s')
      → references s' child ≡ 0
      → in_use s'.pid_allocator (s.process child).pid ≡ false
      → Sound s'
      → Outcome self pid exit_code_ptr s r
  panics :
      (child : ℕ)
      → 1 ≤ count child (s.process self).children
      → (s.process child).is_zombie ≡ true
      → matches pid (s.process child) ≡ true
      → (1 ≤ s.on_stacks child) ⊎ (exit_code_ptr ≡ none)
      → r ≡ none
      → Outcome self pid exit_code_ptr s r

reap-Outcome :
    (s : Processes) (self pid child : ℕ) (rest : List ℕ) (ptr : Option ℕ)
    → Sound s
    → self < s.next
    → take_zombie pid s.process (s.process self).children ≡ some (child, rest)
    → Outcome self pid ptr s (reap self child rest ptr s)
reap-Outcome s self pid child rest ptr v h q =
    let cs = (s.process self).children in
    let (z, m, n) = take_zombie-found pid s.process cs child rest q in
    let among : 1 ≤ count child cs = rw (n child) (rw (==-self child) (omega arith)) in
    elim (Bool-cases (ltb 0 (s.on_stacks child))) [
      | inl busy ↦
          let k : 1 ≤ s.on_stacks child = ground arith in
          panics child among z m (inl k) (reap-panics s self child rest ptr (inl k))
      | inr e ↦ elim (Option-cases ptr) [
        | inl w ↦ panics child among z m (inr w) (reap-panics s self child rest ptr (inr w))
        | inr (place, w) ↦
            let idle : s.on_stacks child ≡ 0 = ground arith in
            let (s', r, v', gone, free) = reap-Sound s self pid child rest v h q idle place in
            reaped child place s' among z m idle w (ap (λ x. reap self child rest x s) w ∙ r) gone
              free v'
      ]
    ]

Sound-Outcome :
    (s : Processes) (self pid : ℕ) (ptr : Option ℕ)
    → Sound s
    → self < s.next
    → Outcome self pid ptr s (sys_waitpid self pid ptr s)
unfolding sys_waitpid wait_for
Sound-Outcome s self pid ptr v h =
    let cs = (s.process self).children in
    elim (Bool-cases (any_child pid s.process cs)) [
      | inr e ↦ no_child (any_child-none pid s.process cs e) (rw e refl)
      | inl e ↦ elim (Option-cases (take_zombie pid s.process cs)) [
        | inl q ↦ still_running e (take_zombie-none pid s.process cs q) (rw (e, q) refl)
        | inr ((child, rest), q) ↦ rw (e, q) (reap-Outcome s self pid child rest ptr v h q)
      ]
    ]

calls-Sound :
    (s : Processes) (on_stacks : ℕ → ℕ) → Sound s → Sound (record s { on_stacks = on_stacks })
unfolding held
calls-Sound s on_stacks v = record {
  first = v.first;
  init = v.init;
  valid = v.valid;
  few = v.few;
  once = v.once;
  fresh = v.fresh;
  table = v.table;
  kept = v.kept;
  used = v.used;
  distinct = v.distinct;
}

Step-next : (s t : Processes) → Step s t → s.next ≤ t.next
unfolding sys_waitpid wait_for
Step-next s t (forks self child h e) =
    let (c, q, one) = fork-with_child s t self child e in
    let n : t.next ≡ suc s.next = ap (λ x. x.next) q in omega arith
Step-next s t (exits self exit_code h e) =
    let (i, q) = exit_main-exited s t self exit_code e in
    let n : t.next ≡ s.next = ap (λ x. x.next) q in omega arith
Step-next s t (waits self pid ptr result exit_code h e) =
    let cs = (s.process self).children in
    elim (Bool-cases (any_child pid s.process cs)) [
      | inr q ↦ let k = rw q at e in let k' : s ≡ t = ground arith in rw k' (omega arith)
      | inl q ↦ elim (Option-cases (take_zombie pid s.process cs)) [
        | inl w ↦ let k = rw (q, w) at e in let k' : s ≡ t = ground arith in rw k' (omega arith)
        | inr ((child, rest), w) ↦
            let k = rw (q, w) at e in
            let n = reap-next s t self child rest ptr result exit_code k in omega arith
      ]
    ]
Step-next s t (calls on_stacks e) = let n : t.next ≡ s.next = ap (λ x. x.next) e in omega arith

Step-Sound : (s t : Processes) → Step s t → t.next < 2 ^ 64 → Sound s → Sound t
Step-Sound s t (forks self child h e) b v =
    let (c, q, one) = fork-with_child s t self child e in
    let n : t.next ≡ suc s.next = ap (λ x. x.next) q in
    subst Sound (sym q) (with_child-Sound s self v h (omega arith))
Step-Sound s t (exits self exit_code h e) b v =
    let (i, q) = exit_main-exited s t self exit_code e in
    subst Sound (sym q) (Fewer-Sound s _ v (exited-Fewer s self exit_code v h i))
Step-Sound s t (waits self pid ptr result exit_code h e) b v =
    after (subst (Outcome self pid ptr s) e (Sound-Outcome s self pid ptr v h))
  where
    after : Outcome self pid ptr s (some (result, exit_code, t)) → Sound t
    after (no_child a q) = let same : t ≡ s = ground arith in rw same v
    after (still_running a a' q) = let same : t ≡ s = ground arith in rw same v
    after (reaped child place s' a z m i w q gone free v') =
        let same : s' ≡ t = ground arith in subst Sound same v'
    after (panics child a z m w q) = absurd (ground arith)
Step-Sound s t (calls on_stacks e) b v = subst Sound (sym e) (calls-Sound s on_stacks v)

-- In every state that the calls of processes lead to, each process is the child of one process at most,
-- and of one exactly if it runs and is not the first: none is lost when its parent exits. The table has
-- only processes that run, each under its own pid, and all pids that are left differ and are in use. The
-- condition is that fewer than 2 ^ 64 processes were made.
pub Reach-Sound : (s : Processes) → Reach start s → s.next < 2 ^ 64 → Sound s
Reach-Sound s here b = start-Sound
Reach-Sound s (next {t} r k) b =
    let n = Step-next t s k in Step-Sound t s k b (Reach-Sound t r (omega arith))

-- `sys_waitpid` returns -1 exactly if no child matches, -2 if some do and none of them is a zombie.
-- Else it takes a zombie among them, however the processes got where they are: it returns its pid
-- and its exit code, no reference to it is left and its pid is free; or it panics, exactly if a
-- system call in progress of some thread keeps a reference to the child on its kernel stack, or the
-- pointer for the exit code is not mapped. The conditions are that the caller is a process that was
-- made, and that fewer than 2 ^ 64 were.
pub sys_waitpid-Outcome :
    (s : Processes) (self pid : ℕ) (exit_code_ptr : Option ℕ)
    → Reach start s
    → s.next < 2 ^ 64
    → self < s.next
    → Outcome self pid exit_code_ptr s (sys_waitpid self pid exit_code_ptr s)
sys_waitpid-Outcome s self pid ptr reach b h =
    Sound-Outcome s self pid ptr (Reach-Sound s reach b) h

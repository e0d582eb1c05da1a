-- ===== src/Task/Process/Reporting.antt =====
-- A process that exits reports its code to its parent.
use t_core.Base.{
  ℕ, ◌+◌, ◌<◌, ◌≤◌, ◌≡◌, ◌^◌, refl, sym, ◌∙◌, ap, subst, true, false, some, arith, ◌==◌, Bool-cases,
  inl, inr, ==-self, ℤ, pos, as_isize,
}
use t_core.Task.Id.Recycle.{in_use}
use t_core.Task.Process.{
  Process, Processes, put, initproc, count, total, held, references, matches, exit_main,
  sys_waitpid, wait_for,
}
use t_core.Task.Process.Counting.{count-append}
use t_core.Task.Process.Effects.{
  reparent-Moved, take_zombie-found, take_zombie-some, any_child-count,
}
use t_core.Task.Process.Family.{Sound, Fewer-Sound}
use t_core.Task.Process.Counting.{total-term}
use t_core.Task.Process.Reaping.{reap-Sound}
use t_core.Task.Process.Exiting.{exited, handed_on, exit_main-exited, exited-process, exited-Fewer}
use t_core.Task.Process.Waiting.{Reach, start, Reach-Sound}

-- A process among the children of another is held.
child-held :
    (s : Processes) (a c : ℕ) → a < s.next → 1 ≤ count c (s.process a).children → 1 ≤ references s c
unfolding held
child-held s a c h k =
    let t : count c (s.process a).children ≤ total (λ b. count c (s.process b).children) s.next =
      total-term (λ b. count c (s.process b).children) a s.next h in
    omega arith

-- A child that exits is still among the children of its parent.
exited-child :
    (s : Processes) (self child : ℕ) (exit_code : ℤ)
    → (self == child) ≡ false
    → 1 ≤ count child (s.process self).children
    → 1 ≤ count child ((exited child exit_code s).process self).children
exited-child s self child exit_code n h =
    let cs = (s.process child).children in
    let p1 : Process = record (s.process child) { is_zombie = true; exit_code = exit_code } in
    let process1 = put child p1 s.process in
    let m = reparent-Moved cs process1 in
    let there : 1 ≤ count child ((handed_on child exit_code s).process self).children =
      rw (m.children self) (elim (Bool-cases (self == initproc)) [
        | inl e ↦ rw (e, n) (rw (count-append child (s.process self).children cs) (omega arith))
        | inr e ↦ rw (e, n) h
      ]) in
    rw n there

matches-pid : (pid : ℕ) (p : Process) → p.pid ≡ pid → matches pid p ≡ true
unfolding matches
matches-pid pid p e = ground arith

pid-matches : (pid : ℕ) (p : Process) → pid + 1 < 2 ^ 64 → matches pid p ≡ true → p.pid ≡ pid
unfolding matches
pid-matches pid p h e = ground arith

-- When a child exits with a code, the next `sys_waitpid` of its parent for its pid takes it and gives
-- that code, whether or not the parent waited before. The conditions are that both are processes that
-- were made, that the child is not the parent itself, that no system call in progress of a thread keeps
-- a reference to the child on its kernel stack, that the pointer for the exit code is mapped, and that
-- fewer than 2 ^ 64 processes were made.
pub sys_waitpid-exit_main :
    (s s' : Processes) (self child place : ℕ) (exit_code : ℤ)
    → Reach start s
    → s.next < 2 ^ 64
    → self < s.next
    → child < s.next
    → (self == child) ≡ false
    → 1 ≤ count child (s.process self).children
    → exit_main child exit_code s ≡ some s'
    → s.on_stacks child ≡ 0
    → (s'' : Processes) × (sys_waitpid self (s.process child).pid (some place) s'
        ≡ some (as_isize (pos (s.process child).pid), some exit_code, s''))
      × (in_use s''.pid_allocator (s.process child).pid ≡ false)
unfolding sys_waitpid wait_for
sys_waitpid-exit_main s s' self child place exit_code reach b hs hc n k e idle =
    let v = Reach-Sound s reach b in
    let (i, q) = exit_main-exited s s' child exit_code e in
    let pid = (s.process child).pid in
    let x = exited child exit_code s in
    let used : in_use s.pid_allocator pid ≡ true = v.used child (child-held s self child hs k) in
    let few = v.few in
    let short : pid + 1 < 2 ^ 64 = ground arith in
    let v' : Sound x = Fewer-Sound s x v (exited-Fewer s child exit_code v hc i) in
    let (p, z, code) = exited-process s child exit_code child in
    let z' : (x.process child).is_zombie ≡ true = z ∙ rw (==-self child) refl in
    let code' : (x.process child).exit_code ≡ exit_code = code ∙ rw (==-self child) refl in
    let m : matches pid (x.process child) ≡ true = matches-pid pid (x.process child) p in
    let among = exited-child s self child exit_code n k in
    let any = any_child-count pid x.process (x.process self).children child m among in
    let (found, rest, t) =
      take_zombie-some pid x.process (x.process self).children child z' m among in
    let (zf, mf, nf) = take_zombie-found pid x.process (x.process self).children found rest t in
    let among_f : 1 ≤ count found (x.process self).children =
      rw (nf found) (rw (==-self found) (omega arith)) in
    let same_pid : (x.process found).pid ≡ (x.process child).pid =
      pid-matches pid (x.process found) short mf ∙ sym p in
    let same : found ≡ child =
      v'.distinct found child (child-held x self found hs among_f)
        (child-held x self child hs among) same_pid in
    let (s'', r, w, gone, free) =
      reap-Sound x self pid found rest v' hs t (ap s.on_stacks same ∙ idle) place in
    let sys : sys_waitpid self pid (some place) x
        ≡ some (as_isize (pos (x.process found).pid), some (x.process found).exit_code, s'') =
      rw (any, t) r in
    (
      s'',
      rw q (
          sys
          ∙ ap (λ y. some (as_isize (pos (x.process y).pid), some (x.process y).exit_code, s''))
              same
          ∙ ap (λ y. some (as_isize (pos y), some (x.process child).exit_code, s'')) p
          ∙ ap (λ y. some (as_isize (pos pid), some y, s'')) code'),
      subst (λ y. in_use s''.pid_allocator y ≡ false) (same_pid ∙ p) free,
    )

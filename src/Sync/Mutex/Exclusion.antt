-- ===== src/Sync/Mutex/Exclusion.antt =====
-- The blocking mutex of mutex.rs: mutual exclusion, and who gets it next.
use t_core.Base.{
  ℕ, ◌≡◌, refl, Bool, true, false, some, List, [], ◌∷◌, ◌++◌, arith, contains, remove,
  if◌then◌else◌, Bool-cases, inl, inr, subst₂, if_true, if_false, ◌∙◌, ap, sym,
}
use t_core.Task.Scheduler.{
  Kernel, wakeup_task, run_tasks_round, suspend_current_and_run_next, block_current_and_run_next,
}
use t_core.Task.Scheduler.Consistency.{
  IsConsistent, run_tasks_round-IsConsistent, wakeup_task-IsConsistent,
}
use t_core.Task.Scheduler.Waiting.{
  suspend-KeepsBlocked, block-KeepsBlocked, wakeup_elsewhere, IsBlocked, IsWaiting, KeepsBlocked,
  keep_waiting, block-IsWaiting, wakeup-IsWaiting, run_tasks_round-KeepsBlocked, is_blocked, woken,
  woken-none, woken-front, running-not_blocked, last-blocked,
}
use t_core.Sync.Mutex.{MutexBlocking, new, lock, unlock, hand_on}

-- The tasks whose call of `lock` has returned, or returns as soon as they run, and that have not
-- called `unlock` since: a call has returned unless its task is blocked, and that of a task of the queue
-- returns when the task is no longer blocked.
pub record System : Type 0 where
  pub kernel : Kernel
  pub mutex : MutexBlocking
  pub holders : List ℕ

-- A task calls `lock` unless it holds the mutex, and `unlock` only if it does; other tasks run, yield
-- and wait for other things.
pub data Step (s : System) (u : System) : Type 0 where
  locks :
      (t : ℕ) (m : MutexBlocking) (k : Kernel)
      → s.kernel.current ≡ some t
      → contains s.holders t ≡ false
      → lock s.mutex s.kernel ≡ some (m, k)
      → u ≡ record {
        kernel = k;
        mutex = m;
        holders = if is_blocked (k.task_status t) then s.holders else t ∷ s.holders;
      }
      → Step s u
  unlocks :
      (t : ℕ) (m : MutexBlocking) (k : Kernel)
      → s.kernel.current ≡ some t
      → contains s.holders t ≡ true
      → unlock s.mutex s.kernel ≡ some (m, k)
      → u ≡ record {
        kernel = k;
        mutex = m;
        holders = woken k s.mutex.wait_queue ++ remove s.holders t;
      }
      → Step s u
  yields :
      (t : ℕ) (k : Kernel)
      → s.kernel.current ≡ some t
      → suspend_current_and_run_next s.kernel ≡ some k
      → u ≡ record s { kernel = k }
      → Step s u
  idles : u ≡ record s { kernel = run_tasks_round s.kernel } → Step s u
  blocks_elsewhere :
      (t : ℕ) (k : Kernel)
      → s.kernel.current ≡ some t
      → block_current_and_run_next s.kernel ≡ some k
      → u ≡ record s { kernel = k }
      → Step s u
  wakes_elsewhere :
      (t : ℕ)
      → IsBlocked s.kernel t
      → contains s.mutex.wait_queue t ≡ false
      → u ≡ record s { kernel = wakeup_task t s.kernel }
      → Step s u

pub data Reach (s : System) : System → Type 0 where
  here : Reach s s
  next : {t u : System} → Reach s t → Step t u → Reach s u

-- An unlocked mutex has neither holder nor waiter; a locked one has one holder.
abbrev pub Held : Bool → List ℕ → List ℕ → Type 0
Held false holders queue = (holders ≡ []) × (queue ≡ [])
Held true holders queue = (t : ℕ) × (holders ≡ t ∷ [])

pub record Guarded (s : System) : Type 0 where
  pub consistent : IsConsistent s.kernel
  pub waiting : IsWaiting s.kernel s.mutex.wait_queue
  pub held : Held s.mutex.locked s.holders s.mutex.wait_queue

-- The waiting task's part of `lock`.
lock-wait :
    (m : MutexBlocking) (k : Kernel) (t : ℕ)
    → IsConsistent k
    → IsWaiting k m.wait_queue
    → k.current ≡ some t
    → m.locked ≡ true
    → (k' : Kernel) × (lock m k ≡ some (record m { wait_queue = m.wait_queue ++ t ∷ [] }, k'))
      × IsConsistent k'
      × IsWaiting k' (m.wait_queue ++ t ∷ [])
unfolding lock
lock-wait m k t v w e h =
    let (k', q, v', w', _) = block-IsWaiting k t m.wait_queue v w e in (k', ground arith, v', w')

Held-true : (b : Bool) (hs q r : List ℕ) → b ≡ true → Held b hs q → Held b hs r
Held-true true hs q r e h = h
Held-true false hs q r e h = cc

Held-false : (b : Bool) (hs q : List ℕ) → b ≡ false → Held b hs q → (hs ≡ []) × (q ≡ [])
Held-false true hs q e h = cc
Held-false false hs q e h = h

-- The holders after a call of `lock` by `t`.
abbrev locked_by : ℕ → System → Kernel → List ℕ
locked_by t s k = if is_blocked (k.task_status t) then s.holders else t ∷ s.holders

lock-Guarded :
    (s : System) (t : ℕ) {m : MutexBlocking} {k : Kernel}
    → Guarded s
    → s.kernel.current ≡ some t
    → lock s.mutex s.kernel ≡ some (m, k)
    → Guarded (record { kernel = k; mutex = m; holders = locked_by t s k })
unfolding lock
lock-Guarded s t {m} {k} g e h = elim (Bool-cases s.mutex.locked) [
  | inl taken ↦
      let (k', q, v, w) = lock-wait s.mutex s.kernel t g.consistent g.waiting e taken in
      let m' : MutexBlocking = record s.mutex { wait_queue = s.mutex.wait_queue ++ t ∷ [] } in
      let same_m : m' ≡ m = cc in
      let same_k : k' ≡ k = cc in
      subst₂ (λ x y. Guarded (record { kernel = y; mutex = x; holders = locked_by t s y })) same_m
        same_k
        (record {
          consistent = v;
          waiting = w;
          held =
              rw
                (if_true _ s.holders (t ∷ s.holders)
                  (last-blocked k' s.mutex.wait_queue t w.all_blocked))
                (Held-true s.mutex.locked s.holders s.mutex.wait_queue m'.wait_queue taken g.held);
        })
  | inr free ↦
      let nobody : (s.holders ≡ []) × (s.mutex.wait_queue ≡ []) =
        Held-false s.mutex.locked s.holders s.mutex.wait_queue free g.held in
      let m' : MutexBlocking = record s.mutex { locked = true } in
      let same_m : m' ≡ m = ground arith in
      let same_k : s.kernel ≡ k = ground arith in
      subst₂ (λ x y. Guarded (record { kernel = y; mutex = x; holders = locked_by t s y })) same_m
        same_k
        (record {
          consistent = g.consistent;
          waiting = g.waiting;
          held = (
            t,
            if_false _ s.holders (t ∷ s.holders) (running-not_blocked s.kernel t g.consistent e)
                ∙ ap (◌∷◌ t) nobody.0,
          );
        })
]

hand_on-Guarded :
    (q : List ℕ) (k : Kernel) (t : ℕ)
    → IsConsistent k
    → IsWaiting k q
    → let (m, k') = hand_on q (record { locked = true; wait_queue = q }) k in
      Guarded (record { kernel = k'; mutex = m; holders = woken k' q ++ remove (t ∷ []) t })
unfolding hand_on
hand_on-Guarded [] k t v w = record {
  consistent = v;
  waiting = w;
  held = (rw (woken-none k [] tt) (ground arith), refl);
}
hand_on-Guarded (u ∷ q) k t v w = record {
  consistent = wakeup_task-IsConsistent k u v w.all_blocked.0;
  waiting = wakeup-IsWaiting k u q w;
  held = (u, rw (woken-front k u q w) (ground arith));
}

-- The only holder of a locked mutex is the task that is known to hold it.
pub Held-holder :
    (b : Bool) (hs q : List ℕ) (t : ℕ)
    → contains hs t ≡ true
    → Held b hs q
    → (b ≡ true) × (hs ≡ t ∷ [])
Held-holder false hs q t c h = absurd (ground arith)
Held-holder true hs q t c (o, e) =
    let same : o ≡ t = ground arith in (refl, e ∙ ap (λ x. x ∷ []) same)

pub unlock-eq :
    (m : MutexBlocking) (k : Kernel)
    → m.locked ≡ true
    → unlock m k
      ≡ some (hand_on m.wait_queue (record { locked = true; wait_queue = m.wait_queue }) k)
unfolding unlock
unlock-eq m k h = rw h refl

unlock-Guarded :
    (s : System) (t : ℕ) {m : MutexBlocking} {k : Kernel}
    → Guarded s
    → contains s.holders t ≡ true
    → unlock s.mutex s.kernel ≡ some (m, k)
    → Guarded (record {
      kernel = k;
      mutex = m;
      holders = woken k s.mutex.wait_queue ++ remove s.holders t;
    })
unlock-Guarded s t {m} {k} g c h =
    let (taken, only) = Held-holder s.mutex.locked s.holders s.mutex.wait_queue t c g.held in
    let q = s.mutex.wait_queue in
    let after : MutexBlocking × Kernel =
      hand_on q (record { locked = true; wait_queue = q }) s.kernel in
    let same : some after ≡ some (m, k) = sym (unlock-eq s.mutex s.kernel taken) ∙ h in
    let same_m : after.0 ≡ m = cc in
    let same_k : after.1 ≡ k = cc in
    rw only (
      subst₂
        (λ x y.
          Guarded (record { kernel = y; mutex = x; holders = woken y q ++ remove (t ∷ []) t }))
        same_m same_k (hand_on-Guarded q s.kernel t g.consistent g.waiting))

-- The kernel moves on, and the mutex is left alone.
moved-Guarded :
    (s : System) (k : Kernel)
    → Guarded s
    → IsConsistent k × KeepsBlocked s.kernel k
    → Guarded (record s { kernel = k })
moved-Guarded s k g (v, keep) = record {
  consistent = v;
  waiting = keep_waiting s.kernel k s.mutex.wait_queue keep g.waiting;
  held = g.held;
}

Step-Guarded : {s u : System} → Guarded s → Step s u → Guarded u
Step-Guarded {s} g (Step.locks t m k c _ h e) = rw e (lock-Guarded s t g c h)
Step-Guarded {s} g (Step.unlocks t m k c held h e) = rw e (unlock-Guarded s t g held h)
Step-Guarded {s} g (Step.yields t k c h e) =
    rw e (moved-Guarded s k g (suspend-KeepsBlocked s.kernel t g.consistent c h))
Step-Guarded {s} g (Step.idles e) = rw e (
    moved-Guarded s _ g (
      run_tasks_round-IsConsistent s.kernel g.consistent,
      run_tasks_round-KeepsBlocked s.kernel g.consistent,
    ))
Step-Guarded {s} g (Step.blocks_elsewhere t k c h e) =
    rw e (moved-Guarded s k g (block-KeepsBlocked s.kernel t g.consistent c h))
Step-Guarded {s} g (Step.wakes_elsewhere t b c e) = rw e (record {
  consistent = wakeup_task-IsConsistent s.kernel t g.consistent b;
  waiting = wakeup_elsewhere s.kernel t s.mutex.wait_queue g.waiting c;
  held = g.held;
})

-- In whatever order tasks run, lock, unlock, yield, block and wake up, starting with a new mutex and
-- a consistent kernel, as long as only a task that holds the mutex unlocks it and none that holds it
-- locks it again, and nothing else wakes up a task that waits for it: at most one task holds the
-- mutex at a time; it is locked exactly while one does, and has no waiter while none does; the
-- waiting tasks are distinct and blocked; and the ready queue agrees with the task states.
pub Reach-Guarded :
    (k : Kernel) {s : System}
    → IsConsistent k
    → Reach (record { kernel = k; mutex = new; holders = [] }) s
    → Guarded s
unfolding new
Reach-Guarded k v here = record {
  consistent = v;
  waiting = record { distinct = tt; all_blocked = tt };
  held = (refl, refl);
}
Reach-Guarded k v (next r step) = Step-Guarded (Reach-Guarded k v r) step

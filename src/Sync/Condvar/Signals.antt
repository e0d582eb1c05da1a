-- ===== src/Sync/Condvar/Signals.antt =====
-- Waiting and waking up in condvar.rs.
use t_core.Base.{
  ℕ, ◌≡◌, refl, true, false, some, List, [], ◌∷◌, ◌++◌, arith, sym, ◌∙◌, contains, All, append-nil,
  append_assoc, ◌⊎◌, subst, inl, inr,
}
use t_core.Task.Scheduler.{Kernel, ready, add_task, wakeup_task, block_current_and_run_next}
use t_core.Task.Scheduler.Consistency.{IsConsistent, wakeup_task-IsConsistent}
use t_core.Task.Scheduler.Waiting.{
  IsWaiting, keep_waiting, block-IsWaiting, wakeup-IsWaiting, wakeup_elsewhere,
}
use t_core.Sync.Mutex.{MutexBlocking, unlock, new}
use t_core.Sync.Mutex.Exclusion.{System, Guarded}
use t_core.Sync.Mutex.HandOver.{unlock_hands_on}
use t_core.Sync.Condvar.{signal, signal_all, wait}

-- `signal_all` empties the queue and puts every task that waited at the end of the ready queue, in
-- the order in which they came; the running task runs on, a task that did not wait keeps its state,
-- and the ready queue still agrees with the task states. The condition is that the kernel is
-- consistent, and that those in the queue are distinct and blocked.
pub signal_all_wakes :
    (q : List ℕ) (k : Kernel)
    → IsConsistent k
    → IsWaiting k q
    → let (q', k') = signal_all q k in
      (q' ≡ [])
      × (k'.ready_queue ≡ k.ready_queue ++ q)
      × (k'.current ≡ k.current)
      × ((t : ℕ) → contains q t ≡ false → k'.task_status t ≡ k.task_status t)
      × IsConsistent k'
unfolding signal_all wakeup_task add_task
signal_all_wakes [] k v w = (refl, sym (append-nil k.ready_queue), refl, λ t c. refl, v)
signal_all_wakes (u ∷ q) k v w =
    let woken = wakeup_task-IsConsistent k u v w.all_blocked.0 in
    let (e, r, c, st, v') = signal_all_wakes q (wakeup_task u k) woken (wakeup-IsWaiting k u q w) in
    (e, r ∙ append_assoc k.ready_queue (u ∷ []) q, c, λ t h. ground (arith, st t), v')

-- The mutex is free, or with the task that has waited longest for it, which is woken up.
abbrev pub GivenUp : System → MutexBlocking → Kernel → Type 0
GivenUp s m k =
    ((s.mutex.wait_queue ≡ []) × (m ≡ new) × (k ≡ s.kernel))
    ⊎ ((w : ℕ) × (rest : List ℕ) × (s.mutex.wait_queue ≡ w ∷ rest)
        × (m ≡ record { locked = true; wait_queue = rest })
        × (k ≡ wakeup_task w s.kernel))

-- What `unlock` leaves of the kernel and of a queue that shares no task with that of the mutex.
record Freed (s : System) (t : ℕ) (q : List ℕ) (m : MutexBlocking) (k : Kernel) : Type 0 where
  returns : unlock s.mutex s.kernel ≡ some (m, k)
  consistent : IsConsistent k
  waiting : IsWaiting k q
  contending : IsWaiting k m.wait_queue
  still_runs : k.current ≡ some t
  given_up : GivenUp s m k

unlock-Freed :
    (s : System) (t : ℕ) (q : List ℕ)
    → Guarded s
    → contains s.holders t ≡ true
    → s.kernel.current ≡ some t
    → IsWaiting s.kernel q
    → All (λ w. contains q w ≡ false) s.mutex.wait_queue
    → (m : MutexBlocking) × (k : Kernel) × Freed s t q m k
unfolding wakeup_task add_task new
unlock-Freed s t q g c e w apart =
    let (m, k, h, cases) = unlock_hands_on s t g c in
    (
      m,
      k,
      elim cases [
        | inl (free, em, ek) ↦ record {
          returns = h;
          consistent = rw ek g.consistent;
          waiting = rw ek w;
          contending = rw em record { distinct = tt; all_blocked = tt };
          still_runs = rw ek e;
          given_up = inl (free, em, ek);
        }
        | inr (u, rest, eq, em, ek) ↦
            let elsewhere : contains q u ≡ false =
              (subst (All (λ w. contains q w ≡ false)) eq apart).0 in
            let queued : IsWaiting s.kernel (u ∷ rest) = subst (IsWaiting s.kernel) eq g.waiting in
            record {
              returns = h;
              consistent =
                  rw ek (wakeup_task-IsConsistent s.kernel u g.consistent queued.all_blocked.0);
              waiting = rw ek (wakeup_elsewhere s.kernel u q w elsewhere);
              contending = rw em (rw ek (wakeup-IsWaiting s.kernel u rest queued));
              still_runs = rw ek e;
              given_up = inr (u, rest, eq, em, ek);
            }
      ],
    )

-- A task that holds the mutex and calls `wait` gives the mutex up, which is then free, or with the task
-- that has waited longest for it, which is woken up; and it is queued and blocks, without a step of
-- another task between the two: it does not panic, it stands behind those that wait
-- already, all of them and those that wait for the mutex are blocked, and the kernel is consistent.
-- The conditions are those that `lock` and `unlock` keep, and that no task waits in both queues.
pub wait_queues :
    (s : System) (t : ℕ) (q : List ℕ)
    → Guarded s
    → contains s.holders t ≡ true
    → s.kernel.current ≡ some t
    → IsWaiting s.kernel q
    → All (λ w. contains q w ≡ false) s.mutex.wait_queue
    → (m : MutexBlocking) × (k1 k : Kernel) × (wait q s.mutex s.kernel ≡ some (q ++ t ∷ [], m, k))
      × GivenUp s m k1
      × (block_current_and_run_next k1 ≡ some k)
      × IsConsistent k
      × IsWaiting k (q ++ t ∷ [])
      × IsWaiting k m.wait_queue
unfolding wait
wait_queues s t q g c e w apart =
    let (m, k, f) = unlock-Freed s t q g c e w apart in
    let (k', b, v', w', keep) = block-IsWaiting k t q f.consistent f.waiting f.still_runs in
    (
      m,
      k,
      k',
      rw f.returns (rw f.still_runs (rw b refl)),
      f.given_up,
      b,
      v',
      w',
      keep_waiting k k' m.wait_queue keep f.contending,
    )

All-trivial : (q : List ℕ) → All (λ w. contains [] w ≡ false) q
All-trivial [] = tt
All-trivial (w ∷ q) = (refl, All-trivial q)

-- No wake-up is lost: a task that waits alone is made ready by the next `signal`.
pub wait-signal :
    (s : System) (t : ℕ)
    → Guarded s
    → contains s.holders t ≡ true
    → s.kernel.current ≡ some t
    → (m : MutexBlocking) × (k : Kernel) × (wait [] s.mutex s.kernel ≡ some (t ∷ [], m, k))
      × (signal (t ∷ []) k ≡ ([], wakeup_task t k))
      × IsConsistent (wakeup_task t k)
      × ((wakeup_task t k).task_status t ≡ ready)
unfolding signal wakeup_task
wait-signal s t g c e =
    let nobody : IsWaiting s.kernel [] = record { distinct = tt; all_blocked = tt } in
    let (m, k1, k, h, _, _, v, w, _) =
      wait_queues s t [] g c e nobody (All-trivial s.mutex.wait_queue) in
    (m, k, h, refl, wakeup_task-IsConsistent k t v w.all_blocked.0, ground arith)

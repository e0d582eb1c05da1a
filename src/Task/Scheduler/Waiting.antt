-- ===== src/Task/Scheduler/Waiting.antt =====
-- Tasks that wait in a queue outside the scheduler of manager.rs, as those of a mutex do: they stay
-- blocked while others run.
use t_core.Base.{
  ap, ==-self, Bool, true, if◌then◌else◌, ℕ, ◌≡◌, ◌≢◌, refl, false, some, List, [], ◌∷◌, ◌++◌,
  arith, contains, Distinct, All, All-map, subst, append-Distinct, All-append,
}
use t_core.Task.Scheduler.{
  Kernel, TaskStatus, ready, running, blocked, set_status, wakeup_task, run_tasks_round, schedule,
  block_current_and_run_next, suspend_current_and_run_next,
}
use t_core.Task.Scheduler.Consistency.{
  IsConsistent, Runs, run_tasks_round-IsConsistent, stopped, block_current_task-eq,
  stopped-IsConsistent, yielded, yielded-IsConsistent,
}

abbrev pub IsBlocked : Kernel → ℕ → Type 0
IsBlocked k t = k.task_status t ≡ blocked

-- A queue of distinct blocked tasks.
pub record IsWaiting (k : Kernel) (q : List ℕ) : Type 0 where
  pub distinct : Distinct q
  pub all_blocked : All (IsBlocked k) q

-- The blocked tasks of one kernel are blocked in another.
abbrev pub KeepsBlocked : Kernel → Kernel → Type 0
KeepsBlocked k k' = (t : ℕ) → IsBlocked k t → IsBlocked k' t

pub keep_waiting : (k k' : Kernel) (q : List ℕ) → KeepsBlocked k k' → IsWaiting k q → IsWaiting k' q
keep_waiting k k' q keep w = record {
  distinct = w.distinct;
  all_blocked = All-map (IsBlocked k) (IsBlocked k') q keep w.all_blocked;
}

round_from-KeepsBlocked :
    (q : List ℕ) (k : Kernel)
    → IsConsistent (record k { ready_queue = q })
    → KeepsBlocked k (run_tasks_round (record k { ready_queue = q }))
unfolding run_tasks_round
round_from-KeepsBlocked [] k v t b = b
round_from-KeepsBlocked (u ∷ rest) k v t b = ground (arith, v.queued u, v.queued t)

pub run_tasks_round-KeepsBlocked :
    (k : Kernel) → IsConsistent k → KeepsBlocked k (run_tasks_round k)
run_tasks_round-KeepsBlocked k v = round_from-KeepsBlocked k.ready_queue k v

pub set_status-KeepsBlocked :
    (k : Kernel) (t : ℕ) (st : TaskStatus)
    → k.task_status t ≢ blocked
    → KeepsBlocked k (set_status t st k)
set_status-KeepsBlocked k t st h u b = ground arith

not-waiting :
    (k : Kernel) (t : ℕ) (q : List ℕ)
    → k.task_status t ≢ blocked
    → All (IsBlocked k) q
    → contains q t ≡ false
not-waiting k t [] h a = refl
not-waiting k t (x ∷ q) h a = ground (arith, not-waiting k t q h a.1)

-- The running task joins the queue and blocks.
pub block-IsWaiting :
    (k : Kernel) (t : ℕ) (q : List ℕ)
    → IsConsistent k
    → IsWaiting k q
    → k.current ≡ some t
    → (k' : Kernel) × (block_current_and_run_next k ≡ some k')
      × IsConsistent k'
      × IsWaiting k' (q ++ t ∷ [])
      × KeepsBlocked k k'
unfolding block_current_and_run_next schedule
block-IsWaiting k t q v w e =
    let running_now : k.task_status t ≡ running = subst (Runs k) e v.runs in
    let s : Kernel = stopped k t in
    let vs : IsConsistent s = stopped-IsConsistent k t v e in
    let keep : KeepsBlocked k s = λ u b. ground arith in
    let next : KeepsBlocked s (run_tasks_round s) = run_tasks_round-KeepsBlocked s vs in
    let queued : IsWaiting s (q ++ t ∷ []) = record {
      distinct =
          append-Distinct q t w.distinct (not-waiting k t q (λ b. ground arith) w.all_blocked);
      all_blocked =
          All-append (IsBlocked s) q (t ∷ []) (keep_waiting k s q keep w).all_blocked
            (ground arith, tt);
    } in
    (
      run_tasks_round s,
      rw (block_current_task-eq k t e) refl,
      run_tasks_round-IsConsistent s vs,
      keep_waiting s (run_tasks_round s) (q ++ t ∷ []) next queued,
      λ u b. next u (keep u b),
    )

All-IsBlocked-set_status :
    (k : Kernel) (t : ℕ) (st : TaskStatus) (q : List ℕ)
    → contains q t ≡ false
    → All (IsBlocked k) q
    → All (IsBlocked (set_status t st k)) q
All-IsBlocked-set_status k t st [] h a = tt
All-IsBlocked-set_status k t st (x ∷ q) h a = ground (arith, All-IsBlocked-set_status k t st q)

-- The task at the front of the queue is woken up; the others wait on.
pub wakeup-IsWaiting :
    (k : Kernel) (t : ℕ) (q : List ℕ) → IsWaiting k (t ∷ q) → IsWaiting (wakeup_task t k) q
unfolding wakeup_task
wakeup-IsWaiting k t q w = record {
  distinct = w.distinct.1;
  all_blocked = All-IsBlocked-set_status k t ready q w.distinct.0 w.all_blocked.1;
}

-- A task that yields does not wake the others.
pub suspend-KeepsBlocked :
    (k : Kernel) (t : ℕ) {k' : Kernel}
    → IsConsistent k
    → k.current ≡ some t
    → suspend_current_and_run_next k ≡ some k'
    → IsConsistent k' × KeepsBlocked k k'
unfolding suspend_current_and_run_next schedule
suspend-KeepsBlocked k t {k'} v e h =
    let running_now : k.task_status t ≡ running = subst (Runs k) e v.runs in
    let y : Kernel = yielded k t in
    let vy : IsConsistent y = yielded-IsConsistent k t v e in
    let keep : KeepsBlocked k (run_tasks_round y) =
      λ u b. run_tasks_round-KeepsBlocked y vy u (ground arith) in
    let same : run_tasks_round y ≡ k' = ground arith in
    subst (λ x. IsConsistent x × KeepsBlocked k x) same (run_tasks_round-IsConsistent y vy, keep)

pub block-KeepsBlocked :
    (k : Kernel) (t : ℕ) {k' : Kernel}
    → IsConsistent k
    → k.current ≡ some t
    → block_current_and_run_next k ≡ some k'
    → IsConsistent k' × KeepsBlocked k k'
block-KeepsBlocked k t {k'} v e h =
    let (x, q, vx, _, keep) =
      block-IsWaiting k t [] v (record { distinct = tt; all_blocked = tt }) e in
    let same : x ≡ k' = cc in subst (λ x. IsConsistent x × KeepsBlocked k x) same (vx, keep)

pub wakeup_elsewhere :
    (k : Kernel) (t : ℕ) (q : List ℕ)
    → IsWaiting k q
    → contains q t ≡ false
    → IsWaiting (wakeup_task t k) q
unfolding wakeup_task
wakeup_elsewhere k t q w c = record {
  distinct = w.distinct;
  all_blocked = All-IsBlocked-set_status k t ready q c w.all_blocked;
}

abbrev pub is_blocked : TaskStatus → Bool
is_blocked blocked = true
is_blocked _ = false

-- Those of a queue that a kernel does not have blocked.
pub woken : Kernel → List ℕ → List ℕ
woken k [] = []
woken k (t ∷ q) = if is_blocked (k.task_status t) then woken k q else t ∷ woken k q

pub woken-none : (k : Kernel) (q : List ℕ) → All (IsBlocked k) q → woken k q ≡ []
unfolding woken
woken-none k [] a = refl
woken-none k (t ∷ q) a = rw a.0 (woken-none k q a.1)

wakeup_task-ready : (k : Kernel) (t : ℕ) → (wakeup_task t k).task_status t ≡ ready
unfolding wakeup_task
wakeup_task-ready k t = rw (==-self t) refl

-- Waking up the front of a queue wakes it up, and no other.
pub woken-front :
    (k : Kernel) (t : ℕ) (q : List ℕ)
    → IsWaiting k (t ∷ q)
    → woken (wakeup_task t k) (t ∷ q) ≡ t ∷ []
unfolding woken
woken-front k t q w =
    let up : (wakeup_task t k).task_status t ≡ ready = wakeup_task-ready k t in
    rw up (ap (◌∷◌ t) (woken-none (wakeup_task t k) q (wakeup-IsWaiting k t q w).all_blocked))

pub running-not_blocked :
    (k : Kernel) (t : ℕ)
    → IsConsistent k
    → k.current ≡ some t
    → is_blocked (k.task_status t) ≡ false
running-not_blocked k t v e =
    let runs : k.task_status t ≡ running = subst (Runs k) e v.runs in rw runs refl

pub last-blocked :
    (k : Kernel) (q : List ℕ) (t : ℕ)
    → All (IsBlocked k) (q ++ t ∷ [])
    → is_blocked (k.task_status t) ≡ true
last-blocked k [] t a = rw a.0 refl
last-blocked k (x ∷ q) t a = last-blocked k q t a.1

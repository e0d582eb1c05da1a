-- ===== src/Sync/Semaphore/Permits.antt =====
-- The permits of a semaphore of semaphore.rs: none is given twice, and none is held back.
use t_core.Base.{
  ℕ, zero, suc, ◌+◌, ◌^◌, ◌≤◌, ◌<◌, ◌≡◌, refl, Option, some, List, [], ◌∷◌, ◌++◌, arith, length,
  if◌then◌else◌, ℤ, pos, negsuc, pos_part, neg_part, as_isize, length-append, sym, ◌∙◌, subst₂,
}
use t_core.Task.Scheduler.{Kernel, run_tasks_round, suspend_current_and_run_next}
use t_core.Task.Scheduler.Consistency.{
  IsConsistent, run_tasks_round-IsConsistent, wakeup_task-IsConsistent,
}
use t_core.Task.Scheduler.Waiting.{
  IsWaiting, keep_waiting, block-IsWaiting, wakeup-IsWaiting, run_tasks_round-KeepsBlocked,
  suspend-KeepsBlocked, woken, woken-none, woken-front, running-not_blocked, last-blocked,
  is_blocked,
}
use t_core.Sync.Semaphore.Counts.{suc_ℤ, pred_ℤ, sem, suc_ℤ-eq, up_pos, up_neg, down_pos, down_neg}
use t_core.Sync.Semaphore.{Semaphore, new, up, down, wake_front}

-- `ups` counts the calls of `up`, and `passed` the calls of `down` that have returned, or return as
-- soon as their task runs.
pub record System : Type 0 where
  pub kernel : Kernel
  pub semaphore : Semaphore
  pub ups : ℕ
  pub passed : ℕ

-- The tasks of the queue that a call of `up` lets pass, and whether one of `down` returns: it does unless
-- its task is blocked.
abbrev let_pass : Kernel → List ℕ → ℕ
let_pass k q = length (woken k q)

abbrev passing : ℕ → Kernel → ℕ
passing t k = if is_blocked (k.task_status t) then 0 else 1

pub data Step (s : System) (u : System) : Type 0 where
  raises :
      u ≡ record {
        kernel = (up s.semaphore s.kernel).1;
        semaphore = (up s.semaphore s.kernel).0;
        ups = s.ups + 1;
        passed = s.passed + let_pass (up s.semaphore s.kernel).1 s.semaphore.wait_queue;
      }
      → Step s u
  lowers :
      (t : ℕ) (m : Semaphore) (k : Kernel)
      → s.kernel.current ≡ some t
      → down s.semaphore s.kernel ≡ some (m, k)
      → u ≡ record { kernel = k; semaphore = m; ups = s.ups; passed = s.passed + passing t k }
      → Step s u
  yields :
      (t : ℕ) (k : Kernel)
      → s.kernel.current ≡ some t
      → suspend_current_and_run_next s.kernel ≡ some k
      → u ≡ record s { kernel = k }
      → Step s u
  idles : u ≡ record s { kernel = run_tasks_round s.kernel } → Step s u

-- Steps, at most `n` of them.
pub data Reach (s : System) : ℕ → System → Type 0 where
  here : Reach s zero s
  next : {n : ℕ} {t u : System} → Reach s n t → Step t u → Reach s (suc n) u

-- The permits that are given make up the resources with those that are left; a task waits exactly
-- for each missing one.
pub record Balanced (res : ℕ) (s : System) : Type 0 where
  pub consistent : IsConsistent s.kernel
  pub waiting : IsWaiting s.kernel s.semaphore.wait_queue
  pub permits : s.passed + pos_part s.semaphore.count ≡ res + s.ups
  pub missing : length s.semaphore.wait_queue ≡ neg_part s.semaphore.count

negsuc_permits :
    (n res ups passed : ℕ)
    → passed + 0 ≡ res + ups
    → passed + 1 + pos_part (suc_ℤ (negsuc n)) ≡ res + (ups + 1)
negsuc_permits zero res ups passed h = omega arith
negsuc_permits (suc n) res ups passed h = omega arith

negsuc_missing : (n l : ℕ) → l ≡ n → l ≡ neg_part (suc_ℤ (negsuc n))
negsuc_missing zero l h = h
negsuc_missing (suc n) l h = h

up-Balanced :
    (res ups passed : ℕ) (c : ℤ) (q : List ℕ) (k : Kernel)
    → pos_part c + 1 < 2 ^ 63
    → neg_part c + 1 < 2 ^ 63
    → let s : System = record { kernel = k; semaphore = sem c q; ups = ups; passed = passed } in
      Balanced res s
      → Balanced res (record {
        kernel = (up (sem c q) k).1;
        semaphore = (up (sem c q) k).0;
        ups = ups + 1;
        passed = passed + let_pass (up (sem c q) k).1 q;
      })
up-Balanced res ups passed (pos n) q k h g b = rw (up_pos n q k h) (record {
  consistent = b.consistent;
  waiting = b.waiting;
  permits = rw (woken-none k q b.waiting.all_blocked) (omega (arith, b.permits));
  missing = b.missing;
})
up-Balanced res ups passed (negsuc n) [] k h g b = absurd (ground (arith, b.missing))
up-Balanced res ups passed (negsuc n) (t ∷ q) k h g b = rw (up_neg n t q k (omega arith)) (record {
  consistent = wakeup_task-IsConsistent k t b.consistent b.waiting.all_blocked.0;
  waiting = wakeup-IsWaiting k t q b.waiting;
  permits =
      rw (woken-front k t q b.waiting) (omega (arith, negsuc_permits n res ups passed b.permits));
  missing = negsuc_missing n (length q) (omega (arith, b.missing));
})

-- A call of `down` that has to wait.
down_wait-Balanced :
    (res ups passed t : ℕ) (c : ℤ) (q : List ℕ) (k : Kernel)
    → pos_part c ≡ 0
    → neg_part c + 1 < 2 ^ 63
    → k.current ≡ some t
    → Balanced res (record { kernel = k; semaphore = sem c q; ups = ups; passed = passed })
    → (pos_part (pred_ℤ c) ≡ 0)
    → neg_part (pred_ℤ c) ≡ neg_part c + 1
    → (m : Semaphore) × (k' : Kernel) × (down (sem c q) k ≡ some (m, k'))
      × Balanced res
          (record { kernel = k'; semaphore = m; ups = ups; passed = passed + passing t k' })
      × (pos_part m.count ≤ pos_part c)
      × (neg_part m.count ≤ neg_part c + 1)
down_wait-Balanced res ups passed t c q k z g e b zp np =
    let (k', r, v, w, _) = block-IsWaiting k t q b.consistent b.waiting e in
    (
      sem (pred_ℤ c) (q ++ t ∷ []),
      k',
      down_neg c t q k k' z g e r,
      record {
        consistent = v;
        waiting = w;
        permits = rw (last-blocked k' q t w.all_blocked) (omega (arith, b.permits));
        missing = omega (arith, b.missing, length-append q (t ∷ []));
      },
      omega arith,
      omega arith,
    )

down-Balanced :
    (res ups passed t : ℕ) (c : ℤ) (q : List ℕ) (k : Kernel)
    → pos_part c + 1 < 2 ^ 63
    → neg_part c + 1 < 2 ^ 63
    → k.current ≡ some t
    → let s : System = record { kernel = k; semaphore = sem c q; ups = ups; passed = passed } in
      Balanced res s
      → (m : Semaphore) × (k' : Kernel) × (down (sem c q) k ≡ some (m, k'))
        × Balanced res
            (record { kernel = k'; semaphore = m; ups = ups; passed = passed + passing t k' })
        × (pos_part m.count ≤ pos_part c)
        × (neg_part m.count ≤ neg_part c + 1)
down-Balanced res ups passed t (pos zero) q k h g e b =
    down_wait-Balanced res ups passed t (pos zero) q k refl g e b refl refl
down-Balanced res ups passed t (pos (suc n)) q k h g e b = (
  sem (pos n) q,
  k,
  down_pos n q k (omega arith),
  record {
    consistent = b.consistent;
    waiting = b.waiting;
    permits = rw (running-not_blocked k t b.consistent e) (omega (arith, b.permits));
    missing = b.missing;
  },
  omega arith,
  omega arith,
)
down-Balanced res ups passed t (negsuc n) q k h g e b =
    (down_wait-Balanced res ups passed t (negsuc n) q k refl g e b refl (omega arith))

suc_ℤ-bounds : (c : ℤ) → (pos_part (suc_ℤ c) ≤ pos_part c + 1) × (neg_part (suc_ℤ c) ≤ neg_part c)
suc_ℤ-bounds (pos n) = (omega arith, omega arith)
suc_ℤ-bounds (negsuc zero) = (omega arith, omega arith)
suc_ℤ-bounds (negsuc (suc n)) = (omega arith, omega arith)

wake_front-count : (q : List ℕ) (s : Semaphore) (k : Kernel) → (wake_front q s k).0.count ≡ s.count
unfolding wake_front
wake_front-count [] s k = refl
wake_front-count (t ∷ q) s k = refl

up-count :
    (c : ℤ) (q : List ℕ) (k : Kernel)
    → pos_part c + 1 < 2 ^ 63
    → neg_part c + 1 < 2 ^ 63
    → (up (sem c q) k).0.count ≡ suc_ℤ c
unfolding up
up-count c q k h g =
    rw (suc_ℤ-eq c h (omega arith)) (ground (arith, wake_front-count q (sem (suc_ℤ c) q) k))

-- After `n` steps the permits and the waiting tasks are bounded.
abbrev Bounded : ℕ → ℕ → System → Type 0
Bounded res n s = (pos_part s.semaphore.count ≤ res + n) × (neg_part s.semaphore.count ≤ n)

Step-Balanced :
    (res n : ℕ) {s u : System}
    → res + n + 1 < 2 ^ 63
    → Balanced res s × Bounded res n s
    → Step s u
    → Balanced res u × Bounded res (suc n) u
Step-Balanced res n {s} h (b, (bp, bn)) (Step.raises e) =
    let c = s.semaphore.count in
    let q = s.semaphore.wait_queue in
    let small : pos_part c + 1 < 2 ^ 63 = omega arith in
    let small' : neg_part c + 1 < 2 ^ 63 = omega arith in
    let count = up-count c q s.kernel small small' in
    let (p, m) = suc_ℤ-bounds c in
    rw e (
      up-Balanced res s.ups s.passed c q s.kernel small small' b,
      (rw count (omega arith), rw count (omega arith)),
    )
Step-Balanced res n {s} h (b, (bp, bn)) (Step.lowers t m k c d e) =
    let small : pos_part s.semaphore.count + 1 < 2 ^ 63 = omega arith in
    let small' : neg_part s.semaphore.count + 1 < 2 ^ 63 = omega arith in
    let (m', k', d', b', p', n') =
      down-Balanced res s.ups s.passed t s.semaphore.count s.semaphore.wait_queue s.kernel small
        small' c b in
    let same : ◌≡◌ {A = Option (Semaphore × Kernel)} (some (m', k')) (some (m, k)) = sym d' ∙ d in
    let same_m : m' ≡ m = cc in
    let same_k : k' ≡ k = cc in
    rw e (
      subst₂
        (λ x y.
          Balanced res
            (record { kernel = y; semaphore = x; ups = s.ups; passed = s.passed + passing t y })
          × ((pos_part x.count ≤ res + suc n) × (neg_part x.count ≤ suc n)))
        same_m same_k (b', (omega arith, omega arith)))
Step-Balanced res n {s} h (b, (bp, bn)) (Step.yields t k c d e) =
    let (v, keep) = suspend-KeepsBlocked s.kernel t b.consistent c d in
    rw e (
      record {
        consistent = v;
        waiting = keep_waiting s.kernel k s.semaphore.wait_queue keep b.waiting;
        permits = b.permits;
        missing = b.missing;
      },
      (omega arith, omega arith),
    )
Step-Balanced res n {s} h (b, (bp, bn)) (Step.idles e) = rw e (
  record {
    consistent = run_tasks_round-IsConsistent s.kernel b.consistent;
    waiting =
        keep_waiting s.kernel _ s.semaphore.wait_queue
          (run_tasks_round-KeepsBlocked s.kernel b.consistent) b.waiting;
    permits = b.permits;
    missing = b.missing;
  },
  (omega arith, omega arith),
)

Reach-Bounded :
    (res : ℕ) (k : Kernel) (n : ℕ) {s : System}
    → res + n < 2 ^ 63
    → IsConsistent k
    → Reach (record { kernel = k; semaphore = new res; ups = 0; passed = 0 }) n s
    → Balanced res s × Bounded res n s
unfolding new
Reach-Bounded res k n h v here =
    let start : as_isize (pos res) ≡ pos res = ground arith in
    (
      record {
        consistent = v;
        waiting = record { distinct = tt; all_blocked = tt };
        permits = rw start (omega arith);
        missing = rw start refl;
      },
      (rw start (omega arith), rw start (omega arith)),
    )
Reach-Bounded res k (suc n) h v (next r step) =
    Step-Balanced res n (omega arith) (Reach-Bounded res k n (omega arith) v r) step

-- A semaphore that starts with `res` resources, with fewer than 2 ^ 63 of them and steps together, and
-- on a consistent kernel, in whatever order tasks call `up` and `down`, yield and idle: the permits
-- given and those left make up `res` and the calls of `up`; the tasks that wait are distinct and
-- blocked, and there are as many of them as the count is below zero.
pub Reach-Balanced :
    (res : ℕ) (k : Kernel) (n : ℕ) {s : System}
    → res + n < 2 ^ 63
    → IsConsistent k
    → Reach (record { kernel = k; semaphore = new res; ups = 0; passed = 0 }) n s
    → Balanced res s
Reach-Balanced res k n h v r = (Reach-Bounded res k n h v r).0

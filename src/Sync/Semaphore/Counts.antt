-- ===== src/Sync/Semaphore/Counts.antt =====
-- The calls of semaphore.rs by the sign of the count.
use t_core.Base.{
  ℕ, zero, suc, ◌+◌, ◌^◌, ◌<◌, ◌≡◌, refl, some, List, [], ◌∷◌, ◌++◌, arith, ℤ, pos, negsuc,
  pos_part, neg_part, as_isize, ◌+ℤ◌, ◌-ℤ◌,
}
use t_core.Task.Scheduler.{Kernel, wakeup_task, block_current_and_run_next}
use t_core.Sync.Semaphore.{Semaphore, up, down, wake_front}

abbrev pub suc_ℤ : ℤ → ℤ
suc_ℤ (pos n) = pos (suc n)
suc_ℤ (negsuc zero) = pos 0
suc_ℤ (negsuc (suc n)) = negsuc n

abbrev pub pred_ℤ : ℤ → ℤ
pred_ℤ (pos zero) = negsuc 0
pred_ℤ (pos (suc n)) = pos n
pred_ℤ (negsuc n) = negsuc (suc n)

pub suc_ℤ-eq :
    (c : ℤ) → pos_part c + 1 < 2 ^ 63 → neg_part c < 2 ^ 63 → as_isize (c +ℤ pos 1) ≡ suc_ℤ c
suc_ℤ-eq (pos n) h k = ground arith
suc_ℤ-eq (negsuc zero) h k = refl
suc_ℤ-eq (negsuc (suc n)) h k = ground arith

pub pred_ℤ-eq :
    (c : ℤ) → pos_part c < 2 ^ 63 → neg_part c < 2 ^ 63 → as_isize (c -ℤ pos 1) ≡ pred_ℤ c
pred_ℤ-eq (pos zero) h k = refl
pred_ℤ-eq (pos (suc n)) h k = ground arith
pred_ℤ-eq (negsuc n) h k = ground arith

abbrev pub sem : ℤ → List ℕ → Semaphore
sem c q = record { count = c; wait_queue = q }

-- `up` and `down` by the sign of the count.
pub up_pos :
    (n : ℕ) (q : List ℕ) (k : Kernel)
    → n + 1 < 2 ^ 63
    → up (sem (pos n) q) k ≡ (sem (pos (suc n)) q, k)
unfolding up
up_pos n q k h = ground arith

pub up_neg :
    (n t : ℕ) (q : List ℕ) (k : Kernel)
    → suc n < 2 ^ 63
    → up (sem (negsuc n) (t ∷ q)) k ≡ (sem (suc_ℤ (negsuc n)) q, wakeup_task t k)
unfolding up wake_front
up_neg zero t q k h = refl
up_neg (suc n) t q k h = ground arith

pub down_pos :
    (n : ℕ) (q : List ℕ) (k : Kernel)
    → suc n < 2 ^ 63
    → down (sem (pos (suc n)) q) k ≡ some (sem (pos n) q, k)
unfolding down
down_pos n q k h = ground arith

pub down_neg :
    (c : ℤ) (t : ℕ) (q : List ℕ) (k k' : Kernel)
    → pos_part c ≡ 0
    → neg_part c + 1 < 2 ^ 63
    → k.current ≡ some t
    → block_current_and_run_next k ≡ some k'
    → down (sem c q) k ≡ some (sem (pred_ℤ c) (q ++ t ∷ []), k')
unfolding down
down_neg (pos zero) t q k k' z h e b = ground arith
down_neg (pos (suc n)) t q k k' z h e b = absurd (omega arith)
down_neg (negsuc n) t q k k' z h e b = ground arith

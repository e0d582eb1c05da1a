-- ===== src/Sync/Mutex/HandOver.antt =====
-- Who gets the blocking mutex of mutex.rs when it is given up.
use t_core.Base.{ℕ, ◌≡◌, refl, true, false, some, List, [], ◌∷◌, contains, inl, inr, ◌⊎◌}
use t_core.Task.Scheduler.{Kernel, wakeup_task}
use t_core.Sync.Mutex.{MutexBlocking, new, unlock, hand_on}
use t_core.Sync.Mutex.Exclusion.{System, Guarded, Held-holder, unlock-eq}

hand_on-cases :
    (q : List ℕ) (k : Kernel)
    → let (m, k') = hand_on q (record { locked = true; wait_queue = q }) k in
      (((q ≡ []) × (m ≡ record { locked = false; wait_queue = [] }) × (k' ≡ k))
        ⊎ ((w : ℕ) × (rest : List ℕ) × (q ≡ w ∷ rest)
            × (m ≡ record { locked = true; wait_queue = rest })
            × (k' ≡ wakeup_task w k)))
unfolding hand_on
hand_on-cases [] k = inl (refl, refl, refl)
hand_on-cases (w ∷ rest) k = inr (w, rest, refl, refl, refl)

-- `unlock` by the holder never panics. It hands the mutex, still locked, to the task that has waited
-- longest, which becomes the holder and is put at the end of the ready queue; with no waiter the
-- mutex becomes free, and the kernel stays as it is.
pub unlock_hands_on :
    (s : System) (t : ℕ)
    → Guarded s
    → contains s.holders t ≡ true
    → (m : MutexBlocking) × (k : Kernel) × (unlock s.mutex s.kernel ≡ some (m, k))
      × (((s.mutex.wait_queue ≡ []) × (m ≡ new) × (k ≡ s.kernel))
          ⊎ ((w : ℕ) × (rest : List ℕ) × (s.mutex.wait_queue ≡ w ∷ rest)
              × (m ≡ record { locked = true; wait_queue = rest })
              × (k ≡ wakeup_task w s.kernel)))
unfolding new
unlock_hands_on s t g c =
    let (taken, only) = Held-holder s.mutex.locked s.holders s.mutex.wait_queue t c g.held in
    let q = s.mutex.wait_queue in
    let after : MutexBlocking × Kernel =
      hand_on q (record { locked = true; wait_queue = q }) s.kernel in
    (after.0, after.1, unlock-eq s.mutex s.kernel taken, hand_on-cases q s.kernel)

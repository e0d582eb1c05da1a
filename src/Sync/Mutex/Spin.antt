-- ===== src/Sync/Mutex/Spin.antt =====
-- The spinning mutex of mutex.rs: mutual exclusion between the rounds of its loop.
use t_core.Base.{
  ℕ, ◌≡◌, refl, Bool, true, false, some, List, [], ◌∷◌, arith, contains, remove, if◌then◌else◌,
}
use t_core.Task.Scheduler.{Kernel}
use t_core.Sync.Mutex.{spin_lock_round, spin_unlock}

-- The flag, and the tasks between their `lock` and their `unlock`.
pub record Spinning : Type 0 where
  pub locked : Bool
  pub holders : List ℕ

pub data SpinStep (s : Spinning) (u : Spinning) : Type 0 where
  tries :
      (t : ℕ) (returns locked : Bool) (k k' : Kernel)
      → spin_lock_round s.locked k ≡ some (returns, locked, k')
      → u ≡ record { locked = locked; holders = if returns then t ∷ s.holders else s.holders }
      → SpinStep s u
  unlocks :
      (t : ℕ)
      → contains s.holders t ≡ true
      → u ≡ record { locked = spin_unlock s.locked; holders = remove s.holders t }
      → SpinStep s u

pub data SpinReach (s : Spinning) : Spinning → Type 0 where
  here : SpinReach s s
  next : {t u : Spinning} → SpinReach s t → SpinStep t u → SpinReach s u

abbrev pub OneHolder : Bool → List ℕ → Type 0
OneHolder false holders = holders ≡ []
OneHolder true holders = (t : ℕ) × (holders ≡ t ∷ [])

tries-OneHolder :
    (b : Bool) (hs : List ℕ) (t : ℕ) (returns locked : Bool) (k k' : Kernel)
    → OneHolder b hs
    → spin_lock_round b k ≡ some (returns, locked, k')
    → OneHolder locked (if returns then t ∷ hs else hs)
unfolding spin_lock_round
tries-OneHolder true hs t true locked k k' h e = absurd (ground arith)
tries-OneHolder true hs t false true k k' h e = h
tries-OneHolder true hs t false false k k' h e = absurd (ground arith)
tries-OneHolder false hs t true true k k' h e = (t, ground arith)
tries-OneHolder false hs t true false k k' h e = absurd (ground arith)
tries-OneHolder false hs t false locked k k' h e = absurd (ground arith)

unlocks-OneHolder :
    (b : Bool) (hs : List ℕ) (t : ℕ) → OneHolder b hs → contains hs t ≡ true → remove hs t ≡ []
unlocks-OneHolder false hs t h c = absurd (ground arith)
unlocks-OneHolder true hs t (o, e) c = ground arith

-- However tasks try, yield and unlock, starting with a new spinning mutex, at most one is between its
-- `lock` and its `unlock`, and the mutex is locked exactly while one is.
pub SpinReach-OneHolder :
    {s : Spinning}
    → SpinReach (record { locked = false; holders = [] }) s
    → OneHolder s.locked s.holders
unfolding spin_unlock
SpinReach-OneHolder SpinReach.here = refl
SpinReach-OneHolder (SpinReach.next {t = s} r (SpinStep.tries t returns locked k k' h e)) =
    rw e (tries-OneHolder s.locked s.holders t returns locked k k' (SpinReach-OneHolder r) h)
SpinReach-OneHolder (SpinReach.next {t = s} r (SpinStep.unlocks t c e)) =
    rw e (unlocks-OneHolder s.locked s.holders t (SpinReach-OneHolder r) c)

-- ===== src/Sync/Calls.antt =====
-- os/src/syscall/sync.rs: the mutexes, semaphores and condition variables of a process, by number.
pub mod Slots
pub mod Tests
use t_core.Base.{
  ◌>>=◌, ℕ, suc, Bool, false, Option, some, none, List, [], ◌∷◌, ◌++◌, if◌then◌else◌, length,
  get_elem?, set,
}
use t_core.Task.Scheduler.{Kernel}
use t_core.Sync.Mutex.{MutexBlocking, new}
use t_core.Sync.Semaphore.{Semaphore, up, down}
use t_core.Sync.Semaphore
use t_core.Sync.Condvar.{signal, signal_all}

-- The number of the first empty slot.
unfoldable pub first_empty {ℓ} : {A : Type ℓ} → List (Option A) → Option ℕ
first_empty [] = none
first_empty (none ∷ slots) = some 0
first_empty (some a ∷ slots) = do id ← first_empty slots; some (suc id)

unfoldable pub put {ℓ} : {A : Type ℓ} → Option ℕ → A → List (Option A) → ℕ × List (Option A)
put (some id) a slots = (id, set slots id (some a))
put none a slots = (length slots, slots ++ some a ∷ [])

-- What the calls that create an object do: it goes to the first empty slot, or else to a new one.
unfoldable pub create_slot {ℓ} : {A : Type ℓ} → A → List (Option A) → ℕ × List (Option A)
unfolding first_empty put
create_slot a slots = put (first_empty slots) a slots

-- The object in a slot; `none` is the panic when there is none.
unfoldable pub in_slot {ℓ} : {A : Type ℓ} → List (Option A) → ℕ → Option A
in_slot slots id = do slot ← get_elem? slots id; slot

-- A mutex of either kind: the lock of a spinning one, or a blocking one.
pub data AnyMutex : Type 0 where
  spin : Bool → AnyMutex
  blocking : MutexBlocking → AnyMutex

-- The tables of a process, and the kernel.
pub record Tables : Type 0 where
  pub mutex_list : List (Option AnyMutex)
  pub semaphore_list : List (Option Semaphore)
  pub condvar_list : List (Option (List ℕ))
  pub kernel : Kernel

pub sys_mutex_create : Bool → Tables → ℕ × Tables
unfolding create_slot
sys_mutex_create is_blocking t =
    let mutex : AnyMutex = if is_blocking then AnyMutex.blocking new else AnyMutex.spin false in
    let (id, list) = create_slot mutex t.mutex_list in (id, record t { mutex_list = list })

pub sys_semaphore_create : ℕ → Tables → ℕ × Tables
unfolding create_slot
sys_semaphore_create res_count t =
    let (id, list) = create_slot (Semaphore.new res_count) t.semaphore_list in
    (id, record t { semaphore_list = list })

pub sys_condvar_create : Tables → ℕ × Tables
unfolding create_slot
sys_condvar_create t =
    let (id, list) = create_slot [] t.condvar_list in (id, record t { condvar_list = list })

-- The object in a slot is changed by a call on it; the other slots stay as they are.
pub sys_semaphore_up : ℕ → Tables → Option Tables
unfolding in_slot
sys_semaphore_up sem_id t = do
  sem ← in_slot t.semaphore_list sem_id
  let (sem', k) = up sem t.kernel
  some (record t { semaphore_list = set t.semaphore_list sem_id (some sem'); kernel = k })

pub sys_semaphore_down : ℕ → Tables → Option Tables
unfolding in_slot
sys_semaphore_down sem_id t = do
  sem ← in_slot t.semaphore_list sem_id
  (sem', k) ← down sem t.kernel
  some (record t { semaphore_list = set t.semaphore_list sem_id (some sem'); kernel = k })

pub sys_condvar_signal : ℕ → Tables → Option Tables
unfolding in_slot
sys_condvar_signal condvar_id t = do
  condvar ← in_slot t.condvar_list condvar_id
  let (condvar', k) = signal condvar t.kernel
  some (record t { condvar_list = set t.condvar_list condvar_id (some condvar'); kernel = k })

pub sys_condvar_signal_all : ℕ → Tables → Option Tables
unfolding in_slot
sys_condvar_signal_all condvar_id t = do
  condvar ← in_slot t.condvar_list condvar_id
  let (condvar', k) = signal_all condvar t.kernel
  some (record t { condvar_list = set t.condvar_list condvar_id (some condvar'); kernel = k })

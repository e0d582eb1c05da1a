-- ===== src/Task/Signal.antt =====
-- os/src/task/signal.rs, os/src/task/action.rs, the signal handling of os/src/task/mod.rs, and the
-- system calls on signals of os/src/syscall/process.rs.
pub mod Delivery
pub mod Calls
pub mod Tests
use t_core.Base.{
  ◌>>=◌, ℕ, zero, suc, ◌+◌, ◌%◌, Bool, true, false, not, Option, some, none, if◌then◌else◌, ◌==◌,
  ltb, ℤ, negsuc,
}

-- The bits of a `SignalFlags`, of which there are 32.
abbrev pub SignalFlags : Type 0
SignalFlags = ℕ → Bool

abbrev pub max_sig : ℕ
max_sig = 31

abbrev pub sig_def : ℕ
sig_def = 0

abbrev pub sig_kill : ℕ
sig_kill = 9

abbrev pub sig_cont : ℕ
sig_cont = 18

abbrev pub sig_stop : ℕ
sig_stop = 19

-- `flags ^= 1 << sig`, `flags |= 1 << sig`
abbrev pub toggle : ℕ → SignalFlags → SignalFlags
toggle sig flags = λ s. if s == sig then not (flags s) else flags s

abbrev pub insert : ℕ → SignalFlags → SignalFlags
insert sig flags = λ s. if s == sig then true else flags s

-- The negative codes, without their texts.
pub check_error : SignalFlags → Option ℤ
check_error flags =
    if flags 2
    then some (negsuc 1)
    else if flags 4
    then some (negsuc 3)
    else if flags 6
    then some (negsuc 5)
    else if flags 8
    then some (negsuc 7)
    else if flags 9
    then some (negsuc 8)
    else if flags 11
    then some (negsuc 10)
    else none

pub record SignalAction : Type 0 where
  pub handler : ℕ
  pub mask : SignalFlags

-- `from_bits(40)` has the bits 3 and 5.
pub default_action : SignalAction
default_action = record { handler = 0; mask = λ s. if s == 3 then true else s == 5 }

pub record TrapContext : Type 0 where
  pub x : ℕ → ℕ
  pub sstatus : ℕ
  pub sepc : ℕ
  pub kernel_satp : ℕ
  pub kernel_sp : ℕ
  pub trap_handler : ℕ

-- What signals concern of a process and of its main thread; `handling_sig` is `none` for -1.
pub record Process : Type 0 where
  pub signals : SignalFlags
  pub signal_mask : SignalFlags
  pub handling_sig : Option ℕ
  pub signal_actions : ℕ → SignalAction
  pub killed : Bool
  pub frozen : Bool
  pub trap_cx : TrapContext
  pub trap_ctx_backup : Option TrapContext

-- The signals of a fault, say, that the kernel adds itself: `signals |= signal`.
pub current_add_signal : SignalFlags → Process → Process
current_add_signal signal p = record p { signals = λ s. if signal s then true else p.signals s }

pub check_signals_error_of_current : Process → Option ℤ
unfolding check_error
check_signals_error_of_current p = check_error p.signals

pub call_kernel_signal_handler : ℕ → Process → Process
call_kernel_signal_handler sig p =
    if sig == sig_stop
    then record p { frozen = true; signals = toggle sig_stop p.signals }
    else if sig == sig_cont
    then (if p.signals sig_cont
        then record p { signals = toggle sig_cont p.signals; frozen = false }
        else p)
    else record p { killed = true }

-- The context in which the handler of a signal starts.
abbrev pub enter_handler : ℕ → ℕ → TrapContext → TrapContext
enter_handler handler sig cx = record cx {
  sepc = handler;
  x = λ r. if r == 10 then sig else cx.x r;
}

pub call_user_signal_handler : ℕ → Process → Process
call_user_signal_handler sig p =
    let handler = (p.signal_actions sig).handler in
    if not (handler == 0)
    then record p {
      handling_sig = some sig;
      signals = toggle sig p.signals;
      trap_ctx_backup = some p.trap_cx;
      trap_cx = enter_handler handler sig p.trap_cx;
    }
    else p

-- The signal is masked by the action whose handler runs.
abbrev pub masked_by : Option ℕ → (ℕ → SignalAction) → ℕ → Bool
masked_by none actions sig = false
masked_by (some handling) actions sig = (actions handling).mask sig

-- The signal is pending, and neither the process nor a running handler masks it.
abbrev pub delivers : Bool → Bool → Bool → Bool
delivers pending masked masked_by_action =
    if pending then (if masked then false else not masked_by_action) else false

abbrev pub deliverable : Process → ℕ → Bool
deliverable p sig =
    delivers (p.signals sig) (p.signal_mask sig) (masked_by p.handling_sig p.signal_actions sig)

abbrev pub is_kernel_signal : ℕ → Bool
is_kernel_signal sig =
    if sig == sig_kill
    then true
    else if sig == sig_stop
    then true
    else if sig == sig_cont
    then true
    else sig == sig_def

-- The loop of `check_pending_signals` from `sig` on, with `n` signals left.
pub check_from : ℕ → ℕ → Process → Process
unfolding call_kernel_signal_handler call_user_signal_handler
check_from zero sig p = p
check_from (suc n) sig p = elim (deliverable p sig) [
  | false ↦ check_from n (sig + 1) p
  | true ↦ elim (is_kernel_signal sig) [
    | true ↦ check_from n (sig + 1) (call_kernel_signal_handler sig p)
    | false ↦ call_user_signal_handler sig p
  ]
]

pub check_pending_signals : Process → Process
unfolding check_from
check_pending_signals p = check_from (max_sig + 1) 0 p

-- One round of `handle_signals`; `true` when the call returns. Else the task yields, and goes through
-- another round with the signals that other processes have sent meanwhile.
pub handle_signals_round : Process → Bool × Process
unfolding check_pending_signals
handle_signals_round p =
    let p' = check_pending_signals p in (if p'.frozen then p'.killed else true, p')

-- The process is what `pid2process` finds for the number of the process, if anything. The number of the
-- signal is an `i32`, given by its 32 bits; `1 << signum` shifts by the lowest 5 of them, and each bit
-- that it can give is a flag. The result is the value returned, `none` for -1, and the process after.
pub sys_kill : ℕ → Option Process → Option ℕ × Option Process
sys_kill signum none = (none, none)
sys_kill signum (some p) =
    let flag = signum % 32 in
    if p.signals flag
    then (none, some p)
    else (some 0, some (record p { signals = insert flag p.signals }))

-- Each mask is legal, since the flags use all 32 bits. The result is the mask before.
pub sys_sigprocmask : SignalFlags → Process → SignalFlags × Process
sys_sigprocmask mask p = (p.signal_mask, record p { signal_mask = mask })

-- `none` is the panic when there is no backup.
pub sys_sigreturn : Process → Option (ℕ × Process)
sys_sigreturn p = do
  backup ← p.trap_ctx_backup
  some (backup.x 10, record p { handling_sig = none; trap_cx = backup })

pub check_sigaction_error : ℕ → ℕ → ℕ → Bool
check_sigaction_error signal action old_action =
    if action == 0
    then true
    else if old_action == 0
    then true
    else if signal == sig_kill
    then true
    else signal == sig_stop

-- `memory` holds the actions of the user's memory by their addresses; the number is given by its 32
-- bits. `false` is the result -1.
pub sys_sigaction : ℕ → ℕ → ℕ → (ℕ → SignalAction) → Process → Bool × (ℕ → SignalAction) × Process
unfolding check_sigaction_error
sys_sigaction signum action old_action memory p =
    let prev_action = p.signal_actions signum in
    let memory' : ℕ → SignalAction = λ a. if a == old_action then prev_action else memory a in
    let actions : ℕ → SignalAction =
      λ s. if s == signum then memory' action else p.signal_actions s in
    if ltb max_sig signum
    then (false, memory, p)
    else if check_sigaction_error signum action old_action
    then (false, memory, p)
    else (true, memory', record p { signal_actions = actions })

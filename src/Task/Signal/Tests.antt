-- ===== src/Task/Signal/Tests.antt =====
-- Instances of the results about signals at a concrete process, and runs of it.
use t_core.Base.{◌≡◌, refl, true, false, some, none, arith, if◌then◌else◌, ◌==◌}
use t_core.Task.Signal.{TrapContext, Process, check_pending_signals, sys_kill, sys_sigreturn}
use t_core.Task.Signal.Delivery.{Lowest, Entered}
use t_core.Task.Signal.Calls.{
  sys_sigreturn-check_pending_signals, check_pending_signals-sys_kill, check_pending_signals-stuck,
}

abbrev context : TrapContext
context = record {
  x = λ r. r;
  sstatus = 0;
  sepc = 4096;
  kernel_satp = 0;
  kernel_sp = 0;
  trap_handler = 0;
}

-- The process has a handler for signal 10, and none for signal 1.
abbrev idle : Process
idle = record {
  signals = λ s. false;
  signal_mask = λ s. false;
  handling_sig = none;
  signal_actions = λ s.
      if s == 10
      then record { handler = 8192; mask = λ t. false }
      else record { handler = 0; mask = λ t. false };
  killed = false;
  frozen = false;
  trap_cx = context;
  trap_ctx_backup = none;
}

-- Signals 10 and 19 are pending.
abbrev signalled : Process
signalled = record idle { signals = λ s. if s == 10 then true else s == 19 }

ten-Lowest : Lowest signalled 10
ten-Lowest = record {
  in_range = omega arith;
  for_program = refl;
  delivered = refl;
  none_before = λ s u k. ground arith;
}

abbrev later : TrapContext
later = record context { sepc = 8200 }

-- The handler has run for a while, and signal 10 has come again.
abbrev handled : Process
handled = record (check_pending_signals signalled) {
  trap_cx = later;
  signals = λ s. if s == 10 then true else s == 19;
}

sys_sigreturn-check_pending_signals_example :
    sys_sigreturn handled ≡ some (10, record handled { handling_sig = none; trap_cx = context })
sys_sigreturn-check_pending_signals_example =
    sys_sigreturn-check_pending_signals signalled handled 10 ten-Lowest (λ e. ground arith) refl

check_pending_signals-sys_kill_example :
    (p : Process) × (sys_kill 10 (some idle) ≡ (some 0, some p))
    × Entered p (check_pending_signals p) 10
check_pending_signals-sys_kill_example =
    check_pending_signals-sys_kill idle 10 (omega arith) refl (λ e. ground arith) refl refl refl
      (λ s u k. refl)

-- Signals 1 and 19 are pending: the first one has no handler, the second one is SIGSTOP.
abbrev held_back : Process
held_back = record idle { signals = λ s. if s == 1 then true else s == 19 }

check_pending_signals-stuck_example : check_pending_signals held_back ≡ held_back
check_pending_signals-stuck_example =
    check_pending_signals-stuck held_back 1 (omega arith) refl refl refl (λ s u. ground arith)

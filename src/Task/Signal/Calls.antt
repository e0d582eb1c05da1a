-- ===== src/Task/Signal/Calls.antt =====
-- Sending a signal, handling it, and returning from the handler.
use t_core.Base.{
  ℕ, zero, suc, ◌≡◌, ◌≢◌, ◌≤◌, ◌<◌, ◌+◌, ◌%◌, refl, true, false, some, none, arith, ◌==◌, ltb, inl,
  inr, Bool-cases, ◌∙◌, subst, ==-true, ==-self,
}
use t_core.Task.Signal.{
  TrapContext, Process, insert, deliverable, masked_by, is_kernel_signal, call_user_signal_handler,
  check_from, check_pending_signals, sys_kill, sys_sigreturn, max_sig,
}
use t_core.Task.Signal.Delivery.{
  NoneBelow, Lowest, Entered, check_pending_signals-Outcome, check_from-skip, check_from-user,
  quiet, ignored, entered,
}

-- There is only one lowest signal.
Lowest-unique : (p : Process) (a b : ℕ) → Lowest p a → Lowest p b → a ≡ b
Lowest-unique p a b x y = elim (Bool-cases (ltb a b)) [
  | inl e ↦ absurd (ground (arith, y.none_before a (ground arith) x.for_program, x.delivered))
  | inr e ↦ elim (Bool-cases (ltb b a)) [
    | inl e' ↦ absurd (ground (arith, x.none_before b (ground arith) y.for_program, y.delivered))
    | inr e' ↦ ground arith
  ]
]

-- With a handler, the lowest signal is delivered.
Lowest-Entered :
    (p : Process) (sig : ℕ)
    → Lowest p sig
    → (p.signal_actions sig).handler ≢ 0
    → Entered p (check_pending_signals p) sig
Lowest-Entered p sig l h = elim (check_pending_signals-Outcome p) [
  | quiet q n ↦
      absurd (ground (arith, n sig (omega (arith, l.in_range)) l.for_program, l.delivered))
  | ignored s m z q ↦
      absurd (h (subst (λ x. (p.signal_actions x).handler ≡ 0) (Lowest-unique p s sig m l) z))
  | entered s m e ↦ subst (Entered p (check_pending_signals p)) (Lowest-unique p s sig m l) e
]

sys_sigreturn-eq :
    (q : Process) (old : TrapContext)
    → q.trap_ctx_backup ≡ some old
    → sys_sigreturn q ≡ some (old.x 10, record q { handling_sig = none; trap_cx = old })
unfolding sys_sigreturn
sys_sigreturn-eq q old e = rw e refl

-- Once a signal has entered its handler, the first `sys_sigreturn` puts back the context in which the
-- signal came, returns the value of its a0, lets further signals come and changes nothing else of the
-- process, whatever has become of the process since, on condition that the backup of the context is
-- still the one that the signal made: no other handler was started meanwhile, which would overwrite it.
-- The signal is the lowest that is for the program to handle, and has a handler.
pub sys_sigreturn-check_pending_signals :
    (p q : Process) (sig : ℕ)
    → Lowest p sig
    → (p.signal_actions sig).handler ≢ 0
    → q.trap_ctx_backup ≡ (check_pending_signals p).trap_ctx_backup
    → sys_sigreturn q ≡ some (p.trap_cx.x 10, record q { handling_sig = none; trap_cx = p.trap_cx })
sys_sigreturn-check_pending_signals p q sig l h kept =
    sys_sigreturn-eq q p.trap_cx (kept ∙ (Lowest-Entered p sig l h).keeps_context)

-- A signal that `sys_kill` sends is handled the next time that the process is about to run: its handler
-- starts. The signal is one for the program, it has a handler and is not pending yet, the process does
-- not mask it, nor does the action whose handler runs, and no other signal for the program is to be
-- delivered.
pub check_pending_signals-sys_kill :
    (p : Process) (sig : ℕ)
    → sig ≤ max_sig
    → is_kernel_signal sig ≡ false
    → (p.signal_actions sig).handler ≢ 0
    → p.signals sig ≡ false
    → p.signal_mask sig ≡ false
    → masked_by p.handling_sig p.signal_actions sig ≡ false
    → NoneBelow (max_sig + 1) p
    → (p' : Process) × (sys_kill sig (some p) ≡ (some 0, some p'))
      × Entered p' (check_pending_signals p') sig
unfolding sys_kill
check_pending_signals-sys_kill p sig r u h c m a n =
    let p' : Process = record p { signals = insert sig p.signals } in
    let low : sig % 32 ≡ sig = omega arith in
    let l : Lowest p' sig = record {
      in_range = r;
      for_program = u;
      delivered = rw (==-self sig) (rw m (rw a refl));
      none_before =
          λ s v k. let other : s == sig ≡ false = ground arith in rw other (n s (omega arith) k);
    } in
    (p', rw low (rw c refl), Lowest-Entered p' sig l h)

-- When the lowest signal that is to be delivered is one for the program and has no handler, a call of
-- `check_pending_signals` changes nothing of the process: the signal is neither handled nor taken from
-- the pending ones, and no signal with a higher number is handled by that call, not even SIGSTOP or
-- SIGCONT. What the trap handler does after the call, its check for fatal signals, is apart from this.
pub check_pending_signals-stuck :
    (p : Process) (sig : ℕ)
    → sig ≤ max_sig
    → is_kernel_signal sig ≡ false
    → (p.signal_actions sig).handler ≡ 0
    → deliverable p sig ≡ true
    → ((s : ℕ) → s < sig → deliverable p s ≡ false)
    → check_pending_signals p ≡ p
unfolding check_pending_signals call_user_signal_handler
check_pending_signals-stuck p sig r u z d n = stuck_from (max_sig + 1) 0 (omega arith) (omega arith)
  where
    no_handler : call_user_signal_handler sig p ≡ p
    no_handler =
        let none_set : (p.signal_actions sig).handler == 0 ≡ true = rw z refl in rw none_set refl

    stuck_from : (k t : ℕ) → t ≤ sig → sig < t + k → check_from k t p ≡ p
    stuck_from zero t l v = absurd (omega arith)
    stuck_from (suc k) t l v = elim (Bool-cases (t == sig)) [
      | inl e ↦
          let same : t ≡ sig = ==-true t sig e in rw same (check_from-user k sig p d u ∙ no_handler)
      | inr e ↦
          check_from-skip k t p (n t (ground arith))
          ∙ stuck_from k (t + 1) (ground arith) (omega arith)
    ]

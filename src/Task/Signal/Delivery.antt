-- ===== src/Task/Signal/Delivery.antt =====
-- Which signals task/mod.rs delivers.
use t_core.Base.{
  ℕ, zero, suc, ◌≡◌, ◌≢◌, ◌≤◌, ◌<◌, ◌+◌, refl, Bool, true, false, some, arith, ◌==◌, inl, inr,
  Bool-cases, sym, ◌∙◌, ap, subst, ==-true,
}
use t_core.Task.Signal.{
  SignalFlags, Process, toggle, enter_handler, call_kernel_signal_handler, call_user_signal_handler,
  deliverable, delivers, masked_by, is_kernel_signal, check_from, check_pending_signals, max_sig,
  sig_stop, sig_cont,
}

-- No handler was entered: what the kernel does itself changes neither the context nor the masks.
pub record Quiet (p p' : Process) : Type 0 where
  pub same_context : p'.trap_cx ≡ p.trap_cx
  pub same_backup : p'.trap_ctx_backup ≡ p.trap_ctx_backup
  pub same_handling : p'.handling_sig ≡ p.handling_sig
  pub same_mask : p'.signal_mask ≡ p.signal_mask
  pub same_actions : p'.signal_actions ≡ p.signal_actions
  pub same_signals : (s : ℕ) → s ≢ sig_stop → s ≢ sig_cont → p'.signals s ≡ p.signals s

Quiet-change :
    (p : Process) (signals : SignalFlags) (killed frozen : Bool)
    → ((s : ℕ) → s ≢ sig_stop → s ≢ sig_cont → signals s ≡ p.signals s)
    → Quiet p (record p { signals = signals; killed = killed; frozen = frozen })
Quiet-change p signals killed frozen h = record {
  same_context = refl;
  same_backup = refl;
  same_handling = refl;
  same_mask = refl;
  same_actions = refl;
  same_signals = h;
}

Quiet-trans : (p q r : Process) → Quiet p q → Quiet q r → Quiet p r
Quiet-trans p q r a b = record {
  same_context = b.same_context ∙ a.same_context;
  same_backup = b.same_backup ∙ a.same_backup;
  same_handling = b.same_handling ∙ a.same_handling;
  same_mask = b.same_mask ∙ a.same_mask;
  same_actions = b.same_actions ∙ a.same_actions;
  same_signals = λ s h k. b.same_signals s h k ∙ a.same_signals s h k;
}

call_kernel_signal_handler-Quiet :
    (sig : ℕ) (p : Process) → Quiet p (call_kernel_signal_handler sig p)
unfolding call_kernel_signal_handler
call_kernel_signal_handler-Quiet sig p = elim (Bool-cases (sig == sig_stop)) [
  | inl e ↦ rw e (Quiet-change p (toggle sig_stop p.signals) p.killed true (λ s h k. ground arith))
  | inr e ↦ elim (Bool-cases (sig == sig_cont)) [
    | inl e' ↦ elim (Bool-cases (p.signals sig_cont)) [
      | inl c ↦ rw e (
          rw e' (
            rw c
              (Quiet-change p (toggle sig_cont p.signals) p.killed false (λ s h k. ground arith))))
      | inr c ↦ rw e (rw e' (rw c (Quiet-change p p.signals p.killed p.frozen (λ s h k. refl))))
    ]
    | inr e' ↦ rw e (rw e' (Quiet-change p p.signals true p.frozen (λ s h k. refl)))
  ]
]

deliverable-Quiet :
    (p q : Process) (s : ℕ)
    → Quiet p q
    → is_kernel_signal s ≡ false
    → deliverable q s ≡ deliverable p s
deliverable-Quiet p q s h u =
    let not_stop : s ≢ sig_stop = λ e. ground arith in
    let not_cont : s ≢ sig_cont = λ e. ground arith in
    let masked : ℕ → Bool = masked_by q.handling_sig q.signal_actions in
    ap (λ x. delivers x (q.signal_mask s) (masked s)) (h.same_signals s not_stop not_cont)
    ∙ ap (λ x. delivers (p.signals s) (x s) (masked s)) h.same_mask
    ∙ ap (λ x. delivers (p.signals s) (p.signal_mask s) (masked_by x q.signal_actions s))
        h.same_handling
    ∙ ap (λ x. delivers (p.signals s) (p.signal_mask s) (masked_by p.handling_sig x s))
        h.same_actions

-- No signal below `n` is delivered to the program.
abbrev pub NoneBelow : ℕ → Process → Type 0
NoneBelow n p = (s : ℕ) → s < n → is_kernel_signal s ≡ false → deliverable p s ≡ false

-- The lowest signal that is for the program to handle.
pub record Lowest (p : Process) (sig : ℕ) : Type 0 where
  pub in_range : sig ≤ max_sig
  pub for_program : is_kernel_signal sig ≡ false
  pub delivered : deliverable p sig ≡ true
  pub none_before : NoneBelow sig p

-- The handler of a signal starts: it gets the number of the signal, and the context is kept.
pub record Entered (p p' : Process) (sig : ℕ) : Type 0 where
  pub has_handler : (p.signal_actions sig).handler ≢ 0
  pub starts : p'.trap_cx ≡ enter_handler (p.signal_actions sig).handler sig p.trap_cx
  pub keeps_context : p'.trap_ctx_backup ≡ some p.trap_cx
  pub handles : p'.handling_sig ≡ some sig
  pub no_longer_pending : p'.signals sig ≡ false

pub data Outcome (p p' : Process) : Type 0 where
  quiet : Quiet p p' → NoneBelow (max_sig + 1) p → Outcome p p'
  ignored :
      (sig : ℕ) → Lowest p sig → (p.signal_actions sig).handler ≡ 0 → Quiet p p' → Outcome p p'
  entered : (sig : ℕ) → Lowest p sig → Entered p p' sig → Outcome p p'

nonzero : (h : ℕ) → (h == 0) ≡ false → h ≢ 0
nonzero h e z = ground arith

toggle_self : (sig : ℕ) (flags : SignalFlags) → flags sig ≡ true → toggle sig flags sig ≡ false
toggle_self sig flags h = ground arith

pending-deliverable : (p : Process) (sig : ℕ) → deliverable p sig ≡ true → p.signals sig ≡ true
pending-deliverable p sig h = ground arith

none_at :
    (sig : ℕ) (p : Process)
    → NoneBelow sig p
    → (is_kernel_signal sig ≡ false → deliverable p sig ≡ false)
    → NoneBelow (sig + 1) p
none_at sig p below here s u k = elim (Bool-cases (s == sig)) [
  | inl e ↦
      let same : s ≡ sig = ==-true s sig e in
      rw same (here (subst (λ x. is_kernel_signal x ≡ false) same k))
  | inr e ↦ below s (ground arith) k
]

call_user_signal_handler-Outcome :
    (p q : Process) (sig : ℕ)
    → Quiet p q
    → Lowest p sig
    → q.signals sig ≡ true
    → Outcome p (call_user_signal_handler sig q)
unfolding call_user_signal_handler
call_user_signal_handler-Outcome p q sig h l pending =
    let same : (q.signal_actions sig).handler ≡ (p.signal_actions sig).handler =
      ap (λ x. (x sig).handler) h.same_actions in
    elim (Bool-cases ((q.signal_actions sig).handler == 0)) [
      | inl e ↦ rw e (Outcome.ignored sig l (sym same ∙ ==-true _ 0 e) h)
      | inr e ↦ rw e (
          Outcome.entered sig l (record {
            has_handler = λ z. nonzero _ e (same ∙ z);
            starts =
                ap (λ x. enter_handler x sig q.trap_cx) same
                ∙ ap (enter_handler (p.signal_actions sig).handler sig) h.same_context;
            keeps_context = ap some h.same_context;
            handles = refl;
            no_longer_pending = toggle_self sig q.signals pending;
          }))
    ]

pub check_from-skip :
    (n sig : ℕ) (q : Process)
    → deliverable q sig ≡ false
    → check_from (suc n) sig q ≡ check_from n (sig + 1) q
unfolding check_from
check_from-skip n sig q d = rw (d, check_from) refl

check_from-kernel :
    (n sig : ℕ) (q : Process)
    → deliverable q sig ≡ true
    → is_kernel_signal sig ≡ true
    → check_from (suc n) sig q ≡ check_from n (sig + 1) (call_kernel_signal_handler sig q)
unfolding check_from
check_from-kernel n sig q d k = rw (d, k, check_from) refl

pub check_from-user :
    (n sig : ℕ) (q : Process)
    → deliverable q sig ≡ true
    → is_kernel_signal sig ≡ false
    → check_from (suc n) sig q ≡ call_user_signal_handler sig q
unfolding check_from
check_from-user n sig q d k = rw (d, k, check_from) refl

check_from-Outcome :
    (p : Process) (n sig : ℕ) (q : Process)
    → sig + n ≡ max_sig + 1
    → Quiet p q
    → NoneBelow sig p
    → Outcome p (check_from n sig q)
unfolding check_from
check_from-Outcome p zero sig q e h none_below = Outcome.quiet h (λ s u. none_below s (omega arith))
check_from-Outcome p (suc n) sig q e h none_below = elim (Bool-cases (deliverable q sig)) [
  | inl d ↦ elim (Bool-cases (is_kernel_signal sig)) [
    | inl k ↦
        let quiet' = Quiet-trans p q _ h (call_kernel_signal_handler-Quiet sig q) in
        rw (check_from-kernel n sig q d k) (
          check_from-Outcome p n (sig + 1) (call_kernel_signal_handler sig q) (omega arith) quiet'
            (none_at sig p none_below (λ u. absurd (ground arith))))
    | inr u ↦
        let mine : deliverable p sig ≡ true = sym (deliverable-Quiet p q sig h u) ∙ d in
        rw (check_from-user n sig q d u) (
          call_user_signal_handler-Outcome p q sig h
            (record {
              in_range = omega arith;
              for_program = u;
              delivered = mine;
              none_before = none_below;
            })
            (pending-deliverable q sig d))
  ]
  | inr d ↦ rw (check_from-skip n sig q d) (
      check_from-Outcome p n (sig + 1) q (omega arith) h
        (none_at sig p none_below (λ u. sym (deliverable-Quiet p q sig h u) ∙ d)))
]

pub check_pending_signals-Outcome : (p : Process) → Outcome p (check_pending_signals p)
unfolding check_pending_signals
check_pending_signals-Outcome p =
    check_from-Outcome p (max_sig + 1) 0 p refl
      (Quiet-change p p.signals p.killed p.frozen (λ s h k. refl)) (λ s u. absurd (omega arith))

-- ===== src/Task/Thread/Joining.antt =====
-- Threads that are made, exit and are waited for, in any order.
use t_core.Base.{
  ℕ, zero, suc, ◌+◌, ◌<◌, ◌≤◌, ◌^◌, ◌≡◌, refl, sym, ◌∙◌, ap, subst, true, false, some, none, [],
  ◌∷◌, arith, length, set, Bool-cases, inl, inr, ==-true, ==-self, ◌==◌, ℤ, pos, negsuc, as_isize,
  length-set,
}
use t_core.Task.Id.{alloc}
use t_core.Task.Id.Recycle.{IsValid, in_use, alloc-in_use, dealloc-in_use, alloc-dealloc}
use t_core.Task.Process.{Thread}
use t_core.Task.Thread.{
  Threads, new_thread, thread_at, sys_thread_create, exit_thread, sys_waittid, wait_slot, wait_code,
}
use t_core.Task.Thread.Slots.{
  thread_at-set_self, thread_at-set_ne, thread_at-within, get_elem?-within,
}
use t_core.Task.Thread.Running.{
  is_running, Agrees, sys_thread_create-slots, exit_thread-exited, sys_waittid-taken,
}
use t_core.Task

-- A call of some thread. Only a thread that runs can exit.
pub data Step (s t : Threads) : Type 0 where
  creates : (tid : ℤ) → sys_thread_create s ≡ (tid, t) → Step s t
  exits :
      (tid : ℕ) (exit_code : ℤ)
      → is_running (thread_at s.tasks tid) ≡ true
      → exit_thread tid exit_code s ≡ some t
      → Step s t
  waits : (own tid : ℕ) (result : ℤ) → sys_waittid own tid s ≡ some (result, t) → Step s t

-- Steps, and their number.
pub data Reach (s : Threads) : ℕ → Threads → Type 0 where
  here : Reach s zero s
  next : {n : ℕ} {t u : Threads} → Reach s n t → Step t u → Reach s (suc n) u

-- The main thread alone.
abbrev pub start : Threads
start = record { task_res_allocator = (alloc Task.Id.new).1; tasks = some new_thread ∷ [] }

start-Agrees : Agrees start
unfolding Task.Id.new Task.Id.alloc Task.Id.alloc_from thread_at
start-Agrees = record {
  valid = record { narrow = omega arith; distinct = tt; below = tt };
  agree = agree;
}
  where
    agree : (i : ℕ) → in_use start.task_res_allocator i ≡ is_running (thread_at start.tasks i)
    agree zero = refl
    agree (suc i) = ground arith

start-current : start.task_res_allocator.current ≡ 1
unfolding Task.Id.new Task.Id.alloc Task.Id.alloc_from
start-current = refl

-- A new thread.
create-Agrees :
    (s : Threads)
    → Agrees s
    → s.task_res_allocator.current + 1 < 2 ^ 64
    → let t = (sys_thread_create s).1 in
      Agrees t × (t.task_res_allocator.current ≤ s.task_res_allocator.current + 1)
create-Agrees s v b =
    let id = (alloc s.task_res_allocator).0 in
    let t = (sys_thread_create s).1 in
    let (va, free, now, grows) = alloc-in_use s.task_res_allocator v.valid b in
    let (mine, others, allocator) = sys_thread_create-slots s in
    (
      record {
        valid = subst IsValid (sym allocator) va;
        agree = λ i. ap (λ a. in_use a i) allocator ∙ now i ∙ elim (Bool-cases (i == id)) [
          | inl e ↦ rw e (
              sym
                (ap (λ x. is_running (thread_at t.tasks x)) (==-true i id e) ∙ ap is_running mine))
          | inr e ↦ rw e (v.agree i ∙ ap is_running (sym (others i e)))
        ];
      },
      subst (λ a. a.current ≤ s.task_res_allocator.current + 1) (sym allocator) grows,
    )

exit-Agrees :
    (s t : Threads) (tid : ℕ) (exit_code : ℤ)
    → Agrees s
    → is_running (thread_at s.tasks tid) ≡ true
    → exit_thread tid exit_code s ≡ some t
    → Agrees t × (t.task_res_allocator.current ≡ s.task_res_allocator.current)
exit-Agrees s t tid exit_code v runs h =
    let (a, d, allocator, mine, others, within) = exit_thread-exited s t tid exit_code h in
    let (a', d', va, free, current) =
      dealloc-in_use s.task_res_allocator tid v.valid (v.agree tid ∙ runs) in
    let k : some a ≡ some a' = sym d ∙ d' in
    let same : t.task_res_allocator ≡ a' = allocator ∙ ground arith in
    (
      record {
        valid = subst IsValid (sym same) va;
        agree = λ i. ap (λ x. in_use x i) same ∙ free i ∙ elim (Bool-cases (i == tid)) [
          | inl e ↦ rw e (
              sym
                (ap (λ x. is_running (thread_at t.tasks x)) (==-true i tid e) ∙ ap is_running mine))
          | inr e ↦ rw e (v.agree i ∙ ap is_running (sym (others i e)))
        ];
      },
      ap (λ x. x.current) same ∙ current,
    )

taken-Agrees :
    (s : Threads) (tid : ℕ) (task : Thread) (result : ℤ)
    → Agrees s
    → thread_at s.tasks tid ≡ some task
    → task.exit_code ≡ some result
    → Agrees (record s { tasks = set s.tasks tid none })
taken-Agrees s tid task result v e c =
    let within = thread_at-within s.tasks tid task e in
    let ended : is_running (thread_at s.tasks tid) ≡ false = rw (e, c) refl in
    let gone = thread_at-set_self s.tasks tid none within in
    record {
      valid = v.valid;
      agree = λ i. elim (Bool-cases (i == tid)) [
        | inl q ↦
            subst
              (λ x. in_use s.task_res_allocator x ≡ is_running (thread_at (set s.tasks tid none) x))
              (sym (==-true i tid q)) (v.agree tid ∙ ended ∙ sym (ap is_running gone))
        | inr q ↦
            v.agree i
            ∙ ap is_running (
                sym (
                  thread_at-set_ne s.tasks tid i none (λ p.
                    let k = ==-self tid in
                    let n : (tid == tid) ≡ false = subst (λ x. (x == tid) ≡ false) (sym p) q in
                    ground arith)))
      ];
    }

Step-Agrees :
    (s t : Threads)
    → Step s t
    → s.task_res_allocator.current + 1 < 2 ^ 64
    → Agrees s
    → Agrees t × (t.task_res_allocator.current ≤ s.task_res_allocator.current + 1)
Step-Agrees s t (creates tid e) b v =
    subst (λ x. Agrees x × (x.task_res_allocator.current ≤ s.task_res_allocator.current + 1))
      (ap (λ p. p.1) e) (create-Agrees s v b)
Step-Agrees s t (exits tid exit_code runs e) b v =
    let (w, c) = exit-Agrees s t tid exit_code v runs e in (w, omega arith)
Step-Agrees s t (waits own tid result e) b v = elim (sys_waittid-taken s t own tid result e) [
  | inl same ↦
      subst (λ x. Agrees x × (x.task_res_allocator.current ≤ s.task_res_allocator.current + 1))
        (sym same) (v, omega arith)
  | inr (task, at_, c, same) ↦
      subst (λ x. Agrees x × (x.task_res_allocator.current ≤ s.task_res_allocator.current + 1))
        (sym same) (taken-Agrees s tid task result v at_ c, omega arith)
]

Reach-bound :
    (n : ℕ) (s : Threads)
    → Reach start n s
    → n + 2 < 2 ^ 64
    → Agrees s × (s.task_res_allocator.current ≤ n + 1)
Reach-bound n s here b = let c = start-current in (start-Agrees, omega arith)
Reach-bound n s (next {n = m} {t} r k) b =
    let (v, c) = Reach-bound m t r (omega arith) in
    let (w, d) = Step-Agrees t s k (omega arith) v in (w, omega arith)

-- Whatever threads are made, exit and are waited for, the ids in use are those of the threads that
-- run, so that a new thread never takes the place of one that runs. The condition is that there are
-- fewer than 2 ^ 64 - 2 calls.
pub Reach-Agrees :
    (n : ℕ) (s : Threads)
    → Reach start n s
    → n + 2 < 2 ^ 64
    → Agrees s × (is_running (thread_at s.tasks (alloc s.task_res_allocator).0) ≡ false)
Reach-Agrees n s r b =
    let (v, c) = Reach-bound n s r b in
    let (va, free, now, grows) = alloc-in_use s.task_res_allocator v.valid (omega arith) in
    (v, sym (v.agree (alloc s.task_res_allocator).0) ∙ free)

waittid-step :
    (own tid : ℕ) (t : Threads)
    → (own == tid) ≡ false
    → tid < length t.tasks
    → sys_waittid own tid t ≡ some (wait_slot tid (thread_at t.tasks tid) t)
unfolding sys_waittid
waittid-step own tid t n h = rw (n, get_elem?-within t.tasks tid h) refl

created_id : (t : Threads) → (sys_thread_create t).0 ≡ as_isize (pos (alloc t.task_res_allocator).0)
unfolding sys_thread_create
created_id t = refl

-- When a thread has exited, `sys_waittid` of another thread for it gives its exit code, and its place is
-- empty then: waiting for it again gives -1.
pub sys_waittid-exit_thread :
    (t t' : Threads) (own tid : ℕ) (exit_code : ℤ)
    → exit_thread tid exit_code t ≡ some t'
    → (own == tid) ≡ false
    → (t'' : Threads) × (sys_waittid own tid t' ≡ some (exit_code, t''))
      × (thread_at t''.tasks tid ≡ none)
      × (sys_waittid own tid t'' ≡ some (negsuc 0, t''))
unfolding wait_slot wait_code
sys_waittid-exit_thread t t' own tid exit_code h n =
    let (a, d, allocator, mine, others, within) = exit_thread-exited t t' tid exit_code h in
    let t'' : Threads = record t' { tasks = set t'.tasks tid none } in
    let gone : thread_at t''.tasks tid ≡ none = thread_at-set_self t'.tasks tid none within in
    let l : length t''.tasks ≡ length t'.tasks = length-set t'.tasks tid none in
    (
      t'',
      waittid-step own tid t' n within ∙ ap (λ x. some (wait_slot tid x t')) mine,
      gone,
      waittid-step own tid t'' n (omega arith) ∙ ap (λ x. some (wait_slot tid x t'')) gone,
    )

-- The exit code of a thread is lost when another thread is made before it is waited for: the new
-- thread gets the id of the one that has exited, and its place, so that `sys_waittid` for the one
-- that has exited gives -2, as for a thread that runs.
pub sys_waittid-sys_thread_create :
    (t t' : Threads) (own tid : ℕ) (exit_code : ℤ)
    → exit_thread tid exit_code t ≡ some t'
    → (own == tid) ≡ false
    → let t'' = (sys_thread_create t').1 in
      ((sys_thread_create t').0 ≡ as_isize (pos tid))
      × (sys_waittid own tid t'' ≡ some (negsuc 1, t''))
unfolding wait_slot wait_code
sys_waittid-sys_thread_create t t' own tid exit_code h n =
    let (a, d, allocator, mine, others, within) = exit_thread-exited t t' tid exit_code h in
    let id : (alloc t'.task_res_allocator).0 ≡ tid =
      ap (λ x. (alloc x).0) allocator ∙ alloc-dealloc t.task_res_allocator a tid d in
    let t'' = (sys_thread_create t').1 in
    let (new, old, same) = sys_thread_create-slots t' in
    let new' : thread_at t''.tasks tid ≡ some new_thread =
      ap (thread_at t''.tasks) (sym id) ∙ new in
    (
      created_id t' ∙ ap (λ x. as_isize (pos x)) id,
      waittid-step own tid t'' n (thread_at-within t''.tasks tid new_thread new')
          ∙ ap (λ x. some (wait_slot tid x t'')) new',
    )

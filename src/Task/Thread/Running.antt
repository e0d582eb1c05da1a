-- ===== src/Task/Thread/Running.antt =====
-- The ids of threads that run.
use t_core.Base.{
  ℕ, ◌+◌, ◌-◌, ◌<◌, ◌≡◌, refl, sym, ◌∙◌, subst, Bool, true, false, Option, some, none, arith,
  length, get_elem?, set, Bool-cases, Option-cases, inl, inr, ==-self, ◌==◌, ℤ, length-set, ◌⊎◌,
}
use t_core.Task.Id.{RecycleAllocator, alloc, dealloc}
use t_core.Task.Id.Recycle.{IsValid, in_use}
use t_core.Task.Process.{Thread}
use t_core.Task.Thread.{
  Threads, new_thread, push_none, thread_at, sys_thread_create, exit_thread, sys_waittid, wait_slot,
  wait_code,
}
use t_core.Task.Thread.Slots.{
  thread_at-push_none, length-push_none, thread_at-set_self, thread_at-set_ne, thread_at-within,
}

abbrev pub is_running : Option Thread → Bool
is_running none = false
is_running (some task) = elim task.exit_code [ none ↦ true | some code ↦ false ]

-- The ids in use are those of the threads that run.
pub record Agrees (t : Threads) : Type 0 where
  pub valid : IsValid t.task_res_allocator
  pub agree : (i : ℕ) → in_use t.task_res_allocator i ≡ is_running (thread_at t.tasks i)

pub sys_thread_create-slots :
    (t : Threads)
    → let tid = (alloc t.task_res_allocator).0 in
      let t' = (sys_thread_create t).1 in
      (thread_at t'.tasks tid ≡ some new_thread)
      × ((i : ℕ) → (i == tid) ≡ false → thread_at t'.tasks i ≡ thread_at t.tasks i)
      × (t'.task_res_allocator ≡ (alloc t.task_res_allocator).1)
unfolding sys_thread_create
sys_thread_create-slots t =
    let tid = (alloc t.task_res_allocator).0 in
    let tasks = push_none (tid + 1 - length t.tasks) t.tasks in
    let l : length tasks ≡ length t.tasks + (tid + 1 - length t.tasks) =
      length-push_none (tid + 1 - length t.tasks) t.tasks in
    (
      thread_at-set_self tasks tid (some new_thread) (omega arith),
      λ i e.
          thread_at-set_ne tasks tid i (some new_thread) (λ q.
            let k = ==-self tid in
            let e' : (tid == tid) ≡ false = subst (λ x. (x == tid) ≡ false) (sym q) e in
            ground arith)
          ∙ thread_at-push_none (tid + 1 - length t.tasks) t.tasks i,
      refl,
    )

pub exit_thread-exited :
    (t t' : Threads) (tid : ℕ) (exit_code : ℤ)
    → exit_thread tid exit_code t ≡ some t'
    → (a : RecycleAllocator) × (dealloc t.task_res_allocator tid ≡ some a)
      × (t'.task_res_allocator ≡ a)
      × (thread_at t'.tasks tid ≡ some (record { exit_code = some exit_code }))
      × ((i : ℕ) → (i == tid) ≡ false → thread_at t'.tasks i ≡ thread_at t.tasks i)
      × (tid < length t'.tasks)
unfolding exit_thread
exit_thread-exited t t' tid exit_code h = elim (Option-cases (thread_at t.tasks tid)) [
  | inl e ↦ let k = rw e at h in absurd (ground arith)
  | inr (task, e) ↦ elim (Option-cases (dealloc t.task_res_allocator tid)) [
    | inl q ↦ let k = rw (e, q) at h in absurd (ground arith)
    | inr (a, q) ↦
        let k = rw (e, q) at h in
        let within = thread_at-within t.tasks tid task e in
        let now : Option Thread = some (record { exit_code = some exit_code }) in
        let tasks : t'.tasks ≡ set t.tasks tid now = ground arith in
        let l : length (set t.tasks tid now) ≡ length t.tasks = length-set t.tasks tid now in
        (
          a,
          q,
          ground arith,
          rw tasks (thread_at-set_self t.tasks tid now within),
          λ i n. rw tasks (
              thread_at-set_ne t.tasks tid i now (λ p.
                let k' = ==-self tid in
                let n' : (tid == tid) ≡ false = subst (λ x. (x == tid) ≡ false) (sym p) n in
                ground arith)),
          rw tasks (omega arith),
        )
  ]
]

-- What a call of `sys_waittid` takes away: nothing, or a thread that has exited.
pub sys_waittid-taken :
    (t t' : Threads) (own tid : ℕ) (result : ℤ)
    → sys_waittid own tid t ≡ some (result, t')
    → (t' ≡ t)
      ⊎ ((task : Thread) × (thread_at t.tasks tid ≡ some task)
          × (task.exit_code ≡ some result)
          × (t' ≡ record t { tasks = set t.tasks tid none }))
unfolding sys_waittid wait_slot wait_code thread_at
sys_waittid-taken t t' own tid result h = elim (Bool-cases (own == tid)) [
  | inl e ↦ let k = rw e at h in inl (ground arith)
  | inr e ↦ elim (Option-cases (get_elem? t.tasks tid)) [
    | inl q ↦ let k = rw (e, q) at h in absurd (ground arith)
    | inr (slot, q) ↦ elim (Option-cases slot) [
      | inl w ↦ let k = rw (e, q, w) at h in inl (ground arith)
      | inr (task, w) ↦ elim (Option-cases task.exit_code) [
        | inl c ↦ let k = rw (e, q, w, c) at h in inl (ground arith)
        | inr (code, c) ↦
            let k = rw (e, q, w, c) at h in inr (task, rw q w, c ∙ ground arith, ground arith)
      ]
    ]
  ]
]

-- ===== src/Task/Thread/Slots.antt =====
-- The places of threads in the list of tasks.
use t_core.Base.{
  ℕ, zero, suc, ◌+◌, ◌<◌, ◌≡◌, ◌≢◌, refl, ◌∙◌, Option, some, none, List, [], ◌∷◌, ◌++◌, arith,
  length, get_elem?, set, length-append, get_elem?-set_self, get_elem?-set_ne,
}
use t_core.Task.Process.{Thread}
use t_core.Task.Thread.{push_none, thread_at}

thread_at-push :
    (tasks : List (Option Thread)) (i : ℕ) → thread_at (tasks ++ none ∷ []) i ≡ thread_at tasks i
unfolding thread_at
thread_at-push [] zero = refl
thread_at-push [] (suc i) = refl
thread_at-push (x ∷ tasks) zero = refl
thread_at-push (x ∷ tasks) (suc i) = thread_at-push tasks i

pub thread_at-push_none :
    (n : ℕ) (tasks : List (Option Thread)) (i : ℕ)
    → thread_at (push_none n tasks) i ≡ thread_at tasks i
unfolding push_none
thread_at-push_none zero tasks i = refl
thread_at-push_none (suc n) tasks i =
    thread_at-push_none n (tasks ++ none ∷ []) i ∙ thread_at-push tasks i

pub length-push_none :
    (n : ℕ) (tasks : List (Option Thread)) → length (push_none n tasks) ≡ length tasks + n
unfolding push_none
length-push_none zero tasks = omega arith
length-push_none (suc n) tasks =
    let i = length-push_none n (tasks ++ none ∷ []) in
    let l : length (tasks ++ none ∷ []) ≡ length tasks + 1 = length-append tasks (none ∷ []) in
    omega arith

pub thread_at-set_self :
    (tasks : List (Option Thread)) (i : ℕ) (o : Option Thread)
    → i < length tasks
    → thread_at (set tasks i o) i ≡ o
unfolding thread_at
thread_at-set_self tasks i o h = rw (get_elem?-set_self tasks i o h) refl

pub thread_at-set_ne :
    (tasks : List (Option Thread)) (i j : ℕ) (o : Option Thread)
    → i ≢ j
    → thread_at (set tasks i o) j ≡ thread_at tasks j
unfolding thread_at
thread_at-set_ne tasks i j o h = rw (get_elem?-set_ne tasks o h) refl

-- A thread stands within the list.
pub thread_at-within :
    (tasks : List (Option Thread)) (i : ℕ) (task : Thread)
    → thread_at tasks i ≡ some task
    → i < length tasks
unfolding thread_at
thread_at-within [] i task h = absurd (ground arith)
thread_at-within (x ∷ tasks) zero task h = omega arith
thread_at-within (x ∷ tasks) (suc i) task h = let k = thread_at-within tasks i task h in omega arith

pub get_elem?-within :
    (tasks : List (Option Thread)) (i : ℕ)
    → i < length tasks
    → get_elem? tasks i ≡ some (thread_at tasks i)
unfolding thread_at
get_elem?-within [] i h = absurd (omega arith)
get_elem?-within (x ∷ tasks) zero h = refl
get_elem?-within (x ∷ tasks) (suc i) h = get_elem?-within tasks i (omega arith)

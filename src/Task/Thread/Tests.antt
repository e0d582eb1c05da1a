-- ===== src/Task/Thread/Tests.antt =====
-- Concrete instances of the theorems on threads.
use t_core.Base.{◌≡◌, refl, false, some, none, [], ◌∷◌, arith, pos, negsuc, as_isize}
use t_core.Task.Id.{alloc, dealloc}
use t_core.Task.Thread.{Threads, sys_thread_create, exit_thread, sys_waittid, thread_at, push_none}
use t_core.Task.Thread.Running.{Agrees, is_running}
use t_core.Task.Thread.Joining.{
  Step, Reach, start, Reach-Agrees, sys_waittid-exit_thread, sys_waittid-sys_thread_create,
}
use t_core.Task

-- The main thread and another one; and the other one has exited.
abbrev two : Threads
two = (sys_thread_create start).1

abbrev ended : Threads
ended = record {
  task_res_allocator = record { current = 2; recycled = 1 ∷ [] };
  tasks = some (record { exit_code = none }) ∷ some (record { exit_code = some (pos 5) }) ∷ [];
}

exit_two : exit_thread 1 (pos 5) two ≡ some ended
unfolding exit_thread thread_at sys_thread_create push_none Task.Id.new Task.Id.alloc
    Task.Id.alloc_from Task.Id.dealloc
exit_two = refl

ended-Reach : Reach start 2 ended
unfolding sys_thread_create push_none thread_at Task.Id.new Task.Id.alloc Task.Id.alloc_from
ended-Reach =
    Reach.next (Reach.next Reach.here (Step.creates (pos 1) refl))
      (Step.exits 1 (pos 5) refl exit_two)

Reach-Agrees_example :
    Agrees ended × (is_running (thread_at ended.tasks (alloc ended.task_res_allocator).0) ≡ false)
Reach-Agrees_example = Reach-Agrees 2 ended ended-Reach (omega arith)

sys_waittid-exit_thread_example :
    (t'' : Threads) × (sys_waittid 0 1 ended ≡ some (pos 5, t''))
    × (thread_at t''.tasks 1 ≡ none)
    × (sys_waittid 0 1 t'' ≡ some (negsuc 0, t''))
sys_waittid-exit_thread_example = sys_waittid-exit_thread two ended 0 1 (pos 5) exit_two refl

sys_waittid-sys_thread_create_example :
    ((sys_thread_create ended).0 ≡ as_isize (pos 1))
    × (sys_waittid 0 1 (sys_thread_create ended).1 ≡ some (negsuc 1, (sys_thread_create ended).1))
sys_waittid-sys_thread_create_example =
    sys_waittid-sys_thread_create two ended 0 1 (pos 5) exit_two refl

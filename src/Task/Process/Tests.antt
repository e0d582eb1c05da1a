-- ===== src/Task/Process/Tests.antt =====
-- Concrete instances of the theorems on processes.
use t_core.Base.{◌^◌, ◌≡◌, refl, false, some, [], ◌∷◌, arith, pos, as_isize, ◌-◌}
use t_core.Task.Id.Recycle.{in_use}
use t_core.Task.Process.{
  Processes, new, fork, exit_main, sys_waitpid, count, others, has_pid, remove_from_pid2process,
  reparent, get_task,
}
use t_core.Task.Process.Exiting.{exited}
use t_core.Task.Process.Forking.{with_child}
use t_core.Task.Process.Family.{Sound}
use t_core.Task.Process.Waiting.{Step, Reach, start, Reach-Sound, Outcome, sys_waitpid-Outcome}
use t_core.Task.Process.Reporting.{sys_waitpid-exit_main}
use t_core.Task

-- The first process has a child, which has a child too.
abbrev family : Processes
family = with_child 1 (with_child 0 start)

family-Reach : Reach start family
unfolding fork get_task new Task.Id.new Task.Id.alloc Task.Id.alloc_from
family-Reach =
    Reach.next (Reach.next Reach.here (Step.forks 0 1 (omega arith) refl))
      (Step.forks 1 2 (omega arith) refl)

-- Then the child exits.
exit_family : exit_main 1 (pos 7) family ≡ some (exited 1 (pos 7) family)
unfolding exit_main reparent remove_from_pid2process has_pid others new Task.Id.new Task.Id.alloc
    Task.Id.alloc_from
exit_family = refl

exited_family-Reach : Reach start (exited 1 (pos 7) family)
unfolding new
exited_family-Reach = Reach.next family-Reach (Step.exits 1 (pos 7) (omega arith) exit_family)

-- Its own child is now a child of the first process.
adopted : ((exited 1 (pos 7) family).process 0).children ≡ 1 ∷ 2 ∷ []
unfolding reparent new
adopted = refl

Reach-Sound_example : Sound (exited 1 (pos 7) family)
unfolding new
Reach-Sound_example = Reach-Sound (exited 1 (pos 7) family) exited_family-Reach (omega arith)

sys_waitpid-Outcome_example :
    Outcome 0
      (2 ^ 64 - 1)
      (some 4096)
      (exited 1 (pos 7) family)
      (sys_waitpid 0 (2 ^ 64 - 1) (some 4096) (exited 1 (pos 7) family))
unfolding new
sys_waitpid-Outcome_example =
    sys_waitpid-Outcome (exited 1 (pos 7) family) 0 (2 ^ 64 - 1) (some 4096) exited_family-Reach
      (omega arith) (omega arith)

sys_waitpid-exit_main_example :
    (s'' : Processes) × (sys_waitpid 0 (family.process 1).pid (some 4096) (exited 1 (pos 7) family)
      ≡ some (as_isize (pos (family.process 1).pid), some (pos 7), s''))
    × (in_use s''.pid_allocator (family.process 1).pid ≡ false)
unfolding new count
sys_waitpid-exit_main_example =
    sys_waitpid-exit_main family (exited 1 (pos 7) family) 0 1 4096 (pos 7) family-Reach
      (omega arith) (omega arith) (omega arith) refl (omega arith) exit_family refl

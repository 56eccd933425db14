-- ===== src/Examples/Semaphores.antt =====
-- kernel/proc/semaphore.c at concrete sets of tasks.
use weg_os.Base.{◌+◌, ◌≡◌, refl, arith, some, [], ◌∷◌, ◌==◌, if◌then◌else◌, inl, inr}
use weg_os.PidQueue.{PidQueue}
use weg_os.PidQueue.Ring.{IsValid, contents}
use weg_os.Task.{Kernel, state_ready}
use weg_os.Semaphore.{Semaphore, wait, signal, unblock}
use weg_os.Semaphore.Waiting.{wait-blocks, signal-wakes, unblock-remove_at}
use weg_os.Sched.Queues.{IsConsistent}
use weg_os.Examples.Kernels.{empty, just, three_tasks, three_tasks-IsConsistent}

abbrev semaphore : PidQueue → Semaphore
semaphore q = record { count = 0; blocked_pids = q }

wait-blocks_example :
    (k' : Kernel) × (s' : Semaphore) × (wait three_tasks (semaphore empty) ≡ some (k', s'))
    × IsConsistent k'.task_manager
    × IsValid s'.blocked_pids
    × (s'.count ≡ 65535)
    × (contents s'.blocked_pids ≡ 1 ∷ [])
    × (contents k'.task_manager.pid_queue_blocked ≡ 1 ∷ [])
    × (k'.task_manager.pid_running ≡ 2)
    × (contents k'.task_manager.pid_queue_ready ≡ [])
wait-blocks_example =
    wait-blocks three_tasks (semaphore empty) 2 [] three_tasks-IsConsistent
      (record { head_in = omega arith; tail_in = omega arith }) (omega arith) (inl refl)
      (omega arith) (λ e. omega arith) refl

abbrev one_blocked : Kernel
one_blocked = record three_tasks {
  task_manager = record (three_tasks.task_manager) { pid_queue_blocked = just 5 };
}

one_blocked-IsConsistent : IsConsistent one_blocked.task_manager
one_blocked-IsConsistent = record {
  ready = three_tasks-IsConsistent.ready;
  blocked = record {
    valid = record { head_in = omega arith; tail_in = omega arith };
    all_in = (omega arith, refl, tt);
    distinct = (refl, tt);
  };
  sleeping = three_tasks-IsConsistent.sleeping;
  running = inr (omega arith, refl);
  sleeping_head = refl;
  room = omega arith;
}

signal-wakes_example :
    (k' : Kernel) × (s' : Semaphore) × (signal one_blocked (semaphore (just 5)) ≡ some (k', s'))
    × IsConsistent k'.task_manager
    × (s'.count ≡ 1)
    × (contents s'.blocked_pids ≡ [])
    × (contents k'.task_manager.pid_queue_blocked ≡ [])
    × (contents k'.task_manager.pid_queue_ready ≡ 2 ∷ 5 ∷ [])
    × ((k'.task_manager.tasks 5).state ≡ state_ready)
    × (k'.task_manager.pid_running ≡ 1)
signal-wakes_example =
    signal-wakes one_blocked (semaphore (just 5)) 5 [] one_blocked-IsConsistent
      (record { head_in = omega arith; tail_in = omega arith }) refl refl refl

-- Tasks 2, 8 and 9 are blocked.
abbrev three_blocked : Kernel
three_blocked = record three_tasks {
  task_manager = record (three_tasks.task_manager) {
    pid_queue_blocked = record { head = 0; tail = 3; pids = λ i. if i == 0 then 2 else 7 + i };
  };
}

-- Task 2 is woken, and task 9 leaves the queue.
unblock-remove_at_example :
    (k' : Kernel) × (unblock three_blocked 2 ≡ some k')
    × (contents k'.task_manager.pid_queue_blocked ≡ 2 ∷ 8 ∷ [])
    × ((k'.task_manager.tasks 2).state ≡ state_ready)
unblock-remove_at_example =
    unblock-remove_at three_blocked 2 2 (record { head_in = omega arith; tail_in = omega arith })
      (λ e. omega arith) refl (λ e. omega arith) (omega arith) refl

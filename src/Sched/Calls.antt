-- ===== src/Sched/Calls.antt =====
-- `sys_sleep`, `sys_exit` and the time slice of `check_schedule`, from what `schedule` does.
use weg_os.Base.{
  ℕ, ◌*◌, ◌^◌, ◌≡◌, ◌≢◌, inl, inr, refl, ap, ◌∙◌, arith, update, update_self, some, List, [], ◌∷◌,
  ◌++◌, append-nil, ◌==◌, ==_of_ne, ==_iff, if◌then◌else◌,
}
use weg_os.PidQueue.{not_found}
use weg_os.PidQueue.Ring.{contents}
use weg_os.Task.{Kernel, Task, TaskManager, state_ready, state_blocked, state_sleeping, set_task}
use weg_os.Sched.{
  time_piece_over, task_sleep, task_exit, time_piece, dec32, empty_desc, sys_sleep, sys_exit,
  check_schedule,
}
use weg_os.Sched.Queues.{IsConsistent, Holds-same_state}
use weg_os.Sched.Switch.{schedule-Scheduled}

-- Setting the wake-up counter of a task does not concern the queues.
IsConsistent-counter :
    (tm : TaskManager) (pid counter : ℕ)
    → IsConsistent tm
    → IsConsistent (set_task tm pid (record (tm.tasks pid) { wakeup_counter = counter }))
IsConsistent-counter tm pid counter c = record {
  ready = Holds-same_state tm.tasks state_ready _ pid t refl c.ready;
  blocked = Holds-same_state tm.tasks state_blocked _ pid t refl c.blocked;
  sleeping = Holds-same_state tm.tasks state_sleeping _ pid t refl c.sleeping;
  running = elim c.running [ inl e ↦ inl e | inr (bound, state) ↦ inr (bound, ground arith) ];
  sleeping_head = c.sleeping_head;
  room = c.room;
}
  where
    t : Task
    t = record (tm.tasks pid) { wakeup_counter = counter }

-- `sys_sleep` of the running task, when another is ready: the task joins the end of the sleeping queue
-- with the counter it asked for, the first ready task gets the processor with a full slice, the blocked
-- queue is as it was, and the task manager stays consistent.
pub sys_sleep_lem :
    (k : Kernel) (counter best : ℕ) (rest : List ℕ)
    → IsConsistent k.task_manager
    → k.task_manager.pid_running ≢ not_found
    → contents k.task_manager.pid_queue_ready ≡ best ∷ rest
    → (k' : Kernel) × (sys_sleep k counter ≡ some k')
      × IsConsistent k'.task_manager
      × (k'.task_manager.pid_running ≡ best)
      × (contents k'.task_manager.pid_queue_ready ≡ rest)
      × (contents k'.task_manager.pid_queue_sleeping
          ≡ contents k.task_manager.pid_queue_sleeping ++ (k.task_manager.pid_running ∷ []))
      × (contents k'.task_manager.pid_queue_blocked ≡ contents k.task_manager.pid_queue_blocked)
      × ((k'.task_manager.tasks k.task_manager.pid_running).wakeup_counter ≡ counter)
      × (k'.task_manager.schdule_counter ≡ time_piece)
unfolding sys_sleep
sys_sleep_lem k counter best rest c runs first =
    let (k', done, s) =
      schedule-Scheduled asleep task_sleep best rest
        (IsConsistent-counter tm tm.pid_running counter c) first in
    (
      k',
      done,
      s.consistent,
      s.runs,
      s.ready_is ∙ rw (==_of_ne _ _ runs) (append-nil rest),
      s.sleeping_is ∙ rw (==_of_ne _ _ runs),
      s.blocked_is ∙ rw (==_of_ne _ _ runs) (append-nil _),
      s.counters_are tm.pid_running
          ∙ ap (λ x. x.wakeup_counter) (update_self tm.tasks tm.pid_running t),
      s.counter,
    )
  where
    tm : TaskManager
    tm = k.task_manager

    t : Task
    t = record (tm.tasks tm.pid_running) { wakeup_counter = counter }

    asleep : Kernel
    asleep = record k { task_manager = set_task tm tm.pid_running t }

-- `sys_exit` of the running task, when another is ready: its descriptor is cleared and no other is
-- written, it joins no queue, the first ready task gets the processor, and the task manager stays
-- consistent.
pub sys_exit_lem :
    (k : Kernel) (code best : ℕ) (rest : List ℕ)
    → IsConsistent k.task_manager
    → k.task_manager.pid_running ≢ not_found
    → contents k.task_manager.pid_queue_ready ≡ best ∷ rest
    → (k' : Kernel) × (sys_exit k code ≡ some k')
      × IsConsistent k'.task_manager
      × (k'.task_manager.pid_running ≡ best)
      × (contents k'.task_manager.pid_queue_ready ≡ rest)
      × (contents k'.task_manager.pid_queue_sleeping ≡ contents k.task_manager.pid_queue_sleeping)
      × (contents k'.task_manager.pid_queue_blocked ≡ contents k.task_manager.pid_queue_blocked)
      × ((i : ℕ) → k'.gdt i ≡ (if k.task_manager.pid_running == i then empty_desc else k.gdt i))
unfolding sys_exit
sys_exit_lem k code best rest c runs first =
    let (k', done, s) =
      schedule-Scheduled (record k { gdt = update k.gdt k.task_manager.pid_running empty_desc })
        task_exit best rest c first in
    (
      k',
      done,
      s.consistent,
      s.runs,
      s.ready_is ∙ rw (==_of_ne _ _ runs) (append-nil rest),
      s.sleeping_is ∙ rw (==_of_ne _ _ runs) (append-nil _),
      s.blocked_is ∙ rw (==_of_ne _ _ runs) (append-nil _),
      λ i. ap (λ g. g i) s.gdt_is,
    )

-- `check_schedule` counts the time slice down. Until it reaches 0 nothing else changes.
pub check_schedule-counts :
    (k : Kernel)
    → dec32 k.task_manager.schdule_counter ≢ 0
    → check_schedule k
      ≡ some (record k {
        task_manager = record (k.task_manager) {
          schdule_counter = dec32 k.task_manager.schdule_counter;
        };
      })
unfolding check_schedule
check_schedule-counts k more = rw (==_of_ne _ _ more)

-- On a consistent state, when the slice ends, a task runs and another is ready, `check_schedule` returns:
-- the running task goes to the end of the ready queue, the first ready task gets the processor with a
-- full slice and is jumped to, the sleeping and blocked queues are as they were, and the task manager
-- stays consistent.
pub check_schedule-rotates :
    (k : Kernel) (best : ℕ) (rest : List ℕ)
    → IsConsistent k.task_manager
    → k.task_manager.pid_running ≢ not_found
    → dec32 k.task_manager.schdule_counter ≡ 0
    → contents k.task_manager.pid_queue_ready ≡ best ∷ rest
    → (k' : Kernel) × (check_schedule k ≡ some k')
      × IsConsistent k'.task_manager
      × (k'.task_manager.pid_running ≡ best)
      × (contents k'.task_manager.pid_queue_ready ≡ rest ++ (k.task_manager.pid_running ∷ []))
      × (contents k'.task_manager.pid_queue_sleeping ≡ contents k.task_manager.pid_queue_sleeping)
      × (contents k'.task_manager.pid_queue_blocked ≡ contents k.task_manager.pid_queue_blocked)
      × (k'.task_manager.schdule_counter ≡ time_piece)
      × (k'.jumps ≡ (best * 2 ^ 3) ∷ k.jumps)
unfolding check_schedule
check_schedule-rotates k best rest c runs over first =
    let (k', done, s) =
      schedule-Scheduled
        (record k {
          task_manager = record (k.task_manager) {
            schdule_counter = dec32 k.task_manager.schdule_counter;
          };
        })
        time_piece_over best rest
        (record {
          ready = c.ready;
          blocked = c.blocked;
          sleeping = c.sleeping;
          running = c.running;
          sleeping_head = c.sleeping_head;
          room = c.room;
        })
        first in
    (
      k',
      rw ((==_iff (dec32 k.task_manager.schdule_counter) 0).1 over) done,
      s.consistent,
      s.runs,
      s.ready_is ∙ rw (==_of_ne _ _ runs),
      s.sleeping_is ∙ rw (==_of_ne _ _ runs) (append-nil _),
      s.blocked_is ∙ rw (==_of_ne _ _ runs) (append-nil _),
      s.counter,
      s.jumped,
    )

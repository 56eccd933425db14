-- ===== src/Sched/Outcome.antt =====
-- What a call of `schedule` leads to, in terms of the queues.
use weg_os.Base.{
  ℕ, ◌+◌, ◌*◌, ◌^◌, ◌≤◌, ◌<◌, ◌≡◌, inr, refl, ap, arith, Bool, true, false, update_self, List, [],
  ◌∷◌, ◌++◌, append-nil, length, ◌==◌, if◌then◌else◌, length-append,
}
use weg_os.PidQueue.{max_gdt_terms, not_found, pid_dequeue}
use weg_os.PidQueue.Ring.{contents}
use weg_os.PidQueue.Search.{has}
use weg_os.Task.{
  Kernel, Task, TaskState, TaskManager, state_ready, state_running, state_blocked, state_sleeping,
  set_task_state,
}
use weg_os.Sched.{
  SchedulerReason, time_piece_over, task_yield, task_sleep, task_blocked, task_exit, time_piece,
}
use weg_os.Sched.Queues.{Holds, IsConsistent, count_running, population, Holds-update}

-- Whether a task that leaves the processor for the reason enters the queue of the state.
abbrev pub goes : SchedulerReason → TaskState → Bool
goes time_piece_over state_ready = true
goes task_sleep state_sleeping = true
goes task_blocked state_blocked = true
goes _ _ = false

-- The running task, if there is one and it goes to the queue of the state.
abbrev pub leaver : TaskManager → SchedulerReason → TaskState → List ℕ
leaver tm reason s =
    if tm.pid_running == not_found then [] else (if goes reason s then tm.pid_running ∷ [] else [])

-- What `schedule` does when `best` is the first ready task and `rest` are those behind it.
pub record Scheduled (k k' : Kernel) (reason : SchedulerReason) (best : ℕ) (rest : List ℕ)
    : Type 0 where
  pub consistent : IsConsistent k'.task_manager
  pub runs : k'.task_manager.pid_running ≡ best
  pub counter : k'.task_manager.schdule_counter ≡ time_piece
  pub jumped : k'.jumps ≡ (best * 2 ^ 3) ∷ k.jumps
  pub ready_is :
      contents k'.task_manager.pid_queue_ready ≡ rest ++ leaver k.task_manager reason state_ready
  pub blocked_is :
      contents k'.task_manager.pid_queue_blocked
      ≡ contents k.task_manager.pid_queue_blocked ++ leaver k.task_manager reason state_blocked
  pub sleeping_is :
      contents k'.task_manager.pid_queue_sleeping
      ≡ contents k.task_manager.pid_queue_sleeping ++ leaver k.task_manager reason state_sleeping
  pub counters_are :
      (p : ℕ) → (k'.task_manager.tasks p).wakeup_counter ≡ (k.task_manager.tasks p).wakeup_counter
  pub gdt_is : k'.gdt ≡ k.gdt

-- The state between the two halves of a switch: the old task has left, `best` is in no queue.
pub record Between (k k1 : Kernel) (reason : SchedulerReason) (best : ℕ) (rest : List ℕ)
    : Type 0 where
  pub ready : Holds k1.task_manager.tasks state_ready k1.task_manager.pid_queue_ready
  pub blocked : Holds k1.task_manager.tasks state_blocked k1.task_manager.pid_queue_blocked
  pub sleeping : Holds k1.task_manager.tasks state_sleeping k1.task_manager.pid_queue_sleeping
  pub sleeping_head : k1.task_manager.pid_queue_sleeping.head ≡ 0
  pub ready_is :
      contents k1.task_manager.pid_queue_ready ≡ rest ++ leaver k.task_manager reason state_ready
  pub blocked_is :
      contents k1.task_manager.pid_queue_blocked
      ≡ contents k.task_manager.pid_queue_blocked ++ leaver k.task_manager reason state_blocked
  pub sleeping_is :
      contents k1.task_manager.pid_queue_sleeping
      ≡ contents k.task_manager.pid_queue_sleeping ++ leaver k.task_manager reason state_sleeping
  pub not_ready : has best (contents k1.task_manager.pid_queue_ready) ≡ false
  pub not_blocked : has best (contents k1.task_manager.pid_queue_blocked) ≡ false
  pub not_sleeping : has best (contents k1.task_manager.pid_queue_sleeping) ≡ false
  pub counter : k1.task_manager.schdule_counter ≡ time_piece
  pub counters_are :
      (p : ℕ) → (k1.task_manager.tasks p).wakeup_counter ≡ (k.task_manager.tasks p).wakeup_counter
  pub jumps : k1.jumps ≡ k.jumps
  pub gdt_is : k1.gdt ≡ k.gdt

pub length-leaver :
    (tm : TaskManager) (reason : SchedulerReason)
    → length (leaver tm reason state_ready)
        + length (leaver tm reason state_blocked)
        + length (leaver tm reason state_sleeping)
      ≤ count_running tm.pid_running
length-leaver tm time_piece_over = ground arith
length-leaver tm task_yield = ground arith
length-leaver tm task_sleep = ground arith
length-leaver tm task_blocked = ground arith
length-leaver tm task_exit = ground arith

module _ (k k1 : Kernel) (reason : SchedulerReason) (best : ℕ) (rest : List ℕ)
    (bound : best < max_gdt_terms) (room : population k.task_manager < 8191)
    (first : contents k.task_manager.pid_queue_ready ≡ best ∷ rest) where
  pub Between-Scheduled :
      Between k k1 reason best rest
      → Scheduled k (set_task_state k1 best state_running) reason best rest
  unfolding set_task_state
  Between-Scheduled b = record {
    consistent = record {
      ready = Holds-update b.ready best t b.not_ready;
      blocked = Holds-update b.blocked best t b.not_blocked;
      sleeping = Holds-update b.sleeping best t b.not_sleeping;
      running = inr (bound, ap (λ x. x.state) (update_self k1.task_manager.tasks best t));
      sleeping_head = b.sleeping_head;
      room = ground (
        arith,
        length-leaver k.task_manager reason,
        ap length first,
        ap length b.ready_is,
        ap length b.blocked_is,
        ap length b.sleeping_is,
        length-append rest (leaver k.task_manager reason state_ready),
        length-append (contents k.task_manager.pid_queue_blocked)
            (leaver k.task_manager reason state_blocked),
        length-append (contents k.task_manager.pid_queue_sleeping)
            (leaver k.task_manager reason state_sleeping),
      );
    };
    runs = refl;
    counter = b.counter;
    jumped = ap (λ js. (best * 2 ^ 3) ∷ js) b.jumps;
    ready_is = b.ready_is;
    blocked_is = b.blocked_is;
    sleeping_is = b.sleeping_is;
    counters_are = λ p. ground (arith, b.counters_are p);
    gdt_is = b.gdt_is;
  }
    where
      t : Task
      t = record (k1.task_manager.tasks best) { state = state_running }

-- The kernel once `schedule` has taken the first ready task off its queue.
abbrev pub taken : Kernel → Kernel
taken k = record k {
  task_manager = record (k.task_manager) {
    schdule_counter = time_piece;
    pid_queue_ready = (pid_dequeue k.task_manager.pid_queue_ready).1;
  };
}

pub append-no_leaver : (xs ys : List ℕ) → ys ≡ [] → xs ≡ xs ++ ys
append-no_leaver xs ys e = rw (e, append-nil)

-- ===== src/Examples/Kernels.antt =====
-- A kernel with three tasks, for the tests of kernel/proc.
use weg_os.Base.{ℕ, ◌^◌, refl, arith, Array, [], ◌==◌, if◌then◌else◌, inr}
use weg_os.PidQueue.{PidQueue}
use weg_os.Task.{
  Tss, Task, TaskState, TaskManager, Kernel, state_ready, state_running, state_sleeping,
  state_dying, state_blocked,
}
use weg_os.Sched.Queues.{IsConsistent}

abbrev pub tss : Tss
tss = record { cr3 = 0; eip = 0; eflags = 0x202; esp = 0; cs = 8; ss = 16; ds = 16 }

-- Task 1 runs, task 2 is ready, and task 3 sleeps until the second tick from now. Task 5 is blocked.
abbrev pub state_of : ℕ → TaskState
state_of p =
    if p == 1
    then state_running
    else (if p == 2
        then state_ready
        else (if p == 3 then state_sleeping else (if p == 5 then state_blocked else state_dying)))

abbrev pub tasks : Array Task
tasks p = record { state = state_of p; tss = tss; wakeup_counter = 2; ddl = 0xff }

abbrev pub empty : PidQueue
empty = record { head = 0; tail = 0; pids = λ i. 0 }

abbrev pub just : ℕ → PidQueue
just pid = record { head = 0; tail = 1; pids = λ i. pid }

-- The last tick of the time slice is due.
abbrev pub manager : PidQueue → TaskManager
manager ready = record {
  tasks = tasks;
  schdule_counter = 1;
  pid_running = 1;
  pid_queue_ready = ready;
  pid_queue_blocked = empty;
  pid_queue_sleeping = just 3;
}

abbrev pub kernel : PidQueue → Kernel
kernel ready = record {
  task_manager = manager ready;
  gdt = λ i. record { low = 1; high = 1 };
  memory = record { mem = λ i. 0; alloc_bitmap = record { bits = λ i. 0; size = 2 ^ 20 } };
  ticks = 0;
  jumps = [];
}

abbrev pub three_tasks : Kernel
three_tasks = kernel (just 2)

pub three_tasks-IsConsistent : IsConsistent three_tasks.task_manager
three_tasks-IsConsistent = record {
  ready = record {
    valid = record { head_in = omega arith; tail_in = omega arith };
    all_in = (omega arith, refl, tt);
    distinct = (refl, tt);
  };
  blocked = record {
    valid = record { head_in = omega arith; tail_in = omega arith };
    all_in = tt;
    distinct = tt;
  };
  sleeping = record {
    valid = record { head_in = omega arith; tail_in = omega arith };
    all_in = (omega arith, refl, tt);
    distinct = (refl, tt);
  };
  running = inr (omega arith, refl);
  sleeping_head = refl;
  room = omega arith;
}

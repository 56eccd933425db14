-- ===== src/Sched.antt =====
-- kernel/proc/sched.c, and `on_timer` of kernel/time/time.c.
-- `none` is a run that never returns: the debugging build loops for ever when no task is ready, and the
-- loops over a queue may not end.
pub mod Queues
pub mod Outcome
pub mod Switch
pub mod Wakeup
pub mod Calls
pub mod Sleep
pub mod Directories
pub mod Start
pub mod Ticks
pub mod Timer
use weg_os.Base.{
  ℕ, zero, suc, ◌+◌, ◌-◌, ◌%◌, ◌^◌, true, false, Option, none, some, ◌==◌, ◌>>=◌, if◌then◌else◌,
  update,
}
use weg_os.PidQueue.{
  PidQueue, max_gdt_terms, not_found, inc, pid_queue_init, pid_dequeue, pid_queue_delete,
}
use weg_os.Task.{
  Kernel, Task, TaskManager, GdtDesc, state_ready, state_running, state_blocked, state_sleeping,
  set_task, set_task_state, Image, create_task, task_flag_kernel, dpl_kernel,
}

abbrev pub time_piece : ℕ
time_piece = 100

pub data SchedulerReason : Type 0 where
  time_piece_over task_yield task_sleep task_blocked task_exit : SchedulerReason

-- `--counter` on a `uint32_t`
abbrev pub dec32 : ℕ → ℕ
dec32 n = (n + 2 ^ 32 - 1) % 2 ^ 32

-- `pid_queue_sleeping` is not touched.
unfoldable pub task_manager_init : TaskManager → TaskManager
task_manager_init tm = record tm {
  pid_queue_ready = pid_queue_init tm.pid_queue_ready;
  pid_queue_blocked = pid_queue_init tm.pid_queue_blocked;
  pid_running = not_found;
  schdule_counter = time_piece;
}

-- What becomes of the task that leaves the processor.
unfoldable pub retire : Kernel → ℕ → SchedulerReason → Kernel
retire k pid time_piece_over = set_task_state k pid state_ready
retire k pid task_sleep = set_task_state k pid state_sleeping
retire k pid task_blocked = set_task_state k pid state_blocked
retire k pid _ = k

unfoldable pub switch_to : Kernel → ℕ → SchedulerReason → Option Kernel
unfolding retire
switch_to k pid reason =
    let running = k.task_manager.pid_running in
    if pid == not_found
    then none
    else (if running == pid
        then some k
        else some (
            set_task_state (if running == not_found then k else retire k running reason) pid
              state_running))

-- An empty ready queue is where the debugging build stays for ever.
unfoldable pub schedule : Kernel → SchedulerReason → Option Kernel
schedule k reason =
    let (best_pid, ready) = pid_dequeue k.task_manager.pid_queue_ready in
    let k' = record k {
      task_manager = record (k.task_manager) {
        schdule_counter = time_piece;
        pid_queue_ready = ready;
      };
    } in
    if best_pid == not_found then none else switch_to k' best_pid reason

unfoldable pub sys_sleep : Kernel → ℕ → Option Kernel
sys_sleep k counter =
    let tm = k.task_manager in
    let pid = tm.pid_running in
    schedule
      (record k {
        task_manager = set_task tm pid (record (tm.tasks pid) { wakeup_counter = counter });
      })
      task_sleep

abbrev pub empty_desc : GdtDesc
empty_desc = record { low = 0; high = 0 }

unfoldable pub sys_exit : Kernel → ℕ → Option Kernel
sys_exit k code =
    schedule (record k { gdt = update k.gdt k.task_manager.pid_running empty_desc }) task_exit

-- One pass of the loop of `check_wakeup` at slot i: the state and the slot to go on with. After a
-- deletion `i--` is a `uint16_t` decrement, which the increment of the loop undoes.
unfoldable pub wakeup_step : Kernel → ℕ → Option (Kernel × ℕ)
wakeup_step k i =
    let tm = k.task_manager in
    let pid = tm.pid_queue_sleeping.pids i in
    let counter = dec32 (tm.tasks pid).wakeup_counter in
    let tm' = set_task tm pid (record (tm.tasks pid) { wakeup_counter = counter }) in
    if counter == 0
    then (do
      sleeping ← pid_queue_delete tm'.pid_queue_sleeping i
      some (
        set_task_state (record k { task_manager = record tm' { pid_queue_sleeping = sleeping } })
            pid state_ready,
        inc ((i + 2 ^ 16 - 1) % 2 ^ 16),
      ))
    else some (record k { task_manager = tm' }, inc i)

pub wakeup_loop : ℕ → Kernel → ℕ → Option Kernel
wakeup_loop zero k i = none
wakeup_loop (suc rounds) k i = elim (i == k.task_manager.pid_queue_sleeping.tail) [
  | true ↦ some k
  | false ↦ (wakeup_step k i) >>= λ s. wakeup_loop rounds s.0 s.1
]

-- Each pass takes a sleeping task, so there are at most as many passes as slots.
unfoldable pub check_wakeup : Kernel → Option Kernel
check_wakeup k = wakeup_loop (max_gdt_terms + 1) k k.task_manager.pid_queue_sleeping.head

unfoldable pub check_schedule : Kernel → Option Kernel
check_schedule k =
    let counter = dec32 k.task_manager.schdule_counter in
    let k' = record k { task_manager = record (k.task_manager) { schdule_counter = counter } } in
    if counter == 0 then schedule k' time_piece_over else some k'

unfoldable pub check_task_affairs : Kernel → Option Kernel
check_task_affairs k = do k' ← check_wakeup k; check_schedule k'

-- The end-of-interrupt command goes to the interrupt controller, and changes no state here.
unfoldable pub on_timer : Kernel → Option Kernel
on_timer k = check_task_affairs (record k { ticks = (k.ticks + 1) % 2 ^ 32 })

-- The addresses of `idle` and of the ends of the two stacks.
unfoldable pub sched_init : Image → Kernel → ℕ → ℕ → ℕ → Kernel
sched_init image k idle idle_stack_0_end idle_stack_1_end =
    let k0 = record k { task_manager = task_manager_init k.task_manager } in
    let (_, k1) = create_task image k0 task_flag_kernel idle idle_stack_0_end 0xff in
    let (_, k2) = create_task image k1 task_flag_kernel idle idle_stack_1_end 0xff in k2

-- ===== src/Semaphore.antt =====
-- kernel/proc/semaphore.c and include/comm/semaphore.h.
-- `count` is the bit pattern of an `int16_t`: from 2 ^ 15 on it stands for a negative number.
-- `none` is a run that never returns.
pub mod Waiting
use weg_os.Base.{ℕ, ◌+◌, ◌-◌, ◌%◌, ◌^◌, Option, none, some, ◌==◌, leb, ◌>>=◌, if◌then◌else◌}
use weg_os.PidQueue.{
  PidQueue, not_found, pid_queue_init, pid_enqueue, pid_dequeue, pid_queue_find, pid_queue_delete,
}
use weg_os.Task.{Kernel, state_ready, set_task_state}
use weg_os.Sched.{schedule, task_blocked}

-- `semaphore_t`
pub record Semaphore : Type 0 where
  pub count : ℕ
  pub blocked_pids : PidQueue

unfoldable pub semaphore_init : Semaphore → ℕ → Semaphore
semaphore_init s count = record { count = count; blocked_pids = pid_queue_init s.blocked_pids }

unfoldable pub wait : Kernel → Semaphore → Option (Kernel × Semaphore)
wait k s =
    let count = (s.count + 2 ^ 16 - 1) % 2 ^ 16 in
    if leb (2 ^ 15) count
    then (do
      k' ← schedule k task_blocked
      some (
        k',
        record {
          count = count;
          blocked_pids = pid_enqueue s.blocked_pids k.task_manager.pid_running;
        },
      ))
    else some (k, record s { count = count })

-- Takes a woken task out of the blocked queue. `pid_queue_find` returns a pid, which is then used as a
-- slot. A task that is not found has the debugging build loop for ever, after the deletion.
unfoldable pub unblock : Kernel → ℕ → Option Kernel
unblock k pid = do
  let tm = k.task_manager
  i ← pid_queue_find tm.pid_queue_blocked pid
  blocked ← pid_queue_delete tm.pid_queue_blocked i
  if i == not_found
      then none
      else some (
          set_task_state (record k { task_manager = record tm { pid_queue_blocked = blocked } }) pid
            state_ready)

unfoldable pub signal : Kernel → Semaphore → Option (Kernel × Semaphore)
signal k s =
    let (pid_wake_up, blocked_pids) = pid_dequeue s.blocked_pids in
    let s' : Semaphore = record { count = (s.count + 1) % 2 ^ 16; blocked_pids = blocked_pids } in
    if pid_wake_up == not_found
    then some (k, s')
    else (do k' ← unblock k pid_wake_up; some (k', s'))

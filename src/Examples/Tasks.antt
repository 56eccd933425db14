-- ===== src/Examples/Tasks.antt =====
-- kernel/proc/sched.c and the timer interrupt at a concrete set of tasks.
use weg_os.Base.{true, false, ℕ, ◌≤◌, ◌≡◌, refl, arith, some, [], ◌∷◌}
use weg_os.PidQueue.Ring.{contents}
use weg_os.Task.{Kernel}
use weg_os.Sched.{time_piece_over, time_piece, schedule, check_wakeup, check_schedule}
use weg_os.Sched.{on_timer}
use weg_os.Sched.Timer.{on_timer-IsConsistent}
use weg_os.Sched.Queues.{IsConsistent}
use weg_os.Sched.Outcome.{Scheduled}
use weg_os.Sched.Switch.{schedule-Scheduled}
use weg_os.Sched.Wakeup.Step.{Woken}
use weg_os.Sched.Wakeup.Loop.{check_wakeup-Woken}
use weg_os.Sched.Calls.{check_schedule-rotates}
use weg_os.PidQueue.Search.{has}
use weg_os.Sched.Ticks.{timer_ticks, sleeps_for_ticks}
use weg_os.Examples.Kernels.{three_tasks, three_tasks-IsConsistent}

schedule-Scheduled_example :
    (k' : Kernel) × (schedule three_tasks time_piece_over ≡ some k')
    × Scheduled three_tasks k' time_piece_over 2 []
schedule-Scheduled_example =
    schedule-Scheduled three_tasks time_piece_over 2 [] three_tasks-IsConsistent refl

check_wakeup-Woken_example :
    (k' : Kernel) × (check_wakeup three_tasks ≡ some k') × Woken three_tasks k' [] (3 ∷ [])
check_wakeup-Woken_example = check_wakeup-Woken three_tasks three_tasks-IsConsistent

sleeps_for_ticks_example :
    ((m : ℕ)
      → m ≤ 1
      → (k' : Kernel) × (timer_ticks m three_tasks ≡ some k')
        × IsConsistent k'.task_manager
        × (has 3 (contents k'.task_manager.pid_queue_sleeping) ≡ true))
    × (k' : Kernel) × (timer_ticks 2 three_tasks ≡ some k')
    × IsConsistent k'.task_manager
    × (has 3 (contents k'.task_manager.pid_queue_sleeping) ≡ false)
    × (has 3 (contents k'.task_manager.pid_queue_ready) ≡ true)
sleeps_for_ticks_example =
    sleeps_for_ticks 1 three_tasks 3 (three_tasks-IsConsistent, λ e. omega arith, (2, [], refl))
      refl refl

check_schedule-rotates_example :
    (k' : Kernel) × (check_schedule three_tasks ≡ some k')
    × IsConsistent k'.task_manager
    × (k'.task_manager.pid_running ≡ 2)
    × (contents k'.task_manager.pid_queue_ready ≡ 1 ∷ [])
    × (contents k'.task_manager.pid_queue_sleeping ≡ 3 ∷ [])
    × (contents k'.task_manager.pid_queue_blocked ≡ [])
    × (k'.task_manager.schdule_counter ≡ time_piece)
    × (k'.jumps ≡ 16 ∷ [])
check_schedule-rotates_example =
    check_schedule-rotates three_tasks 2 [] three_tasks-IsConsistent (λ e. omega arith) refl refl

on_timer-IsConsistent_example :
    (k' : Kernel) × (on_timer three_tasks ≡ some k')
    × IsConsistent k'.task_manager
    × (k'.task_manager.pid_running ≡ 2)
    × (contents k'.task_manager.pid_queue_ready ≡ 1 ∷ [])
    × (contents k'.task_manager.pid_queue_sleeping ≡ 3 ∷ [])
on_timer-IsConsistent_example =
    on_timer-IsConsistent three_tasks 2 [] three_tasks-IsConsistent (λ e. omega arith) refl

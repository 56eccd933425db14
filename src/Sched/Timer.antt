-- ===== src/Sched/Timer.antt =====
-- The timer interrupt as a whole: `on_timer`, by way of `check_task_affairs`.
use weg_os.Base.{
  ℕ, ◌+◌, ◌%◌, ◌^◌, ◌≡◌, ◌≢◌, refl, sym, ap, ap₂, ◌∙◌, Array, arith, some, List, [], ◌∷◌, ◌++◌,
  ◌==◌, if◌then◌else◌, Bool-cases, inl, inr, ==_iff,
}
use weg_os.PidQueue.{not_found}
use weg_os.PidQueue.Ring.{contents}
use weg_os.Task.{Kernel, Task}
use weg_os.Sched.{dec32, check_schedule, check_task_affairs, on_timer}
use weg_os.Sched.Queues.{IsConsistent}
use weg_os.Sched.Wakeup.Lists.{due, still_asleep}
use weg_os.Sched.Wakeup.Loop.{check_wakeup-Woken}
use weg_os.Sched.Calls.{check_schedule-counts, check_schedule-rotates}

-- The time slice that is left decides who runs after a tick, and who is ready.
check_schedule-either :
    (k : Kernel) (best : ℕ) (rest : List ℕ)
    → IsConsistent k.task_manager
    → k.task_manager.pid_running ≢ not_found
    → contents k.task_manager.pid_queue_ready ≡ best ∷ rest
    → let over = dec32 k.task_manager.schdule_counter == 0 in
      (k' : Kernel) × (check_schedule k ≡ some k')
      × IsConsistent k'.task_manager
      × (k'.task_manager.pid_running ≡ (if over then best else k.task_manager.pid_running))
      × (contents k'.task_manager.pid_queue_ready
          ≡ (if over then rest ++ (k.task_manager.pid_running ∷ []) else best ∷ rest))
      × (contents k'.task_manager.pid_queue_sleeping ≡ contents k.task_manager.pid_queue_sleeping)
check_schedule-either k best rest c runs first =
    elim (Bool-cases (dec32 k.task_manager.schdule_counter == 0)) [
      | inl over ↦
          let (k', done, c', runs', ready, sleeping, _, _, _) =
            check_schedule-rotates k best rest c runs ((==_iff _ _).0 over) first in
          (k', done, c', rw over runs', rw over ready, sleeping)
      | inr more ↦ (
        record k {
          task_manager = record (k.task_manager) {
            schdule_counter = dec32 k.task_manager.schdule_counter;
          };
        },
        check_schedule-counts k (λ e. ground arith),
        record {
          ready = c.ready;
          blocked = c.blocked;
          sleeping = c.sleeping;
          running = c.running;
          sleeping_head = c.sleeping_head;
          room = c.room;
        },
        rw more refl,
        rw more first,
        refl,
      )
    ]

-- On a consistent state with a task on the processor and another ready, a timer interrupt returns and keeps
-- the task manager consistent. The sleeping tasks that are due join the ready queue; then, if the time
-- slice is over, the first ready task gets the processor and the one that ran goes to the end of the ready
-- queue behind those just woken, and otherwise the same task runs on. The sleeping queue keeps those not
-- due.
pub on_timer-IsConsistent :
    (k : Kernel) (best : ℕ) (rest : List ℕ)
    → IsConsistent k.task_manager
    → k.task_manager.pid_running ≢ not_found
    → contents k.task_manager.pid_queue_ready ≡ best ∷ rest
    → let tm = k.task_manager in
      let over = dec32 tm.schdule_counter == 0 in
      let woken = rest ++ due tm.tasks (contents tm.pid_queue_sleeping) in
      (k' : Kernel) × (on_timer k ≡ some k')
      × IsConsistent k'.task_manager
      × (k'.task_manager.pid_running ≡ (if over then best else tm.pid_running))
      × (contents k'.task_manager.pid_queue_ready
          ≡ (if over then woken ++ (tm.pid_running ∷ []) else best ∷ woken))
      × (contents k'.task_manager.pid_queue_sleeping
          ≡ still_asleep tm.tasks (contents tm.pid_queue_sleeping))
unfolding on_timer check_task_affairs
on_timer-IsConsistent k best rest c runs first =
    let (k1, woke, w) = check_wakeup-Woken (record k { ticks = (k.ticks + 1) % 2 ^ 32 }) c in
    let ready : contents k1.task_manager.pid_queue_ready
        ≡ best ∷ (rest ++ due k.task_manager.tasks (contents k.task_manager.pid_queue_sleeping)) =
      w.ready_is
      ∙ ap (λ ps. ps ++ due k.task_manager.tasks (contents k.task_manager.pid_queue_sleeping))
          first in
    let (k2, done, c2, runs2, ready2, sleeping2) =
      check_schedule-either k1 best
        (rest ++ due k.task_manager.tasks (contents k.task_manager.pid_queue_sleeping)) w.consistent
        (λ e. runs (sym w.running_is ∙ e)) ready in
    (
      k2,
      rw woke done,
      c2,
      runs2 ∙ ap₂ (λ (n r : ℕ). if dec32 n == 0 then best else r) w.slice_is w.running_is,
      ready2
          ∙ ap₂
              (λ (n r : ℕ).
                if dec32 n == 0
                then rest ++ due tasks asleep ++ (r ∷ [])
                else best ∷ (rest ++ due tasks asleep))
              w.slice_is w.running_is,
      sleeping2 ∙ w.sleeping_is,
    )
  where
    tasks : Array Task
    tasks = k.task_manager.tasks

    asleep : List ℕ
    asleep = contents k.task_manager.pid_queue_sleeping

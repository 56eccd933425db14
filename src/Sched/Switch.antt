-- ===== src/Sched/Switch.antt =====
-- `schedule`: which task gets the processor, and where the one that leaves it goes.
use weg_os.Base.{
  ℕ, ◌<◌, ◌≡◌, ◌≢◌, inl, inr, refl, sym, ap, ◌∙◌, arith, true, false, update, none, some, List, [],
  ◌∷◌, ◌++◌, length, ◌==◌, if◌then◌else◌, ==_iff, ==_of_ne,
}
use weg_os.PidQueue.{PidQueue, max_gdt_terms, not_found, pid_enqueue, pid_dequeue}
use weg_os.PidQueue.Ring.{contents}
use weg_os.PidQueue.Search.{has}
use weg_os.Task.{
  Kernel, Task, TaskState, state_ready, state_running, state_blocked, state_sleeping,
  set_task_state, enter_state,
}
use weg_os.Sched.{
  SchedulerReason, time_piece_over, task_yield, task_sleep, task_blocked, task_exit, retire,
  switch_to, schedule,
}
use weg_os.Sched.Queues.{
  Holds, IsConsistent, not-has_of_Holds, Holds-update, Holds-pid_enqueue, Holds-pid_dequeue,
  pid_dequeue-empty, has-snoc,
}
use weg_os.Sched.Outcome.{
  goes, leaver, Scheduled, Between, Between-Scheduled, taken, append-no_leaver,
}

module _ (k : Kernel) (best : ℕ) (rest : List ℕ) (c : IsConsistent k.task_manager)
    (first : contents k.task_manager.pid_queue_ready ≡ best ∷ rest) where
  open k.task_manager use {
    tasks, pid_running, pid_queue_ready, pid_queue_blocked, pid_queue_sleeping,
  }

  chosen :
      ((pid_dequeue pid_queue_ready).0 ≡ best)
      × (contents (pid_dequeue pid_queue_ready).1 ≡ rest)
      × Holds tasks state_ready (pid_dequeue pid_queue_ready).1
      × (best < max_gdt_terms)
      × ((tasks best).state ≡ state_ready)
      × (has best rest ≡ false)
  chosen = Holds-pid_dequeue c.ready best rest first

  not_blocked : has best (contents pid_queue_blocked) ≡ false
  not_blocked = not-has_of_Holds c.blocked best (λ e. cc (chosen.4))

  not_sleeping : has best (contents pid_queue_sleeping) ≡ false
  not_sleeping = not-has_of_Holds c.sleeping best (λ e. cc (chosen.4))

  Between-stay :
      (reason : SchedulerReason)
      → ((s : TaskState) → leaver k.task_manager reason s ≡ [])
      → Between k (taken k) reason best rest
  Between-stay reason stays = record {
    ready = chosen.2;
    blocked = c.blocked;
    sleeping = c.sleeping;
    sleeping_head = c.sleeping_head;
    ready_is = chosen.1 ∙ append-no_leaver rest _ (stays state_ready);
    blocked_is = append-no_leaver (contents pid_queue_blocked) _ (stays state_blocked);
    sleeping_is = append-no_leaver (contents pid_queue_sleeping) _ (stays state_sleeping);
    not_ready = rw (chosen.1) (chosen.5);
    not_blocked = not_blocked;
    not_sleeping = not_sleeping;
    counter = refl;
    counters_are = λ p. refl;
    jumps = refl;
    gdt_is = refl;
  }

  module _ (here : (pid_running == not_found) ≡ false) (bound : pid_running < max_gdt_terms)
      (state : (tasks pid_running).state ≡ state_running) where
    differs : (pid_running == best) ≡ false
    differs = ==_of_ne pid_running best (λ e. cc (ap (λ p. (tasks p).state) e, chosen.4))

    out :
        (q : PidQueue) (s : TaskState)
        → Holds tasks s q
        → s ≢ state_running
        → has pid_running (contents q) ≡ false
    out q s h ne = not-has_of_Holds h pid_running (λ e. ne (sym e ∙ state))

    abbrev moved : TaskState → Task
    moved s = record (tasks pid_running) { state = s }

    leaves :
        (reason : SchedulerReason) (s : TaskState)
        → leaver k.task_manager reason s ≡ (if goes reason s then pid_running ∷ [] else [])
    leaves reason s = rw here

    -- The queue of the state that the running task goes to, with that task at its end.
    joined :
        (q : PidQueue) (s : TaskState)
        → Holds tasks s q
        → s ≢ state_running
        → length (contents q) < 8191
        → Holds (update tasks pid_running (moved s)) s (pid_enqueue q pid_running)
          × (contents (pid_enqueue q pid_running) ≡ contents q ++ (pid_running ∷ []))
    joined q s h ne room =
        Holds-pid_enqueue h pid_running (moved s) bound (out q s h ne) refl (omega arith)

    -- A queue of another state, after the running task has changed its own.
    kept :
        (q : PidQueue) (s t : TaskState)
        → Holds tasks s q
        → s ≢ state_running
        → Holds (update tasks pid_running (moved t)) s q
    kept q s t h ne = Holds-update h pid_running (moved t) (out q s h ne)

    -- Where the running task joins a queue, the queue is the old one and that task.
    grows :
        (reason : SchedulerReason) (s : TaskState) (q q' : PidQueue)
        → goes reason s ≡ true
        → contents q' ≡ contents q ++ (pid_running ∷ [])
        → contents q' ≡ contents q ++ leaver k.task_manager reason s
    grows reason s q q' goes_there e = e ∙ ap (λ xs. contents q ++ xs) (sym (rw (here, goes_there)))

    Between-time :
        Between k (retire (taken k) pid_running time_piece_over) time_piece_over best rest
    unfolding retire set_task_state enter_state
    Between-time =
        let queued =
          joined (pid_dequeue pid_queue_ready).1 state_ready (chosen.2) (λ e. cc)
            (ground (arith, c.room, ap length first, ap length (chosen.1))) in
        record {
          ready = queued.0;
          blocked = kept pid_queue_blocked state_blocked state_ready c.blocked (λ e. cc);
          sleeping = kept pid_queue_sleeping state_sleeping state_ready c.sleeping (λ e. cc);
          sleeping_head = c.sleeping_head;
          ready_is =
              grows time_piece_over state_ready (pid_dequeue pid_queue_ready).1 _ refl (queued.1)
              ∙ ap (λ xs. xs ++ leaver k.task_manager time_piece_over state_ready) (chosen.1);
          blocked_is =
              append-no_leaver (contents pid_queue_blocked) _
                (leaves time_piece_over state_blocked);
          sleeping_is =
              append-no_leaver (contents pid_queue_sleeping) _
                (leaves time_piece_over state_sleeping);
          not_ready = rw (queued.1, chosen.1) (has-snoc best pid_running rest (chosen.5) differs);
          not_blocked = not_blocked;
          not_sleeping = not_sleeping;
          counter = refl;
          counters_are = λ p. ground arith;
          jumps = refl;
          gdt_is = refl;
        }

    Between-sleep : Between k (retire (taken k) pid_running task_sleep) task_sleep best rest
    unfolding retire set_task_state enter_state
    Between-sleep =
        let asleep =
          joined pid_queue_sleeping state_sleeping c.sleeping (λ e. cc) (ground (arith, c.room)) in
        record {
          ready =
              kept (pid_dequeue pid_queue_ready).1 state_ready state_sleeping (chosen.2) (λ e. cc);
          blocked = kept pid_queue_blocked state_blocked state_sleeping c.blocked (λ e. cc);
          sleeping = asleep.0;
          sleeping_head = unfold pid_enqueue in c.sleeping_head;
          ready_is = chosen.1 ∙ append-no_leaver rest _ (leaves task_sleep state_ready);
          blocked_is =
              append-no_leaver (contents pid_queue_blocked) _ (leaves task_sleep state_blocked);
          sleeping_is = grows task_sleep state_sleeping pid_queue_sleeping _ refl (asleep.1);
          not_ready = rw (chosen.1) (chosen.5);
          not_blocked = not_blocked;
          not_sleeping =
              rw (asleep.1)
                (has-snoc best pid_running (contents pid_queue_sleeping) not_sleeping differs);
          counter = refl;
          counters_are = λ p. ground arith;
          jumps = refl;
          gdt_is = refl;
        }

    Between-blocked : Between k (retire (taken k) pid_running task_blocked) task_blocked best rest
    unfolding retire set_task_state enter_state
    Between-blocked =
        let waiting =
          joined pid_queue_blocked state_blocked c.blocked (λ e. cc) (ground (arith, c.room)) in
        record {
          ready =
              kept (pid_dequeue pid_queue_ready).1 state_ready state_blocked (chosen.2) (λ e. cc);
          blocked = waiting.0;
          sleeping = kept pid_queue_sleeping state_sleeping state_blocked c.sleeping (λ e. cc);
          sleeping_head = c.sleeping_head;
          ready_is = chosen.1 ∙ append-no_leaver rest _ (leaves task_blocked state_ready);
          blocked_is = grows task_blocked state_blocked pid_queue_blocked _ refl (waiting.1);
          sleeping_is =
              append-no_leaver (contents pid_queue_sleeping) _ (leaves task_blocked state_sleeping);
          not_ready = rw (chosen.1) (chosen.5);
          not_blocked =
              rw (waiting.1)
                (has-snoc best pid_running (contents pid_queue_blocked) not_blocked differs);
          not_sleeping = not_sleeping;
          counter = refl;
          counters_are = λ p. ground arith;
          jumps = refl;
          gdt_is = refl;
        }

    -- Whatever the reason, the running task leaves before the new one is put on the processor.
    Between-retire :
        (reason : SchedulerReason)
        → Between k (retire (taken k) pid_running reason) reason best rest
    Between-retire time_piece_over = Between-time
    Between-retire task_sleep = Between-sleep
    Between-retire task_blocked = Between-blocked
    Between-retire task_yield = unfold retire in Between-stay task_yield (leaves task_yield)
    Between-retire task_exit = unfold retire in Between-stay task_exit (leaves task_exit)

  Between-left :
      (reason : SchedulerReason)
      → Between k
          (if pid_running == not_found then taken k else retire (taken k) pid_running reason)
          reason
          best
          rest
  Between-left reason = elim c.running [
    | inl none_runs ↦
        let absent : (pid_running == not_found) ≡ true =
          (==_iff pid_running not_found).1 none_runs in
        rw absent (Between-stay reason (λ s. rw absent))
    | inr (bound, state) ↦
        let here : (pid_running == not_found) ≡ false = ground arith in
        rw here (Between-retire here bound state reason)
  ]

  not_self : (pid_running == best) ≡ false
  not_self = elim c.running [
    | inl none_runs ↦ ground (arith, chosen.3)
    | inr (bound, state) ↦ differs (ground arith) bound state
  ]

-- If the task manager is consistent and a task is ready, `schedule` returns: the first ready task gets the
-- processor with a full time slice and is jumped to, the task that leaves goes to the end of the queue of
-- its reason (to none if it exits or yields), the other queues are as they were, and the task manager
-- stays consistent.
pub schedule-Scheduled :
    (k : Kernel) (reason : SchedulerReason) (best : ℕ) (rest : List ℕ)
    → IsConsistent k.task_manager
    → contents k.task_manager.pid_queue_ready ≡ best ∷ rest
    → (k' : Kernel) × (schedule k reason ≡ some k') × Scheduled k k' reason best rest
unfolding schedule switch_to
schedule-Scheduled k reason best rest c first = (
  set_task_state left best state_running,
  ground (
    arith,
    (chosen k best rest c first).0,
    (chosen k best rest c first).3,
    not_self k best rest c first,
  ),
  Between-Scheduled k left reason best rest (chosen k best rest c first).3 c.room first
      (Between-left k best rest c first reason),
)
  where
    left : Kernel
    left =
        if k.task_manager.pid_running == not_found
        then taken k
        else retire (taken k) k.task_manager.pid_running reason

-- With no ready task the debugging build never comes back from `schedule`.
pub schedule-idle :
    (k : Kernel) (reason : SchedulerReason)
    → IsConsistent k.task_manager
    → contents k.task_manager.pid_queue_ready ≡ []
    → schedule k reason ≡ none
unfolding schedule
schedule-idle k reason c e =
    ground (arith, pid_dequeue-empty k.task_manager.pid_queue_ready c.ready.valid e)

-- ===== src/Semaphore/Waiting.antt =====
-- Who waits on a semaphore, and who is woken.
use weg_os.Base.{
  ℕ, suc, ◌+◌, ◌-◌, ◌%◌, ◌^◌, ◌<◌, ◌≡◌, ◌≢◌, ◌⊎◌, inl, inr, refl, ap, ◌∙◌, subst, arith, true,
  Array, update, update_self, update_ne, some, List, [], ◌∷◌, ◌++◌, length, length-append,
  append-nil, leb, ==_of_ne,
}
use weg_os.PidQueue.{PidQueue, max_gdt_terms, not_found, pid_enqueue, pid_dequeue, pid_queue_delete}
use weg_os.PidQueue.Ring.{IsValid, contents, steps, length-run_of}
use weg_os.PidQueue.Fifo.{pop, contents-pid_enqueue, contents-pid_dequeue}
use weg_os.PidQueue.Search.{has, pid_queue_find-has}
use weg_os.PidQueue.Delete.{remove_at, contents-pid_queue_delete, pid_queue_delete-returns}
use weg_os.Task.{Kernel, Task, TaskManager, state_ready, state_blocked, set_task_state, enter_state}
use weg_os.Sched.{task_blocked}
use weg_os.Sched.Queues.{
  AllIn, IsConsistent, RunsWell, Holds, Holds-update, Holds-pid_enqueue, not-has_of_Holds,
}
use weg_os.Sched.Switch.{schedule-Scheduled}
use weg_os.Semaphore.{Semaphore, wait, signal, unblock}

-- `wait` on a semaphore whose count is not positive and whose queue is valid and not full, while the task
-- manager is consistent, a task runs and another is ready: the count goes down by one, the running task
-- joins the end of the semaphore's queue and of the system's blocked queue, the first ready task gets the
-- processor, and the task manager stays consistent.
pub wait-blocks :
    (k : Kernel) (s : Semaphore) (best : ℕ) (rest : List ℕ)
    → IsConsistent k.task_manager
    → IsValid s.blocked_pids
    → suc (length (contents s.blocked_pids)) < max_gdt_terms
    → (s.count ≡ 0) ⊎ (2 ^ 15 < s.count)
    → s.count < 2 ^ 16
    → k.task_manager.pid_running ≢ not_found
    → contents k.task_manager.pid_queue_ready ≡ best ∷ rest
    → (k' : Kernel) × (s' : Semaphore) × (wait k s ≡ some (k', s'))
      × IsConsistent k'.task_manager
      × IsValid s'.blocked_pids
      × (s'.count ≡ (s.count + 2 ^ 16 - 1) % 2 ^ 16)
      × (contents s'.blocked_pids ≡ contents s.blocked_pids ++ (k.task_manager.pid_running ∷ []))
      × (contents k'.task_manager.pid_queue_blocked
          ≡ contents k.task_manager.pid_queue_blocked ++ (k.task_manager.pid_running ∷ []))
      × (k'.task_manager.pid_running ≡ best)
      × (contents k'.task_manager.pid_queue_ready ≡ rest)
unfolding wait
wait-blocks k s best rest c v room low word runs first =
    let (k', done, w) = schedule-Scheduled k task_blocked best rest c first in
    let queued = contents-pid_enqueue {q = s.blocked_pids} k.task_manager.pid_running v room in
    (
      k',
      record {
        count = (s.count + 2 ^ 16 - 1) % 2 ^ 16;
        blocked_pids = pid_enqueue s.blocked_pids k.task_manager.pid_running;
      },
      rw (negative, done) refl,
      w.consistent,
      queued.0,
      refl,
      queued.1,
      w.blocked_is ∙ rw (==_of_ne _ _ runs) refl,
      w.runs,
      w.ready_is ∙ rw (==_of_ne _ _ runs) (append-nil rest),
    )
  where
    negative : leb (2 ^ 15) ((s.count + 2 ^ 16 - 1) % 2 ^ 16) ≡ true
    negative = ground arith

-- The semaphore's oldest waiting task is the one that `signal` looks for.
pid_dequeue-oldest :
    (q : PidQueue) (pid : ℕ) (pids : List ℕ)
    → IsValid q
    → contents q ≡ pid ∷ pids
    → ((pid_dequeue q).0 ≡ pid) × (contents (pid_dequeue q).1 ≡ pids) × IsValid (pid_dequeue q).1
pid_dequeue-oldest q pid pids v e =
    let (valid, taken) = contents-pid_dequeue {q = q} v in
    let popped : ◌≡◌ {A = ℕ × List ℕ} ((pid_dequeue q).0, contents (pid_dequeue q).1) (pid, pids) =
      taken ∙ ap pop e in
    (ap (λ r. r.0) popped, ap (λ r. r.1) popped, valid)

-- When the blocked queue is valid and holds the pid, its tail is not slot 0, and the slot whose number is
-- the pid lies in the queue at some position, `unblock` returns: the entry at that position leaves the
-- blocked queue, whichever task it is, and the task of the pid becomes ready.
pub unblock-remove_at :
    (k : Kernel) (pid position : ℕ)
    → IsValid k.task_manager.pid_queue_blocked
    → k.task_manager.pid_queue_blocked.tail ≢ 0
    → has pid (contents k.task_manager.pid_queue_blocked) ≡ true
    → pid ≢ not_found
    → position < length (contents k.task_manager.pid_queue_blocked)
    → pid ≡ (k.task_manager.pid_queue_blocked.head + position) % max_gdt_terms
    → (k' : Kernel) × (unblock k pid ≡ some k')
      × (contents k'.task_manager.pid_queue_blocked
          ≡ remove_at position (contents k.task_manager.pid_queue_blocked))
      × ((k'.task_manager.tasks pid).state ≡ state_ready)
unfolding unblock set_task_state enter_state
unblock-remove_at k pid position v ne held real inside slot =
    let (q', done, valid, left, _) =
      contents-pid_queue_delete {q = k.task_manager.pid_queue_blocked} position pid v ne inside
        slot in
    (
      set_task_state
          (record k { task_manager = record (k.task_manager) { pid_queue_blocked = q' } }) pid
          state_ready,
      rw
          (
            pid_queue_find-has {q = k.task_manager.pid_queue_blocked} pid v,
            held,
            done,
            ==_of_ne _ _ real,
          )
          refl,
      left,
      ap (λ t. t.state) (update_self k.task_manager.tasks pid _),
    )

-- A queue whose indices are equal holds nothing.
Holds-none :
    (tasks : Array Task) (q : PidQueue)
    → q.head ≡ 0
    → q.tail ≡ 0
    → Holds tasks state_blocked q × (contents q ≡ [])
Holds-none tasks q h t = (
  record {
    valid = record { head_in = omega arith; tail_in = omega arith };
    all_in = rw none_in tt;
    distinct = rw none_in tt;
  },
  none_in,
)
  where
    none_in : contents q ≡ []
    none_in = rw (h, t) refl

-- `signal` when the task manager is consistent, the semaphore's queue is valid, its oldest waiting task is
-- the only blocked task of the system, and the blocked queue starts at slot 0: the count goes up by one,
-- that task leaves both queues, becomes ready and joins the end of the ready queue, the running task stays,
-- and the task manager stays consistent.
pub signal-wakes :
    (k : Kernel) (s : Semaphore) (pid : ℕ) (pids : List ℕ)
    → IsConsistent k.task_manager
    → IsValid s.blocked_pids
    → contents s.blocked_pids ≡ pid ∷ pids
    → contents k.task_manager.pid_queue_blocked ≡ pid ∷ []
    → k.task_manager.pid_queue_blocked.head ≡ 0
    → (k' : Kernel) × (s' : Semaphore) × (signal k s ≡ some (k', s'))
      × IsConsistent k'.task_manager
      × (s'.count ≡ (s.count + 1) % 2 ^ 16)
      × (contents s'.blocked_pids ≡ pids)
      × (contents k'.task_manager.pid_queue_blocked ≡ [])
      × (contents k'.task_manager.pid_queue_ready
          ≡ contents k.task_manager.pid_queue_ready ++ (pid ∷ []))
      × ((k'.task_manager.tasks pid).state ≡ state_ready)
      × (k'.task_manager.pid_running ≡ k.task_manager.pid_running)
unfolding signal unblock set_task_state enter_state
signal-wakes k s pid pids c v waiting only start = (
  after,
  record { count = (s.count + 1) % 2 ^ 16; blocked_pids = (pid_dequeue s.blocked_pids).1 },
  rw
      (
        oldest.0,
        ==_of_ne _ _ real,
        pid_queue_find-has {q = tm.pid_queue_blocked} pid c.blocked.valid,
        found,
        deleted.1,
        ==_of_ne _ _ real,
      )
      refl,
  record {
    ready = queued.0;
    blocked = (Holds-none after.task_manager.tasks (deleted.0) head_is tail_is).0;
    sleeping = Holds-update c.sleeping pid t (not-has_of_Holds c.sleeping pid (λ e. ground arith));
    running = still c.running;
    sleeping_head = c.sleeping_head;
    room = omega (
      arith,
      ap length queued.1,
      length-append (contents tm.pid_queue_ready) (pid ∷ []),
      ap length (Holds-none after.task_manager.tasks (deleted.0) head_is tail_is).1,
      ap length only,
      c.room,
    );
  },
  refl,
  oldest.1,
  (Holds-none after.task_manager.tasks (deleted.0) head_is tail_is).1,
  queued.1,
  ap (λ x. x.state) (update_self tm.tasks pid t),
  refl,
)
  where
    tm : TaskManager
    tm = k.task_manager

    state_is : (tm.tasks pid).state ≡ state_blocked
    state_is = (subst (AllIn tm.tasks state_blocked) only c.blocked.all_in).1

    bound : pid < max_gdt_terms
    bound = (subst (AllIn tm.tasks state_blocked) only c.blocked.all_in).0

    real : pid ≢ not_found
    real e = omega (arith, bound)

    tail_one : tm.pid_queue_blocked.tail ≡ 1
    tail_one = omega (
      arith,
      length-run_of tm.pid_queue_blocked.pids tm.pid_queue_blocked.head
          (steps tm.pid_queue_blocked.head tm.pid_queue_blocked.tail),
      ap length only,
      c.blocked.valid.tail_in,
    )

    deleted :
        (q' : PidQueue) × (pid_queue_delete tm.pid_queue_blocked pid ≡ some q')
        × (q'.tail ≡ (tm.pid_queue_blocked.tail + 2 ^ 16 - 1) % 2 ^ 16)
        × (q'.head ≡ tm.pid_queue_blocked.head)
    deleted = pid_queue_delete-returns tm.pid_queue_blocked pid bound c.blocked.valid.tail_in

    head_is : deleted.0.head ≡ 0
    head_is = deleted.3 ∙ start

    tail_is : deleted.0.tail ≡ 0
    tail_is = deleted.2 ∙ omega (arith, tail_one)

    found : has pid (contents tm.pid_queue_blocked) ≡ true
    found = rw only (ground arith)

    oldest :
        ((pid_dequeue s.blocked_pids).0 ≡ pid)
        × (contents (pid_dequeue s.blocked_pids).1 ≡ pids)
        × IsValid (pid_dequeue s.blocked_pids).1
    oldest = pid_dequeue-oldest s.blocked_pids pid pids v waiting

    t : Task
    t = record (tm.tasks pid) { state = state_ready }

    after : Kernel
    after =
        set_task_state (record k { task_manager = record tm { pid_queue_blocked = deleted.0 } }) pid
          state_ready

    queued :
        Holds (update tm.tasks pid t) state_ready (pid_enqueue tm.pid_queue_ready pid)
        × (contents (pid_enqueue tm.pid_queue_ready pid)
            ≡ contents tm.pid_queue_ready ++ (pid ∷ []))
    queued =
        Holds-pid_enqueue c.ready pid t bound (not-has_of_Holds c.ready pid (λ e. ground arith))
          refl (omega (arith, c.room))

    still :
        RunsWell tm
        → RunsWell (record tm {
          tasks = update tm.tasks pid t;
          pid_queue_blocked = deleted.0;
          pid_queue_ready = pid_enqueue tm.pid_queue_ready pid;
        })
    still (inl none_runs) = inl none_runs
    still (inr (small, state)) = inr (
      small,
      ap (λ x. x.state) (update_ne tm.tasks pid tm.pid_running t (λ e. ground arith)) ∙ state,
    )

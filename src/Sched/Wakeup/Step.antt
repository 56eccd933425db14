-- ===== src/Sched/Wakeup/Step.antt =====
-- One pass of the loop of `check_wakeup`, for a task that is due and for one that is not.
use weg_os.Base.{
  ℕ, suc, ◌+◌, ◌<◌, ◌≡◌, inl, inr, refl, ap, ◌∙◌, subst, arith, false, update, some, List, [], ◌∷◌,
  ◌++◌, length, length-append, ◌==◌, if◌then◌else◌,
}
use weg_os.PidQueue.{PidQueue, max_gdt_terms, inc, pid_enqueue, pid_queue_delete}
use weg_os.PidQueue.Ring.{IsValid, contents, steps, length-run_of}
use weg_os.PidQueue.Search.{has}
use weg_os.PidQueue.Delete.{remove_at, contents-pid_queue_delete}
use weg_os.Task.{
  Kernel, Task, state_ready, state_blocked, state_sleeping, set_task, set_task_state, enter_state,
}
use weg_os.Sched.{dec32, wakeup_step}
use weg_os.Sched.Queues.{
  AllIn, AreDistinct, Holds, IsConsistent, not-has_of_Holds, Holds-update, Holds-pid_enqueue,
  Holds-same_state,
}
use weg_os.Sched.Wakeup.Lists.{
  due, still_asleep, entry_in_run, remove_at-middle, AllIn-middle, AreDistinct-middle,
}

-- What the loop does to the sleeping tasks `rem` that are left, behind those of `pre`: each counter goes
-- down by one, the tasks that are due become ready in order, and the others stay asleep in order.
pub record Woken (k k' : Kernel) (pre rem : List ℕ) : Type 0 where
  pub consistent : IsConsistent k'.task_manager
  pub sleeping_is :
      contents k'.task_manager.pid_queue_sleeping ≡ pre ++ still_asleep k.task_manager.tasks rem
  pub ready_is :
      contents k'.task_manager.pid_queue_ready
      ≡ contents k.task_manager.pid_queue_ready ++ due k.task_manager.tasks rem
  pub blocked_is : k'.task_manager.pid_queue_blocked ≡ k.task_manager.pid_queue_blocked
  pub counter :
      (p : ℕ)
      → (k'.task_manager.tasks p).wakeup_counter ≡ (
          if has p rem
          then dec32 (k.task_manager.tasks p).wakeup_counter
          else (k.task_manager.tasks p).wakeup_counter)
  pub state :
      (p : ℕ)
      → (k'.task_manager.tasks p).state ≡ (
          if has p (due k.task_manager.tasks rem)
          then state_ready
          else (k.task_manager.tasks p).state)
  pub running_is : k'.task_manager.pid_running ≡ k.task_manager.pid_running
  pub slice_is : k'.task_manager.schdule_counter ≡ k.task_manager.schdule_counter
  pub jumps_is : k'.jumps ≡ k.jumps

-- A sleeping queue starts at slot 0, so its tail is its length.
pub tail_is_length : (q : PidQueue) → IsValid q → q.head ≡ 0 → q.tail ≡ length (contents q)
tail_is_length q v e = omega (arith, length-run_of q.pids q.head (steps q.head q.tail), v.tail_in)

-- The kernel after the counter of `pid` has been decremented.
abbrev pub ticked : Kernel → ℕ → Kernel
ticked k pid =
    let tm = k.task_manager in
    record k {
      task_manager =
          set_task tm pid
            (record (tm.tasks pid) { wakeup_counter = dec32 (tm.tasks pid).wakeup_counter });
    }

pub ticked-IsConsistent :
    (k : Kernel) (pid : ℕ) → IsConsistent k.task_manager → IsConsistent (ticked k pid).task_manager
ticked-IsConsistent k pid c = record {
  ready = Holds-same_state tasks state_ready _ pid t refl c.ready;
  blocked = Holds-same_state tasks state_blocked _ pid t refl c.blocked;
  sleeping = Holds-same_state tasks state_sleeping _ pid t refl c.sleeping;
  running = elim c.running [ inl e ↦ inl e | inr (bound, state) ↦ inr (bound, ground arith) ];
  sleeping_head = c.sleeping_head;
  room = c.room;
}
  where
    open k.task_manager use {tasks}

    t : Task
    t = record (tasks pid) { wakeup_counter = dec32 (tasks pid).wakeup_counter }

module _ (k : Kernel) (c : IsConsistent k.task_manager) (pid : ℕ) (pre ps : List ℕ)
    (held : contents k.task_manager.pid_queue_sleeping ≡ pre ++ (pid ∷ ps)) where
  open k.task_manager use {tasks, pid_queue_ready, pid_queue_blocked, pid_queue_sleeping}

  pub middle :
      (pid < max_gdt_terms)
      × ((tasks pid).state ≡ state_sleeping)
      × AllIn tasks state_sleeping (pre ++ ps)
  middle =
      AllIn-middle tasks state_sleeping pre ps pid
        (subst (AllIn tasks state_sleeping) held c.sleeping.all_in)

  pub apart : (has pid (pre ++ ps) ≡ false) × AreDistinct (pre ++ ps)
  apart = AreDistinct-middle pre ps pid (subst AreDistinct held c.sleeping.distinct)

  pub size : length (contents pid_queue_sleeping) ≡ length pre + suc (length ps)
  size = ap length held ∙ length-append pre (pid ∷ ps)

  pub tail_size : pid_queue_sleeping.tail ≡ length pre + suc (length ps)
  tail_size = tail_is_length pid_queue_sleeping c.sleeping.valid c.sleeping_head ∙ size

  pub bound : length pre < max_gdt_terms
  bound = omega (arith, tail_size, c.sleeping.valid.tail_in)

  -- The slot of the loop holds the first of the tasks that are left.
  pub at_slot : pid_queue_sleeping.pids (length pre) ≡ pid
  at_slot =
      entry_in_run pid_queue_sleeping.pids pid_queue_sleeping.head _ (length pre) pid pre ps
        (omega (arith, c.sleeping_head)) bound held

  -- The sleeping queue without the task.
  pub removed :
      (q : PidQueue) × (pid_queue_delete pid_queue_sleeping (length pre) ≡ some q)
      × IsValid q
      × (contents q ≡ pre ++ ps)
      × (q.head ≡ 0)
  removed =
      let (q, done, valid, left, head) =
        contents-pid_queue_delete (length pre) (length pre) c.sleeping.valid
          (omega (arith, tail_size)) (omega (arith, size))
          (omega (arith, c.sleeping_head, bound)) in
      (
        q,
        done,
        valid,
        left ∙ ap (remove_at (length pre)) held ∙ remove_at-middle pre ps pid,
        head ∙ c.sleeping_head,
      )

  -- The kernel once the task has gone from the sleeping queue to the ready queue.
  abbrev pub woken_from : PidQueue → Kernel
  woken_from q =
      set_task_state
        (record k { task_manager = record (k.task_manager) { pid_queue_sleeping = q } }) pid
        state_ready

  pub woken_from-IsConsistent :
      IsConsistent (woken_from (removed.0)).task_manager
      × (contents (woken_from (removed.0)).task_manager.pid_queue_ready
          ≡ contents pid_queue_ready ++ (pid ∷ []))
  woken_from-IsConsistent =
      unfold set_task_state enter_state in
      (
        record {
          ready = queued.0;
          blocked =
              Holds-update c.blocked pid t (not-has_of_Holds c.blocked pid (λ e. cc (middle.1)));
          sleeping = Holds-update left pid t (rw (removed.3) (apart.0));
          running = elim c.running [
            | inl e ↦ inl e
            | inr (bound, state) ↦ inr (bound, ground (arith, middle.1))
          ];
          sleeping_head = removed.4;
          room = ground (
            arith,
            c.room,
            size,
            ap length (removed.3),
            length-append pre ps,
            ap length (queued.1),
            length-append (contents pid_queue_ready) (pid ∷ []),
          );
        },
        queued.1,
      )
    where
      t : Task
      t = record (tasks pid) { state = state_ready }

      left : Holds tasks state_sleeping (removed.0)
      left = record {
        valid = removed.2;
        all_in = rw (removed.3) (middle.2);
        distinct = rw (removed.3) (apart.1);
      }

      queued :
          Holds (update tasks pid t) state_ready (pid_enqueue pid_queue_ready pid)
          × (contents (pid_enqueue pid_queue_ready pid) ≡ contents pid_queue_ready ++ (pid ∷ []))
      queued =
          Holds-pid_enqueue c.ready pid t (middle.0)
            (not-has_of_Holds c.ready pid (λ e. cc (middle.1))) refl (ground (arith, c.room, size))

  -- One pass of the loop at this slot, when the task is not due.
  pub wakeup_step-kept :
      (dec32 (tasks pid).wakeup_counter == 0) ≡ false
      → wakeup_step k (length pre) ≡ some (ticked k pid, inc (length pre))
  unfolding wakeup_step
  wakeup_step-kept later = rw (at_slot, later)

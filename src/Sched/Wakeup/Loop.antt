-- ===== src/Sched/Wakeup/Loop.antt =====
-- The loop of `check_wakeup` against the lists of `Lists`.
use weg_os.Base.{
  ℕ, zero, suc, ◌+◌, ◌-◌, ◌%◌, ◌^◌, ◌<◌, ◌≡◌, inl, inr, refl, sym, ap, ◌∙◌, arith, true, false,
  update, some, List, [], ◌∷◌, ◌++◌, append_assoc, append-nil, length, length-append, ◌==◌, ==_iff,
  ==_of_ne, Bool-cases,
}
use weg_os.PidQueue.{max_gdt_terms, inc}
use weg_os.PidQueue.Ring.{contents}
use weg_os.PidQueue.Search.{has}
use weg_os.Task.{Kernel, Task, state_ready, set_task_state, enter_state}
use weg_os.Sched.{dec32, wakeup_step, wakeup_loop, check_wakeup}
use weg_os.Sched.Queues.{IsConsistent}
use weg_os.Sched.Wakeup.Lists.{due, still_asleep, due-update, still_asleep-update, not-has-suffix}
use weg_os.Sched.Wakeup.Step.{
  Woken, tail_is_length, ticked, ticked-IsConsistent, apart, tail_size, bound, at_slot, removed,
  woken_from, woken_from-IsConsistent, wakeup_step-kept,
}

-- One pass at this slot when the task is due: it leaves the queue, and the loop stays at the slot.
wakeup_step-due :
    (k : Kernel) (c : IsConsistent k.task_manager) (pid : ℕ) (pre ps : List ℕ)
    (held : contents k.task_manager.pid_queue_sleeping ≡ pre ++ (pid ∷ ps))
    → (dec32 (k.task_manager.tasks pid).wakeup_counter == 0) ≡ true
    → let c' = ticked-IsConsistent k pid c in
      let q = (removed (ticked k pid) c' pid pre ps held).0 in
      wakeup_step k (length pre) ≡ some (woken_from (ticked k pid) c' pid pre ps held q, length pre)
unfolding wakeup_step
wakeup_step-due k c pid pre ps held now =
    let same : inc ((length pre + 2 ^ 16 - 1) % 2 ^ 16) ≡ length pre =
      omega (arith, bound k c pid pre ps held) in
    rw (
      at_slot k c pid pre ps held,
      now,
      (removed (ticked k pid) (ticked-IsConsistent k pid c) pid pre ps held).1,
      same,
    )

Woken-none :
    (k : Kernel) (pre : List ℕ)
    → IsConsistent k.task_manager
    → contents k.task_manager.pid_queue_sleeping ≡ pre ++ []
    → Woken k k pre []
Woken-none k pre c held = record {
  consistent = c;
  sleeping_is = held;
  ready_is = sym (append-nil (contents k.task_manager.pid_queue_ready));
  blocked_is = refl;
  counter = λ p. refl;
  state = λ p. refl;
  running_is = refl;
  slice_is = refl;
  jumps_is = refl;
}

-- A pass that leaves the task asleep, and then the rest of the loop.
Woken-kept :
    (k k' : Kernel) (pid : ℕ) (pre ps : List ℕ)
    → (dec32 (k.task_manager.tasks pid).wakeup_counter == 0) ≡ false
    → has pid ps ≡ false
    → Woken (ticked k pid) k' (pre ++ (pid ∷ [])) ps
    → Woken k k' pre (pid ∷ ps)
Woken-kept k k' pid pre ps later out w = record {
  consistent = w.consistent;
  sleeping_is =
      w.sleeping_is
      ∙ ap (λ xs. (pre ++ (pid ∷ [])) ++ xs) (still_asleep-update tasks pid _ ps out)
      ∙ append_assoc pre (pid ∷ []) (still_asleep tasks ps)
      ∙ ap (λ xs. pre ++ xs) (sym (rw later));
  ready_is =
      w.ready_is
      ∙ ap (λ xs. contents k.task_manager.pid_queue_ready ++ xs)
          (due-update tasks pid _ ps out ∙ sym (rw later));
  blocked_is = w.blocked_is;
  counter = λ p. ground (arith, w.counter p, out, ap (λ x. has x ps));
  state = λ p. rw later (ground (arith, w.state p, ap (has p) (due-update tasks pid t ps out)));
  running_is = w.running_is;
  slice_is = w.slice_is;
  jumps_is = w.jumps_is;
}
  where
    open k.task_manager use {tasks}

    t : Task
    t = record (tasks pid) { wakeup_counter = dec32 (tasks pid).wakeup_counter }

-- A pass that wakes the task, and then the rest of the loop.
module _ (k : Kernel) (c : IsConsistent k.task_manager) (pid : ℕ) (pre ps : List ℕ)
    (held : contents k.task_manager.pid_queue_sleeping ≡ pre ++ (pid ∷ ps)) where
  open k.task_manager use {tasks}

  abbrev after : Kernel
  after =
      let c' = ticked-IsConsistent k pid c in
      woken_from (ticked k pid) c' pid pre ps held (removed (ticked k pid) c' pid pre ps held).0

  out : has pid ps ≡ false
  out = not-has-suffix pid pre ps (apart k c pid pre ps held).0

  after_facts :
      IsConsistent after.task_manager
      × (contents after.task_manager.pid_queue_ready
          ≡ contents k.task_manager.pid_queue_ready ++ (pid ∷ []))
  after_facts = woken_from-IsConsistent (ticked k pid) (ticked-IsConsistent k pid c) pid pre ps held

  after_asleep : contents after.task_manager.pid_queue_sleeping ≡ pre ++ ps
  after_asleep =
      unfold set_task_state enter_state in
      (removed (ticked k pid) (ticked-IsConsistent k pid c) pid pre ps held).3

  Woken-due :
      (k' : Kernel)
      → (dec32 (tasks pid).wakeup_counter == 0) ≡ true
      → Woken after k' pre ps
      → Woken k k' pre (pid ∷ ps)
  unfolding set_task_state enter_state
  Woken-due k' now w = record {
    consistent = w.consistent;
    sleeping_is = w.sleeping_is ∙ ap (λ xs. pre ++ xs) (asleep ∙ sym (rw now));
    ready_is =
        w.ready_is
        ∙ ap (λ xs. xs ++ due after.task_manager.tasks ps) (after_facts.1)
        ∙ append_assoc (contents k.task_manager.pid_queue_ready) (pid ∷ [])
            (due after.task_manager.tasks ps)
        ∙ ap (λ xs. contents k.task_manager.pid_queue_ready ++ xs)
            (ap (λ xs. pid ∷ xs) woken ∙ sym (rw now));
    blocked_is = w.blocked_is;
    counter = λ p. ground (arith, w.counter p, out, ap (λ x. has x ps));
    state = λ p. rw now (ground (arith, w.state p, ap (has p) woken));
    running_is = w.running_is;
    slice_is = w.slice_is;
    jumps_is = w.jumps_is;
  }
    where
      t : Task
      t = record (tasks pid) { wakeup_counter = dec32 (tasks pid).wakeup_counter }

      t' : Task
      t' = record t { state = state_ready }

      woken : due after.task_manager.tasks ps ≡ due tasks ps
      woken = due-update (update tasks pid t) pid _ ps out ∙ due-update tasks pid t ps out

      asleep : still_asleep after.task_manager.tasks ps ≡ still_asleep tasks ps
      asleep =
          still_asleep-update (update tasks pid t) pid _ ps out
          ∙ still_asleep-update tasks pid t ps out

wakeup_loop-end :
    (rounds : ℕ) (k : Kernel) (i : ℕ)
    → (i == k.task_manager.pid_queue_sleeping.tail) ≡ true
    → wakeup_loop (suc rounds) k i ≡ some k
unfolding wakeup_loop
wakeup_loop-end rounds k i e = rw (e, wakeup_loop)

wakeup_loop-next :
    (rounds : ℕ) (k k' : Kernel) (i j : ℕ)
    → (i == k.task_manager.pid_queue_sleeping.tail) ≡ false
    → wakeup_step k i ≡ some (k', j)
    → wakeup_loop (suc rounds) k i ≡ wakeup_loop rounds k' j
unfolding wakeup_loop
wakeup_loop-next rounds k k' i j e step = rw (e, step, wakeup_loop)

-- With more rounds than tasks are left the loop ends.
wakeup_loop-Woken :
    (rem pre : List ℕ) (rounds i : ℕ) (k : Kernel)
    → IsConsistent k.task_manager
    → contents k.task_manager.pid_queue_sleeping ≡ pre ++ rem
    → i ≡ length pre
    → length rem < rounds
    → (k' : Kernel) × (wakeup_loop rounds k i ≡ some k') × Woken k k' pre rem
wakeup_loop-Woken rem pre zero i k c held e fuel = absurd (omega arith)
wakeup_loop-Woken [] pre (suc rounds) i k c held e fuel =
    (k, wakeup_loop-end rounds k i at_end, Woken-none k pre c held)
  where
    at_end : (i == k.task_manager.pid_queue_sleeping.tail) ≡ true
    at_end = (==_iff _ _).1 (
        e
        ∙ sym
            (tail_is_length _ c.sleeping.valid c.sleeping_head ∙ ap length (held ∙ append-nil pre)))
wakeup_loop-Woken (pid ∷ ps) pre (suc rounds) i k c held e fuel =
    elim (Bool-cases (dec32 (k.task_manager.tasks pid).wakeup_counter == 0)) [
      | inl now ↦
          let facts = after_facts k c pid pre ps held in
          let (k', done, w) =
            wakeup_loop-Woken ps pre rounds (length pre) (after k c pid pre ps held) facts.0
              (after_asleep k c pid pre ps held) refl (omega arith) in
          (
            k',
            wakeup_loop-next rounds k _ i _ more (rw e (wakeup_step-due k c pid pre ps held now))
                ∙ done,
            Woken-due k c pid pre ps held k' now w,
          )
      | inr later ↦
          let (k', done, w) =
            wakeup_loop-Woken ps (pre ++ (pid ∷ [])) rounds (inc (length pre)) (ticked k pid)
              (ticked-IsConsistent k pid c) (held ∙ sym (append_assoc pre (pid ∷ []) ps))
              (omega (
                arith,
                length-append pre (pid ∷ []),
                tail_size k c pid pre ps held,
                c.sleeping.valid.tail_in,
              ))
              (omega arith) in
          (
            k',
            wakeup_loop-next rounds k _ i _ more (rw e (wakeup_step-kept k c pid pre ps held later))
                ∙ done,
            Woken-kept k k' pid pre ps later (out k c pid pre ps held) w,
          )
    ]
  where
    more : (i == k.task_manager.pid_queue_sleeping.tail) ≡ false
    more = ==_of_ne _ _ (λ eq. omega (arith, tail_size k c pid pre ps held))

-- On a consistent state `check_wakeup` returns. Each sleeping task's counter goes down by one; those that
-- reach 0 leave the sleeping queue and join the ready queue in their order, in the ready state; the
-- others stay asleep in their order; no other counter or state changes, nor the blocked queue, the
-- running task, the time slice or the jumps; and the task manager stays consistent.
pub check_wakeup-Woken :
    (k : Kernel)
    → IsConsistent k.task_manager
    → (k' : Kernel) × (check_wakeup k ≡ some k')
      × Woken k k' [] (contents k.task_manager.pid_queue_sleeping)
unfolding check_wakeup
check_wakeup-Woken k c =
    wakeup_loop-Woken (contents k.task_manager.pid_queue_sleeping) [] (max_gdt_terms + 1)
      k.task_manager.pid_queue_sleeping.head k c refl c.sleeping_head (omega (arith, c.room))

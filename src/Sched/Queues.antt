-- ===== src/Sched/Queues.antt =====
-- The queues of the task manager against the states of their tasks, and the invariant that the
-- scheduler keeps.
use weg_os.Base.{
  ℕ, suc, ◌+◌, ◌<◌, ◌≡◌, ◌≢◌, ◌⊎◌, refl, ap, ◌∙◌, subst, arith, false, Array, update, update_self,
  List, [], ◌∷◌, ◌++◌, length, ◌==◌, if◌then◌else◌,
}
use weg_os.PidQueue.{PidQueue, max_gdt_terms, not_found, pid_enqueue, pid_dequeue}
use weg_os.PidQueue.Ring.{IsValid, contents}
use weg_os.PidQueue.Fifo.{pop, contents-pid_enqueue, contents-pid_dequeue}
use weg_os.PidQueue.Search.{has}
use weg_os.Task.{
  Task, TaskState, TaskManager, state_ready, state_running, state_blocked, state_sleeping,
}

-- Each pid of the list is an index of the task table, and its task has the state.
abbrev pub AllIn : Array Task → TaskState → List ℕ → Type 0
AllIn tasks s [] = Unit
AllIn tasks s (p ∷ ps) = (p < max_gdt_terms) × ((tasks p).state ≡ s) × AllIn tasks s ps

-- No pid stands twice in the list.
abbrev pub AreDistinct : List ℕ → Type 0
AreDistinct [] = Unit
AreDistinct (p ∷ ps) = (has p ps ≡ false) × AreDistinct ps

-- The ring is valid, and holds distinct tasks which all have the state of the queue.
pub record Holds (tasks : Array Task) (s : TaskState) (q : PidQueue) : Type 0 where
  pub valid : IsValid q
  pub all_in : AllIn tasks s (contents q)
  pub distinct : AreDistinct (contents q)

abbrev pub count_running : ℕ → ℕ
count_running pid = if pid == not_found then 0 else 1

-- How many tasks are on the processor or in a queue.
abbrev pub population : TaskManager → ℕ
population tm =
    length (contents tm.pid_queue_ready)
    + length (contents tm.pid_queue_blocked)
    + length (contents tm.pid_queue_sleeping)
    + count_running tm.pid_running

-- No task or a task in the running state is on the processor.
abbrev pub RunsWell : TaskManager → Type 0
RunsWell tm =
    (tm.pid_running ≡ not_found)
    ⊎ ((tm.pid_running < max_gdt_terms) × ((tm.tasks tm.pid_running).state ≡ state_running))

-- The task manager's queues and its running task agree with the states of the tasks. Nothing is ever
-- taken from the front of the sleeping queue.
pub record IsConsistent (tm : TaskManager) : Type 0 where
  pub ready : Holds tm.tasks state_ready tm.pid_queue_ready
  pub blocked : Holds tm.tasks state_blocked tm.pid_queue_blocked
  pub sleeping : Holds tm.tasks state_sleeping tm.pid_queue_sleeping
  pub running : RunsWell tm
  pub sleeping_head : tm.pid_queue_sleeping.head ≡ 0
  pub room : population tm < 8191

module _ (tasks : Array Task) (s : TaskState) where
  pub AllIn-update :
      (pid : ℕ) (t : Task) (ps : List ℕ)
      → has pid ps ≡ false
      → AllIn tasks s ps
      → AllIn (update tasks pid t) s ps
  AllIn-update pid t [] out h = tt
  AllIn-update pid t (p ∷ ps) out (bound, state, rest) =
      (bound, ground arith, AllIn-update pid t ps (ground arith) rest)

  pub not-has_of_state :
      (pid : ℕ) (ps : List ℕ) → (tasks pid).state ≢ s → AllIn tasks s ps → has pid ps ≡ false
  not-has_of_state pid [] ne h = refl
  not-has_of_state pid (p ∷ ps) ne (bound, state, rest) =
      ground (arith, not-has_of_state pid ps ne rest)

  pub AllIn-snoc :
      (pid : ℕ) (ps : List ℕ)
      → pid < max_gdt_terms
      → (tasks pid).state ≡ s
      → AllIn tasks s ps
      → AllIn tasks s (ps ++ (pid ∷ []))
  AllIn-snoc pid [] bound state h = (bound, state, tt)
  AllIn-snoc pid (p ∷ ps) bound state h = (h.0, h.1, AllIn-snoc pid ps bound state h.2)

pub has-snoc :
    (a pid : ℕ) (ps : List ℕ)
    → has a ps ≡ false
    → (pid == a) ≡ false
    → has a (ps ++ (pid ∷ [])) ≡ false
has-snoc a pid [] h ne = ground arith
has-snoc a pid (p ∷ ps) h ne = ground (arith, has-snoc a pid ps)

AreDistinct-snoc :
    (pid : ℕ) (ps : List ℕ) → has pid ps ≡ false → AreDistinct ps → AreDistinct (ps ++ (pid ∷ []))
AreDistinct-snoc pid [] out d = (refl, tt)
AreDistinct-snoc pid (p ∷ ps) out (here, later) =
    (has-snoc p pid ps here (ground arith), AreDistinct-snoc pid ps (ground arith) later)

module _ {tasks : Array Task} {s : TaskState} {q : PidQueue} (h : Holds tasks s q) where
  pub not-has_of_Holds : (pid : ℕ) → (tasks pid).state ≢ s → has pid (contents q) ≡ false
  not-has_of_Holds pid ne = not-has_of_state tasks s pid (contents q) ne h.all_in

  -- A change to a task that is not in the queue does not concern it.
  pub Holds-update :
      (pid : ℕ) (t : Task) → has pid (contents q) ≡ false → Holds (update tasks pid t) s q
  Holds-update pid t out = record {
    valid = h.valid;
    all_in = AllIn-update tasks s pid t (contents q) out h.all_in;
    distinct = h.distinct;
  }

  -- A task that comes into the state joins the end of the queue.
  pub Holds-pid_enqueue :
      (pid : ℕ) (t : Task)
      → pid < max_gdt_terms
      → has pid (contents q) ≡ false
      → t.state ≡ s
      → suc (length (contents q)) < max_gdt_terms
      → Holds (update tasks pid t) s (pid_enqueue q pid)
        × (contents (pid_enqueue q pid) ≡ contents q ++ (pid ∷ []))
  Holds-pid_enqueue pid t bound out state room = (
    record {
      valid = queued.0;
      all_in = rw (queued.1) (
          AllIn-snoc (update tasks pid t) s pid (contents q) bound
            (ap (λ x. x.state) (update_self tasks pid t) ∙ state)
            (AllIn-update tasks s pid t (contents q) out h.all_in));
      distinct = rw (queued.1) (AreDistinct-snoc pid (contents q) out h.distinct);
    },
    queued.1,
  )
    where
      queued :
          IsValid (pid_enqueue q pid) × (contents (pid_enqueue q pid) ≡ contents q ++ (pid ∷ []))
      queued = contents-pid_enqueue pid h.valid room

  -- The oldest task is taken from a queue that is not empty.
  pub Holds-pid_dequeue :
      (pid : ℕ) (ps : List ℕ)
      → contents q ≡ pid ∷ ps
      → let (best, q') = pid_dequeue q in
        (best ≡ pid)
        × (contents q' ≡ ps)
        × Holds tasks s q'
        × (pid < max_gdt_terms)
        × ((tasks pid).state ≡ s)
        × (has pid ps ≡ false)
  Holds-pid_dequeue pid ps e = (
    ap (λ r. r.0) popped,
    left,
    record { valid = taken.0; all_in = rw left (all_in.2); distinct = rw left (distinct.1) },
    all_in.0,
    all_in.1,
    distinct.0,
  )
    where
      taken :
          IsValid (pid_dequeue q).1
          × (((pid_dequeue q).0, contents (pid_dequeue q).1) ≡ pop (contents q))
      taken = contents-pid_dequeue h.valid

      popped : ◌≡◌ {A = ℕ × List ℕ} ((pid_dequeue q).0, contents (pid_dequeue q).1) (pid, ps)
      popped = taken.1 ∙ ap pop e

      left : contents (pid_dequeue q).1 ≡ ps
      left = ap (λ r. r.1) popped

      all_in : AllIn tasks s (pid ∷ ps)
      all_in = subst (AllIn tasks s) e h.all_in

      distinct : AreDistinct (pid ∷ ps)
      distinct = subst AreDistinct e h.distinct

-- Changing a task without changing its state.
pub Holds-same_state :
    (tasks : Array Task) (s : TaskState) (q : PidQueue) (pid : ℕ) (t : Task)
    → t.state ≡ (tasks pid).state
    → Holds tasks s q
    → Holds (update tasks pid t) s q
Holds-same_state tasks s q pid t same h = record {
  valid = h.valid;
  all_in = AllIn-same (contents q) h.all_in;
  distinct = h.distinct;
}
  where
    AllIn-same : (ps : List ℕ) → AllIn tasks s ps → AllIn (update tasks pid t) s ps
    AllIn-same [] h = tt
    AllIn-same (p ∷ ps) (bound, state, rest) = (bound, ground arith, AllIn-same ps rest)

-- The result of `pid_dequeue` on an empty queue.
pub pid_dequeue-empty : (q : PidQueue) → IsValid q → contents q ≡ [] → (pid_dequeue q).0 ≡ not_found
pid_dequeue-empty q v e = ap (λ r. r.0) ((contents-pid_dequeue v).1 ∙ ap pop e)

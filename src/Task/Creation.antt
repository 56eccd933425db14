-- ===== src/Task/Creation.antt =====
-- `create_task`: the new task, its descriptor, and its place in the ready queue.
use weg_os.Base.{
  ℕ, ◌/◌, ◌%◌, ◌==◌, if◌then◌else◌, Bool-cases, ◌^◌, ◌<◌, ◌≡◌, ◌≢◌, inl, inr, refl, sym, ap, ◌∙◌,
  arith, true, false, update, update_self, update_ne, ==_refl, [], ◌∷◌, ◌++◌, length, length-append,
}
use mathlib.Core.Bool.{true≢false}
use weg_os.Memory.{p_malloc, copy_pts, page_size}
use weg_os.Memory.Frames.{HasFrames, is_taken, p_malloc-Malloced}
use weg_os.PidQueue.{max_gdt_terms, not_found, pid_enqueue}
use weg_os.PidQueue.Ring.{contents}
use weg_os.PidQueue.Search.{has}
use weg_os.Task.{
  Kernel, Task, Tss, TaskManager, Image, set_task, state_ready, set_task_state, enter_state,
  task_init, create_task, get_pid_empty, make_gdt_desc_for_tss, dpl_kernel, is_a_tss_descriptor,
  with_segments, init_eflags, task_flag_kernel,
}
use weg_os.Task.Descriptor.{base_of, get_pid_empty-first, make_gdt_desc_for_tss-base_of}
use weg_os.Sched.Queues.{IsConsistent, RunsWell, Holds, Holds-update, Holds-pid_enqueue, population}

-- The pid is neither on the processor nor in a queue.
pub record IsUnused (tm : TaskManager) (pid : ℕ) : Type 0 where
  pub not_ready : has pid (contents tm.pid_queue_ready) ≡ false
  pub not_blocked : has pid (contents tm.pid_queue_blocked) ≡ false
  pub not_sleeping : has pid (contents tm.pid_queue_sleeping) ≡ false
  pub not_running : tm.pid_running ≢ pid

-- A task in the table, put into the ready queue.
set_task_state-ready :
    (k : Kernel) (pid : ℕ) (t : Task)
    → IsConsistent k.task_manager
    → IsUnused k.task_manager pid
    → pid < max_gdt_terms
    → population k.task_manager < 8190
    → let tm' =
        (set_task_state
          (record k {
            task_manager = record (k.task_manager) { tasks = update k.task_manager.tasks pid t };
          })
          pid
          state_ready).task_manager in
      IsConsistent tm'
      × (contents tm'.pid_queue_ready ≡ contents k.task_manager.pid_queue_ready ++ (pid ∷ []))
unfolding set_task_state enter_state
set_task_state-ready k pid t c u bound room = (
  record {
    ready = queued.0;
    blocked = Holds-update (Holds-update c.blocked pid t u.not_blocked) pid t' u.not_blocked;
    sleeping = Holds-update (Holds-update c.sleeping pid t u.not_sleeping) pid t' u.not_sleeping;
    running = still c.running;
    sleeping_head = c.sleeping_head;
    room =
        omega (arith, ap length queued.1, length-append (contents tm.pid_queue_ready) (pid ∷ []));
  },
  queued.1,
)
  where
    tm : TaskManager
    tm = k.task_manager

    t' : Task
    t' = record (update tm.tasks pid t pid) { state = state_ready }

    queued :
        Holds
          (update (update tm.tasks pid t) pid t')
          state_ready
          (pid_enqueue tm.pid_queue_ready pid)
        × (contents (pid_enqueue tm.pid_queue_ready pid)
            ≡ contents tm.pid_queue_ready ++ (pid ∷ []))
    queued =
        Holds-pid_enqueue (Holds-update c.ready pid t u.not_ready) pid t' bound u.not_ready refl
          (omega arith)

    still :
        RunsWell tm
        → RunsWell (record tm {
          tasks = update (update tm.tasks pid t) pid t';
          pid_queue_ready = pid_enqueue tm.pid_queue_ready pid;
        })
    still (inl none_runs) = inl none_runs
    still (inr (small, state)) = inr (
      small,
      ap (λ x. x.state)
            (update_ne (update tm.tasks pid t) pid tm.pid_running t' (λ e. u.not_running (sym e))
              ∙ update_ne tm.tasks pid tm.pid_running t (λ e. u.not_running (sym e)))
          ∙ state,
    )

with_segments-same :
    (flag : ℕ) (tss : Tss)
    → ((with_segments flag tss).eip ≡ tss.eip) × ((with_segments flag tss).esp ≡ tss.esp)
with_segments-same flag tss = (ground arith, ground arith)

with_segments-selectors :
    (flag : ℕ) (tss : Tss)
    → ((with_segments flag tss).cs ≡ (if flag == task_flag_kernel then 0x8 else 0x1b))
      × ((with_segments flag tss).ss ≡ (if flag == task_flag_kernel then 0x10 else 0x23))
      × ((with_segments flag tss).ds ≡ (if flag == task_flag_kernel then 0x10 else 0x23))
with_segments-selectors flag tss = elim (Bool-cases (flag == task_flag_kernel)) [
  | inl kernel ↦ rw kernel (refl, refl, refl)
  | inr user ↦ rw user (refl, refl, refl)
]

module _ (image : Image) (k : Kernel) (flag eip esp ddl pid : ℕ) where
  abbrev started : Tss
  started = record ((k.task_manager.tasks pid).tss) { esp = esp; eip = eip; eflags = init_eflags }

  -- The entry that `task_init` writes, and the kernel before the task is put into the ready queue.
  abbrev entry : Task
  entry =
      let t = k.task_manager.tasks pid in
      let tss = with_segments flag started in
      record t { tss = record tss { cr3 = (p_malloc k.memory).0 }; ddl = ddl }

  abbrev described : Kernel
  described = record k {
    gdt = update k.gdt pid (make_gdt_desc_for_tss (image.tss_address pid) dpl_kernel);
    memory = copy_pts (p_malloc k.memory).1 image.kernel_pd (p_malloc k.memory).0;
  }

  task_init-steps :
      task_init image k pid flag eip esp ddl
      ≡ set_task_state
          (record described { task_manager = set_task k.task_manager pid entry })
          pid
          state_ready
  unfolding task_init
  task_init-steps = refl

  pub task_init-segments :
      let tss = ((task_init image k pid flag eip esp ddl).task_manager.tasks pid).tss in
      (tss.cs ≡ (if flag == task_flag_kernel then 0x8 else 0x1b))
      × (tss.ss ≡ (if flag == task_flag_kernel then 0x10 else 0x23))
      × (tss.ds ≡ (if flag == task_flag_kernel then 0x10 else 0x23))
  unfolding task_init set_task_state enter_state
  task_init-segments = (
    rw (==_refl pid) (with_segments-selectors flag started).0,
    rw (==_refl pid) (with_segments-selectors flag started).1,
    rw (==_refl pid) (with_segments-selectors flag started).2,
  )

  task_init-is_taken :
      (a : ℕ)
      → is_taken (task_init image k pid flag eip esp ddl).memory a
        ≡ is_taken (p_malloc k.memory).1 a
  unfolding task_init set_task_state enter_state copy_pts
  task_init-is_taken a = refl

  task_init-fields :
      let k' = task_init image k pid flag eip esp ddl in
      (k'.gdt ≡ update k.gdt pid (make_gdt_desc_for_tss (image.tss_address pid) dpl_kernel))
      × ((k'.task_manager.tasks pid).tss.eip ≡ eip)
      × ((k'.task_manager.tasks pid).tss.esp ≡ esp)
      × ((k'.task_manager.tasks pid).tss.cr3 ≡ (p_malloc k.memory).0)
  unfolding task_init set_task_state enter_state
  task_init-fields = (
    refl,
    rw (==_refl pid) (with_segments-same flag started).0,
    rw (==_refl pid) (with_segments-same flag started).1,
    rw (==_refl pid) refl,
  )

-- The descriptor, the queues and the start of the new task.
pub create_task-joins :
    (image : Image) (k : Kernel) (flag eip esp ddl pid : ℕ)
    → IsConsistent k.task_manager
    → population k.task_manager < 8190
    → get_pid_empty k.gdt ≡ pid
    → pid ≢ not_found
    → IsUnused k.task_manager pid
    → image.tss_address pid < 2 ^ 32
    → let (pid', k') = create_task image k flag eip esp ddl in
      (pid' ≡ pid)
      × IsConsistent k'.task_manager
      × (contents k'.task_manager.pid_queue_ready
          ≡ contents k.task_manager.pid_queue_ready ++ (pid ∷ []))
      × (base_of (k'.gdt pid) ≡ image.tss_address pid)
      × (is_a_tss_descriptor (k'.gdt pid) ≡ true)
      × ((i : ℕ) → i ≢ pid → k'.gdt i ≡ k.gdt i)
      × ((k'.task_manager.tasks pid).tss.eip ≡ eip)
      × ((k'.task_manager.tasks pid).tss.esp ≡ esp)
      × ((k'.task_manager.tasks pid).tss.cr3 ≡ (p_malloc k.memory).0)
unfolding create_task
create_task-joins image k flag eip esp ddl pid c room first found u fits = rw first (
  refl,
  joined.0,
  joined.1,
  ap base_of at ∙ segment.0,
  ap is_a_tss_descriptor at ∙ segment.1,
  λ i ne. ap (λ g. g i) fields.0 ∙ update_ne k.gdt pid i _ (λ e. ne (sym e)),
  fields.1,
  fields.2,
  fields.3,
)
  where
    in_table : pid < max_gdt_terms
    in_table = elim (get_pid_empty-first k.gdt) [
      | inl (none_left, _) ↦ absurd (found (sym first ∙ none_left))
      | inr (low, high, _, _) ↦ omega (arith, first)
    ]

    segment :
        (base_of (make_gdt_desc_for_tss (image.tss_address pid) dpl_kernel) ≡ image.tss_address pid)
        × (is_a_tss_descriptor (make_gdt_desc_for_tss (image.tss_address pid) dpl_kernel) ≡ true)
    segment = make_gdt_desc_for_tss-base_of (image.tss_address pid) fits

    fields :
        let k' = task_init image k pid flag eip esp ddl in
        (k'.gdt ≡ update k.gdt pid (make_gdt_desc_for_tss (image.tss_address pid) dpl_kernel))
        × ((k'.task_manager.tasks pid).tss.eip ≡ eip)
        × ((k'.task_manager.tasks pid).tss.esp ≡ esp)
        × ((k'.task_manager.tasks pid).tss.cr3 ≡ (p_malloc k.memory).0)
    fields = task_init-fields image k flag eip esp ddl pid

    at :
        (task_init image k pid flag eip esp ddl).gdt pid
        ≡ make_gdt_desc_for_tss (image.tss_address pid) dpl_kernel
    at = ap (λ g. g pid) fields.0 ∙ update_self k.gdt pid _

    joined :
        IsConsistent (task_init image k pid flag eip esp ddl).task_manager
        × (contents (task_init image k pid flag eip esp ddl).task_manager.pid_queue_ready
            ≡ contents k.task_manager.pid_queue_ready ++ (pid ∷ []))
    joined = rw (task_init-steps image k flag eip esp ddl pid) (
        set_task_state-ready (described image k flag eip esp ddl pid) pid
          (entry image k flag eip esp ddl pid) c u in_table room)

-- The selectors of the new task.
pub create_task-segments :
    (image : Image) (k : Kernel) (flag eip esp ddl pid : ℕ)
    → get_pid_empty k.gdt ≡ pid
    → let tss = ((create_task image k flag eip esp ddl).1.task_manager.tasks pid).tss in
      (tss.cs ≡ (if flag == task_flag_kernel then 0x8 else 0x1b))
      × (tss.ss ≡ (if flag == task_flag_kernel then 0x10 else 0x23))
      × (tss.ds ≡ (if flag == task_flag_kernel then 0x10 else 0x23))
unfolding create_task
create_task-segments image k flag eip esp ddl pid first =
    rw first (task_init-segments image k flag eip esp ddl pid)

-- The lowest free frame becomes the page directory of the new task, and is the only one to be taken.
create_task-frame :
    (image : Image) (k : Kernel) (flag eip esp ddl pid free : ℕ)
    → get_pid_empty k.gdt ≡ pid
    → HasFrames k.memory
    → free < 2 ^ 32
    → is_taken k.memory free ≡ false
    → let k' = (create_task image k flag eip esp ddl).1 in
      let cr3 = (k'.task_manager.tasks pid).tss.cr3 in
      (cr3 % page_size ≡ 0)
      × (cr3 < 2 ^ 32)
      × (is_taken k.memory cr3 ≡ false)
      × ((a : ℕ)
          → is_taken k'.memory a
            ≡ (if cr3 / page_size == a / page_size then true else is_taken k.memory a))
unfolding create_task
create_task-frame image k flag eip esp ddl pid free first frames low unused =
    rw (first, (task_init-fields image k flag eip esp ddl pid).3)
      (elim (p_malloc-Malloced k.memory frames).0 [
        | inl (full, all, _) ↦ absurd (true≢false (sym (all free low) ∙ unused))
        | inr (aligned, bound, was_free, below, after) ↦ (
          aligned,
          bound,
          was_free,
          λ a. task_init-is_taken image k flag eip esp ddl pid a ∙ after a,
        )
      ])

-- On a consistent state with fewer than 8190 tasks, when a descriptor is free and the lowest such pid is in
-- no queue and not running, and when a frame is free, `create_task` takes it. Its descriptor then describes its task state segment,
-- which lies below 2 ^ 32, and no other descriptor changes; the pid stands at the end of the ready queue,
-- the task starts at `eip` on the stack `esp`, with the kernel's selectors or the user's by
-- its flag; its page directory is a frame that was free, which alone becomes taken; and the task
-- manager stays consistent.
pub create_task_lem :
    (image : Image) (k : Kernel) (flag eip esp ddl pid free : ℕ)
    → IsConsistent k.task_manager
    → population k.task_manager < 8190
    → get_pid_empty k.gdt ≡ pid
    → pid ≢ not_found
    → IsUnused k.task_manager pid
    → image.tss_address pid < 2 ^ 32
    → HasFrames k.memory
    → free < 2 ^ 32
    → is_taken k.memory free ≡ false
    → let (pid', k') = create_task image k flag eip esp ddl in
      let tss = (k'.task_manager.tasks pid).tss in
      (pid' ≡ pid)
      × IsConsistent k'.task_manager
      × (contents k'.task_manager.pid_queue_ready
          ≡ contents k.task_manager.pid_queue_ready ++ (pid ∷ []))
      × (base_of (k'.gdt pid) ≡ image.tss_address pid)
      × (is_a_tss_descriptor (k'.gdt pid) ≡ true)
      × ((i : ℕ) → i ≢ pid → k'.gdt i ≡ k.gdt i)
      × (tss.eip ≡ eip)
      × (tss.esp ≡ esp)
      × (tss.cs ≡ (if flag == task_flag_kernel then 0x8 else 0x1b))
      × (tss.ss ≡ (if flag == task_flag_kernel then 0x10 else 0x23))
      × (tss.ds ≡ (if flag == task_flag_kernel then 0x10 else 0x23))
      × (tss.cr3 % page_size ≡ 0)
      × (tss.cr3 < 2 ^ 32)
      × (is_taken k.memory tss.cr3 ≡ false)
      × ((a : ℕ)
          → is_taken k'.memory a
            ≡ (if tss.cr3 / page_size == a / page_size then true else is_taken k.memory a))
create_task_lem image k flag eip esp ddl pid free c room first found u fits frames low unused =
    let (same, joined, ready, base, tss, others, eip_is, esp_is, cr3_is) =
      create_task-joins image k flag eip esp ddl pid c room first found u fits in
    let (cs, ss, ds) = create_task-segments image k flag eip esp ddl pid first in
    let (aligned, bound, was_free, after) =
      create_task-frame image k flag eip esp ddl pid free first frames low unused in
    (
      same, joined, ready, base, tss, others, eip_is, esp_is, cs, ss, ds, aligned, bound, was_free,
      after,
    )

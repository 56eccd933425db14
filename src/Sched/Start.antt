-- ===== src/Sched/Start.antt =====
-- `sched_init`: the first two tasks, on the table of descriptors that the kernel starts with.
use weg_os.Base.{
  ℕ, ◌^◌, ◌≤◌, ◌<◌, ◌≡◌, ◌≢◌, inl, refl, ap, ◌∙◌, arith, true, false, ltb, Array, List, [], ◌∷◌,
  ◌++◌, length, if◌then◌else◌,
}
use native.Mathlib.Decide.{ℕ_discrete}
use weg_os.Memory.{p_malloc}
use weg_os.PidQueue.{max_gdt_terms, not_found, PidQueue}
use weg_os.PidQueue.Ring.{contents, IsValid}
use weg_os.PidQueue.Fifo.{pid_queue_init_lem}
use weg_os.PidQueue.Search.{has}
use weg_os.Processor.{initial_gdt}
use weg_os.Processor.Tables.{initial_gdt-free}
use weg_os.Task.{
  Kernel, Task, TaskState, TaskManager, Image, create_task, task_init, set_task_state, enter_state,
  task_flag_kernel, get_pid_empty, is_a_tss_descriptor, state_ready, state_blocked, state_sleeping,
}
use weg_os.Task.Descriptor.{base_of, is_free, is_free-tss, get_pid_empty-eq}
use weg_os.Task.Creation.{create_task-joins, create_task-segments}
use weg_os.Sched.{task_manager_init, sched_init}
use weg_os.Sched.Queues.{IsConsistent, Holds, population}

-- The sleeping queue as the loader leaves it: empty, from slot 0 on.
pub record IsFresh (tm : TaskManager) : Type 0 where
  pub valid : IsValid tm.pid_queue_sleeping
  pub none_sleeps : contents tm.pid_queue_sleeping ≡ []
  pub head_is : tm.pid_queue_sleeping.head ≡ 0

Holds-empty :
    (tasks : Array Task) (s : TaskState) (q : PidQueue)
    → IsValid q
    → contents q ≡ []
    → Holds tasks s q
Holds-empty tasks s q v e = record { valid = v; all_in = rw e tt; distinct = rw e tt }

task_manager_init-IsConsistent :
    (tm : TaskManager)
    → IsFresh tm
    → IsConsistent (task_manager_init tm)
      × (population (task_manager_init tm) ≡ 0)
      × (contents (task_manager_init tm).pid_queue_ready ≡ [])
unfolding task_manager_init
task_manager_init-IsConsistent tm fresh =
    let (ready, no_ready, _) = pid_queue_init_lem tm.pid_queue_ready in
    let (blocked, no_blocked, _) = pid_queue_init_lem tm.pid_queue_blocked in
    let count : population (task_manager_init tm) ≡ 0 =
      rw (no_ready, no_blocked, fresh.none_sleeps) refl in
    (
      record {
        ready = Holds-empty tm.tasks state_ready _ ready no_ready;
        blocked = Holds-empty tm.tasks state_blocked _ blocked no_blocked;
        sleeping = Holds-empty tm.tasks state_sleeping _ fresh.valid fresh.none_sleeps;
        running = inl refl;
        sleeping_head = fresh.head_is;
        room = omega (arith, count);
      },
      count,
      no_ready,
    )

-- A new task changes neither the other queues, nor what runs, nor another task.
create_task-others :
    (image : Image) (k : Kernel) (flag eip esp ddl : ℕ)
    → let tm = k.task_manager in
      let tm' = (create_task image k flag eip esp ddl).1.task_manager in
      (tm'.pid_queue_blocked ≡ tm.pid_queue_blocked)
      × (tm'.pid_queue_sleeping ≡ tm.pid_queue_sleeping)
      × (tm'.pid_running ≡ tm.pid_running)
      × ((i : ℕ) → i ≢ get_pid_empty k.gdt → tm'.tasks i ≡ tm.tasks i)
unfolding create_task task_init set_task_state enter_state
create_task-others image k flag eip esp ddl = (refl, refl, refl, λ i ne. ground (arith, ne))

-- No task but those of the list is known to the scheduler, and they are ready.
pub record Queued (pids : List ℕ) (tm : TaskManager) : Type 0 where
  pub consistent : IsConsistent tm
  pub ready : contents tm.pid_queue_ready ≡ pids
  pub none_blocked : contents tm.pid_queue_blocked ≡ []
  pub none_sleeps : contents tm.pid_queue_sleeping ≡ []
  pub none_runs : tm.pid_running ≡ not_found

Queued-population :
    (pids : List ℕ) (tm : TaskManager) → Queued pids tm → population tm ≡ length pids
Queued-population pids tm s = rw (s.ready, s.none_blocked, s.none_sleeps, s.none_runs) (omega arith)

pub task_manager_init-Queued : (tm : TaskManager) → IsFresh tm → Queued [] (task_manager_init tm)
unfolding task_manager_init
task_manager_init-Queued tm fresh =
    let (consistent, count, no_ready) = task_manager_init-IsConsistent tm fresh in
    let (blocked, no_blocked, _) = pid_queue_init_lem tm.pid_queue_blocked in
    record {
      consistent = consistent;
      ready = no_ready;
      none_blocked = no_blocked;
      none_sleeps = fresh.none_sleeps;
      none_runs = refl;
    }

-- One more task of the kernel.
pub create_task-Queued :
    (image : Image) (k : Kernel) (pids : List ℕ) (pid eip esp ddl : ℕ)
    → Queued pids k.task_manager
    → length pids < 8190
    → get_pid_empty k.gdt ≡ pid
    → pid < max_gdt_terms
    → has pid pids ≡ false
    → image.tss_address pid < 2 ^ 32
    → let k' = (create_task image k task_flag_kernel eip esp ddl).1 in
      Queued (pids ++ (pid ∷ [])) k'.task_manager
      × (base_of (k'.gdt pid) ≡ image.tss_address pid)
      × (is_a_tss_descriptor (k'.gdt pid) ≡ true)
      × ((i : ℕ) → i ≢ pid → k'.gdt i ≡ k.gdt i)
      × ((k'.task_manager.tasks pid).tss.eip ≡ eip)
      × ((k'.task_manager.tasks pid).tss.esp ≡ esp)
      × ((i : ℕ) → i ≢ pid → k'.task_manager.tasks i ≡ k.task_manager.tasks i)
      × ((k'.task_manager.tasks pid).tss.cr3 ≡ (p_malloc k.memory).0)
create_task-Queued image k pids pid eip esp ddl s room first bound out fits =
    let (_, consistent, ready, base, tss, others, eip_is, esp_is, cr3_is) =
      create_task-joins image k task_flag_kernel eip esp ddl pid s.consistent
        (omega (arith, Queued-population pids k.task_manager s)) first (λ e. omega arith)
        (record {
          not_ready = rw s.ready out;
          not_blocked = rw s.none_blocked refl;
          not_sleeping = rw s.none_sleeps refl;
          not_running = λ e. omega (arith, s.none_runs);
        })
        fits in
    let (blocked, sleeping, running, tasks) =
      create_task-others image k task_flag_kernel eip esp ddl in
    (
      record {
        consistent = consistent;
        ready = ready ∙ ap (λ l. l ++ (pid ∷ [])) s.ready;
        none_blocked = rw blocked s.none_blocked;
        none_sleeps = rw sleeping s.none_sleeps;
        none_runs = running ∙ s.none_runs;
      },
      base,
      tss,
      others,
      eip_is,
      esp_is,
      λ i ne. tasks i (λ e. ne (e ∙ first)),
      cr3_is,
    )

-- The pids that the two calls of `create_task` find free.
pub sched_init-pids :
    (image : Image) (k : Kernel) (idle stack_0_end : ℕ)
    → IsFresh k.task_manager
    → k.gdt ≡ initial_gdt
    → image.tss_address 5 < 2 ^ 32
    → let k0 = record k { task_manager = task_manager_init k.task_manager } in
      (get_pid_empty k.gdt ≡ 5)
      × (get_pid_empty (create_task image k0 task_flag_kernel idle stack_0_end 0xff).1.gdt ≡ 6)
sched_init-pids image k idle stack_0_end fresh table fits_5 =
    let k0 : Kernel = record k { task_manager = task_manager_init k.task_manager } in
    let k1 : Kernel = (create_task image k0 task_flag_kernel idle stack_0_end 0xff).1 in
    let free : (i : ℕ) → 1 ≤ i → is_free (k.gdt i) ≡ (if ltb i 5 then false else true) =
      λ i low. ap (λ g. is_free (g i)) table ∙ initial_gdt-free i low in
    let first : get_pid_empty k.gdt ≡ 5 =
      get_pid_empty-eq k.gdt 5 (omega arith) (omega arith) (free 5 (omega arith))
        (λ j low high. free j low ∙ ground arith) in
    let (s1, base5, tss5, gdt1, eip5, esp5, tasks1, _) =
      create_task-Queued image k0 [] 5 idle stack_0_end 0xff
        (task_manager_init-Queued k.task_manager fresh) (omega arith) first (omega arith) refl
        fits_5 in
    let second : get_pid_empty k1.gdt ≡ 6 =
      get_pid_empty-eq k1.gdt 6 (omega arith) (omega arith)
        (ap is_free (gdt1 6 (λ e. omega arith)) ∙ free 6 (omega arith))
        (λ j low high. elim (ℕ_discrete j 5) [
          | yes e ↦ ap (λ (i : ℕ). is_free (k1.gdt i)) e ∙ is_free-tss (k1.gdt 5) tss5
          | no ne ↦ ap is_free (gdt1 j ne) ∙ free j low ∙ ground arith
        ]) in
    (first, second)

-- With the initial table, `sched_init` makes two tasks with the kernel's selectors, with the pids 5 and 6, which are ready
-- in this order, start at `idle` and have a stack each; no other task is ready, and none is blocked, sleeps
-- or runs. Their descriptors describe their task state segments, which lie below 2 ^ 32, and the other
-- descriptors are as before.
pub sched_init-IsConsistent :
    (image : Image) (k : Kernel) (idle stack_0_end stack_1_end : ℕ)
    → IsFresh k.task_manager
    → k.gdt ≡ initial_gdt
    → image.tss_address 5 < 2 ^ 32
    → image.tss_address 6 < 2 ^ 32
    → let k' = sched_init image k idle stack_0_end stack_1_end in
      let tm = k'.task_manager in
      IsConsistent tm
      × (contents tm.pid_queue_ready ≡ 5 ∷ 6 ∷ [])
      × (contents tm.pid_queue_blocked ≡ [])
      × (contents tm.pid_queue_sleeping ≡ [])
      × (tm.pid_running ≡ not_found)
      × ((tm.tasks 5).tss.eip ≡ idle)
      × ((tm.tasks 6).tss.eip ≡ idle)
      × ((tm.tasks 5).tss.esp ≡ stack_0_end)
      × ((tm.tasks 6).tss.esp ≡ stack_1_end)
      × ((tm.tasks 5).tss.cs ≡ 0x8)
      × ((tm.tasks 5).tss.ss ≡ 0x10)
      × ((tm.tasks 5).tss.ds ≡ 0x10)
      × ((tm.tasks 6).tss.cs ≡ 0x8)
      × ((tm.tasks 6).tss.ss ≡ 0x10)
      × ((tm.tasks 6).tss.ds ≡ 0x10)
      × (base_of (k'.gdt 5) ≡ image.tss_address 5)
      × (base_of (k'.gdt 6) ≡ image.tss_address 6)
      × (is_a_tss_descriptor (k'.gdt 5) ≡ true)
      × (is_a_tss_descriptor (k'.gdt 6) ≡ true)
      × ((i : ℕ) → i ≢ 5 → i ≢ 6 → k'.gdt i ≡ initial_gdt i)
unfolding sched_init
sched_init-IsConsistent image k idle stack_0_end stack_1_end fresh table fits_5 fits_6 =
    let k0 : Kernel = record k { task_manager = task_manager_init k.task_manager } in
    let k1 : Kernel = (create_task image k0 task_flag_kernel idle stack_0_end 0xff).1 in
    let (first, second) = sched_init-pids image k idle stack_0_end fresh table fits_5 in
    let (s1, base5, tss5, gdt1, eip5, esp5, tasks1, _) =
      create_task-Queued image k0 [] 5 idle stack_0_end 0xff
        (task_manager_init-Queued k.task_manager fresh) (omega arith) first (omega arith) refl
        fits_5 in
    let (s2, base6, tss6, gdt2, eip6, esp6, tasks2, _) =
      create_task-Queued image k1 (5 ∷ []) 6 idle stack_1_end 0xff s1 (omega arith) second
        (omega arith) refl fits_6 in
    let segments5 = create_task-segments image k0 task_flag_kernel idle stack_0_end 0xff 5 first in
    let segments6 = create_task-segments image k1 task_flag_kernel idle stack_1_end 0xff 6 second in
    (
      s2.consistent,
      s2.ready,
      s2.none_blocked,
      s2.none_sleeps,
      s2.none_runs,
      ap (λ (t : Task). t.tss.eip) (tasks2 5 (λ e. omega arith)) ∙ eip5,
      eip6,
      ap (λ (t : Task). t.tss.esp) (tasks2 5 (λ e. omega arith)) ∙ esp5,
      esp6,
      ap (λ (t : Task). t.tss.cs) (tasks2 5 (λ e. omega arith)) ∙ segments5.0,
      ap (λ (t : Task). t.tss.ss) (tasks2 5 (λ e. omega arith)) ∙ segments5.1,
      ap (λ (t : Task). t.tss.ds) (tasks2 5 (λ e. omega arith)) ∙ segments5.2,
      segments6.0,
      segments6.1,
      segments6.2,
      ap base_of (gdt2 5 (λ e. omega arith)) ∙ base5,
      base6,
      ap is_a_tss_descriptor (gdt2 5 (λ e. omega arith)) ∙ tss5,
      tss6,
      λ i ne5 ne6. gdt2 i ne6 ∙ gdt1 i ne5 ∙ ap (λ g. g i) table,
    )

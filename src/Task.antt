-- ===== src/Task.antt =====
-- kernel/proc/task.c, with include/comm/task.h, include/comm/gdt.h and the task manager of
-- include/comm/sched.h: process control blocks, their segment descriptors, and the state of a task.
--
-- `jmpf` hands the processor over by a hardware task switch. Every path of the scheduler that calls it
-- has nothing left to do but return, so the state at the jump is the state that the next task sees; the
-- selectors that were jumped to are recorded, the latest first.
pub mod Descriptor
pub mod Creation
use weg_os.Base.{
  ℕ, zero, suc, ◌+◌, ◌-◌, ◌*◌, ◌/◌, ◌%◌, ◌^◌, Bool, true, false, ◌&&◌, ◌||◌, bit_and, bit_or,
  Option, none, some, ◌==◌, if◌then◌else◌, Array, update, List, [], ◌∷◌,
}
use weg_os.Bit.{testbits}
use weg_os.Memory.{Memory, p_malloc, copy_pts}
use weg_os.PidQueue.{PidQueue, max_gdt_terms, not_found, pid_enqueue}

-- `gdt_desc`
pub record GdtDesc : Type 0 where
  pub low : ℕ
  pub high : ℕ

-- The fields of `tss_t` that the kernel writes; the processor alone uses the others.
pub record Tss : Type 0 where
  pub cr3 : ℕ
  pub eip : ℕ
  pub eflags : ℕ
  pub esp : ℕ
  pub cs : ℕ
  pub ss : ℕ
  pub ds : ℕ

pub data TaskState : Type 0 where
  state_ready state_running state_blocked state_sleeping state_just_initialized state_dying :
      TaskState

-- `task_t`; its field `pid` is never written.
pub record Task : Type 0 where
  pub state : TaskState
  pub tss : Tss
  pub wakeup_counter : ℕ
  pub ddl : ℕ

-- `task_manager_t`
pub record TaskManager : Type 0 where
  pub tasks : Array Task
  pub schdule_counter : ℕ
  pub pid_running : ℕ
  pub pid_queue_ready : PidQueue
  pub pid_queue_blocked : PidQueue
  pub pid_queue_sleeping : PidQueue

-- The kernel's variables that tasks concern.
pub record Kernel : Type 0 where
  pub task_manager : TaskManager
  pub gdt : Array GdtDesc
  pub memory : Memory
  pub ticks : ℕ
  pub jumps : List ℕ

abbrev pub init_eflags : ℕ
init_eflags = 0x202

abbrev pub task_flag_kernel : ℕ
task_flag_kernel = 0

abbrev pub dpl_kernel : ℕ
dpl_kernel = 0

-- `make_gdt_desc_for_tss`
unfoldable pub make_gdt_desc_for_tss : ℕ → ℕ → GdtDesc
make_gdt_desc_for_tss base_addr dpl =
    let base_addr0_15 = bit_and base_addr 0xffff in
    let base_addr16_23 = bit_and base_addr 0xff0000 in
    let base_addr24_31 = bit_and base_addr 0xff000000 in
    record {
      high =
          bit_or (bit_or (bit_or base_addr24_31 0xf8900) (base_addr16_23 / 2 ^ 16)) (dpl * 2 ^ 12);
      low = bit_or (base_addr0_15 * 2 ^ 16) 0xffff;
    }

-- `IS_TSS`
abbrev pub is_tss : ℕ → Bool
is_tss type = (type == 0b1001) || (type == 0b1011)

unfoldable pub is_a_tss_descriptor : GdtDesc → Bool
is_a_tss_descriptor desc = (testbits desc.high 12 13 == 0) && is_tss (testbits desc.high 8 12)

-- The loop of `get_pid_empty` from descriptor i on.
pub empty_loop : ℕ → ℕ → Array GdtDesc → ℕ
empty_loop zero i gdt = not_found
empty_loop (suc rounds) i gdt =
    let rest = empty_loop rounds (i + 1) gdt in
    if ((gdt i).low == 0) && ((gdt i).high == 0) then i else rest

-- Descriptor 0 is left out.
unfoldable pub get_pid_empty : Array GdtDesc → ℕ
get_pid_empty gdt = empty_loop (max_gdt_terms - 1) 1 gdt

abbrev pub set_task : TaskManager → ℕ → Task → TaskManager
set_task tm pid t = record tm { tasks = update tm.tasks pid t }

-- Enters the pid in the queue of its new state, or puts it on the processor.
unfoldable pub enter_state : Kernel → ℕ → TaskState → Kernel
enter_state k pid state_ready =
    let tm = k.task_manager in
    record k { task_manager = record tm { pid_queue_ready = pid_enqueue tm.pid_queue_ready pid } }
enter_state k pid state_running = record k {
  task_manager = record (k.task_manager) { pid_running = pid };
  jumps = (pid * 2 ^ 3) ∷ k.jumps;
}
enter_state k pid state_blocked =
    let tm = k.task_manager in
    record k {
      task_manager = record tm { pid_queue_blocked = pid_enqueue tm.pid_queue_blocked pid };
    }
enter_state k pid state_sleeping =
    let tm = k.task_manager in
    record k {
      task_manager = record tm { pid_queue_sleeping = pid_enqueue tm.pid_queue_sleeping pid };
    }
enter_state k pid _ = k

unfoldable pub set_task_state : Kernel → ℕ → TaskState → Kernel
unfolding enter_state
set_task_state k pid state =
    let tm = k.task_manager in
    enter_state
      (record k { task_manager = set_task tm pid (record (tm.tasks pid) { state = state }) }) pid
      state

-- What the linker places: the `tss` of each task, and `kernel_pd`.
pub record Image : Type 0 where
  pub tss_address : ℕ → ℕ
  pub kernel_pd : ℕ

-- The segments of a new task, by `flag`.
abbrev pub with_segments : ℕ → Tss → Tss
with_segments flag tss =
    if flag == task_flag_kernel
    then record tss { cs = 0x8; ss = 0x10; ds = 0x10 }
    else record tss { cs = bit_or 0x18 3; ss = bit_or 0x20 3; ds = bit_or 0x20 3 }

unfoldable pub task_init : Image → Kernel → ℕ → ℕ → ℕ → ℕ → ℕ → Kernel
task_init image k pid flag eip esp ddl =
    let desc = make_gdt_desc_for_tss (image.tss_address pid) dpl_kernel in
    let t = k.task_manager.tasks pid in
    let tss = with_segments flag (record (t.tss) { esp = esp; eip = eip; eflags = init_eflags }) in
    let (cr3, memory) = p_malloc k.memory in
    let copied = copy_pts memory image.kernel_pd cr3 in
    set_task_state
      (record k {
        task_manager =
            set_task k.task_manager pid (record t { tss = record tss { cr3 = cr3 }; ddl = ddl });
        gdt = update k.gdt pid desc;
        memory = copied;
      })
      pid state_ready

-- The pid of the new task. When no descriptor is free the pid is `NOT_FOUND`, and is used all the same.
unfoldable pub create_task : Image → Kernel → ℕ → ℕ → ℕ → ℕ → ℕ × Kernel
create_task image k flag eip esp ddl =
    let pid = get_pid_empty k.gdt in (pid, task_init image k pid flag eip esp ddl)

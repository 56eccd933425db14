-- ===== src/Examples/Booting.antt =====
-- The kernel's start at a machine whose memory is all zero.
use weg_os.Base.{
  ℕ, ◌+◌, ◌*◌, ◌^◌, ◌≤◌, ◌<◌, ◌≡◌, ◌≢◌, ◌⊎◌, refl, arith, true, false, ltb, some, Array, [], ◌∷◌,
}
use weg_os.Base.Bytes.{load32}
use weg_os.Boot.{Addresses, Machine, main, memory_of}
use weg_os.Boot.Paging.{IsCleared, IsCleared-placed, IsCleared-Maps}
use weg_os.Boot.Running.{IsRunning, main-IsRunning}
use weg_os.Boot.Stages.{IsLoaded}
use weg_os.Examples.Kernels.{empty, tasks}
use weg_os.Memory.{Memory, memory_alloc_init, add_mmap_to_itself, has_addr, addr_translate}
use weg_os.Memory.Frames.{HasFrames, is_taken}
use weg_os.Memory.Identity.{Maps, add_mmap_to_itself-identity}
use weg_os.PidQueue.{not_found}
use weg_os.PidQueue.Ring.{contents}
use weg_os.Processor.{initial_gdt}
use weg_os.Sched.{sched_init}
use weg_os.Sched.Directories.{sched_init-directories}
use weg_os.Sched.Queues.{IsConsistent}
use weg_os.Sched.Start.{IsFresh, sched_init-IsConsistent}
use weg_os.Task.{TaskManager, Kernel, is_a_tss_descriptor}
use weg_os.Task.Descriptor.{base_of}

abbrev zeros : Array ℕ
zeros i = 0

abbrev addresses : Addresses
addresses = record {
  image = record { tss_address = λ p. 0x120000 + 104 * p; kernel_pd = 0x110000 };
  gdt = 0x111000;
  idt = 0x121000;
  ignore_int = 0x100100;
  timer_interrupt_handler = 0x100200;
  keyboard_interrupt_handler = 0x100300;
  page_fault_handler = 0x100400;
  idle = 0x100500;
  idle_stack_0_end = 0x131000;
  idle_stack_1_end = 0x132000;
}

-- No task is known.
abbrev no_tasks : TaskManager
no_tasks = record {
  tasks = tasks;
  schdule_counter = 0;
  pid_running = 0;
  pid_queue_ready = empty;
  pid_queue_blocked = empty;
  pid_queue_sleeping = empty;
}

no_tasks-IsFresh : IsFresh no_tasks
no_tasks-IsFresh = record {
  valid = record { head_in = omega arith; tail_in = omega arith };
  none_sleeps = refl;
  head_is = refl;
}

abbrev machine : Machine
machine = record {
  processor = record {
    cr0 = 0x11;
    cr3 = 0;
    eflags = 2;
    gdtr = record { limit = 23; base_addr = 0x8000 };
    idtr = record { limit = 0x3ff; base_addr = 0 };
  };
  mem = zeros;
  ports = record { inputs = zeros; outputs = [] };
  disk = λ sector. zeros;
  idt = λ i. record { low = 0; high = 0 };
  gdt = initial_gdt;
  p_last_char = 0;
  cursor_col = 0;
  cursor_row = 0;
  keyboard_state = record {
    caps_pressed = false;
    left_shift_pressed = false;
    right_shift_pressed = false;
    ctrl_pressed = false;
    left_alt_pressed = false;
    right_alt_pressed = false;
  };
  memory_alloc_table = zeros;
  memory_alloc_bitmap = record { bits = zeros; size = 0 };
  task_manager = no_tasks;
  ticks = 0;
  jumps = [];
  fs_alloc_table = zeros;
  file_alloc_bitmap = record { bits = zeros; size = 0 };
}

machine-IsCleared : IsCleared addresses machine
unfolding load32
machine-IsCleared = record {
  directory_page = refl;
  in_kernel = omega arith;
  absent = λ k h. refl;
  no_frame = λ i. refl;
}

machine-IsLoaded : IsLoaded addresses machine
machine-IsLoaded = record {
  cleared = machine-IsCleared;
  above_screen = omega arith;
  fresh = no_tasks-IsFresh;
  table = refl;
  fits_5 = omega arith;
  fits_6 = omega arith;
  files = λ i. omega arith;
  low_ignore = omega arith;
  low_timer = omega arith;
  low_keyboard = omega arith;
  low_page_fault = omega arith;
}

main-IsRunning_example :
    (m' : Machine) × (main addresses zeros zeros machine ≡ some m') × IsRunning addresses machine m'
main-IsRunning_example = main-IsRunning addresses machine zeros zeros machine-IsLoaded

-- The frames of the kernel are taken, and no others.
abbrev memory : Memory
memory = memory_alloc_init (memory_of machine) zeros

memory-Maps : Maps 0x110000 0x800000 0 0 memory
memory-Maps = IsCleared-Maps addresses machine machine-IsCleared

add_mmap_to_itself-identity_example :
    let m' = add_mmap_to_itself memory 0x110000 0x5000 3 in
    ((a : ℕ)
      → a < 0x5000
      → (has_addr m'.mem 0x110000 a ≡ true) × (addr_translate m'.mem 0x110000 a ≡ a))
    × ((a : ℕ) → a < 2 ^ 32 → is_taken m' a ≡ ltb a 0x801000)
    × HasFrames m'
add_mmap_to_itself-identity_example =
    add_mmap_to_itself-identity 0x110000 0x800000 memory 0x5000 3
      (IsCleared-placed addresses machine machine-IsCleared) memory-Maps (omega arith) (omega arith)

abbrev kernel : Kernel
kernel = record {
  task_manager = no_tasks;
  gdt = initial_gdt;
  memory = memory;
  ticks = 0;
  jumps = [];
}

sched_init-IsConsistent_example :
    let k' = sched_init addresses.image kernel 0x100500 0x131000 0x132000 in
    let tm = k'.task_manager in
    IsConsistent tm
    × (contents tm.pid_queue_ready ≡ 5 ∷ 6 ∷ [])
    × (contents tm.pid_queue_blocked ≡ [])
    × (contents tm.pid_queue_sleeping ≡ [])
    × (tm.pid_running ≡ not_found)
    × ((tm.tasks 5).tss.eip ≡ 0x100500)
    × ((tm.tasks 6).tss.eip ≡ 0x100500)
    × ((tm.tasks 5).tss.esp ≡ 0x131000)
    × ((tm.tasks 6).tss.esp ≡ 0x132000)
    × ((tm.tasks 5).tss.cs ≡ 0x8)
    × ((tm.tasks 5).tss.ss ≡ 0x10)
    × ((tm.tasks 5).tss.ds ≡ 0x10)
    × ((tm.tasks 6).tss.cs ≡ 0x8)
    × ((tm.tasks 6).tss.ss ≡ 0x10)
    × ((tm.tasks 6).tss.ds ≡ 0x10)
    × (base_of (k'.gdt 5) ≡ 0x120208)
    × (base_of (k'.gdt 6) ≡ 0x120270)
    × (is_a_tss_descriptor (k'.gdt 5) ≡ true)
    × (is_a_tss_descriptor (k'.gdt 6) ≡ true)
    × ((i : ℕ) → i ≢ 5 → i ≢ 6 → k'.gdt i ≡ initial_gdt i)
sched_init-IsConsistent_example =
    sched_init-IsConsistent addresses.image kernel 0x100500 0x131000 0x132000 no_tasks-IsFresh refl
      (omega arith) (omega arith)

sched_init-directories_example :
    let k' = sched_init addresses.image kernel 0x100500 0x131000 0x132000 in
    ((k'.task_manager.tasks 5).tss.cr3 ≡ 0x800000)
    × ((k'.task_manager.tasks 6).tss.cr3 ≡ 0x801000)
    × ((n : ℕ)
        → n < 1024
        → load32 k'.memory.mem (0x800000 + 4 * n) ≡ load32 kernel.memory.mem (0x110000 + 4 * n))
    × ((n : ℕ)
        → n < 1024
        → load32 k'.memory.mem (0x801000 + 4 * n) ≡ load32 kernel.memory.mem (0x110000 + 4 * n))
    × ((a : ℕ)
        → (a + 4 ≤ 0x800000) ⊎ (0x802000 ≤ a)
        → load32 k'.memory.mem a ≡ load32 kernel.memory.mem a)
    × ((a : ℕ) → a < 2 ^ 32 → is_taken k'.memory a ≡ ltb a 0x802000)
sched_init-directories_example =
    sched_init-directories addresses.image kernel 0x100500 0x131000 0x132000 0x800000
      no_tasks-IsFresh refl (omega arith) (omega arith) memory-Maps.frames refl (omega arith)
      memory-Maps.taken (omega arith)

-- ===== src/Boot.antt =====
-- kernel/init/main.c: the kernel's start, with `memory_init` of kernel/mm/memory.c and `tty_init` of
-- kernel/dev/console.c. The parts share one memory, in which the screen, the page tables and the pages of
-- the tasks lie, and one list of port writes. The kernel's other variables are fields of their own, and the
-- stack holds the locals. `main` is modelled up to its endless loop, in the build with _DEBUG and FS_INIT.
-- No interrupt is served before `sti`, and the state after it is that of a run without one.
pub mod Paging
pub mod Running
pub mod Stages
use weg_os.Base.{ℕ, ◌*◌, Option, some, ◌>>=◌, Array, List, [], ◌∷◌}
use weg_os.BitAllocation.{Bitmap}
use weg_os.Clock.{time_init}
use weg_os.Console.{Console, cls, printf}
use weg_os.Disk.{Disk}
use weg_os.Fs.{FileSystem}
use weg_os.Fs.Files.{fs_init, fs_test, string}
use weg_os.Interrupt.{Ports, IdtDesc, set_idt, interrupt_init}
use weg_os.Keyboard.{KeyboardState, keyboard_init}
use weg_os.Memory.{Memory, memory_alloc_init, add_mmap_to_itself, page_table_flag_kernel_read_write}
use weg_os.Processor.{Processor, reload_gdt, lidt, sti, write_cr3, enable_page}
use weg_os.Sched.{sched_init}
use weg_os.Task.{Kernel, TaskManager, GdtDesc, Image}

-- The addresses that the link editor gives.
pub record Addresses : Type 0 where
  pub image : Image
  pub gdt : ℕ
  pub idt : ℕ
  pub ignore_int : ℕ
  pub timer_interrupt_handler : ℕ
  pub keyboard_interrupt_handler : ℕ
  pub page_fault_handler : ℕ
  pub idle : ℕ
  pub idle_stack_0_end : ℕ
  pub idle_stack_1_end : ℕ

-- The processor, memory, the ports and the disk, and the kernel's variables.
pub record Machine : Type 0 where
  pub processor : Processor
  pub mem : Array ℕ
  pub ports : Ports
  pub disk : Disk
  pub idt : Array IdtDesc
  pub gdt : Array GdtDesc
  pub p_last_char : ℕ
  pub cursor_col : ℕ
  pub cursor_row : ℕ
  pub keyboard_state : KeyboardState
  pub memory_alloc_table : Array ℕ
  pub memory_alloc_bitmap : Bitmap
  pub task_manager : TaskManager
  pub ticks : ℕ
  pub jumps : List ℕ
  pub fs_alloc_table : Array ℕ
  pub file_alloc_bitmap : Bitmap

-- The parts of the machine that the components work on.
abbrev pub console_of : Machine → Console
console_of m = record {
  p_last_char = m.p_last_char;
  cursor_col = m.cursor_col;
  cursor_row = m.cursor_row;
  memory = m.mem;
  ports = m.ports;
}

abbrev pub with_console : Machine → Console → Machine
with_console m c = record m {
  p_last_char = c.p_last_char;
  cursor_col = c.cursor_col;
  cursor_row = c.cursor_row;
  mem = c.memory;
  ports = c.ports;
}

abbrev pub memory_of : Machine → Memory
memory_of m = record { mem = m.mem; alloc_bitmap = m.memory_alloc_bitmap }

abbrev pub with_memory : Machine → Memory → Machine
with_memory m memory = record m { mem = memory.mem; memory_alloc_bitmap = memory.alloc_bitmap }

abbrev pub kernel_of : Machine → Kernel
kernel_of m = record {
  task_manager = m.task_manager;
  gdt = m.gdt;
  memory = memory_of m;
  ticks = m.ticks;
  jumps = m.jumps;
}

abbrev pub with_kernel : Machine → Kernel → Machine
with_kernel m k = record (with_memory m k.memory) {
  task_manager = k.task_manager;
  gdt = k.gdt;
  ticks = k.ticks;
  jumps = k.jumps;
}

-- `interrupt_init`; the table has 256 descriptors of 8 bytes.
unfoldable pub interrupts_init : Addresses → Machine → Machine
interrupts_init at m =
    let (ports, idt) = interrupt_init m.ports m.idt at.ignore_int in
    record m { processor = lidt m.processor at.idt (8 * 256); ports = ports; idt = idt }

unfoldable pub clock_init : Addresses → Machine → Machine
clock_init at m =
    let (ports, idt) = time_init m.ports m.idt at.timer_interrupt_handler in
    record m { ports = ports; idt = idt }

unfoldable pub tty_init : Addresses → Machine → Machine
tty_init at m =
    let m' = with_console m (cls (console_of m)) in
    let (state, ports, idt) =
      keyboard_init m'.keyboard_state m'.ports m'.idt at.keyboard_interrupt_handler in
    record m' { keyboard_state = state; ports = ports; idt = idt }

abbrev pub itself_end : ℕ
itself_end = 0x10000000

abbrev pub page_fault_interrupt : ℕ
page_fault_interrupt = 0xe

unfoldable pub memory_init : Addresses → Machine → Machine
memory_init at m =
    let m1 = with_memory m (memory_alloc_init (memory_of m) m.memory_alloc_table) in
    let m2 = with_memory m1 (
      add_mmap_to_itself (memory_of m1) at.image.kernel_pd itself_end
        page_table_flag_kernel_read_write) in
    record m2 {
      processor = enable_page (write_cr3 m2.processor at.image.kernel_pd);
      idt = set_idt m2.idt page_fault_interrupt at.page_fault_handler;
    }

unfoldable pub tasks_init : Addresses → Machine → Machine
tasks_init at m =
    with_kernel m
      (sched_init at.image (kernel_of m) at.idle at.idle_stack_0_end at.idle_stack_1_end)

-- `fs_init` and `fs_test`, from what their blocks on the stack hold.
unfoldable pub files_init : Array ℕ → Array ℕ → Machine → Option Machine
files_init block_with_root_fcb block_1025 m = do
  fs ← fs_init m.fs_alloc_table block_with_root_fcb m.disk
  fs' ← fs_test block_1025 fs
  some (record m { disk = fs'.disk; file_alloc_bitmap = fs'.alloc_bitmap })

-- "MAIN END" and a newline.
abbrev pub main_end : List ℕ
main_end = 77 ∷ 65 ∷ 73 ∷ 78 ∷ 32 ∷ 69 ∷ 78 ∷ 68 ∷ 10 ∷ []

-- What `main` does before it prints and loops.
unfoldable pub main_inits : Addresses → Array ℕ → Array ℕ → Machine → Option Machine
main_inits at block_with_root_fcb block_1025 m = do
  let m1 = record m { processor = reload_gdt m.processor at.gdt }
  let m2 = interrupts_init at m1
  let m3 = clock_init at m2
  let m4 = tty_init at m3
  let m5 = memory_init at m4
  let m6 = tasks_init at m5
  m7 ← files_init block_with_root_fcb block_1025 m6
  some (record m7 { processor = sti m7.processor })

unfoldable pub main : Addresses → Array ℕ → Array ℕ → Machine → Option Machine
main at block_with_root_fcb block_1025 m = do
  m' ← main_inits at block_with_root_fcb block_1025 m
  c ← printf (console_of m') (string main_end)
  some (with_console m' c)

-- ===== src/Boot/Running.antt =====
-- `main`: what the kernel has set up when it begins to wait.
use weg_os.Base.{
  ℕ, ◌+◌, ◌^◌, ◌≤◌, ◌<◌, ◌≡◌, refl, ap, ◌∙◌, arith, some, Array, [], ◌∷◌, ◌==◌, if◌then◌else◌,
}
use weg_os.Base.Bytes.{load32, IsBytes}
use weg_os.Boot.{
  Addresses, Machine, console_of, with_console, interrupts_init, clock_init, tty_init, memory_init,
  tasks_init, main_inits, main, main_end,
}
use weg_os.Boot.Paging.{memory_init-Maps}
use weg_os.Console.{Console}
use weg_os.Console.Cursor.{cell, IsNearScreen}
use weg_os.Console.Text.{ArePrintable, cell_after, printf-IsNearScreen}
use weg_os.Console.Outside.{KeepsOutside, cls-IsNearScreen, printf-outside}
use weg_os.Fs.{FileSystem}
use weg_os.Fs.Files.{string}
use weg_os.Memory.{page_size}
use weg_os.Memory.Tables.{Names, Names-identity}
use weg_os.Processor.{initial_gdt, eflags_if, reload_gdt, lidt, enable_page, sti}
use weg_os.Base.Flags.{HasDigit, digit-set}
use weg_os.PidQueue.Ring.{contents}
use weg_os.Sched.Queues.{IsConsistent}
use weg_os.Sched.Start.{IsFresh}
use weg_os.Strings.Chars.{Spells}
use weg_os.Boot.Stages.{
  IsLoaded, early, load32-outside, early-IsCleared, MapsItself, AreNamed, Names-same,
  tasks_init-AreNamed, tasks_init-IsConsistent, files_init-runs,
}
use weg_os.Interrupt.{set_idt, make_idt_desc, gdt_kernel_code_seg}
use weg_os.Interrupt.Laws.{handler_of, make_idt_desc-handler_of, interrupt_init-set_idt}
use weg_os.Keyboard.{keyboard_init}
use weg_os.Clock.{time_init}

-- What the kernel has set up: paging on CR3 with the addresses below 0x10000000 mapped to themselves, there
-- and in the directories of the two tasks; interrupts on, and no other flag changed; the two tasks ready
-- and the scheduler's queues consistent; the IDTR at the table of the 256 interrupts, each with its handler; and the cursor at the start
-- of the second row.
pub record IsRunning (at : Addresses) (m m' : Machine) : Type 0 where
  pub cr3_is : m'.processor.cr3 ≡ at.image.kernel_pd
  pub kernel_maps : MapsItself m'.mem at.image.kernel_pd
  pub task_5_maps : MapsItself m'.mem (m'.task_manager.tasks 5).tss.cr3
  pub task_6_maps : MapsItself m'.mem (m'.task_manager.tasks 6).tss.cr3
  pub paging_on : HasDigit 32 31 1 m.processor.cr0 m'.processor.cr0
  pub interrupts_on : HasDigit 32 eflags_if 1 m.processor.eflags m'.processor.eflags
  pub idtr_is : m'.processor.idtr ≡ record { limit = 0x7ff; base_addr = at.idt }
  pub consistent : IsConsistent m'.task_manager
  pub ready : contents m'.task_manager.pid_queue_ready ≡ 5 ∷ 6 ∷ []
  pub handlers :
      (i : ℕ)
      → i < 256
      → handler_of (m'.idt i) ≡ (
          if i == 0xe
          then at.page_fault_handler
          else (if i == 0x21
              then at.keyboard_interrupt_handler
              else (if i == 0x20 then at.timer_interrupt_handler else at.ignore_int)))
  pub on_screen : IsNearScreen (console_of m')
  pub second_row : cell (console_of m') ≡ 80

MapsItself-named :
    (mem : Array ℕ) (cr3 : ℕ)
    → cr3 + page_size ≤ 2 ^ 32
    → Names cr3 0x800000 64 65536 mem
    → MapsItself mem cr3
MapsItself-named mem cr3 bound v a h =
    Names-identity cr3 0x800000 refl bound 64 65536 mem a v (omega arith) (omega arith)
      (omega arith) (omega arith)

-- `tasks_init` leaves the screen, and what the processor holds.
module _ (at : Addresses) (m : Machine) where
  -- The machine when `main` prints: after the tasks, with some file system.
  abbrev before_print : FileSystem → Machine
  before_print fs =
      let m6 = tasks_init at (memory_init at (early at m)) in
      record m6 {
        disk = fs.disk;
        file_alloc_bitmap = fs.alloc_bitmap;
        processor = sti m6.processor;
      }

  before_print-processor :
      (fs : FileSystem)
      → ((before_print fs).processor.cr3 ≡ at.image.kernel_pd)
        × HasDigit 32 31 1 m.processor.cr0 (before_print fs).processor.cr0
        × HasDigit 32 eflags_if 1 m.processor.eflags (before_print fs).processor.eflags
  unfolding tasks_init memory_init tty_init clock_init interrupts_init enable_page sti reload_gdt
      lidt
  before_print-processor fs =
      (refl, λ j h. digit-set m.processor.cr0 31 j, λ j h. digit-set m.processor.eflags eflags_if j)

  before_print-idtr :
      (fs : FileSystem)
      → (before_print fs).processor.idtr ≡ record { limit = 0x7ff; base_addr = at.idt }
  unfolding tasks_init memory_init tty_init clock_init interrupts_init enable_page sti reload_gdt
      lidt
  before_print-idtr fs = refl

  before_print-IsNearScreen :
      (fs : FileSystem)
      → IsNearScreen (console_of (before_print fs)) × (cell (console_of (before_print fs)) ≡ 0)
  unfolding tasks_init memory_init tty_init
  before_print-IsNearScreen fs =
      let c : Console = console_of (
        clock_init at
          (interrupts_init at (record m { processor = reload_gdt m.processor at.gdt }))) in
      let (on, start, _) = cls-IsNearScreen c in
      (
        record {
          low = on.low;
          high = on.high;
          even = on.even;
          row_is = on.row_is;
          col_is = on.col_is;
        },
        start,
      )

  before_print-files :
      IsLoaded at m → IsBytes (tasks_init at (memory_init at (early at m))).fs_alloc_table
  unfolding tasks_init memory_init tty_init clock_init interrupts_init
  before_print-files s = s.files

  before_print-handlers :
      (fs : FileSystem) (i : ℕ)
      → IsLoaded at m
      → i < 256
      → handler_of ((before_print fs).idt i) ≡ (
          if i == 0xe
          then at.page_fault_handler
          else (if i == 0x21
              then at.keyboard_interrupt_handler
              else (if i == 0x20 then at.timer_interrupt_handler else at.ignore_int)))
  unfolding tasks_init memory_init tty_init clock_init interrupts_init keyboard_init time_init
      set_idt
  before_print-handlers fs i s small =
      let (ignored, _) =
        interrupt_init-set_idt m.ports m.idt at.ignore_int 0 0 i s.low_ignore (omega arith)
          (omega arith) small in
      let gate : (handler : ℕ)
          → handler < 2 ^ 32
          → handler_of (make_idt_desc gdt_kernel_code_seg handler) ≡ handler =
        λ handler h. (make_idt_desc-handler_of gdt_kernel_code_seg handler (omega arith) h).0 in
      ground (
        arith,
        ignored,
        gate at.page_fault_handler s.low_page_fault,
        gate at.keyboard_interrupt_handler s.low_keyboard,
        gate at.timer_interrupt_handler s.low_timer,
      )

  main_inits-runs :
      (block_with_root_fcb block_1025 : Array ℕ)
      → IsLoaded at m
      → (fs : FileSystem) × (main_inits at block_with_root_fcb block_1025 m
          ≡ some (before_print fs))
  unfolding main_inits
  main_inits-runs block_with_root_fcb block_1025 s =
      let (fs, run) =
        files_init-runs block_with_root_fcb block_1025 (tasks_init at (memory_init at (early at m)))
          (before_print-files s) in
      (fs, rw run refl)

  before_tasks-fresh :
      IsLoaded at m
      → IsFresh (memory_init at (early at m)).task_manager
        × ((memory_init at (early at m)).gdt ≡ initial_gdt)
  unfolding memory_init tty_init clock_init interrupts_init
  before_tasks-fresh s = (
    record { valid = s.fresh.valid; none_sleeps = s.fresh.none_sleeps; head_is = s.fresh.head_is },
    s.table,
  )

  before_print-tasks :
      IsLoaded at m
      → let m6 = tasks_init at (memory_init at (early at m)) in
        AreNamed at m6.mem
        × ((m6.task_manager.tasks 5).tss.cr3 ≡ 0x840000)
        × ((m6.task_manager.tasks 6).tss.cr3 ≡ 0x841000)
        × IsConsistent m6.task_manager
        × (contents m6.task_manager.pid_queue_ready ≡ 5 ∷ 6 ∷ [])
  before_print-tasks s =
      let m5 : Machine = memory_init at (early at m) in
      let v = memory_init-Maps at (early at m) (early-IsCleared at m s) in
      let (fresh, table) = before_tasks-fresh s in
      let (named, cr3_5, cr3_6) =
        tasks_init-AreNamed at m5 s.cleared.in_kernel v fresh table s.fits_5 s.fits_6 in
      let (consistent, ready) =
        tasks_init-IsConsistent at m5 s.cleared.in_kernel v fresh table s.fits_5 s.fits_6 in
      (named, cr3_5, cr3_6, consistent, ready)

-- "MAIN END" and a newline as a string.
main_end-Spells : Spells (string main_end) 0 main_end
unfolding string
main_end-Spells = omega arith

main_end-ArePrintable : ArePrintable main_end
main_end-ArePrintable = omega arith

-- On a machine as the loader leaves it, `main` gets as far as its endless loop, whatever the blocks on its
-- stack hold, with the kernel then running as it should: CR3 holds the kernel's directory, paging is turned
-- on, and that directory and the directories of the two tasks map every address below 0x10000000 to
-- itself; interrupts are on, and the IDTR holds the address and the size of the table, in which each of the 256
-- interrupts has the handler that was installed for it; the scheduler's queues are consistent, with the tasks 5 and 6 ready; and the
-- cursor is on the screen, at the start of the second row.
pub main-IsRunning :
    (at : Addresses) (m : Machine) (block_with_root_fcb block_1025 : Array ℕ)
    → IsLoaded at m
    → (m' : Machine) × (main at block_with_root_fcb block_1025 m ≡ some m') × IsRunning at m m'
unfolding main
main-IsRunning at m block_with_root_fcb block_1025 s =
    let (fs, inits) = main_inits-runs at m block_with_root_fcb block_1025 s in
    let m8 : Machine = before_print at m fs in
    let (on, start) = before_print-IsNearScreen at m fs in
    let (c, printed, on', at_80) =
      printf-IsNearScreen (console_of m8) (string main_end) main_end main_end-Spells (omega arith)
        main_end-ArePrintable on in
    let keeps : KeepsOutside m8.mem c.memory =
      printf-outside (console_of m8) c (string main_end) main_end main_end-Spells (omega arith)
        main_end-ArePrintable on printed in
    let ((named, named_5, named_6), cr3_5, cr3_6, consistent, ready) = before_print-tasks at m s in
    let (cr3_is, paging, interrupts) = before_print-processor at m fs in
    let same : (a : ℕ) → 0x100000 ≤ a → load32 c.memory a ≡ load32 m8.mem a =
      λ a high. load32-outside m8.mem c.memory a keeps high in
    let maps : (cr3 : ℕ)
        → 0x100000 ≤ cr3
        → cr3 + page_size ≤ 2 ^ 32
        → Names cr3 0x800000 64 65536 m8.mem
        → MapsItself c.memory cr3 =
      λ cr3 high bound v.
        MapsItself-named c.memory cr3 bound (Names-same cr3 m8.mem c.memory high same v) in
    (
      with_console m8 c,
      rw (inits, printed) refl,
      record {
        cr3_is = cr3_is;
        kernel_maps =
            maps at.image.kernel_pd s.above_screen (omega (arith, s.cleared.in_kernel)) named;
        task_5_maps = rw cr3_5 (maps 0x840000 (omega arith) (omega arith) named_5);
        task_6_maps = rw cr3_6 (maps 0x841000 (omega arith) (omega arith) named_6);
        paging_on = paging;
        interrupts_on = interrupts;
        handlers = λ i h. before_print-handlers at m fs i s h;
        idtr_is = before_print-idtr at m fs;
        consistent = consistent;
        ready = ready;
        on_screen = record {
          low = on'.low;
          high = on'.high;
          even = on'.even;
          row_is = on'.row_is;
          col_is = on'.col_is;
        };
        second_row = at_80 ∙ ap (λ (k : ℕ). cell_after k main_end) start;
      },
    )

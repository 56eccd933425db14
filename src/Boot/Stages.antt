-- ===== src/Boot/Stages.antt =====
-- The stages of `main`: the machine as the loader leaves it, `main` up to `memory_init`, the directories of
-- the first two tasks, and the file system.
use weg_os.Base.{
  ℕ, ◌+◌, ◌*◌, ◌%◌, ◌^◌, ◌≤◌, ◌<◌, ◌≡◌, inl, inr, refl, ap, ◌∙◌, arith, true, some, Array, update,
  [], ◌∷◌,
}
use weg_os.Base.Bytes.{load32, IsBytes}
use weg_os.Boot.{
  Addresses, Machine, console_of, memory_of, kernel_of, interrupts_init, clock_init, tty_init,
  tasks_init, files_init, itself_end,
}
use weg_os.Boot.Paging.{IsCleared}
use weg_os.Console.{Console, cls}
use weg_os.Console.Outside.{KeepsOutside, cls-IsNearScreen}
use weg_os.BitAllocation.{bit_free}
use weg_os.Fs.{FileSystem, set_next_sector, no_sector, valid_data_size_in_block, file_type_normal}
use weg_os.Fs.Files.{fs_test, string, set_fcb}
use weg_os.Fs.Files.Init.{fs_init-root}
use weg_os.Memory.{page_size, has_addr, addr_translate}
use weg_os.Memory.Identity.{Maps}
use weg_os.Memory.Tables.{Names}
use weg_os.Processor.{initial_gdt, reload_gdt}
use weg_os.PidQueue.Ring.{contents}
use weg_os.Sched.{sched_init}
use weg_os.Sched.Directories.{sched_init-directories}
use weg_os.Sched.Queues.{IsConsistent}
use weg_os.Sched.Start.{IsFresh, sched_init-IsConsistent}
use weg_os.Strings.Chars.{strcpy-Spells}
use weg_os.Task.{Kernel}

-- What the loader leaves: the directory cleared and above the screen, no frame and no task known, the
-- initial table of descriptors, and the addresses of handlers and task state segments below 2 ^ 32.
pub record IsLoaded (at : Addresses) (m : Machine) : Type 0 where
  pub cleared : IsCleared at m
  pub above_screen : 0x100000 ≤ at.image.kernel_pd
  pub fresh : IsFresh m.task_manager
  pub table : m.gdt ≡ initial_gdt
  pub fits_5 : at.image.tss_address 5 < 2 ^ 32
  pub fits_6 : at.image.tss_address 6 < 2 ^ 32
  pub files : IsBytes m.fs_alloc_table
  pub low_ignore : at.ignore_int < 2 ^ 32
  pub low_timer : at.timer_interrupt_handler < 2 ^ 32
  pub low_keyboard : at.keyboard_interrupt_handler < 2 ^ 32
  pub low_page_fault : at.page_fault_handler < 2 ^ 32

-- `main` up to `memory_init`.
abbrev pub early : Addresses → Machine → Machine
early at m =
    tty_init at
      (clock_init at (interrupts_init at (record m { processor = reload_gdt m.processor at.gdt })))

-- Words outside the screen stay where bytes outside the screen do.
pub load32-outside :
    (memory memory' : Array ℕ) (a : ℕ)
    → KeepsOutside memory memory'
    → 0x100000 ≤ a
    → load32 memory' a ≡ load32 memory a
unfolding load32
load32-outside memory memory' a keeps high = omega (
  arith,
  keeps a (inr (omega arith)),
  keeps (a + 1) (inr (omega arith)),
  keeps (a + 2) (inr (omega arith)),
  keeps (a + 3) (inr (omega arith)),
)

pub early-IsCleared : (at : Addresses) (m : Machine) → IsLoaded at m → IsCleared at (early at m)
unfolding tty_init clock_init interrupts_init
early-IsCleared at m s =
    let c : Console = console_of (
      clock_init at
        (interrupts_init at (record m { processor = reload_gdt m.processor at.gdt }))) in
    let (on, start, keeps) = cls-IsNearScreen c in
    record {
      directory_page = s.cleared.directory_page;
      in_kernel = s.cleared.in_kernel;
      absent = λ k h.
          ap (λ (w : ℕ). w % 2)
            (load32-outside m.mem (cls c).memory (at.image.kernel_pd + 4 * k) keeps
              (omega (arith, s.above_screen)))
          ∙ s.cleared.absent k h;
      no_frame = s.cleared.no_frame;
    }

-- The identity mapping below 0x10000000 by a directory.
abbrev pub MapsItself : Array ℕ → ℕ → Type 0
MapsItself mem cr3 =
    (a : ℕ) → a < itself_end → (has_addr mem cr3 a ≡ true) × (addr_translate mem cr3 a ≡ a)

-- The kernel's directory and the directories of the two tasks.
abbrev pub AreNamed : Addresses → Array ℕ → Type 0
AreNamed at mem =
    Names at.image.kernel_pd 0x800000 64 65536 mem
    × Names 0x840000 0x800000 64 65536 mem
    × Names 0x841000 0x800000 64 65536 mem

-- Words from the kernel's on that stay, and what they name.
pub Names-same :
    (cr3 : ℕ) (mem mem' : Array ℕ)
    → 0x100000 ≤ cr3
    → ((a : ℕ) → 0x100000 ≤ a → load32 mem' a ≡ load32 mem a)
    → Names cr3 0x800000 64 65536 mem
    → Names cr3 0x800000 64 65536 mem'
Names-same cr3 mem mem' high same v = record {
  named = λ k h. same (cr3 + 4 * k) (omega arith) ∙ v.named k h;
  mapped = λ p h. same (0x800000 + 4 * p) (omega arith) ∙ v.mapped p h;
}

module _ (at : Addresses) (m : Machine) (placed : at.image.kernel_pd + page_size ≤ 0x800000)
    (v : Maps at.image.kernel_pd 0x800000 64 65536 (memory_of m)) (fresh : IsFresh m.task_manager)
    (table : m.gdt ≡ initial_gdt) (fits_5 : at.image.tss_address 5 < 2 ^ 32)
    (fits_6 : at.image.tss_address 6 < 2 ^ 32) where
  pub tasks_init-AreNamed :
      AreNamed at (tasks_init at m).mem
      × (((tasks_init at m).task_manager.tasks 5).tss.cr3 ≡ 0x840000)
      × (((tasks_init at m).task_manager.tasks 6).tss.cr3 ≡ 0x841000)
  unfolding tasks_init
  tasks_init-AreNamed =
      let pd : ℕ = at.image.kernel_pd in
      let k' : Kernel =
        sched_init at.image (kernel_of m) at.idle at.idle_stack_0_end at.idle_stack_1_end in
      let (cr3_5, cr3_6, copy_5, copy_6, others, taken) =
        sched_init-directories at.image (kernel_of m) at.idle at.idle_stack_0_end
          at.idle_stack_1_end 0x840000 fresh table fits_5 fits_6 v.frames refl (omega arith) v.taken
          (omega arith) in
      let mapped : (p : ℕ)
          → p < 65536
          → load32 k'.memory.mem (0x800000 + 4 * p) ≡ page_size * p + 3 =
        λ p h. others (0x800000 + 4 * p) (inl (omega arith)) ∙ v.names.mapped p h in
      (
        (
          record {
            named = λ k h. others (pd + 4 * k) (inl (omega arith)) ∙ v.names.named k h;
            mapped = mapped;
          },
          record { named = λ k h. copy_5 k (omega arith) ∙ v.names.named k h; mapped = mapped },
          record { named = λ k h. copy_6 k (omega arith) ∙ v.names.named k h; mapped = mapped },
        ),
        cr3_5,
        cr3_6,
      )

  pub tasks_init-IsConsistent :
      IsConsistent (tasks_init at m).task_manager
      × (contents (tasks_init at m).task_manager.pid_queue_ready ≡ 5 ∷ 6 ∷ [])
  unfolding tasks_init
  tasks_init-IsConsistent =
      let started =
        sched_init-IsConsistent at.image (kernel_of m) at.idle at.idle_stack_0_end
          at.idle_stack_1_end fresh table fits_5 fits_6 in
      (started.0, started.1)

-- `fs_init` and `fs_test` return.
fs_test-runs :
    (block_1025 : Array ℕ) (fs : FileSystem)
    → (fs' : FileSystem) × (fs_test block_1025 fs ≡ some fs')
unfolding fs_test string
fs_test-runs block_1025 fs =
    let (named, copied, _, _) =
      strcpy-Spells block_1025 (string (117 ∷ 115 ∷ 114 ∷ [])) (117 ∷ 115 ∷ 114 ∷ []) (omega arith)
        (omega arith) in
    (
      record {
        disk = update fs.disk 1025 (
            set_next_sector (set_fcb named 1026 valid_data_size_in_block file_type_normal)
              no_sector);
        alloc_bitmap = bit_free fs.alloc_bitmap 1026 true;
      },
      rw copied refl,
    )

pub files_init-runs :
    (block_with_root_fcb block_1025 : Array ℕ) (m : Machine)
    → IsBytes m.fs_alloc_table
    → (fs : FileSystem) × (files_init block_with_root_fcb block_1025 m
        ≡ some (record m { disk = fs.disk; file_alloc_bitmap = fs.alloc_bitmap }))
unfolding files_init
files_init-runs block_with_root_fcb block_1025 m bytes =
    let (fs, run, _) = fs_init-root m.fs_alloc_table block_with_root_fcb m.disk bytes in
    let (fs', run') = fs_test-runs block_1025 fs in (fs', rw (run, run') refl)

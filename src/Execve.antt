-- ===== src/Execve.antt =====
-- kernel/mm/execve.c: a new process whose code is on the disk, in the swap area.
use weg_os.Base.{
  ℕ, ◌+◌, ◌-◌, ◌*◌, ◌/◌, ◌%◌, ◌^◌, ◌≤◌, ◌<◌, ◌≡◌, ◌⊎◌, refl, ap, ◌∙◌, arith, Array, Option, some,
  none, ◌>>=◌, leb, if◌then◌else◌,
}
use weg_os.Disk.{Disk}
use weg_os.Fs.{FileCached, success}
use weg_os.Fs.Io.{read_all}
use weg_os.Fs.Io.Blocks.{file_byte, leb-true}
use weg_os.Fs.Io.Seeking.{read_all-file_byte}
use weg_os.Fs.Paths.{Stack, load_file_cached}
use weg_os.Fs.Table.{write_run, write_run-bytes}
use weg_os.Memory.{set_mmap, load_memory, page_table_flag_kernel_read_write}
use weg_os.Memory.Swap.{swap_alloc, swap_sector_set}
use weg_os.Task.{Kernel, Image, create_task, task_flag_kernel}

abbrev pub temp_code_size_max : ℕ
temp_code_size_max = 4096

abbrev pub temp_code_start : ℕ
temp_code_start = 0x80000000

abbrev pub init_esp_vma : ℕ
init_esp_vma = 0xffffeffc

-- What happens to memory for a process with its page directory at `cr3`.
pub set_code_page : Kernel → ℕ → ℕ → Kernel
set_code_page k cr3 code_swap_sector =
    let m1 = (set_mmap k.memory cr3 temp_code_start 0 page_table_flag_kernel_read_write).1 in
    let m2 = record m1 { mem = swap_sector_set m1.mem cr3 temp_code_start code_swap_sector } in
    record k { memory = (load_memory m2 cr3 init_esp_vma page_table_flag_kernel_read_write).1 }

-- The kernel, the disk and the static `sector` of `swap_alloc`; the two locals are what the stack holds. `none`
-- is also a file that is larger than `code_buf`, which the source lets overflow.
unfoldable pub sys_execve :
    Stack → Array ℕ → FileCached → Image → Kernel → Disk → ℕ → Array ℕ → Option (Kernel × Disk × ℕ)
sys_execve stack code_buf file_cached image k disk sector path = do
  (result, f) ← load_file_cached stack disk path file_cached
  elim result [
    | success ↦
        let code = read_all disk f.file code_buf stack.file_cached in
        let (code_swap_sector, sector') = swap_alloc sector in
        let disk' = write_run 8 disk code_swap_sector code 0 in
        let (pid, k1) = create_task image k task_flag_kernel temp_code_start init_esp_vma 0xff in
        let cr3 = (k1.task_manager.tasks pid).tss.cr3 in
        (if leb f.file.file_size temp_code_size_max
          then some (set_code_page k1 cr3 code_swap_sector, disk', sector')
          else none)
    | _ ↦ some (k, disk, sector)
  ]

-- A path that leads to a file of at most 4096 bytes: `sys_execve` returns; the next eight sectors of the swap area hold the bytes of
-- the file; no byte of any other sector changes; and the swap area is used up to
-- behind them.
pub sys_execve-file_byte :
    (stack : Stack) (code_buf : Array ℕ) (file_cached f : FileCached) (image : Image) (k : Kernel)
    (disk : Disk) (sector : ℕ) (path : Array ℕ)
    → load_file_cached stack disk path file_cached ≡ some (success, f)
    → f.file.file_size ≤ temp_code_size_max
    → sector + 8 < 2 ^ 32
    → (k' : Kernel) × (disk' : Disk) × (sys_execve stack code_buf file_cached image k disk sector
          path
        ≡ some (k', disk', sector + 8))
      × ((j : ℕ)
          → j < f.file.file_size
          → disk' (sector + j / 512) (j % 512) ≡ file_byte disk f.file.first_sector j)
      × ((s j : ℕ) → (s < sector) ⊎ (sector + 8 ≤ s) → j < 512 → disk' s j ≡ disk s j)
unfolding sys_execve swap_alloc
sys_execve-file_byte stack code_buf file_cached f image k disk sector path loaded fits small =
    let code = read_all disk f.file code_buf stack.file_cached in
    let (pid, k1) = create_task image k task_flag_kernel temp_code_start init_esp_vma 0xff in
    let next : (sector + 8) % 2 ^ 32 ≡ sector + 8 = omega arith in
    (
      set_code_page k1 (k1.task_manager.tasks pid).tss.cr3 sector,
      write_run 8 disk sector code 0,
      rw (loaded, next, leb-true fits) refl,
      (λ j h.
          let byte =
            write_run-bytes 8 disk sector code 0 (sector + j / 512) (j % 512) (omega arith) in
          let e : code (0 + 512 * (sector + j / 512 - sector) + j % 512) ≡ code j =
            ap code (omega arith) in
          let inside : write_run 8 disk sector code 0 (sector + j / 512) (j % 512) ≡ code j =
            ground (arith, byte, e) in
          inside ∙ read_all-file_byte disk f.file code_buf stack.file_cached j h),
      λ s j out h. write_run-bytes 8 disk sector code 0 s j h ∙ ground arith,
    )

-- ===== src/Paging.antt =====
-- kernel/mm/v_memory.c, `swap_in` and `on_page_fault`, and kernel/mm/execve.c: pages that come from the disk.
-- In the debugging build a call for a page that is in memory does not return, which is `none`. So is, here, a
-- transfer that runs into a page that is not in memory: the processor would fault again.
pub mod Page
use weg_os.Base.{
  ℕ, zero, suc, ◌+◌, ◌/◌, ◌%◌, Array, update, Option, none, some, ◌>>=◌, if◌then◌else◌,
}
use weg_os.Disk.{Disk}
use weg_os.Memory.{Memory, load_memory, has_addr, addr_translate, page_table_flag_kernel_read_write}
use weg_os.Memory.Swap.{swap_sector_of}

-- The bytes of a page from the i-th on, from eight sectors to a virtual address.
pub read_page : ℕ → ℕ → Array ℕ → ℕ → Disk → ℕ → ℕ → Option (Array ℕ)
read_page zero i mem cr3 disk sector virtual = some mem
read_page (suc rounds) i mem cr3 disk sector virtual =
    let rest =
      read_page rounds (i + 1)
        (update mem (addr_translate mem cr3 (virtual + i)) (disk (sector + i / 512) (i % 512))) cr3
        disk sector virtual in
    if has_addr mem cr3 (virtual + i) then rest else none

unfoldable pub swap_in : Memory → Disk → ℕ → ℕ → ℕ → Option Memory
swap_in m disk cr3 useful flags = do
  swap_sector ← swap_sector_of m.mem cr3 useful
  let m' = (load_memory m cr3 useful flags).1
  mem ← read_page 4096 0 m'.mem cr3 disk swap_sector useful
  some (record m' { mem = mem })

unfoldable pub on_page_fault : Memory → Disk → ℕ → ℕ → Option Memory
on_page_fault m disk cr3 virtual = swap_in m disk cr3 virtual page_table_flag_kernel_read_write

-- ===== src/Memory.antt =====
-- kernel/mm/memory.c: page frames from a bitmap, and the two levels of page tables.
-- Memory is an array of bytes by address. Until paging is on, and below 0x10000000 after it, an
-- address is its own physical address, so page tables are read and written at their frame's address.
-- Addresses are 32-bit numbers with their wrap written out. `memory_init` is left to the processor's
-- control registers but for the calls that are modelled here.
pub mod Copy
pub mod Entries
pub mod Frames
pub mod Identity
pub mod Mapping
pub mod Swap
pub mod Tables
use weg_os.Base.{
  ℕ, zero, suc, ◌+◌, ◌-◌, ◌*◌, ◌/◌, ◌%◌, ◌^◌, Bool, true, false, bit_and, bit_or, Option, none,
  some, ◌==◌, ltb, if◌then◌else◌, Array, update,
}
use weg_os.Base.Bytes.{load32, store32}
use weg_os.Bit.{testbits, testbit}
use weg_os.BitAllocation.{Bitmap, bit_alloc, bit_free, bit_bind}

abbrev pub page_size : ℕ
page_size = 4096

abbrev pub page_table_p : ℕ
page_table_p = 0

abbrev pub page_table_flag_user_read_write : ℕ
page_table_flag_user_read_write = 7

abbrev pub page_table_flag_kernel_read_write : ℕ
page_table_flag_kernel_read_write = 3

-- The bytes of memory, and `memory_alloc_bitmap`.
pub record Memory : Type 0 where
  pub mem : Array ℕ
  pub alloc_bitmap : Bitmap

-- `p_malloc` returns (unsigned)-1 when no frame is left.
unfoldable pub p_malloc : Memory → ℕ × Memory
p_malloc m =
    let (page_index, bitmap) = bit_alloc m.alloc_bitmap false in
    (
      elim page_index [ none ↦ 2 ^ 32 - 1 | some n ↦ n * page_size % 2 ^ 32 ],
      record m { alloc_bitmap = bitmap },
    )

-- How `p_free` ends. Its argument is an `int`: from 2 ^ 31 on it is negative, and so is the index
-- that is handed to `bit_free`, which then writes in front of the table.
pub data Freed : Type 0 where
  done : Memory → Freed
  hangs out_of_table : Freed

unfoldable pub p_free : Memory → ℕ → Freed
p_free m p_addr =
    if bit_and p_addr 0xfff == 0
    then (if ltb p_addr (2 ^ 31)
        then done (record m { alloc_bitmap = bit_free m.alloc_bitmap (p_addr / page_size) false })
        else out_of_table)
    else hangs

-- The loop of `memory_alloc_init` from page i on.
pub reserve_loop : ℕ → ℕ → Bitmap → Bitmap
reserve_loop zero i bitmap = bitmap
reserve_loop (suc rounds) i bitmap = reserve_loop rounds (i + 1) (bit_free bitmap i true)

-- `i * PAGE_SIZE < 0x800000` holds for the first 2048 values of i.
unfoldable pub memory_alloc_init : Memory → Array ℕ → Memory
memory_alloc_init m memory_alloc_table = record m {
  alloc_bitmap = reserve_loop (0x800000 / page_size) 0 (bit_bind memory_alloc_table (2 ^ 20));
}

-- `&((page_table_entry_t *)table)[index]`
abbrev pub entry : ℕ → ℕ → ℕ
entry table index = (table + 4 * index) % 2 ^ 32

abbrev pub index_in_pde : ℕ → ℕ
index_in_pde virtual = testbits virtual (12 + 10) (12 + 10 + 10)

abbrev pub index_in_pte : ℕ → ℕ
index_in_pte virtual = testbits virtual 12 (12 + 10)

-- The address of the page table that the directory names for a virtual address.
unfoldable pub table_of : Array ℕ → ℕ → ℕ → ℕ
table_of mem cr3 virtual = bit_and (load32 mem (entry cr3 (index_in_pde virtual))) 0xfffff000

-- A missing page table is given a frame. The frame is not cleared.
unfoldable pub ensure_table : Memory → ℕ → ℕ → Bool × Memory
ensure_table m cr3 virtual =
    let pde = entry cr3 (index_in_pde virtual) in
    if testbit (load32 m.mem pde) page_table_p
    then (true, m)
    else (let (frame, m') = p_malloc m in
        (
          false,
          record m' { mem = store32 m'.mem pde (bit_or frame page_table_flag_user_read_write) },
        ))

unfoldable pub set_mmap : Memory → ℕ → ℕ → ℕ → ℕ → Bool × Memory
set_mmap m cr3 virtual physical flags =
    let (result, m') = ensure_table m cr3 virtual in
    let pte = entry (table_of m'.mem cr3 virtual) (index_in_pte virtual) in
    (result, record m' { mem = store32 m'.mem pte (bit_or physical flags) })

unfoldable pub load_memory : Memory → ℕ → ℕ → ℕ → ℕ × Memory
load_memory m cr3 virtual flags =
    let (physical, m') = p_malloc m in (physical, (set_mmap m' cr3 virtual physical flags).1)

-- The loop of `add_mmap_to_itself` from `addr` on. Its `flags` are not used.
pub itself_loop : ℕ → ℕ → Memory → ℕ → Memory
itself_loop zero addr m cr3 = m
itself_loop (suc rounds) addr m cr3 =
    itself_loop rounds (addr + page_size)
      (set_mmap m cr3 addr addr page_table_flag_kernel_read_write).1 cr3

unfoldable pub add_mmap_to_itself : Memory → ℕ → ℕ → ℕ → Memory
add_mmap_to_itself m cr3 upper_limit flags =
    itself_loop ((upper_limit + page_size - 1) / page_size) 0 m cr3

unfoldable pub addr_translate : Array ℕ → ℕ → ℕ → ℕ
addr_translate mem cr3 virtual =
    let pte = load32 mem (entry (table_of mem cr3 virtual) (index_in_pte virtual)) in
    (bit_and pte 0xfffff000 + bit_and virtual 0xfff) % 2 ^ 32

unfoldable pub has_addr : Array ℕ → ℕ → ℕ → Bool
has_addr mem cr3 virtual =
    if testbit (load32 mem (entry cr3 (index_in_pde virtual))) page_table_p
    then testbit (load32 mem (entry (table_of mem cr3 virtual) (index_in_pte virtual))) page_table_p
    else false

-- `memcpy` of one page, from byte i on.
pub copy_loop : ℕ → ℕ → Array ℕ → ℕ → ℕ → Array ℕ
copy_loop zero i mem dest source = mem
copy_loop (suc rounds) i mem dest source =
    copy_loop rounds (i + 1) (update mem ((dest + i) % 2 ^ 32) (mem ((source + i) % 2 ^ 32))) dest
      source

unfoldable pub copy_pts : Memory → ℕ → ℕ → Memory
copy_pts m from_pd to_pd = record m { mem = copy_loop page_size 0 m.mem to_pd from_pd }

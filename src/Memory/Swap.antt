-- ===== src/Memory/Swap.antt =====
-- kernel/mm/v_memory.c: the disk sector of a page that is not in memory, kept in its page table entry.
-- `swap_in` and `on_page_fault` are in `Paging`.
use weg_os.Base.{
  ℕ, ◌+◌, ◌*◌, ◌/◌, ◌%◌, ◌^◌, ◌<◌, ◌≡◌, ap, ◌∙◌, arith, true, false, Option, none, some,
  if◌then◌else◌, Array,
}
use weg_os.Base.Bytes.{load32, store32}
use weg_os.Bit.{testbit}
use weg_os.Memory.{page_table_p, entry, index_in_pde, index_in_pte, table_of, has_addr}
use weg_os.Memory.Entries.{testbit-present}
use weg_os.Memory.Mapping.{Apart, pde_of, pte_of, pte-written, pde-written, has_addr-written}

abbrev pub disk_swap_start_sector : ℕ
disk_swap_start_sector = 1030

-- `swap_alloc`: the sector that is given out, and the new value of the static `sector`.
unfoldable pub swap_alloc : ℕ → ℕ × ℕ
swap_alloc sector = (sector, (sector + 8) % 2 ^ 32)

-- A page that is in memory has no sector: the debugging build then loops for ever, which is `none`.
-- Without a page table the code returns `false`, which is 0.
unfoldable pub swap_sector_of : Array ℕ → ℕ → ℕ → Option ℕ
swap_sector_of mem cr3 virtual =
    if has_addr mem cr3 virtual
    then none
    else (if testbit (load32 mem (entry cr3 (index_in_pde virtual))) page_table_p
        then some (load32 mem (entry (table_of mem cr3 virtual) (index_in_pte virtual)) / 2 ^ 3)
        else some 0)

unfoldable pub swap_sector_set : Array ℕ → ℕ → ℕ → ℕ → Array ℕ
swap_sector_set mem cr3 virtual sector =
    store32 mem (entry (table_of mem cr3 virtual) (index_in_pte virtual)) (sector * 2 ^ 3 % 2 ^ 32)

-- Once `swap_sector_set` has recorded a sector below 2 ^ 29 for a page whose table is there and does
-- not overlap its directory entry, the page is not in memory, and `swap_sector_of` gives the sector.
pub swap_sector_of-swap_sector_set :
    (mem : Array ℕ) (cr3 virtual sector : ℕ)
    → sector < 2 ^ 29
    → testbit (load32 mem (entry cr3 (index_in_pde virtual))) page_table_p ≡ true
    → Apart (pte_of mem cr3 virtual) (pde_of cr3 virtual)
    → let mem' = swap_sector_set mem cr3 virtual sector in
      (has_addr mem' cr3 virtual ≡ false) × (swap_sector_of mem' cr3 virtual ≡ some sector)
unfolding swap_sector_of swap_sector_set
swap_sector_of-swap_sector_set mem cr3 virtual sector small present apart = (
  absent,
  rw
      (
        absent,
        pde-written mem cr3 virtual w fits apart,
        present,
        pte-written mem cr3 virtual w fits apart,
      )
      (ap some (omega arith)),
)
  where
    w : ℕ
    w = sector * 2 ^ 3 % 2 ^ 32

    fits : w < 2 ^ 32
    fits = omega arith

    absent : has_addr (store32 mem (pte_of mem cr3 virtual) w) cr3 virtual ≡ false
    absent =
        has_addr-written mem cr3 virtual w fits apart present ∙ testbit-present w ∙ ground arith

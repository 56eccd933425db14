-- ===== src/Examples/Pages.antt =====
-- kernel/mm/v_memory.c at a directory with one page that is on the disk.
use weg_os.Base.{◌≡◌, refl, inr, arith, true, some, if◌then◌else◌, ◌==◌}
use weg_os.Base.Bytes.{load32, store32}
use weg_os.Bit.{testbit, testbits}
use weg_os.BitAllocation.{bit_alloc}
use weg_os.Disk.{Disk}
use weg_os.Memory.{
  Memory, p_malloc, table_of, ensure_table, set_mmap, load_memory, has_addr, addr_translate,
}
use weg_os.Memory.Mapping.{Apart, pde_of, pte_of}
use weg_os.Memory.Swap.{swap_sector_of}
use weg_os.Paging.{swap_in}
use weg_os.Paging.Page.{Outside, Filled, swap_in-Filled}

-- The directory at 0x2000 has a table at 0x3000 for the addresses from 0x400000 on; the first page is in
-- the sectors from 5 on. Frame 0 is free.
abbrev paged_out : Memory
paged_out = record {
  mem = λ i.
      if i == 0x2004 then 7 else (if i == 0x2005 then 0x30 else (if i == 0x3000 then 40 else 0));
  alloc_bitmap = record { bits = λ i. 0; size = 8 };
}

abbrev nines : Disk
nines s j = 9

frame_is : (p_malloc paged_out).0 ≡ 0
unfolding p_malloc bit_alloc testbit
frame_is = refl

found : swap_sector_of paged_out.mem 0x2000 0x400000 ≡ some 5
unfolding swap_sector_of has_addr table_of load32 testbit testbits
found = refl

apart :
    Apart
      (pte_of (ensure_table (p_malloc paged_out).1 0x2000 0x400000).1.mem 0x2000 0x400000)
      (pde_of 0x2000 0x400000)
unfolding ensure_table table_of load32 testbit testbits p_malloc
apart = inr (omega arith)

pde_out : Outside (p_malloc paged_out).0 (pde_of 0x2000 0x400000)
unfolding p_malloc bit_alloc testbit testbits
pde_out = inr (omega arith)

pte_out :
    Outside
      (p_malloc paged_out).0
      (pte_of (load_memory paged_out 0x2000 0x400000 3).1.mem 0x2000 0x400000)
unfolding p_malloc bit_alloc testbit testbits load_memory set_mmap ensure_table table_of load32
    store32
pte_out = inr (omega arith)

swap_in-Filled_example :
    (m' : Memory) × (swap_in paged_out nines 0x2000 0x400000 3 ≡ some m')
    × (has_addr m'.mem 0x2000 0x400000 ≡ true)
    × (addr_translate m'.mem 0x2000 0x400000 ≡ (p_malloc paged_out).0)
    × Filled 0 (load_memory paged_out 0x2000 0x400000 3).1.mem (p_malloc paged_out).0 nines 5 m'.mem
unfolding p_malloc bit_alloc testbit
swap_in-Filled_example =
    swap_in-Filled paged_out nines 0x2000 0x400000 3 5 (omega arith) (omega arith) (omega arith)
      refl found (omega arith) (omega arith) apart pde_out pte_out

-- ===== src/Examples/Frames.antt =====
-- kernel/mm/memory.c and kernel/mm/v_memory.c at concrete memories.
use weg_os.Base.{ℕ, ◌^◌, ◌<◌, ◌≡◌, inl, inr, refl, arith, Array, true}
use weg_os.Base.Bytes.{load32, store32}
use weg_os.Bit.{testbits, testbit}
use weg_os.BitAllocation.Search.{bit_at}
use weg_os.Memory.{Memory, p_malloc, table_of, ensure_table, set_mmap, has_addr, addr_translate}
use weg_os.Memory.Frames.{HasFrames, p_malloc-Malloced}
use weg_os.Memory.Mapping.{addr_translate-set_mmap}

abbrev zeros : Array ℕ
zeros i = 0

abbrev fresh : Memory
fresh = record { mem = zeros; alloc_bitmap = record { bits = zeros; size = 2 ^ 20 } }

-- A directory at 0x1000 whose entry 1 names a table at 0x2000.
abbrev tables : Array ℕ
tables = store32 zeros 0x1004 0x2007

abbrev mapped : Memory
mapped = record { mem = tables; alloc_bitmap = record { bits = zeros; size = 2 ^ 20 } }

fresh-HasFrames : HasFrames fresh
fresh-HasFrames = record { bytes = λ i. omega arith; full_size = refl }

fresh-low : (p_malloc fresh).0 < 2 ^ 31
unfolding bit_at testbit testbits
fresh-low = elim (p_malloc-Malloced fresh fresh-HasFrames).0 [
  | inl (full, all, kept) ↦ absurd (ground (arith, all 0 (omega arith)))
  | inr (aligned, bound, free, below, after) ↦ ground (arith, below 0)
]

addr_translate-set_mmap_example :
    let m' = (set_mmap mapped 0x1000 0x403123 0x9000 3).1 in
    (has_addr m'.mem 0x1000 0x403123 ≡ true) × (addr_translate m'.mem 0x1000 0x403123 ≡ 0x9123)
unfolding ensure_table testbit testbits table_of load32 store32
addr_translate-set_mmap_example =
    addr_translate-set_mmap mapped 0x1000 0x403123 0x9000 3 (omega arith) (omega arith)
      (omega arith) (omega arith) (inr (omega arith))

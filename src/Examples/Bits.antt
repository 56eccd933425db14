-- ===== src/Examples/Bits.antt =====
-- kernel/lib/bit.c and kernel/lib/bit_allocation.c at concrete words and tables.
use weg_os.Base.{ℕ, ◌≡◌, refl, arith, false, if◌then◌else◌, Array, ◌==◌}
use weg_os.Bit.{testbits}
use weg_os.BitAllocation.{Bitmap, bit_alloc}
use weg_os.BitAllocation.Search.{Allocated, bit_alloc-Allocated}

-- The first byte is full.
abbrev table : Array ℕ
table i = if i == 0 then 0xff else 5

abbrev bitmap : Bitmap
bitmap = record { bits = table; size = 24 }

testbits-field : testbits 0xabcd 4 12 ≡ 0xbc
unfolding testbits
testbits-field = refl

bit_alloc-Allocated_example :
    let (found, m') = bit_alloc bitmap false in
    Allocated 24 table false (found, m'.bits) × (m'.size ≡ 24)
bit_alloc-Allocated_example = bit_alloc-Allocated bitmap false (λ i. ground arith)

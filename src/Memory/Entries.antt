-- ===== src/Memory/Entries.antt =====
-- Page table entries as numbers: a frame's address with its flags in the low twelve bits.
use weg_os.Base.{ℕ, ◌+◌, ◌-◌, ◌*◌, ◌/◌, ◌%◌, ◌^◌, ◌<◌, ◌≡◌, ap, ◌∙◌, arith, bit_and, bit_or, ◌==◌}
use weg_os.Base.Digits.{bit_and_ones, bit_and_high, bit_or_fields}
use weg_os.Bit.{testbit}
use weg_os.Bit.Laws.{testbit-digit, testbits-div_mod}
use weg_os.Memory.{page_size, index_in_pde, index_in_pte}

-- `& 0xFFFFF000` clears the low twelve bits.
pub bit_and_frame : (x : ℕ) → x < 2 ^ 32 → bit_and x 0xfffff000 ≡ x / page_size * page_size
bit_and_frame x h =
    bit_and_high 12 x (2 ^ 20 - 1)
    ∙ ap (λ (t : ℕ). t * 2 ^ 12) (bit_and_ones 20 (x / 2 ^ 12) ∙ omega arith)

pub bit_or_flags :
    (physical flags : ℕ)
    → physical % page_size ≡ 0
    → flags < page_size
    → bit_or physical flags ≡ physical + flags
bit_or_flags physical flags aligned small =
    let whole : physical ≡ physical / page_size * 2 ^ 12 = omega arith in
    ap (λ (t : ℕ). bit_or t flags) whole
    ∙ bit_or_fields 12 (physical / page_size) flags small
    ∙ omega arith

-- The present bit of an entry is its lowest.
pub testbit-present : (x : ℕ) → testbit x 0 ≡ (x % 2 == 1)
testbit-present x = testbit-digit x 0 (omega arith)

pub index_in_pde-div_mod : (v : ℕ) → v < 2 ^ 32 → index_in_pde v ≡ v / 2 ^ 22
index_in_pde-div_mod v h = testbits-div_mod v 22 32 ∙ omega arith

pub index_in_pte-div_mod : (v : ℕ) → index_in_pte v ≡ v / 2 ^ 12 % 2 ^ 10
index_in_pte-div_mod v = testbits-div_mod v 12 22

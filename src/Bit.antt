-- ===== src/Bit.antt =====
-- kernel/lib/bit.c: single bits and bit fields of a 32-bit word.
-- A shift count lies in 0..31, as C asks for; every caller passes constants or indices below 32.
pub mod Laws
use weg_os.Base.{ℕ, ◌+◌, ◌-◌, ◌/◌, ◌%◌, ◌^◌, Bool, true, false, bit_and, bit_or, not, ◌==◌}

-- `(num >> start) & ((1 << (end - start)) - 1)`
unfoldable pub testbits : ℕ → ℕ → ℕ → ℕ
testbits num start end = bit_and (num / 2 ^ start) (2 ^ (end - start) - 1)

-- The second position is passed as a `uint8_t`, and the result becomes a `bool`.
unfoldable pub testbit : ℕ → ℕ → Bool
unfolding testbits
testbit num pos = not (testbits num pos ((pos + 1) % 2 ^ 8) == 0)

-- The new value of `*p_num`. `~` is taken over 32 bits.
unfoldable pub setbit : ℕ → ℕ → Bool → ℕ
setbit num index true = bit_or num (2 ^ index)
setbit num index false = bit_and num (2 ^ 32 - 1 - 2 ^ index)

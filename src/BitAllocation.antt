-- ===== src/BitAllocation.antt =====
-- kernel/lib/bit_allocation.c: a table of bits from which the lowest suitable one is taken.
-- `bits` is the array that the pointer leads to, with whatever memory lies behind its end, since
-- `setbit` is called on the 32-bit word at a byte's address. The result -1 is `none`.
pub mod Word
pub mod Search
use weg_os.Base.{
  ℕ, zero, suc, ◌+◌, ◌*◌, ◌/◌, ◌^◌, Bool, true, false, not, ◌&&◌, ◌||◌, bit_and, Option, none, some,
  ◌==◌, if◌then◌else◌, Array, ◌≡◌,
}
use weg_os.Base.Bytes.{load32, store32}
use weg_os.Bit.{testbit, setbit}

-- `bitmap_t`; `size` counts bits.
pub record Bitmap : Type 0 where
  pub bits : Array ℕ
  pub size : ℕ

-- `setbit((uint32_t *)&bits[i], j, value)`
pub set_in_word : Array ℕ → ℕ → ℕ → Bool → Array ℕ
set_in_word bits i j value = store32 bits i (setbit (load32 bits i) j value)

abbrev pub same : Bool → Bool → Bool
same true b = b
same false b = not b

-- The inner loop from bit j on, with so many rounds left.
pub find_bit : ℕ → ℕ → ℕ → Bool → Option ℕ
find_bit zero j byte want = none
find_bit (suc rounds) j byte want =
    let rest = find_bit rounds (j + 1) byte want in
    if same (testbit byte j) want then some j else rest

-- The test that skips a byte with no bit equal to `want`.
pub is_candidate : ℕ → Bool → Bool
is_candidate byte want = (want && not (byte == 0)) || (not want && not (byte == 0xff))

-- The outer loop from byte i on. A byte in which the inner loop finds nothing is passed over.
pub byte_loop : ℕ → ℕ → Array ℕ → Bool → Option ℕ × Array ℕ
byte_loop zero i bits want = (none, bits)
byte_loop (suc rounds) i bits want =
    let rest = byte_loop rounds (i + 1) bits want in
    if is_candidate (bits i) want
    then elim (find_bit 8 0 (bits i) want) [
      | some j ↦ (some (i * 8 + j), set_in_word bits i j (not want))
      | none ↦ rest
    ]
    else rest

unfoldable pub bit_alloc : Bitmap → Bool → Option ℕ × Bitmap
unfolding byte_loop find_bit is_candidate set_in_word
bit_alloc m want =
    let (found, bits) = byte_loop (m.size / 8) 0 m.bits want in (found, record m { bits = bits })

unfoldable pub bit_free : Bitmap → ℕ → Bool → Bitmap
unfolding set_in_word
bit_free m index want = record m {
  bits = set_in_word m.bits (index / 2 ^ 3) (bit_and index 7) want;
}

unfoldable pub bit_bind : Array ℕ → ℕ → Bitmap
bit_bind bits size = record { bits = bits; size = size }

-- ===== src/BitAllocation/Word.antt =====
-- `bit_alloc` and `bit_free` hand `setbit` the 32-bit word at the address of a byte. The word is
-- unaligned and may reach past the table, yet only the one bit of the one byte changes.
use weg_os.Base.{ℕ, ◌+◌, ◌/◌, ◌%◌, ◌^◌, ◌≤◌, ◌<◌, ◌≡◌, ◌∙◌, Bool, arith, Array, update, fun_ext}
use weg_os.Base.Digits.{digit, digit_ext, digit-mod, digit-div}
use weg_os.Base.Bytes.{load32, store32, IsBytes}
use weg_os.Bit.{setbit}
use weg_os.Bit.Laws.{digit-setbit, setbit-lt}
use weg_os.BitAllocation.{set_in_word}

digit-byte : (x m k : ℕ) → k < 8 → digit k (x / 2 ^ m % 2 ^ 8) ≡ digit (m + k) x
digit-byte x m k h = digit-mod 8 k (x / 2 ^ m) h ∙ digit-div m k x

low-byte_setbit : (w j : ℕ) (v : Bool) → j < 8 → setbit w j v % 2 ^ 8 ≡ setbit (w % 2 ^ 8) j v
low-byte_setbit w j v h = digit_ext 8 _ _ (omega arith) (setbit-lt 8 _ j v (omega arith) h) λ k hk.
    ground (
      arith,
      digit-mod 8 k (setbit w j v) hk,
      digit-mod 8 k w hk,
      digit-setbit w j k v (omega arith) (omega arith),
      digit-setbit (w % 2 ^ 8) j k v (omega arith) (omega arith),
    )

high-byte_setbit :
    (w j m : ℕ) (v : Bool)
    → j < 8
    → 8 ≤ m
    → m ≤ 24
    → setbit w j v / 2 ^ m % 2 ^ 8 ≡ w / 2 ^ m % 2 ^ 8
high-byte_setbit w j m v hj lo hi = digit_ext 8 _ _ (omega arith) (omega arith) λ k hk. ground (
  arith,
  digit-byte (setbit w j v) m k hk,
  digit-byte w m k hk,
  digit-setbit w j (m + k) v (omega arith) (omega arith),
)

-- Setting a bit of the low byte through the 32-bit word at its address changes that byte alone.
pub set_in_word-update :
    (bits : Array ℕ) (i j : ℕ) (v : Bool)
    → IsBytes bits
    → j < 8
    → set_in_word bits i j v ≡ update bits i (setbit (bits i) j v)
unfolding set_in_word store32
set_in_word-update bits i j v h hj = fun_ext λ n. ground (
  arith,
  low-byte_setbit (load32 bits i) j v hj,
  high-byte_setbit (load32 bits i) j 8 v hj,
  high-byte_setbit (load32 bits i) j 16 v hj,
  high-byte_setbit (load32 bits i) j 24 v hj,
  fields.0,
  fields.1,
  fields.2,
  fields.3,
)
  where
    fields :
        (load32 bits i % 2 ^ 8 ≡ bits i)
        × (load32 bits i / 2 ^ 8 % 2 ^ 8 ≡ bits (i + 1))
        × (load32 bits i / 2 ^ 16 % 2 ^ 8 ≡ bits (i + 2))
        × (load32 bits i / 2 ^ 24 % 2 ^ 8 ≡ bits (i + 3))
    fields = unfold load32 in omega (arith, h i, h (i + 1), h (i + 2), h (i + 3))

-- ===== src/Base/Flags.antt =====
-- Words in which one binary digit is set or cleared.
use Prim.Native.Nat.{ℕ, ◌-◌, ◌^◌, ◌<◌, bit_and, bit_or}
use mathlib.Core.Path.{◌≡◌}
use native.Mathlib.Omega.{arith}
use weg_os.Base.Digits.{
  digit, digit-lt, digit-bit_or, digit-bit_and, digit-pow, digit-complement, two-pow-lt,
}
use weg_os.Base.Tests.{◌==◌, if◌then◌else◌}

-- Setting and clearing one digit leaves the others.
pub digit-set : (x i j : ℕ) → digit j (bit_or x (2 ^ i)) ≡ (if i == j then 1 else digit j x)
digit-set x i j = ground (arith, digit-bit_or j x (2 ^ i), digit-pow i j, digit-lt j x)

pub digit-clear :
    (x i j : ℕ)
    → i < 32
    → j < 32
    → digit j (bit_and x (2 ^ 32 - 1 - 2 ^ i)) ≡ (if i == j then 0 else digit j x)
digit-clear x i j small width = ground (
  arith,
  digit-bit_and j x (2 ^ 32 - 1 - 2 ^ i),
  digit-complement 32 j (2 ^ i) (two-pow-lt small) width,
  digit-pow i j,
  digit-lt j x,
)

-- The word with one digit of it set or cleared.
abbrev pub HasDigit : ℕ → ℕ → ℕ → ℕ → ℕ → Type 0
HasDigit width i value x y = (j : ℕ) → j < width → digit j y ≡ (if i == j then value else digit j x)

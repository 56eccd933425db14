-- ===== src/Bit/Laws.antt =====
-- What kernel/lib/bit.c reads and writes.
use mathlib.Core.Path.{sym}
use weg_os.Base.{
  ℕ, ◌+◌, ◌-◌, ◌/◌, ◌%◌, ◌^◌, ◌<◌, ◌≡◌, ap, ◌∙◌, Bool, true, false, arith, ◌==◌, if◌then◌else◌,
}
use weg_os.Base.Digits.{
  digit, digit-lt, digit-bit_and, digit-bit_or, digit-pow, digit-complement, bit_and_ones,
  two-pow-lt, digit-div, bit_or-lt, bit_and-lt,
}
use weg_os.Bit.{testbits, testbit, setbit}

-- `testbits` reads the field of bits start .. end - 1 as a number.
pub testbits-div_mod :
    (num start end : ℕ) → testbits num start end ≡ num / 2 ^ start % 2 ^ (end - start)
unfolding testbits
testbits-div_mod num start end = bit_and_ones (end - start) (num / 2 ^ start)

digit-field : (i x : ℕ) → digit i x ≡ x / 2 ^ i % 2
digit-field i x =
    let same : i ≡ i + 0 = omega arith in ap (λ (k : ℕ). digit k x) same ∙ sym (digit-div i 0 x)

-- Below bit 255 `testbit` is the digit.
pub testbit-digit : (x i : ℕ) → i < 32 → testbit x i ≡ (digit i x == 1)
unfolding testbit
testbit-digit x i h =
    ground (arith, testbits-div_mod x i (i + 1), digit-field i x, digit-lt i x, width, wrap)
  where
    wrap : (i + 1) % 2 ^ 8 ≡ i + 1
    wrap = omega arith

    width : 2 ^ (i + 1 - i) ≡ 2
    width = let one : i + 1 - i ≡ 1 = omega arith in ap (λ (k : ℕ). 2 ^ k) one

pub digit-setbit :
    (x i j : ℕ) (v : Bool)
    → i < 32
    → j < 32
    → digit j (setbit x i v) ≡ (if i == j then (if v then 1 else 0) else digit j x)
unfolding setbit
digit-setbit x i j true hi hj = rw digit-bit_or (ground (arith, digit-pow i j, digit-lt j x))
digit-setbit x i j false hi hj =
    rw digit-bit_and
      (ground (arith, digit-complement 32 j (2 ^ i), digit-pow i j, digit-lt j x, two-pow-lt hi))

-- Writing bit i of a word by `setbit` and reading bit j by `testbit`: bit i holds the value written
-- and every other bit is as it was.
pub testbit-setbit :
    (x i j : ℕ) (v : Bool)
    → i < 32
    → j < 32
    → testbit (setbit x i v) j ≡ (if i == j then v else testbit x j)
testbit-setbit x i j v hi hj =
    ground (arith, testbit-digit (setbit x i v) j, testbit-digit x j, digit-setbit x i j v)

pub setbit-lt : (w x i : ℕ) (v : Bool) → x < 2 ^ w → i < w → setbit x i v < 2 ^ w
unfolding setbit
setbit-lt w x i true hx hi = bit_or-lt w x (2 ^ i) hx (two-pow-lt hi)
setbit-lt w x i false hx hi = bit_and-lt w x _ hx

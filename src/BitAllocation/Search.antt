-- ===== src/BitAllocation/Search.antt =====
-- The table of bits as a set: which bit `bit_alloc` takes, and what `bit_free` writes.
use weg_os.Base.{
  ℕ, zero, suc, ◌+◌, ◌*◌, ◌/◌, ◌%◌, ◌≤◌, ◌<◌, ◌≡◌, refl, ap, ◌∙◌, Bool, true, false, not, arith,
  ◌==◌, if◌then◌else◌, subst, Array, Bool-cases, Option-cases, from_here, inl, inr, Option, none,
  some,
}
use native.Mathlib.Decide.{dec_lt}
use weg_os.Base.Digits.{bit_and_ones}
use weg_os.Base.Bytes.{IsBytes, store32-IsBytes}
use weg_os.Bit.{testbit}
use weg_os.Bit.Laws.{testbit-setbit}
use weg_os.BitAllocation.{
  Bitmap, set_in_word, same, find_bit, is_candidate, byte_loop, bit_alloc, bit_free,
}
use weg_os.BitAllocation.Word.{set_in_word-update}

-- The value of the bit with index n.
unfoldable pub bit_at : Array ℕ → ℕ → Bool
bit_at bits n = testbit (bits (n / 8)) (n % 8)

pub bit_at-set_in_word :
    (bits : Array ℕ) (i j k : ℕ) (v : Bool)
    → IsBytes bits
    → j < 8
    → bit_at (set_in_word bits i j v) k ≡ (if i * 8 + j == k then v else bit_at bits k)
unfolding bit_at
bit_at-set_in_word bits i j k v h hj =
    rw (set_in_word-update bits i j v h hj)
      (ground (arith, testbit-setbit (bits i) j (k % 8) v (omega arith) (omega arith)))

pub set_in_word-IsBytes :
    (bits : Array ℕ) (i j : ℕ) (v : Bool) → IsBytes bits → IsBytes (set_in_word bits i j v)
unfolding set_in_word
set_in_word-IsBytes bits i j v h = store32-IsBytes bits i _ h

-- `bit_free` sets the bit with the given index to `want`, and leaves every other bit and the size.
pub bit_at-bit_free :
    (m : Bitmap) (index k : ℕ) (want : Bool)
    → IsBytes m.bits
    → (bit_at (bit_free m index want).bits k ≡ (if index == k then want else bit_at m.bits k))
      × ((bit_free m index want).size ≡ m.size)
unfolding bit_free
bit_at-bit_free m index k want h = (
  rw (bit_and_ones 3) (
      bit_at-set_in_word m.bits (index / 8) (index % 8) k want h (omega arith)
      ∙ ap (λ (i : ℕ). if i == k then want else bit_at m.bits k) (omega arith)),
  refl,
)

pub bit_free-IsBytes :
    (m : Bitmap) (index : ℕ) (want : Bool) → IsBytes m.bits → IsBytes (bit_free m index want).bits
unfolding bit_free
bit_free-IsBytes m index want h = set_in_word-IsBytes m.bits _ _ want h

-- What the inner loop returns: the first bit from j on that equals `want`, if there is one.
abbrev FirstBit : ℕ → ℕ → ℕ → Bool → Option ℕ → Type 0
FirstBit rounds j byte want none = (l : ℕ) → j ≤ l → l < j + rounds → testbit byte l ≡ not want
FirstBit rounds j byte want (some k) =
    (j ≤ k)
    × (k < j + rounds)
    × (testbit byte k ≡ want)
    × ((l : ℕ) → j ≤ l → l < k → testbit byte l ≡ not want)

FirstBit-later :
    (rounds j byte : ℕ) (want : Bool) (o : Option ℕ)
    → testbit byte j ≡ not want
    → FirstBit rounds (j + 1) byte want o
    → FirstBit (suc rounds) j byte want o
FirstBit-later rounds j byte want none now later =
    λ l lo hi. from_here (λ k. testbit byte k ≡ not want) j l now (λ h. later l h (omega arith)) lo
FirstBit-later rounds j byte want (some k) now (lo, hi, hit, before) = (
  omega arith,
  omega arith,
  hit,
  λ l p q. from_here (λ k. testbit byte k ≡ not want) j l now (λ h. before l h q) p,
)

find_bit-FirstBit :
    (rounds j byte : ℕ) (want : Bool) → FirstBit rounds j byte want (find_bit rounds j byte want)
unfolding find_bit
find_bit-FirstBit zero j byte want = λ l lo hi. absurd (omega arith)
find_bit-FirstBit (suc rounds) j byte want = elim (Bool-cases (same (testbit byte j) want)) [
  | inl hit ↦ rw hit (omega arith, omega arith, ground arith, λ l lo hi. absurd (omega arith))
  | inr miss ↦ rw miss (
      FirstBit-later rounds j byte want (find_bit rounds (j + 1) byte want) (ground arith)
        (find_bit-FirstBit rounds (j + 1) byte want))
]

-- A byte that the outer loop skips has no suitable bit.
find_bit-skipped :
    (byte : ℕ) (want : Bool) → is_candidate byte want ≡ false → find_bit 8 0 byte want ≡ none
unfolding is_candidate find_bit testbit
find_bit-skipped byte true h = let e : byte ≡ 0 = ground arith in rw e
find_bit-skipped byte false h = let e : byte ≡ 0xff = ground arith in rw e

-- What an allocation among the first `bound` bits does: either none of them equals `want` and the
-- table is unchanged, or the lowest that does is returned and turned, and no other bit changes.
abbrev pub Allocated : ℕ → Array ℕ → Bool → Option ℕ × Array ℕ → Type 0
Allocated bound bits want (none, bits') =
    (bits' ≡ bits) × ((k : ℕ) → k < bound → bit_at bits k ≡ not want)
Allocated bound bits want (some n, bits') =
    (n < bound)
    × (bit_at bits n ≡ want)
    × ((k : ℕ) → k < n → bit_at bits k ≡ not want)
    × ((k : ℕ) → bit_at bits' k ≡ (if n == k then not want else bit_at bits k))

-- The bits below byte i, and those of byte i below j.
extend_before :
    (bits : Array ℕ) (want : Bool) (i j : ℕ)
    → j ≤ 8
    → ((k : ℕ) → k < i * 8 → bit_at bits k ≡ not want)
    → ((l : ℕ) → 0 ≤ l → l < j → testbit (bits i) l ≡ not want)
    → (k : ℕ) → k < i * 8 + j
    → bit_at bits k ≡ not want
unfolding bit_at
extend_before bits want i j hj before byte k h = elim (dec_lt k (i * 8)) [
  | yes lt ↦ before k lt
  | no ge ↦ let here : k / 8 ≡ i = omega arith in rw here (byte (k % 8) (omega arith) (omega arith))
]

bit_at-in_byte : (bits : Array ℕ) (i j : ℕ) → j < 8 → bit_at bits (i * 8 + j) ≡ testbit (bits i) j
unfolding bit_at
bit_at-in_byte bits i j h =
    let quot : (i * 8 + j) / 8 ≡ i = omega arith in
    let rem : (i * 8 + j) % 8 ≡ j = omega arith in rw (quot, rem)

byte_loop-miss :
    (rounds i : ℕ) (bits : Array ℕ) (want : Bool)
    → find_bit 8 0 (bits i) want ≡ none
    → byte_loop (suc rounds) i bits want ≡ byte_loop rounds (i + 1) bits want
unfolding byte_loop
byte_loop-miss rounds i bits want e = ground arith

byte_loop-hit :
    (rounds i j : ℕ) (bits : Array ℕ) (want : Bool)
    → find_bit 8 0 (bits i) want ≡ some j
    → byte_loop (suc rounds) i bits want ≡ (some (i * 8 + j), set_in_word bits i j (not want))
unfolding byte_loop
byte_loop-hit rounds i j bits want e = ground (arith, find_bit-skipped (bits i) want)

byte_loop-Allocated :
    (rounds i : ℕ) (bits : Array ℕ) (want : Bool)
    → IsBytes bits
    → ((k : ℕ) → k < i * 8 → bit_at bits k ≡ not want)
    → (bound : ℕ) → bound ≡ (i + rounds) * 8
    → Allocated bound bits want (byte_loop rounds i bits want)
byte_loop-Allocated zero i bits want h before bound e =
    unfold byte_loop in (refl, λ k p. before k (omega arith))
byte_loop-Allocated (suc rounds) i bits want h before bound e =
    go (find_bit 8 0 (bits i) want) refl (byte_loop-Allocated rounds (i + 1) bits want h)
  where
    go :
        (o : Option ℕ)
        → find_bit 8 0 (bits i) want ≡ o
        → (((k : ℕ) → k < (i + 1) * 8 → bit_at bits k ≡ not want)
            → (b : ℕ) → b ≡ (i + 1 + rounds) * 8
            → Allocated b bits want (byte_loop rounds (i + 1) bits want))
        → Allocated bound bits want (byte_loop (suc rounds) i bits want)
    go none found next =
        let first : FirstBit 8 0 (bits i) want none =
          subst (FirstBit 8 0 (bits i) want) found (find_bit-FirstBit 8 0 (bits i) want) in
        rw (byte_loop-miss rounds i bits want found) (
          next (λ k p. extend_before bits want i 8 (omega arith) before first k (omega arith)) bound
            (omega arith))
    go (some j) found next =
        let first : FirstBit 8 0 (bits i) want (some j) =
          subst (FirstBit 8 0 (bits i) want) found (find_bit-FirstBit 8 0 (bits i) want) in
        rw (byte_loop-hit rounds i j bits want found) (
          omega (arith, first.1),
          rw (bit_at-in_byte bits i j first.1) first.2,
          extend_before bits want i j (omega (arith, first.1)) before first.3,
          λ k. bit_at-set_in_word bits i j k (not want) h first.1,
        )

-- `bit_alloc` among the first `size / 8` bytes of the table: if no bit there equals `want` it returns
-- -1 and changes nothing; otherwise it returns the lowest such index, turns that bit, and changes no
-- other. The size stays.
pub bit_alloc-Allocated :
    (m : Bitmap) (want : Bool)
    → IsBytes m.bits
    → let (found, m') = bit_alloc m want in
      Allocated (m.size / 8 * 8) m.bits want (found, m'.bits) × (m'.size ≡ m.size)
unfolding bit_alloc
bit_alloc-Allocated m want h = (
  byte_loop-Allocated (m.size / 8) 0 m.bits want h (λ k p. absurd (omega arith)) (m.size / 8 * 8)
      (omega arith),
  refl,
)

byte_loop-IsBytes :
    (rounds i : ℕ) (bits : Array ℕ) (want : Bool)
    → IsBytes bits
    → IsBytes (byte_loop rounds i bits want).1
byte_loop-IsBytes zero i bits want h = unfold byte_loop in h
byte_loop-IsBytes (suc rounds) i bits want h = elim (Option-cases (find_bit 8 0 (bits i) want)) [
  | inl e ↦ rw (byte_loop-miss rounds i bits want e) (byte_loop-IsBytes rounds (i + 1) bits want h)
  | inr (j, e) ↦
      rw (byte_loop-hit rounds i j bits want e) (set_in_word-IsBytes bits i j (not want) h)
]

pub bit_alloc-IsBytes :
    (m : Bitmap) (want : Bool) → IsBytes m.bits → IsBytes (bit_alloc m want).1.bits
unfolding bit_alloc
bit_alloc-IsBytes m want h = byte_loop-IsBytes (m.size / 8) 0 m.bits want h

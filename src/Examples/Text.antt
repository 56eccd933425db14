-- ===== src/Examples/Text.antt =====
-- kernel/lib/string.c at concrete strings and numbers.
use weg_os.Base.{
  ℕ, zero, suc, ◌+◌, ◌-◌, ◌^◌, ◌<◌, ◌≤◌, ◌≡◌, refl, arith, Array, some, List, [], ◌∷◌,
}
use weg_os.Strings.{itoa}
use weg_os.Strings.Chars.{Spells}
use weg_os.Strings.Negative.{itoa-negative}
use weg_os.Strings.Numbers.{value_of, IsDigitChar, itoa-value_of}

-- The bytes of a list with zeros behind it.
abbrev bytes : List ℕ → Array ℕ
bytes [] i = 0
bytes (c ∷ cs) zero = c
bytes (c ∷ cs) (suc i) = bytes cs i

-- `hi` and `ho`
abbrev hi : Array ℕ
hi = bytes (104 ∷ 105 ∷ [])

abbrev ho : Array ℕ
ho = bytes (104 ∷ 111 ∷ [])

abbrev zeros : Array ℕ
zeros i = 0

hi-Spells : Spells hi 0 (104 ∷ 105 ∷ [])
hi-Spells = (refl, (λ e. omega arith), (refl, (λ e. omega arith), refl))

ho-Spells : Spells ho 0 (104 ∷ 111 ∷ [])
ho-Spells = (refl, (λ e. omega arith), (refl, (λ e. omega arith), refl))

itoa-value_of_example :
    (n : ℕ) × (text' : Array ℕ) × (itoa zeros 1234 16 zeros ≡ some text')
    × (value_of 16 text' n ≡ 1234)
    × (text' n ≡ 0)
    × ((j : ℕ) → j < n → IsDigitChar (text' j))
    × (n ≤ 31)
    × ((j : ℕ) → n < j → text' j ≡ 0)
itoa-value_of_example =
    itoa-value_of zeros zeros 1234 16 (omega arith) (omega arith) (omega arith) (omega arith)

-- -1234 in hexadecimal.
itoa-negative_example :
    (n : ℕ) × (text' : Array ℕ) × (itoa zeros (2 ^ 32 - 1234) 16 zeros ≡ some text')
    × (text' 0 ≡ 45)
    × (value_of 16 (λ j. text' (j + 1)) n ≡ 1234)
    × (text' (n + 1) ≡ 0)
    × ((j : ℕ) → j < n → IsDigitChar (text' (j + 1)))
    × (n ≤ 31)
    × ((j : ℕ) → n + 1 < j → text' j ≡ 0)
itoa-negative_example =
    itoa-negative zeros zeros (2 ^ 32 - 1234) 16 (omega arith) (omega arith) (omega arith)
      (omega arith)

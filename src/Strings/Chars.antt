-- ===== src/Strings/Chars.antt =====
-- The string functions against the lists of characters that strings spell.
use weg_os.Base.{
  ℕ, zero, suc, ◌+◌, ◌^◌, ◌≤◌, ◌<◌, ◌≡◌, ◌≢◌, ◌↔◌, refl, ap, ◌∙◌, arith, ◌==◌, leb, ltb,
  if◌then◌else◌, Array, update, some, List, [], ◌∷◌, length, Bool-cases, inl, inr,
}
use weg_os.Strings.{strlen_loop, strlen, copy_bytes, strcpy, compare_loop, strcmp}

-- From byte i on the array spells the characters, with a 0 behind them.
abbrev pub Spells : Array ℕ → ℕ → List ℕ → Type 0
Spells text i [] = text i ≡ 0
Spells text i (c ∷ cs) = (text i ≡ c) × (c ≢ 0) × Spells text (i + 1) cs

strlen_loop-Spells :
    (rounds i : ℕ) (text : Array ℕ) (cs : List ℕ)
    → Spells text i cs
    → length cs < rounds
    → strlen_loop rounds text i ≡ some (i + length cs)
unfolding strlen_loop
strlen_loop-Spells zero i text cs s fuel = absurd (omega arith)
strlen_loop-Spells (suc rounds) i text [] s fuel = ground arith
strlen_loop-Spells (suc rounds) i text (c ∷ cs) (at, ne, rest) fuel =
    ground (arith, strlen_loop-Spells rounds (i + 1) text cs rest (omega arith))

pub strlen-Spells :
    (text : Array ℕ) (cs : List ℕ)
    → Spells text 0 cs
    → length cs < 2 ^ 31
    → strlen text ≡ some (length cs)
unfolding strlen
strlen-Spells text cs s small =
    strlen_loop-Spells (2 ^ 31) 0 text cs s small ∙ ap some (omega arith)

pub copy_bytes-bytes :
    (rounds i : ℕ) (dest src : Array ℕ) (j : ℕ)
    → copy_bytes rounds i dest src j
      ≡ (if leb i j then (if ltb j (i + rounds) then src j else dest j) else dest j)
unfolding copy_bytes
copy_bytes-bytes zero i dest src j = ground arith
copy_bytes-bytes (suc rounds) i dest src j =
    ground (arith, copy_bytes-bytes rounds (i + 1) (update dest i (src i)) src j)

pub Spells-same :
    (a b : Array ℕ) (i : ℕ) (cs : List ℕ)
    → Spells a i cs
    → ((j : ℕ) → i ≤ j → j ≤ i + length cs → b j ≡ a j)
    → Spells b i cs
Spells-same a b i [] s same = same i (omega arith) (omega arith) ∙ s
Spells-same a b i (c ∷ cs) (at, ne, rest) same = (
  same i (omega arith) (omega arith) ∙ at,
  ne,
  Spells-same a b (i + 1) cs rest (λ j lo hi. same j (omega arith) (omega arith)),
)

-- `strcpy` of a string of less than 2 ^ 31 characters returns; the destination then spells the same
-- characters, and no byte behind their end is written.
pub strcpy-Spells :
    (dest src : Array ℕ) (cs : List ℕ)
    → Spells src 0 cs
    → length cs < 2 ^ 31
    → (dest' : Array ℕ) × (strcpy dest src ≡ some dest')
      × Spells dest' 0 cs
      × ((j : ℕ) → length cs < j → dest' j ≡ dest j)
unfolding strcpy
strcpy-Spells dest src cs s small = (
  copy_bytes (length cs + 1) 0 dest src,
  rw (strlen-Spells src cs s small) refl,
  Spells-same src (copy_bytes (length cs + 1) 0 dest src) 0 cs s
      (λ j lo hi. ground (arith, copy_bytes-bytes (length cs + 1) 0 dest src j)),
  λ j far. ground (arith, copy_bytes-bytes (length cs + 1) 0 dest src j),
)

-- Two strings from the same place on.
compare_loop-Spells :
    (i : ℕ) (a b : Array ℕ) (cs ds : List ℕ)
    → Spells a i cs
    → Spells b i ds
    → length cs ≡ length ds
    → (compare_loop (length cs) i a b ≤ 1) × ((compare_loop (length cs) i a b ≡ 0) ↔ (cs ≡ ds))
unfolding compare_loop
compare_loop-Spells i a b [] [] s t e = (omega arith, ground arith)
compare_loop-Spells i a b [] (d ∷ ds) s t e = absurd (omega arith)
compare_loop-Spells i a b (c ∷ cs) [] s t e = absurd (omega arith)
compare_loop-Spells i a b (c ∷ cs) (d ∷ ds) (at, ne, s) (bt, nf, t) e =
    ground (arith, compare_loop-Spells (i + 1) a b cs ds s t (omega arith))

-- `strcmp` of two strings of less than 2 ^ 31 characters returns 0 if they spell the same characters,
-- and 1 if not.
pub strcmp-Spells :
    (str1 str2 : Array ℕ) (cs ds : List ℕ)
    → Spells str1 0 cs
    → Spells str2 0 ds
    → length cs < 2 ^ 31
    → length ds < 2 ^ 31
    → (r : ℕ) × (strcmp str1 str2 ≡ some r) × (r ≤ 1) × ((r ≡ 0) ↔ (cs ≡ ds))
unfolding strcmp
strcmp-Spells str1 str2 cs ds s t small1 small2 =
    rw (strlen-Spells str1 cs s small1, strlen-Spells str2 ds t small2)
      (elim (Bool-cases (length cs == length ds)) [
        | inl same ↦
            let (bound, spec) = compare_loop-Spells 0 str1 str2 cs ds s t (ground arith) in
            (compare_loop (length cs) 0 str1 str2, rw same refl, bound, spec)
        | inr differ ↦ (
          1,
          rw differ refl,
          omega arith,
          ((λ e. absurd (omega arith)), λ e. absurd (ground (arith, ap length e))),
        )
      ])

-- ===== src/Fs/Paths/Walk.antt =====
-- The loop of `load_file_cached` of kernel/fs/fs.c against the resolution of a list of names.
use weg_os.Base.{
  ltb-true, ℕ, zero, suc, ◌+◌, ◌^◌, ◌<◌, ◌≡◌, ◌≢◌, refl, sym, subst, ap, update_self, update_ne,
  ◌∙◌, arith, Array, update, some, List, [], ◌∷◌, ◌++◌, length, length-append, inl, inr, leb, ◌≤◌,
  if◌then◌else◌, ==_of_ne,
}
use weg_os.Disk.{Disk}
use weg_os.Fs.{File, FileResult, success, not_existing, dir_not_existing}
use weg_os.Fs.Paths.{Stack, path_loop, dir_search_file, files_size, file_name_maxlength}
use weg_os.Fs.Paths.Search.{entries, entry, entry_count, Names, dir_search_file-first}
use weg_os.Strings.Chars.{Spells}

-- A path: each name with a slash behind it. No name has a slash in it, and each fits into `temp`.
abbrev pub text : List (List ℕ) → List ℕ
text [] = []
text (name ∷ names) = name ++ (47 ∷ text names)

abbrev pub NoSlash : List ℕ → Type 0
NoSlash [] = Unit
NoSlash (c ∷ cs) = (c ≢ 47) × NoSlash cs

abbrev pub IsPath : List (List ℕ) → Type 0
IsPath [] = Unit
IsPath (name ∷ names) = NoSlash name × (length name < file_name_maxlength) × IsPath names

-- Which of the two results a missing name has, from the names that follow it.
abbrev pub missing_result : List (List ℕ) → FileResult
missing_result [] = not_existing
missing_result (name ∷ names) = dir_not_existing

-- From a directory, names lead to the first entry of each name in turn, as far as there is one.
pub data Resolves (stack : Stack) (disk : Disk)
    : File → ℕ → List (List ℕ) → FileResult × File × ℕ → Type 0 where
  reached : {dir : File} {index : ℕ} → Resolves stack disk dir index [] (success, dir, index)
  entered :
      {dir : File} {index i : ℕ} {names : ℕ → List ℕ} {rest : List (List ℕ)}
      {r : FileResult × File × ℕ}
      → Names (entry_count dir) (entries stack disk dir) names
      → i < entry_count dir
      → ((l : ℕ) → l < i → names l ≢ names i)
      → Resolves stack disk (entry stack disk dir i) i rest r
      → Resolves stack disk dir index (names i ∷ rest) r
  missing :
      {dir : File} {index : ℕ} {names : ℕ → List ℕ} {name : List ℕ} {rest : List (List ℕ)}
      → Names (entry_count dir) (entries stack disk dir) names
      → ((l : ℕ) → l < entry_count dir → names l ≢ name)
      → Resolves stack disk dir index (name ∷ rest) (missing_result rest, dir, index)

-- The entries of a directory, at most 512, have names of less than 2 ^ 31 characters, and so have those of its
-- entries, down to a depth.
abbrev pub Named : Stack → Disk → ℕ → File → Type 0
Named stack disk zero dir = Unit
Named stack disk (suc depth) dir =
    ((names : ℕ → List ℕ) × Names (entry_count dir) (entries stack disk dir) names)
    × (dir.file_size ≤ files_size)
    × ((i : ℕ) → i < entry_count dir → Named stack disk depth (entry stack disk dir i))

-- The buffer `temp` after some characters from position j on.
filled : Array ℕ → ℕ → List ℕ → Array ℕ
filled temp j [] = temp
filled temp j (c ∷ cs) = filled (update temp j c) (j + 1) cs

filled-before : (temp : Array ℕ) (j : ℕ) (cs : List ℕ) (k : ℕ) → k < j → filled temp j cs k ≡ temp k
unfolding filled
filled-before temp j [] k h = refl
filled-before temp j (c ∷ cs) k h =
    filled-before (update temp j c) (j + 1) cs k (omega arith) ∙ ground arith

module _ (stack : Stack) (disk : Disk) (path : Array ℕ) (len : ℕ) where
  path_loop-character :
      (rounds i j : ℕ) (temp : Array ℕ) (file : File) (index : ℕ)
      → j < file_name_maxlength
      → path i ≢ 47
      → path_loop stack disk path len (suc rounds) i j temp file index
        ≡ path_loop stack disk path len rounds (i + 1) (j + 1) (update temp j (path i)) file index
  unfolding path_loop
  path_loop-character rounds i j temp file index room ne =
      rw (ltb-true room, ==_of_ne (path i) 47 ne) refl

  path_loop-entered :
      (rounds i j : ℕ) (temp : Array ℕ) (file : File) (index : ℕ) (file' : File) (index' : ℕ)
      → j < file_name_maxlength
      → path i ≡ 47
      → dir_search_file stack disk file file (update temp j 0) index ≡ some (success, file', index')
      → path_loop stack disk path len (suc rounds) i j temp file index
        ≡ path_loop stack disk path len rounds (i + 1) 0 (update temp j 0) file' index'
  unfolding path_loop
  path_loop-entered rounds i j temp file index file' index' room slash found =
      rw (ltb-true room, slash, found) refl

  path_loop-missing :
      (rounds i j : ℕ) (temp : Array ℕ) (file : File) (index : ℕ) (file' : File) (index' : ℕ)
      → j < file_name_maxlength
      → path i ≡ 47
      → dir_search_file stack disk file file (update temp j 0) index
        ≡ some (not_existing, file', index')
      → path_loop stack disk path len (suc rounds) i j temp file index
        ≡ some (if leb len (i + 1) then not_existing else dir_not_existing, file', index')
  unfolding path_loop
  path_loop-missing rounds i j temp file index file' index' room slash found =
      rw (ltb-true room, slash, found) refl

  path_loop-same :
      {m m' i i' j j' : ℕ} (temp : Array ℕ) (file : File) (index : ℕ)
      → m ≡ m'
      → i ≡ i'
      → j ≡ j'
      → path_loop stack disk path len m i j temp file index
        ≡ path_loop stack disk path len m' i' j' temp file index
  path_loop-same {m} {m'} {i} {i'} {j} {j'} temp file index e d c =
      ap (λ (x : ℕ). path_loop stack disk path len x i j temp file index) e
      ∙ ap (λ (x : ℕ). path_loop stack disk path len m' x j temp file index) d
      ∙ ap (λ (x : ℕ). path_loop stack disk path len m' i' x temp file index) c

  -- The characters of a name go into the buffer.
  path_loop-name :
      (todo rest : List ℕ) (rounds i j : ℕ) (temp : Array ℕ) (file : File) (index : ℕ)
      → Spells path i (todo ++ (47 ∷ rest))
      → NoSlash todo
      → j + length todo < file_name_maxlength
      → path_loop stack disk path len (length todo + rounds) i j temp file index
        ≡ path_loop stack disk path len rounds
            (i + length todo)
            (j + length todo)
            (filled temp j todo)
            file
            index
  unfolding filled
  path_loop-name [] rest rounds i j temp file index s ok room =
      path_loop-same temp file index (omega arith) (omega arith) (omega arith)
  path_loop-name (c ∷ cs) rest rounds i j temp file index (at, ne, s) (no_slash, ok) room =
      path_loop-same temp file index (omega arith) refl refl
      ∙ path_loop-character (length cs + rounds) i j temp file index (omega arith)
          (λ e. no_slash (sym at ∙ e))
      ∙ ap
          (λ (x : ℕ).
            path_loop stack disk path len (length cs + rounds) (i + 1) (j + 1) (update temp j x)
              file index)
          at
      ∙ path_loop-name cs rest rounds (i + 1) (j + 1) (update temp j c) file index s ok
          (omega arith)
      ∙ path_loop-same (filled (update temp j c) (j + 1) cs) file index refl (omega arith)
          (omega arith)

-- The buffer spells the name, once a 0 is behind it.
filled-Spells :
    (temp path : Array ℕ) (i j n : ℕ) (cs rest : List ℕ)
    → Spells path i (cs ++ (47 ∷ rest))
    → n ≡ j + length cs
    → Spells (update (filled temp j cs) n 0) j cs
unfolding filled
filled-Spells temp path i j n [] rest s e = ground arith
filled-Spells temp path i j n (c ∷ cs) rest (at, ne, s) e = (
  update_ne (filled (update temp j c) (j + 1) cs) n j 0 (λ same. absurd (omega arith))
      ∙ filled-before (update temp j c) (j + 1) cs j (omega arith)
      ∙ update_self temp j c,
  ne,
  filled-Spells (update temp j c) path (i + 1) (j + 1) n cs rest s (omega arith),
)

pub Spells-rest :
    (path : Array ℕ) (i : ℕ) (cs rest : List ℕ)
    → Spells path i (cs ++ (47 ∷ rest))
    → (path (i + length cs) ≡ 47) × Spells path (i + length cs + 1) rest
Spells-rest path i [] rest (at, ne, s) =
    subst (λ (k : ℕ). (path k ≡ 47) × Spells path (k + 1) rest) (omega arith) (at, s)
Spells-rest path i (c ∷ cs) rest (at, ne, s) =
    subst (λ (k : ℕ). (path k ≡ 47) × Spells path (k + 1) rest) {x = i + 1 + length cs}
      (omega arith) (Spells-rest path (i + 1) cs rest s)

-- At the slash behind the last name, and only there, the path is at its end.
missing_result-end :
    (names : List (List ℕ)) (len i : ℕ)
    → len ≡ i + 1 + length (text names)
    → (if leb len (i + 1) then not_existing else dir_not_existing) ≡ missing_result names
missing_result-end [] len i e = ground arith
missing_result-end (name ∷ names) len i e = ground (arith, length-append name (47 ∷ text names))

-- The loop on a path whose names lie below a directory, with names in the directories that are reached:
-- it returns, and what it has as its result is what the names lead to, one after the other.
pub path_loop-Resolves :
    (stack : Stack) (disk : Disk) (path : Array ℕ) (len : ℕ) (names : List (List ℕ)) (i : ℕ)
    (temp : Array ℕ) (dir : File) (index : ℕ)
    → Spells path i (text names)
    → IsPath names
    → len ≡ i + length (text names)
    → len < 2 ^ 31
    → Named stack disk (length names) dir
    → (r : FileResult × File × ℕ) × (path_loop stack disk path len
          (length (text names))
          i
          0
          temp
          dir
          index
        ≡ some r)
      × Resolves stack disk dir index names r
unfolding path_loop
path_loop-Resolves stack disk path len [] i temp dir index s ok e short named =
    ((success, dir, index), refl, reached)
path_loop-Resolves stack disk path len (name ∷ rest) i temp dir index s (no_slash, fits, ok) e short
      ((names, all), size, below) =
    let parts = length-append name (47 ∷ text rest) in
    let (slash, s') = Spells-rest path i name (text rest) s in
    let temp' = filled temp 0 name in
    let buffer = update temp' (0 + length name) 0 in
    let at_slash =
      path_loop-same stack disk path len temp dir index (parts ∙ refl) refl refl
      ∙ path_loop-name stack disk path len name (text rest) (suc (length (text rest))) i 0 temp dir
          index s no_slash (omega arith) in
    elim (dir_search_file-first stack disk dir dir buffer index names name all
      (filled-Spells temp path i 0 (0 + length name) name (text rest) s refl) (omega arith) size) [
        | inl (k, bound, here, first, found) ↦
            let (r, run, resolves) =
              path_loop-Resolves stack disk path len rest (i + length name + 1) buffer
                (entry stack disk dir k) k s' ok (omega arith) short (below k bound) in
            (
              r,
              at_slash
                  ∙ path_loop-entered stack disk path len (length (text rest)) (i + length name)
                      (0 + length name) temp' dir index (entry stack disk dir k) k (omega arith)
                      slash found
                  ∙ run,
              subst (λ (n : List ℕ). Resolves stack disk dir index (n ∷ rest) r) here
                  (entered all bound (λ l h same. first l h (same ∙ here)) resolves),
            )
        | inr (absent, found) ↦ (
          (missing_result rest, dir, index),
          at_slash
              ∙ path_loop-missing stack disk path len (length (text rest)) (i + length name)
                  (0 + length name) temp' dir index dir index (omega arith) slash found
              ∙ ap (λ (r : FileResult). some (r, dir, index))
                  (missing_result-end rest len (i + length name) (omega arith)),
          missing all absent,
        )
      ]

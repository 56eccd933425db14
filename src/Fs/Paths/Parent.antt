-- ===== src/Fs/Paths/Parent.antt =====
-- `get_parent_dir_name` of kernel/lib/string.c on the paths of the file system.
use weg_os.Base.{
  ℕ, suc, ◌+◌, ◌-◌, ◌^◌, ◌≤◌, ◌<◌, ◌≡◌, ◌≢◌, refl, sym, subst, ap, ◌∙◌, arith, Array, update,
  update_self, some, List, [], ◌∷◌, ◌++◌, length, length-append, append_assoc, ==_of_ne,
}
use weg_os.Fs.Paths.Walk.{text, NoSlash, Spells-rest}
use weg_os.Strings.{strlen, last_slash, get_parent_dir_name, copy_bytes}
use weg_os.Strings.Chars.{Spells, strlen-Spells, copy_bytes-bytes}

last_slash-other :
    (path : Array ℕ) (i : ℕ) → path i ≢ 47 → last_slash (suc i) path ≡ last_slash i path
unfolding last_slash
last_slash-other path i ne = rw (==_of_ne (path i) 47 ne) refl

last_slash-here : (path : Array ℕ) (i : ℕ) → path i ≡ 47 → last_slash (suc i) path ≡ some i
unfolding last_slash
last_slash-here path i e = rw e refl

Spells-drop :
    (path : Array ℕ) (i n : ℕ) (cs rest : List ℕ)
    → Spells path i (cs ++ rest)
    → n ≡ i + length cs
    → Spells path n rest
Spells-drop path i n [] rest s e = subst (λ (k : ℕ). Spells path k rest) {x = i} (omega arith) s
Spells-drop path i n (c ∷ cs) rest (at, ne, s) e =
    Spells-drop path (i + 1) n cs rest s (omega arith)

last_slash-NoSlash :
    (path : Array ℕ) (base n : ℕ) (cs rest : List ℕ)
    → Spells path base (cs ++ rest)
    → NoSlash cs
    → n ≡ base + length cs
    → last_slash n path ≡ last_slash base path
last_slash-NoSlash path base n [] rest s ok e =
    ap (λ (x : ℕ). last_slash x path) {y = base} (omega arith)
last_slash-NoSlash path base n (c ∷ cs) rest (at, ne, s) (no_slash, ok) e =
    last_slash-NoSlash path (base + 1) n cs rest s ok (omega arith)
    ∙ ap (λ (x : ℕ). last_slash x path) {y = suc base} (omega arith)
    ∙ last_slash-other path base (λ e. no_slash (sym at ∙ e))

-- The part of a string before some position, copied with a 0 behind it.
Spells-cut :
    (a b : Array ℕ) (i n : ℕ) (cs rest : List ℕ)
    → Spells a i (cs ++ rest)
    → n ≡ i + length cs
    → ((k : ℕ) → i ≤ k → k < n → b k ≡ a k)
    → b n ≡ 0
    → Spells b i cs
Spells-cut a b i n [] rest s e same end = ap b {y = n} (omega arith) ∙ end
Spells-cut a b i n (c ∷ cs) rest (at, ne, s) e same end = (
  same i (omega arith) (omega arith) ∙ at,
  ne,
  Spells-cut a b (i + 1) n cs rest s (omega arith) (λ k lo hi. same k (omega arith) hi) end,
)

-- A path that is not empty ends with a slash.
text-end :
    (path : Array ℕ) (i n : ℕ) (name : List ℕ) (names : List (List ℕ)) (rest : List ℕ)
    → Spells path i (text (name ∷ names) ++ rest)
    → i + length (text (name ∷ names)) ≡ suc n
    → path n ≡ 47
text-end path i n name [] rest s e =
    let parts = length-append name (47 ∷ []) in
    let s' = subst (Spells path i) (append_assoc name (47 ∷ []) rest) s in
    ap path {y = i + length name} (omega arith) ∙ (Spells-rest path i name rest s').0
text-end path i n name (next ∷ names) rest s e =
    let parts = length-append name (47 ∷ text (next ∷ names)) in
    let s' = subst (Spells path i) (append_assoc name (47 ∷ text (next ∷ names)) rest) s in
    text-end path (i + length name + 1) n next names rest
      (Spells-rest path i name (text (next ∷ names) ++ rest) s').1 (omega arith)

parent_of :
    (path dest : Array ℕ) (names : List (List ℕ)) (rest : List ℕ) (n : ℕ)
    → Spells path 0 (text names ++ rest)
    → strlen path ≡ some n
    → 0 < n
    → last_slash (n - 1) path ≡ last_slash (length (text names)) path
    → (parent : Array ℕ) × (get_parent_dir_name path dest ≡ some parent)
      × Spells parent 0 (text names)
unfolding get_parent_dir_name last_slash
parent_of path dest [] rest n s e some_text slash =
    (update dest 0 0, rw (e, ==_of_ne n 0 (λ h. absurd (omega arith)), slash) refl, refl)
parent_of path dest (name ∷ names) rest n s e some_text slash =
    let m = length (text (name ∷ names)) - 1 in
    let parts = length-append name (47 ∷ text names) in
    let len : length (text (name ∷ names)) ≡ suc m = omega arith in
    let found : last_slash (length (text (name ∷ names))) path ≡ some m =
      ap (λ (x : ℕ). last_slash x path) len
      ∙ last_slash-here path m (text-end path 0 m name names rest s (omega arith)) in
    (
      update (copy_bytes (m + 1) 0 dest path) (m + 1) 0,
      rw (e, ==_of_ne n 0 (λ h. absurd (omega arith)), slash, found) refl,
      Spells-cut path (update (copy_bytes (m + 1) 0 dest path) (m + 1) 0) 0 (m + 1)
          (text (name ∷ names)) rest s (omega arith)
          (λ k lo hi. ground (arith, copy_bytes-bytes (m + 1) 0 dest path k))
          (update_self (copy_bytes (m + 1) 0 dest path) (m + 1) 0),
    )

-- The parent of a path of names and one more is the path of the names.
pub get_parent_dir_name-text :
    (path dest : Array ℕ) (names : List (List ℕ)) (name : List ℕ)
    → Spells path 0 (text names ++ (name ++ (47 ∷ [])))
    → NoSlash name
    → length (text names ++ (name ++ (47 ∷ []))) < 2 ^ 31
    → (parent : Array ℕ) × (get_parent_dir_name path dest ≡ some parent)
      × Spells parent 0 (text names)
get_parent_dir_name-text path dest names name s ok short =
    let parts = length-append (text names) (name ++ (47 ∷ [])) in
    let parts' = length-append name (47 ∷ []) in
    let whole = length (text names ++ (name ++ (47 ∷ []))) in
    parent_of path dest names (name ++ (47 ∷ [])) whole s
      (strlen-Spells path (text names ++ (name ++ (47 ∷ []))) s short) (omega arith)
      (last_slash-NoSlash path (length (text names)) (whole - 1) name (47 ∷ [])
        (Spells-drop path 0 (length (text names)) (text names) (name ++ (47 ∷ [])) s (omega arith))
        ok (omega arith))

-- ===== src/Fs/Paths/Load.antt =====
-- `load_file_cached` of kernel/fs/fs.c against the resolution of a path.
use weg_os.Base.{
  ℕ, ◌<◌, ◌≡◌, ◌≢◌, refl, sym, subst, ap, ◌∙◌, arith, Array, true, false, Option, some, List, [],
  ◌∷◌, ◌++◌, length, length-append, append_assoc, ◌⊎◌, inl, inr, ==_of_ne, ltb,
}
use weg_os.Disk.{Disk}
use weg_os.Fs.{
  File, FileCached, FileResult, success, not_existing, dir_not_existing, sector_with_root_fcb,
  file_at,
}
use weg_os.Fs.Paths.{
  Stack, file_path_maxlength, path_loop, load_file_cached, set_parent, open_at_start,
}
use weg_os.Fs.Paths.Parent.{get_parent_dir_name-text}
use weg_os.Fs.Paths.Walk.{
  text, NoSlash, IsPath, Named, Resolves, reached, entered, missing, missing_result,
  path_loop-Resolves,
}
use weg_os.Strings.{strlen}
use weg_os.Strings.Chars.{Spells, strlen-Spells, strcpy-Spells, strcmp-Spells}

abbrev pub root : Disk → File
root disk = file_at (disk sector_with_root_fcb) 0

text-append :
    (names : List (List ℕ)) (name : List ℕ)
    → text (names ++ (name ∷ [])) ≡ text names ++ (name ++ (47 ∷ []))
text-append [] name = refl
text-append (first ∷ names) name =
    ap (λ (cs : List ℕ). first ++ (47 ∷ cs)) (text-append names name)
    ∙ sym (append_assoc first (47 ∷ text names) (name ++ (47 ∷ [])))

IsPath-last : (names : List (List ℕ)) (name : List ℕ) → IsPath (names ++ (name ∷ [])) → NoSlash name
IsPath-last [] name (ok, _, _) = ok
IsPath-last (first ∷ names) name (_, _, rest) = IsPath-last names name rest

missing_result-cases :
    (names : List (List ℕ))
    → (missing_result names ≡ not_existing) ⊎ (missing_result names ≡ dir_not_existing)
missing_result-cases [] = inl refl
missing_result-cases (name ∷ names) = inr refl

Resolves-result :
    {stack : Stack} {disk : Disk} {dir : File} {index : ℕ} {names : List (List ℕ)}
    {r : FileResult × File × ℕ}
    → Resolves stack disk dir index names r
    → (r.0 ≡ success) ⊎ ((r.0 ≡ not_existing) ⊎ (r.0 ≡ dir_not_existing))
Resolves-result reached = inl refl
Resolves-result (entered all bound first rest) = Resolves-result rest
Resolves-result (missing {rest = rest} all absent) = inr (missing_result-cases rest)

set_parent-text :
    (stack : Stack) (path : Array ℕ) (f : FileCached) (names : List (List ℕ)) (name : List ℕ)
    → Spells path 0 (text names ++ (name ++ (47 ∷ [])))
    → NoSlash name
    → length (text names ++ (name ++ (47 ∷ []))) < file_path_maxlength
    → (parent : Array ℕ) × (set_parent stack path f
        ≡ some (record f { has_parent = true; parent_dir_name = parent }))
      × Spells parent 0 (text names)
unfolding set_parent
set_parent-text stack path f names name s ok short =
    let parts = length-append (text names) (name ++ (47 ∷ [])) in
    let parts' = length-append name (47 ∷ []) in
    let (order, e, _, same) =
      strcmp-Spells path (λ j. 0) (text names ++ (name ++ (47 ∷ []))) [] s refl (omega arith)
        (omega arith) in
    let not_empty : order ≢ 0 =
      λ zero_order. absurd (omega (arith, ap length (same.0 zero_order))) in
    let (dir_name, found, spelled) =
      get_parent_dir_name-text path stack.dir_name names name s ok (omega arith) in
    let (parent, copied, spelled', _) =
      strcpy-Spells f.parent_dir_name dir_name (text names) spelled (omega arith) in
    (
      parent,
      rw
          (
            e,
            ==_of_ne order 0 not_empty,
            found,
            strlen-Spells dir_name (text names) spelled (omega arith),
            copied,
            fits (omega arith),
          )
          refl,
      spelled',
    )
  where
    fits :
        length (text names) < file_path_maxlength
        → ltb (length (text names)) file_path_maxlength ≡ true
    fits h = ground arith

-- A path of names is spelled, and the directories on it have named entries.
abbrev pub IsGiven : Stack → Disk → Array ℕ → List (List ℕ) → Type 0
IsGiven stack disk path names =
    Spells path 0 (text names)
    × IsPath names
    × (length (text names) < file_path_maxlength)
    × Named stack disk (length names) (root disk)

-- What is left in `*p_file_cached` when the file is found, and when it is not.
abbrev pub opened : FileCached → FileResult × File × ℕ → Array ℕ → FileCached
opened f (_, file, index) parent = record f {
  file = file;
  read_seek = 0;
  write_seek = 0;
  read_sector = file.first_sector;
  write_sector = file.first_sector;
  parent_dir_name = parent;
  index_in_parent_dir = index;
  has_parent = true;
}

abbrev pub stopped : FileCached → FileResult × File × ℕ → FileCached
stopped f (_, file, index) = record f { file = file; index_in_parent_dir = index }

module _ (stack : Stack) (disk : Disk) (path : Array ℕ) (f : FileCached) (r : FileResult × File × ℕ)
    (n : ℕ) (len : strlen path ≡ some n)
    (run : path_loop stack disk path n n 0 0 stack.temp (root disk) f.index_in_parent_dir
      ≡ some r) where
  load_file_cached-found :
      (parent : Array ℕ)
      → r.0 ≡ success
      → set_parent stack path (open_at_start (stopped f r)) ≡ some (opened f r parent)
      → load_file_cached stack disk path f ≡ some (success, opened f r parent)
  unfolding load_file_cached
  load_file_cached-found parent e set = rw (len, run, e, set) refl

  load_file_cached-missing :
      (r.0 ≡ not_existing) ⊎ (r.0 ≡ dir_not_existing)
      → load_file_cached stack disk path f ≡ some (r.0, stopped f r)
  unfolding load_file_cached
  load_file_cached-missing (inl e) = rw (len, run, e) refl
  load_file_cached-missing (inr e) = rw (len, run, e) refl

-- The outcome of loading, from what the names lead to and the names of the parent.
abbrev pub Loaded :
    FileCached → FileResult × File × ℕ → List (List ℕ) → Option (FileResult × FileCached) → Type 0
Loaded f r names outcome =
    ((r.0 ≡ success)
      × ((parent : Array ℕ) × Spells parent 0 (text names)
          × (outcome ≡ some (success, opened f r parent))))
    ⊎ (((r.0 ≡ not_existing) ⊎ (r.0 ≡ dir_not_existing)) × (outcome ≡ some (r.0, stopped f r)))

-- A path of at least one name and less than 512 characters, whose names have less than 64, in a tree whose
-- directories have at most 512 entries, which have names, down to the length of the path:
-- `load_file_cached` returns; the result and the file are those that the names lead to from the root, one
-- after the other; and on success both positions are at the start of the file, and the path of the parent
-- is the path without its last name.
pub load_file_cached-Resolves :
    (stack : Stack) (disk : Disk) (path : Array ℕ) (f : FileCached) (names : List (List ℕ))
    (name : List ℕ)
    → IsGiven stack disk path (names ++ (name ∷ []))
    → (r : FileResult × File × ℕ) × Resolves stack disk
        (root disk)
        f.index_in_parent_dir
        (names ++ (name ∷ []))
        r
      × Loaded f r names (load_file_cached stack disk path f)
load_file_cached-Resolves stack disk path f names name (s, ok, short, named) =
    let whole = names ++ (name ∷ []) in
    let len = strlen-Spells path (text whole) s (omega arith) in
    let (r, run, resolves) =
      path_loop-Resolves stack disk path (length (text whole)) whole 0 stack.temp (root disk)
        f.index_in_parent_dir s ok (omega arith) (omega arith) named in
    let parts = text-append names name in
    let (parent, set, spelled) =
      set_parent-text stack path (open_at_start (stopped f r)) names name
        (subst (Spells path 0) parts s) (IsPath-last names name ok)
        (subst (λ (cs : List ℕ). length cs < file_path_maxlength) parts short) in
    (
      r,
      resolves,
      elim (Resolves-result resolves) [
        | inl e ↦ inl (
          e,
          (
            parent,
            spelled,
            load_file_cached-found stack disk path f r (length (text whole)) len run parent e set,
          ),
        )
        | inr e ↦
            inr (e, load_file_cached-missing stack disk path f r (length (text whole)) len run e)
      ],
    )

-- The empty path.
abbrev pub opened_root : Disk → FileCached → FileCached
opened_root disk f = record f {
  file = root disk;
  read_seek = 0;
  write_seek = 0;
  read_sector = (root disk).first_sector;
  write_sector = (root disk).first_sector;
  has_parent = false;
}

-- The empty path leads to the root, which has no parent; the path of the parent is left as it was.
pub load_file_cached-root :
    (stack : Stack) (disk : Disk) (path : Array ℕ) (f : FileCached)
    → Spells path 0 []
    → load_file_cached stack disk path f ≡ some (success, opened_root disk f)
unfolding load_file_cached set_parent path_loop
load_file_cached-root stack disk path f s =
    let (order, e, _, same) =
      strcmp-Spells path (λ j. 0) [] [] s refl (omega arith) (omega arith) in
    let zero_order : order ≡ 0 = same.1 refl in
    rw (strlen-Spells path [] s (omega arith), e, zero_order) refl

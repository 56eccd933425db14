-- ===== src/Fs/Paths/Search.antt =====
-- `dir_search_file` of kernel/fs/fs.c against the list of the names in a directory.
use weg_os.Base.{
  ℕ, zero, suc, ◌+◌, ◌*◌, ◌/◌, ◌^◌, ◌≤◌, ◌<◌, ◌≡◌, ◌≢◌, refl, ap, ◌∙◌, arith, Array, Option, none,
  some, List, length, ==_of_ne, ◌⊎◌, inl, inr,
}
use native.Mathlib.Decide.{ℕ_discrete}
use weg_os.Disk.{Disk}
use weg_os.Fs.{File, FileResult, success, not_existing, file_bytes, file_at}
use weg_os.Fs.Io.{read_all}
use weg_os.Fs.Io.Blocks.{file_byte, leb-true}
use weg_os.Fs.Io.Seeking.{read_all-file_byte}
use weg_os.Fs.Paths.{Stack, files_size, search_loop, dir_search_file}
use weg_os.Strings.Chars.{Spells, Spells-same, strcmp-Spells}

-- The entries of a directory, as `dir_search_file` reads them, and how many they are.
abbrev pub entries : Stack → Disk → File → Array ℕ
entries stack disk dir = read_all disk dir stack.files stack.file_cached

abbrev pub entry : Stack → Disk → File → ℕ → File
entry stack disk dir i = file_at (entries stack disk dir) (i * file_bytes)

abbrev pub entry_count : File → ℕ
entry_count dir = dir.file_size / file_bytes

-- The name in a buffer's i-th entry spells the i-th list.
abbrev pub Names : ℕ → Array ℕ → (ℕ → List ℕ) → Type 0
Names count files names =
    (i : ℕ)
    → i < count
    → Spells (file_at files (i * file_bytes)).file_name 0 (names i) × (length (names i) < 2 ^ 31)

-- A name on the disk, shorter than 64 bytes, is the name of the entry that is read.
pub entry-Spells :
    (stack : Stack) (disk : Disk) (dir : File) (i : ℕ) (name : List ℕ)
    → i * file_bytes + file_bytes ≤ dir.file_size
    → length name < 64
    → Spells (λ j. file_byte disk dir.first_sector (i * file_bytes + j)) 0 name
    → Spells (entry stack disk dir i).file_name 0 name
unfolding file_at
entry-Spells stack disk dir i name inside short s =
    Spells-same (λ j. file_byte disk dir.first_sector (i * file_bytes + j))
      (entry stack disk dir i).file_name 0 name s
      (λ j lo hi.
        read_all-file_byte disk dir stack.files stack.file_cached (i * file_bytes + j)
          (omega arith))

-- The first index from i on, and below a bound, with a name.
abbrev pub FirstNamed : ℕ → ℕ → (ℕ → List ℕ) → List ℕ → Option ℕ → Type 0
FirstNamed i bound names name (some k) =
    (i ≤ k) × (k < bound) × (names k ≡ name) × ((l : ℕ) → i ≤ l → l < k → names l ≢ name)
FirstNamed i bound names name none = (l : ℕ) → i ≤ l → l < bound → names l ≢ name

not_before :
    (i l : ℕ) (names : ℕ → List ℕ) (name : List ℕ)
    → names i ≢ name
    → (i + 1 ≤ l → names l ≢ name)
    → i ≤ l
    → names l ≢ name
not_before i l names name ne later h = elim (ℕ_discrete i l) [
  | yes same ↦ λ e. ne (ap names same ∙ e)
  | no other ↦ later (omega arith)
]

FirstNamed-skip :
    (i rounds : ℕ) (names : ℕ → List ℕ) (name : List ℕ) (found : Option ℕ)
    → names i ≢ name
    → FirstNamed (i + 1) (i + 1 + rounds) names name found
    → FirstNamed i (i + suc rounds) names name found
FirstNamed-skip i rounds names name none ne rest =
    λ l lo hi. not_before i l names name ne (λ h. rest l h (omega arith)) lo
FirstNamed-skip i rounds names name (some k) ne (low, high, here, before) = (
  omega arith,
  omega arith,
  here,
  λ l lo hi. not_before i l names name ne (λ h. before l h hi) lo,
)

search_loop-FirstNamed :
    (rounds i : ℕ) (files : Array ℕ) (file_name : Array ℕ) (names : ℕ → List ℕ) (name : List ℕ)
    → Names (i + rounds) files names
    → Spells file_name 0 name
    → length name < 2 ^ 31
    → (found : Option ℕ) × (search_loop rounds files i file_name ≡ some found)
      × FirstNamed i (i + rounds) names name found
unfolding search_loop
search_loop-FirstNamed zero i files file_name names name all s small =
    (none, refl, λ l lo hi. absurd (omega arith))
search_loop-FirstNamed (suc rounds) i files file_name names name all s small =
    let (spelled, short) = all i (omega arith) in
    let (order, e, bound, same) =
      strcmp-Spells (file_at files (i * file_bytes)).file_name file_name (names i) name spelled s
        short small in
    let (found, loop, first) =
      search_loop-FirstNamed rounds (i + 1) files file_name names name (λ l h. all l (omega arith))
        s small in
    elim (ℕ_discrete order 0) [
      | yes equal ↦ (
        some i,
        rw (e, equal) refl,
        (omega arith, omega arith, same.0 equal, λ l lo hi. absurd (omega arith)),
      )
      | no other ↦ (
        found,
        rw (e, ==_of_ne order 0 other) loop,
        FirstNamed-skip i rounds names name found (λ h. other (same.1 h)) first,
      )
    ]

-- The outcome of a search for a name, in a directory whose entries have the given names.
abbrev pub FirstFound :
    Stack → Disk → File → File → ℕ → (ℕ → List ℕ) → List ℕ → Option (FileResult × File × ℕ) → Type 0
FirstFound stack disk dir target index names name outcome =
    ((i : ℕ) × (i < entry_count dir)
      × (names i ≡ name)
      × ((l : ℕ) → l < i → names l ≢ name)
      × (outcome ≡ some (success, entry stack disk dir i, i)))
    ⊎ (((l : ℕ) → l < entry_count dir → names l ≢ name)
        × (outcome ≡ some (not_existing, target, index)))

-- In a directory of at most 512 entries whose entries have names of less than 2 ^ 31 characters, the search for such a name
-- returns: either with success, the first entry of that name and its index, or, exactly if no entry has
-- the name, with the result for a missing file, and then `*p_target` and `*p_index` are left as they were.
pub dir_search_file-first :
    (stack : Stack) (disk : Disk) (dir target : File) (file_name : Array ℕ) (index : ℕ)
    (names : ℕ → List ℕ) (name : List ℕ)
    → Names (entry_count dir) (entries stack disk dir) names
    → Spells file_name 0 name
    → length name < 2 ^ 31
    → dir.file_size ≤ files_size
    → FirstFound stack disk dir target index names name
        (dir_search_file stack disk dir target file_name index)
unfolding dir_search_file
dir_search_file-first stack disk dir target file_name index names name all s small fits =
    let (found, e, first) =
      search_loop-FirstNamed (entry_count dir) 0 (entries stack disk dir) file_name names name
        (λ l h. all l (omega arith)) s small in
    outcome found e first
  where
    outcome :
        (found : Option ℕ)
        → search_loop (entry_count dir) (entries stack disk dir) 0 file_name ≡ some found
        → FirstNamed 0 (0 + entry_count dir) names name found
        → FirstFound stack disk dir target index names name
            (dir_search_file stack disk dir target file_name index)
    outcome (some i) e (low, high, here, before) =
        inl (i, omega arith, here, λ l h. before l (omega arith) h, rw (e, leb-true fits) refl)
    outcome none e absent =
        inr (λ l h. absent l (omega arith) (omega arith), rw (e, leb-true fits) refl)

-- ===== src/Fs/Paths.antt =====
-- kernel/fs/fs.c: finding a file by its path, and writing its entry back.
-- What the stack holds before the code writes to it is a parameter: the buffers of a call. `none` is a
-- string function that is not done within its fuel, as in `Strings`, or a call that goes on behind the end
-- of one of its buffers, which the source does not notice.
pub mod Entries
pub mod Load
pub mod Parent
pub mod Search
pub mod Walk
use weg_os.Base.{
  ℕ, zero, suc, ◌+◌, ◌*◌, ◌/◌, Bool, true, false, Option, none, some, ◌>>=◌, ◌==◌, leb, ltb,
  if◌then◌else◌, Array, update,
}
use weg_os.Disk.{Disk, memcpy}
use weg_os.Fs.{
  File, FileCached, FileResult, success, not_existing, dir_not_existing, sector_with_root_fcb,
  file_bytes, file_to_bytes, file_at,
}
use weg_os.Fs.Io.{read_all, sys_wseek, covering_write}
use weg_os.Strings.{strlen, strcmp, strcpy, get_parent_dir_name}

-- The buffers of the calls: the entries of a directory, the file that is read, the name that is
-- collected, the path of the parent, and a sector.
pub record Stack : Type 0 where
  pub files : Array ℕ
  pub file_cached : FileCached
  pub temp : Array ℕ
  pub dir_name : Array ℕ
  pub sector : Array ℕ
  pub parent_dir : FileCached

-- The loop of `dir_search_file` over the entries from the i-th on.
pub search_loop : ℕ → Array ℕ → ℕ → Array ℕ → Option (Option ℕ)
search_loop zero files i file_name = some none
search_loop (suc entries) files i file_name =
    let rest = search_loop entries files (i + 1) file_name in
    strcmp (file_at files (i * file_bytes)).file_name file_name >>= λ order.
    if order == 0 then some (some i) else rest

-- `sizeof(files)`, room for 512 entries.
abbrev pub files_size : ℕ
files_size = 512 * file_bytes

abbrev pub file_name_maxlength : ℕ
file_name_maxlength = 64

abbrev pub file_path_maxlength : ℕ
file_path_maxlength = 512

-- The result, `*p_target` and `*p_index`. A directory that is larger than `files` overflows it.
unfoldable pub dir_search_file :
    Stack → Disk → File → File → Array ℕ → ℕ → Option (FileResult × File × ℕ)
dir_search_file stack disk dir target file_name index =
    let files = read_all disk dir stack.files stack.file_cached in
    let outcome = search_loop (dir.file_size / file_bytes) files 0 file_name >>= λ found.
    elim found [
      | some i ↦ some (success, file_at files (i * file_bytes), i)
      | none ↦ some (not_existing, target, index)
    ] in
    if leb dir.file_size files_size then outcome else none

-- The loop of `load_file_cached` from character i on, with the name that is collected in `temp`, so far
-- of j characters, and the file that is reached. `temp` has 64 bytes, each of which is written before the next.
unfoldable pub path_loop :
    Stack → Disk → Array ℕ → ℕ → ℕ → ℕ → ℕ → Array ℕ → File → ℕ → Option (FileResult × File × ℕ)
path_loop stack disk path length zero i j temp file index = some (success, file, index)
path_loop stack disk path length (suc rounds) i j temp file index =
    let character =
      path_loop stack disk path length rounds (i + 1) (j + 1) (update temp j (path i)) file index in
    if ltb j file_name_maxlength
    then (if path i == 47
        then (dir_search_file stack disk file file (update temp j 0) index
            >>= λ (result, file', index'). elim result [
              | not_existing ↦
                  some
                    (if leb length (i + 1) then not_existing else dir_not_existing, file', index')
              | _ ↦ path_loop stack disk path length rounds (i + 1) 0 (update temp j 0) file' index'
            ])
        else character)
    else none

-- The end of `load_file_cached`, when the file is found: the positions, and the path of the parent.
abbrev pub open_at_start : FileCached → FileCached
open_at_start f = record f {
  read_sector = f.file.first_sector;
  write_sector = f.file.first_sector;
  read_seek = 0;
  write_seek = 0;
}

-- Both buffers for the path of the parent have 512 bytes, the end of the string included.
unfoldable pub set_parent : Stack → Array ℕ → FileCached → Option FileCached
set_parent stack path f = do
  order ← strcmp path (λ j. 0)
  if order == 0 then some (record f { has_parent = false }) else (do
    dir_name ← get_parent_dir_name path stack.dir_name
    characters ← strlen dir_name
    parent_dir_name ← strcpy f.parent_dir_name dir_name
    let parent = record f { has_parent = true; parent_dir_name = parent_dir_name }
    if ltb characters file_path_maxlength then some parent else none)

-- `load_file_cached`: the result and `*p_file_cached`.
unfoldable pub load_file_cached :
    Stack → Disk → Array ℕ → FileCached → Option (FileResult × FileCached)
load_file_cached stack disk path f = do
  length ← strlen path
  (result, file, index) ←
      path_loop stack disk path length length 0 0 stack.temp (file_at (disk sector_with_root_fcb) 0)
        f.index_in_parent_dir
  elim result [
    | success ↦ do
      f' ←
          set_parent stack path
            (open_at_start (record f { file = file; index_in_parent_dir = index }))
      some (success, f')
    | failure ↦ some (failure, record f { file = file; index_in_parent_dir = index })
  ]

-- `store_file_cached`: the entry of the file in its directory, or the sector of the root.
unfoldable pub store_file_cached : Stack → Disk → FileCached → Option Disk
store_file_cached stack disk f = do
  (result, parent_dir) ← load_file_cached stack disk f.parent_dir_name stack.parent_dir
  elim result [
    | success ↦
        if f.has_parent
        then some
            (covering_write disk
              ((sys_wseek disk parent_dir (file_bytes * f.index_in_parent_dir)).1)
              (file_to_bytes f.file) file_bytes).0
        else some (
            update disk sector_with_root_fcb
              (memcpy file_bytes 0 stack.sector 0 (file_to_bytes f.file) 0))
    | _ ↦ some disk
  ]

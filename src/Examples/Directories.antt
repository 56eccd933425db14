-- ===== src/Examples/Directories.antt =====
-- kernel/fs/fs.c at a disk with one entry, "usr", in its root directory.
use weg_os.Base.{
  ◌%◌, ◌⊎◌, inr, ◌*◌, ◌/◌, ◌<◌, ◌≤◌, ◌+◌, ℕ, zero, suc, ◌≡◌, ◌≢◌, refl, arith, Array, true, some,
  List, [], ◌∷◌, ◌==◌, if◌then◌else◌,
}
use weg_os.Base.Bytes.{load32, store32}
use weg_os.Disk.{Disk}
use weg_os.Execve.{sys_execve, sys_execve-file_byte}
use weg_os.Task.{Kernel, Image}
use weg_os.Examples.Kernels.{three_tasks}
use weg_os.Fs.{File, FileCached, FileResult, FileSystem, file_at, file_to_bytes}
use weg_os.Fs.Bytes.{IsStorable}
use weg_os.Fs.Files.{string, sys_write}
use weg_os.Fs.Files.Whole.{InRoot, Wrote, sys_write-Wrote}
use weg_os.Fs.Io.{seek_loop}
use weg_os.Fs.Io.Blocks.{file_byte}
use weg_os.Fs.Io.Put.{IsChain}
use weg_os.Fs.Paths.{Stack, dir_search_file, load_file_cached, store_file_cached}
use weg_os.Fs.Paths.Entries.{Stored, store_file_cached-entry}
use weg_os.Fs.Paths.Load.{
  root, opened_root, load_file_cached-root, Loaded, load_file_cached-Resolves,
}
use weg_os.Fs.Paths.Search.{
  entries, entry, entry_count, entry-Spells, Names, FirstFound, dir_search_file-first,
}
use weg_os.Fs.Paths.Walk.{NoSlash, Resolves}
use weg_os.Strings.Chars.{Spells}

abbrev pub blank : Array ℕ
blank j = 0

-- "usr", and the path "usr/".
abbrev usr : List ℕ
usr = 117 ∷ 115 ∷ 114 ∷ []

abbrev usr_path : Array ℕ
usr_path = string (117 ∷ 115 ∷ 114 ∷ 47 ∷ [])

abbrev pub root_file : File
root_file = record {
  file_name = blank;
  first_sector = 1025;
  last_sector = 1025;
  sector_count = 1;
  file_size = 84;
  file_type = 1;
}

abbrev pub usr_file : File
usr_file = record {
  file_name = string usr;
  first_sector = 1026;
  last_sector = 1026;
  sector_count = 1;
  file_size = 0;
  file_type = 0;
}

abbrev dir_disk : Disk
dir_disk s =
    if s == 1024
    then file_to_bytes root_file
    else (if s == 1025 then file_to_bytes usr_file else blank)

abbrev dir_system : FileSystem
dir_system = record { disk = dir_disk; alloc_bitmap = record { bits = blank; size = 8 } }

abbrev pub closed : FileCached
closed = record {
  file = usr_file;
  read_seek = 0;
  write_seek = 0;
  read_sector = 1026;
  write_sector = 1026;
  parent_dir_name = blank;
  index_in_parent_dir = 0;
  has_parent = true;
}

abbrev pub stack : Stack
stack = record {
  files = blank;
  file_cached = closed;
  temp = blank;
  dir_name = blank;
  sector = blank;
  parent_dir = closed;
}

usr_on_disk : Spells (entry stack dir_disk (root dir_disk) 0).file_name 0 usr
unfolding seek_loop file_at file_to_bytes load32 store32 string
usr_on_disk =
    entry-Spells stack dir_disk (root dir_disk) 0 usr (omega arith) (omega arith)
      (refl, λ e. omega arith, (refl, λ e. omega arith, (refl, λ e. omega arith, refl)))

root-Names : Names (entry_count (root dir_disk)) (entries stack dir_disk (root dir_disk)) (λ i. usr)
unfolding file_at file_to_bytes load32 store32
root-Names zero h = (usr_on_disk, omega arith)
root-Names (suc i) h = absurd (omega arith)

usr-Spells : Spells (string usr) 0 usr
unfolding string
usr-Spells = (refl, λ e. omega arith, (refl, λ e. omega arith, (refl, λ e. omega arith, refl)))

usr_path-Spells : Spells usr_path 0 (117 ∷ 115 ∷ 114 ∷ 47 ∷ [])
unfolding string
usr_path-Spells = (
  refl,
  λ e. omega arith,
  (refl, λ e. omega arith, (refl, λ e. omega arith, (refl, λ e. omega arith, refl))),
)

dir_search_file-first_example :
    FirstFound stack dir_disk
      (root dir_disk)
      (root dir_disk)
      0
      (λ i. usr)
      usr
      (dir_search_file stack dir_disk (root dir_disk) (root dir_disk) (string usr) 0)
unfolding file_at file_to_bytes load32 store32
dir_search_file-first_example =
    dir_search_file-first stack dir_disk (root dir_disk) (root dir_disk) (string usr) 0 (λ i. usr)
      usr root-Names usr-Spells (omega arith) (omega arith)

usr-NoSlash : NoSlash usr
usr-NoSlash = (λ e. omega arith, (λ e. omega arith, (λ e. omega arith, tt)))

load_file_cached-Resolves_example :
    (r : FileResult × File × ℕ) × Resolves stack dir_disk (root dir_disk) 0 (usr ∷ []) r
    × Loaded closed r [] (load_file_cached stack dir_disk usr_path closed)
unfolding file_at file_to_bytes load32 store32
load_file_cached-Resolves_example =
    load_file_cached-Resolves stack dir_disk usr_path closed [] usr (
      usr_path-Spells,
      (usr-NoSlash, omega arith, tt),
      omega arith,
      (((λ i. usr), root-Names), omega arith, λ i h. tt),
    )

-- The root directory, as `store_file_cached` opens it.
abbrev root_opened : FileCached
root_opened = opened_root dir_disk closed

dir_disk-IsChain : IsChain 1 dir_disk (root dir_disk).first_sector
dir_disk-IsChain i j h k e = omega arith

closed-IsStorable : IsStorable usr_file
closed-IsStorable = (omega arith, omega arith, omega arith, omega arith, omega arith)

store_file_cached-entry_example :
    (disk' : Disk) × (store_file_cached stack dir_disk closed ≡ some disk')
    × Stored stack dir_disk closed root_opened disk'
unfolding file_at file_to_bytes load32 store32
store_file_cached-entry_example =
    store_file_cached-entry 1 stack dir_disk closed root_opened
      (load_file_cached-root stack dir_disk blank closed refl) refl closed-IsStorable
      dir_disk-IsChain (omega arith) (omega arith) (omega arith)

closed-InRoot : InRoot 1 1 dir_disk (root dir_disk) closed
unfolding seek_loop file_at file_to_bytes load32 store32
closed-InRoot = (
  refl,
  λ i h e. outside i h e,
  refl,
  (refl, dir_disk-IsChain, omega arith, omega arith, λ i j in_i in_j e. apart i j in_i in_j e),
)
  where
    outside : (i : ℕ) → i < 1 → 1024 ≢ seek_loop i dir_disk 1026
    outside zero h e = omega arith
    outside (suc i) h e = omega arith

    apart :
        (i j : ℕ)
        → i < 1
        → j < 1
        → seek_loop i dir_disk 1026 ≢ seek_loop j dir_disk (root dir_disk).first_sector
    apart zero zero h k e = omega arith
    apart (suc i) j h k e = omega arith
    apart zero (suc j) h k e = omega arith

sys_write-Wrote_example :
    (fs' : FileSystem) × (f' : FileCached) × (sys_write stack blank dir_system closed (λ j. 7) 20
      ≡ some (fs', f'))
    × (fs'.alloc_bitmap ≡ dir_system.alloc_bitmap)
    × Wrote stack dir_disk closed (root dir_disk) (λ j. 7) 20 (fs'.disk, f')
unfolding seek_loop file_at file_to_bytes load32 store32
sys_write-Wrote_example =
    sys_write-Wrote 1 1 stack blank dir_system closed (λ j. 7) 20 refl (λ i j h k e. omega arith)
      (omega arith) (omega arith) (omega arith)
      (omega arith, omega arith, omega arith, omega arith, omega arith) closed-InRoot (omega arith)
      (omega arith, inr (omega arith, omega arith)) (omega arith) (omega arith)

abbrev loaded_image : Image
loaded_image = record { tss_address = λ pid. pid * 128; kernel_pd = 0x100000 }

sys_execve-file_byte_example :
    (k' : Kernel) × (disk' : Disk) × (sys_execve stack blank closed loaded_image three_tasks
        dir_disk 1030 blank
      ≡ some (k', disk', 1038))
    × ((j : ℕ)
        → j < (root dir_disk).file_size
        → disk' (1030 + j / 512) (j % 512) ≡ file_byte dir_disk (root dir_disk).first_sector j)
    × ((s j : ℕ) → (s < 1030) ⊎ (1038 ≤ s) → j < 512 → disk' s j ≡ dir_disk s j)
unfolding file_at file_to_bytes load32 store32
sys_execve-file_byte_example =
    sys_execve-file_byte stack blank closed root_opened loaded_image three_tasks dir_disk 1030 blank
      (load_file_cached-root stack dir_disk blank closed refl) (omega arith) (omega arith)

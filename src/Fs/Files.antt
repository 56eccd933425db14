-- ===== src/Fs/Files.antt =====
-- kernel/fs/fs.c and `fs_test` of kernel/init/main.c: creating files, making them longer, and writing into
-- them; the state of a new disk. As in `Paths`, what a buffer holds before the code writes to it is a
-- parameter, and `none` is a string function that is not done within its fuel, or a buffer that overflows.
-- `file_alloc` has no `return`; its result is taken to be that of `bit_alloc`, with -1 as a 32-bit number.
-- The lines that `sys_write` prints for debugging are left out.
pub mod Chain
pub mod Expanding
pub mod Growing
pub mod Init
pub mod Longer
pub mod Insert
pub mod Storing
pub mod Whole
use weg_os.Base.{
  ℕ, zero, suc, ◌+◌, ◌-◌, ◌*◌, ◌/◌, ◌%◌, ◌^◌, Bool, true, false, Option, none, some, ◌>>=◌, ◌==◌,
  ltb, leb, if◌then◌else◌, Array, update, List, [], ◌∷◌,
}
use weg_os.Base.Bytes.{store32}
use weg_os.BitAllocation.{Bitmap, bit_alloc, bit_free, bit_bind}
use weg_os.Disk.{Disk, memcpy, sector_size}
use weg_os.Fs.{
  File, FileCached, FileSystem, nth_block, next_sector, set_next_sector, no_sector,
  sector_with_root_fcb, file_bytes, file_to_bytes, file_type_normal, file_type_directory,
  valid_data_size_in_block, in_block_offset,
}
use weg_os.Fs.Io.{covering_write, sys_rseek, sys_wseek, read_remains}
use weg_os.Fs.Paths.{Stack, store_file_cached}
use weg_os.Strings.{strcpy}

abbrev sector_or_minus_one : Option ℕ → ℕ
sector_or_minus_one (some sector) = sector
sector_or_minus_one none = 2 ^ 32 - 1

unfoldable pub file_alloc : FileSystem → ℕ × FileSystem
file_alloc fs =
    let (sector, bitmap) = bit_alloc fs.alloc_bitmap false in
    (sector_or_minus_one sector, record fs { alloc_bitmap = bitmap })

-- One round of the loop of `file_expand`.
abbrev pub append_block : FileSystem → File → FileSystem × File
append_block fs file =
    let (new_last_sector, fs') = file_alloc fs in
    let old_last_sector = file.last_sector in
    let disk' =
      update fs'.disk old_last_sector
        (set_next_sector (fs'.disk old_last_sector) new_last_sector) in
    let disk'' = update disk' new_last_sector (set_next_sector (disk' new_last_sector) no_sector) in
    (record fs' { disk = disk'' }, record file { last_sector = new_last_sector })

pub expand_loop : ℕ → FileSystem → File → FileSystem × File
expand_loop zero fs file = (fs, file)
expand_loop (suc need) fs file =
    let (fs', file') = append_block fs file in expand_loop need fs' file'

unfoldable pub file_expand : Stack → FileSystem → FileCached → ℕ → Option (FileSystem × FileCached)
file_expand stack fs f need = do
  let (fs', file) = expand_loop need fs f.file
  let f' = record f { file = record file { sector_count = (file.sector_count + need) % 2 ^ 32 } }
  disk ← store_file_cached stack fs'.disk f'
  some (record fs' { disk = disk }, f')

-- The loop of `sys_write` that moves the first so many bytes up, from the last on.
pub move_up : ℕ → ℕ → Array ℕ → Array ℕ
move_up zero length temp = temp
move_up (suc i) length temp = move_up i length (update temp (length + i) (temp i))

-- The part of `sys_write` that puts the bytes into the file, in front of those from the write position on,
-- while they fit into `temp`.
unfoldable pub insert_contents : Array ℕ → Disk → FileCached → Array ℕ → ℕ → Disk × FileCached
insert_contents temp disk f buf length =
    let old_read_seek = f.read_seek in
    let old_write_seek = f.write_seek + length in
    let remain = f.file.file_size - f.write_seek in
    let (_, f2) = sys_rseek disk f f.write_seek in
    let (_, f3, rest) = read_remains disk f2 temp in
    let contents = memcpy length 0 (move_up remain length rest) 0 buf 0 in
    let (disk', f4) = covering_write disk f3 contents (remain + length) in
    let (_, f5) = sys_wseek disk' f4 old_write_seek in
    let (_, f6) = sys_rseek disk' f5 old_read_seek in (disk', f6)

-- `sizeof(temp)` in `sys_write`
abbrev pub temp_size : ℕ
temp_size = 4096

-- How far into the buffer `sys_read` writes: a whole block brings its link along.
abbrev pub read_end : ℕ → ℕ → ℕ
read_end seek length =
    let remain = valid_data_size_in_block - in_block_offset seek in
    let sectors = (length - remain) / valid_data_size_in_block in
    let last = remain + sectors * valid_data_size_in_block + 4 in
    if nth_block (seek + length) - nth_block seek == 0
    then length
    else (if sectors == 0 then length else (if leb last length then length else last))

-- Behind the end of `temp` the source overwrites its stack, when it reads the rest of the file or when it
-- moves the bytes up; this is `none`. A position that was not sought stays where it was.
unfoldable pub write_contents :
    Array ℕ → Disk → FileCached → Array ℕ → ℕ → Option (Disk × FileCached)
write_contents temp disk f buf length =
    let (_, f2) = sys_rseek disk f f.write_seek in
    let read = read_end f2.read_seek (f2.file.file_size - f2.read_seek) in
    let moved = f.file.file_size - f.write_seek + length in
    if leb read temp_size
    then (if leb moved temp_size then some (insert_contents temp disk f buf length) else none)
    else none

-- `sys_write`, for a write position that is at most the size of the file.
unfoldable pub sys_write :
    Stack → Array ℕ → FileSystem → FileCached → Array ℕ → ℕ → Option (FileSystem × FileCached)
sys_write stack temp fs f buf length = do
  let sectors = nth_block (f.file.file_size + length) + 1
  (fs1, f1) ←
      if ltb f.file.sector_count sectors
      then file_expand stack fs f (sectors - f.file.sector_count)
      else some (fs, f)
  (disk, f2) ← write_contents temp fs1.disk f1 buf length
  let f3 = record f2 { file = record f2.file { file_size = f2.file.file_size + length } }
  disk' ← store_file_cached stack disk f3
  some (record fs1 { disk = disk' }, f3)

-- `sys_create` in a directory, from what the two locals `new_file` and `new_file_block` hold.
unfoldable pub sys_create :
    Stack
    → Array ℕ
    → File
    → Array ℕ
    → FileSystem
    → FileCached
    → Array ℕ
    → ℕ
    → Option (FileSystem × FileCached)
sys_create stack temp new_file new_file_block fs dir file_name file_type = do
  name ← strcpy new_file.file_name file_name
  let (sector, fs') = file_alloc fs
  let file = record new_file {
    file_name = name;
    file_size = 0;
    file_type = file_type;
    first_sector = sector;
    last_sector = sector;
    sector_count = 1;
  }
  let disk = update fs'.disk sector (set_next_sector new_file_block 0xfffffff)
  sys_write stack temp (record fs' { disk = disk }) dir (file_to_bytes file) file_bytes

-- A string constant.
unfoldable pub string : List ℕ → Array ℕ
string [] j = 0
string (c ∷ cs) j = if j == 0 then c else string cs (j - 1)

-- "root" and "usr"
abbrev root_name : Array ℕ
root_name = string (114 ∷ 111 ∷ 111 ∷ 116 ∷ [])

abbrev usr_name : Array ℕ
usr_name = string (117 ∷ 115 ∷ 114 ∷ [])

-- The fields of the `file_t` at the start of a block, but for its name.
abbrev pub set_fcb : Array ℕ → ℕ → ℕ → ℕ → Array ℕ
set_fcb block sector file_size file_type =
    store32 (store32 (store32 (store32 (store32 block 80 file_type) 68 sector) 64 sector) 72 1) 76
      file_size

-- `root_init`, from what the block on the stack holds.
unfoldable pub root_init : Array ℕ → FileSystem → Option FileSystem
root_init block_with_root_fcb fs = do
  block ← strcpy (set_next_sector block_with_root_fcb no_sector) root_name
  let bitmap = bit_free (bit_free fs.alloc_bitmap 1024 true) 1025 true
  let block' = set_fcb block 1025 file_bytes file_type_directory
  some (record { alloc_bitmap = bitmap; disk = update fs.disk 1024 block' })

-- The loop of `fs_init` that takes the sectors of the kernel, from sector i on.
pub take_sectors : ℕ → ℕ → Bitmap → Bitmap
take_sectors zero i m = m
take_sectors (suc rounds) i m = take_sectors rounds (i + 1) (bit_free m i true)

-- `fs_init` on a disk, from what the table of sectors and the block on the stack hold.
unfoldable pub fs_init : Array ℕ → Array ℕ → Disk → Option FileSystem
fs_init fs_alloc_table block_with_root_fcb disk =
    let bitmap = bit_bind fs_alloc_table ((1024 - 640) * 512 * 8) in
    root_init block_with_root_fcb
      (record { disk = disk; alloc_bitmap = take_sectors sector_with_root_fcb 0 bitmap })

-- `fs_test` of kernel/init/main.c: the root directory gets the one entry "usr".
unfoldable pub fs_test : Array ℕ → FileSystem → Option FileSystem
fs_test block_1025 fs = do
  block ← strcpy block_1025 usr_name
  let block' =
      set_next_sector (set_fcb block 1026 valid_data_size_in_block file_type_normal) no_sector
  let bitmap = bit_free fs.alloc_bitmap 1026 true
  some (record { disk = update fs.disk 1025 block'; alloc_bitmap = bitmap })

-- ===== src/Fs.antt =====
-- kernel/fs/fs.c and include/comm/fs.h: files as chains of sectors, directories as files of entries.
-- Sizes, positions and lengths, and their sums, are the source's as long as they are below 2 ^ 31; a larger
-- `int` overflows.
-- A block is a sector: 508 bytes of contents, and the number of the next sector.
pub mod Bytes
pub mod Files
pub mod Io
pub mod Paths
pub mod Table
use weg_os.Base.{ℕ, ◌+◌, ◌*◌, ◌/◌, ◌%◌, Array, Bool}
use weg_os.Base.Bytes.{load32, store32}
use weg_os.BitAllocation.{Bitmap}
use weg_os.Disk.{Disk}

abbrev pub valid_data_size_in_block : ℕ
valid_data_size_in_block = 508

abbrev pub in_block_offset : ℕ → ℕ
in_block_offset x = x % valid_data_size_in_block

abbrev pub nth_block : ℕ → ℕ
nth_block x = x / valid_data_size_in_block

abbrev pub sector_with_root_fcb : ℕ
sector_with_root_fcb = 1024

-- 0xFFFFFFFF ends a chain.
abbrev pub no_sector : ℕ
no_sector = 0xffffffff

abbrev pub file_type_normal : ℕ
file_type_normal = 0

abbrev pub file_type_directory : ℕ
file_type_directory = 1

-- `file_t`. The name is the 64 bytes of the array `file_name`, and what is read behind them.
pub record File : Type 0 where
  pub file_name : Array ℕ
  pub first_sector : ℕ
  pub last_sector : ℕ
  pub sector_count : ℕ
  pub file_size : ℕ
  pub file_type : ℕ

-- `file_cached_t`, with the fields of `io_state` and `path_state`.
pub record FileCached : Type 0 where
  pub file : File
  pub read_seek : ℕ
  pub write_seek : ℕ
  pub read_sector : ℕ
  pub write_sector : ℕ
  pub parent_dir_name : Array ℕ
  pub index_in_parent_dir : ℕ
  pub has_parent : Bool

pub data FileResult : Type 0 where
  success no_more_disk_space already_existing not_existing dir_not_existing out_of_index
        type_error :
      FileResult

-- The disk, and `file_alloc_bitmap`.
pub record FileSystem : Type 0 where
  pub disk : Disk
  pub alloc_bitmap : Bitmap

-- `((block_t *)block)->next_sector`
abbrev pub next_sector : Array ℕ → ℕ
next_sector block = load32 block valid_data_size_in_block

abbrev pub set_next_sector : Array ℕ → ℕ → Array ℕ
set_next_sector block sector = store32 block valid_data_size_in_block sector

-- `sizeof(file_t)`
abbrev pub file_bytes : ℕ
file_bytes = 84

-- A `file_t` in memory: its bytes, and the one that stands at a position of a buffer.
unfoldable pub file_to_bytes : File → Array ℕ
file_to_bytes f =
    store32
      (store32
        (store32 (store32 (store32 f.file_name 64 f.first_sector) 68 f.last_sector) 72
          f.sector_count)
        76 f.file_size)
      80 f.file_type

unfoldable pub file_at : Array ℕ → ℕ → File
file_at buf position = record {
  file_name = λ j. buf (position + j);
  first_sector = load32 buf (position + 64);
  last_sector = load32 buf (position + 68);
  sector_count = load32 buf (position + 72);
  file_size = load32 buf (position + 76);
  file_type = load32 buf (position + 80);
}

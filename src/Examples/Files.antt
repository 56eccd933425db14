-- ===== src/Examples/Files.antt =====
-- kernel/fs/fs.c at a small disk: a file of two blocks, and a new disk.
use weg_os.Base.{
  ℕ, zero, suc, ◌≤◌, ◌<◌, ◌≡◌, refl, arith, Array, true, false, some, ◌==◌, if◌then◌else◌,
}
use weg_os.Base.Bytes.{load32, store32, IsBytes}
use weg_os.Bit.{testbit}
use weg_os.BitAllocation.{bit_alloc}
use weg_os.BitAllocation.Search.{bit_at}
use weg_os.Disk.{Disk}
use weg_os.Fs.{File, FileCached, FileSystem, success, no_sector, next_sector}
use weg_os.Fs.Files.{expand_loop, fs_init, file_alloc}
use weg_os.Fs.Files.Chain.{IsFileChain, HasFree, Appended, expand_loop-IsFileChain}
use weg_os.Fs.Files.Init.{NewDisk, Allotted, fs_init-root, file_alloc-IsReserved}
use weg_os.Fs.Io.{sys_read, sys_rseek, sys_wseek, covering_write, seek_loop}
use weg_os.Fs.Io.Link.{covering_write-next_sector}
use weg_os.Fs.Io.Put.{IsChain}
use weg_os.Fs.Io.Reading.{ReadFrom, sys_read-file_byte}
use weg_os.Fs.Io.RoundTrip.{covering_write-sys_read}
use weg_os.Fs.Io.Writing.{Written, covering_write-file_byte}

abbrev blank : Array ℕ
blank j = 0

-- Sector 2000 leads to sector 2001, and every other sector ends its chain.
abbrev small_disk : Disk
small_disk s = if s == 2000 then store32 blank 508 2001 else store32 blank 508 no_sector

abbrev small_file : File
small_file = record {
  file_name = blank;
  first_sector = 2000;
  last_sector = 2001;
  sector_count = 2;
  file_size = 600;
  file_type = 0;
}

abbrev at_500 : FileCached
at_500 = record {
  file = small_file;
  read_seek = 500;
  write_seek = 500;
  read_sector = 2000;
  write_sector = 2000;
  parent_dir_name = blank;
  index_in_parent_dir = 0;
  has_parent = false;
}

small_disk-IsChain : IsChain 2 small_disk 2000
unfolding seek_loop load32 store32
small_disk-IsChain zero zero h k e = refl
small_disk-IsChain zero (suc zero) h k e = absurd (omega arith)
small_disk-IsChain (suc zero) zero h k e = absurd (omega arith)
small_disk-IsChain (suc zero) (suc zero) h k e = refl
small_disk-IsChain (suc (suc i)) j h k e = absurd (omega arith)
small_disk-IsChain zero (suc (suc j)) h k e = absurd (omega arith)
small_disk-IsChain (suc zero) (suc (suc j)) h k e = absurd (omega arith)

sys_read-file_byte_example :
    ReadFrom small_disk at_500 blank 20 (sys_read small_disk at_500 blank 20)
unfolding seek_loop
sys_read-file_byte_example =
    sys_read-file_byte small_disk at_500 blank 20 refl (omega arith) (omega arith)

covering_write-file_byte_example :
    Written 2 small_disk at_500 (λ j. 7) 20 (covering_write small_disk at_500 (λ j. 7) 20)
unfolding seek_loop
covering_write-file_byte_example =
    covering_write-file_byte 2 small_disk at_500 (λ j. 7) 20 refl small_disk-IsChain (omega arith)
      (omega arith)

covering_write-sys_read_example :
    let (disk', f') = covering_write small_disk ((sys_wseek small_disk at_500 500).1) (λ j. 7) 20 in
    let (result, _, out') = sys_read disk' ((sys_rseek disk' f' 500).1) blank 20 in
    (result ≡ success) × ((j : ℕ) → j < 20 → out' j ≡ 7)
covering_write-sys_read_example =
    covering_write-sys_read 2 small_disk at_500 500 (λ j. 7) blank 20 small_disk-IsChain
      (omega arith) (omega arith) (omega arith) (omega arith)

covering_write-next_sector_example :
    next_sector ((covering_write small_disk at_500 (λ j. 7) 600).0 (next_sector (small_disk 2000)))
    ≡ load32 (λ j. 7) 516
covering_write-next_sector_example = covering_write-next_sector small_disk at_500 (λ j. 7) 600 refl

-- A file in the sectors 0 and 1, which are taken, while 2 to 7 are free.
abbrev tiny_disk : Disk
tiny_disk s = if s == 0 then store32 blank 508 1 else store32 blank 508 no_sector

abbrev tiny_file : File
tiny_file = record small_file { first_sector = 0; last_sector = 1 }

abbrev tiny_bits : Array ℕ
tiny_bits i = if i == 0 then 3 else 0

abbrev tiny_system : FileSystem
tiny_system = record { disk = tiny_disk; alloc_bitmap = record { bits = tiny_bits; size = 8 } }

tiny_bits-IsBytes : IsBytes tiny_bits
tiny_bits-IsBytes i = ground arith

tiny_disk-IsChain : IsChain 2 tiny_disk 0
unfolding seek_loop load32 store32
tiny_disk-IsChain zero zero h k e = refl
tiny_disk-IsChain zero (suc zero) h k e = absurd (omega arith)
tiny_disk-IsChain (suc zero) zero h k e = absurd (omega arith)
tiny_disk-IsChain (suc zero) (suc zero) h k e = refl
tiny_disk-IsChain (suc (suc i)) j h k e = absurd (omega arith)
tiny_disk-IsChain zero (suc (suc j)) h k e = absurd (omega arith)
tiny_disk-IsChain (suc zero) (suc (suc j)) h k e = absurd (omega arith)

tiny_taken : (i : ℕ) → i ≤ 1 → bit_at tiny_bits (seek_loop i tiny_disk 0) ≡ true
unfolding seek_loop load32 store32 bit_at testbit
tiny_taken zero h = refl
tiny_taken (suc zero) h = refl
tiny_taken (suc (suc i)) h = absurd (omega arith)

tiny_system-IsFileChain : IsFileChain 1 tiny_system tiny_file
unfolding seek_loop load32 store32
tiny_system-IsFileChain = (tiny_disk-IsChain, refl, refl, tiny_taken)

tiny_system-HasFree : HasFree 1 tiny_system tiny_file
unfolding bit_alloc testbit
tiny_system-HasFree = ((2, omega arith, refl), tt)

expand_loop-IsFileChain_example :
    Appended 2 tiny_system tiny_file (expand_loop 1 tiny_system tiny_file)
expand_loop-IsFileChain_example =
    expand_loop-IsFileChain 1 1 tiny_system tiny_file tiny_bits-IsBytes tiny_system-IsFileChain
      tiny_system-HasFree

fs_init-root_example :
    (fs : FileSystem) × (fs_init blank blank small_disk ≡ some fs) × NewDisk blank small_disk fs
fs_init-root_example = fs_init-root blank blank small_disk (λ i. omega arith)

new_disk :
    (fs : FileSystem) × (fs_init blank blank small_disk ≡ some fs) × NewDisk blank small_disk fs
new_disk = fs_init-root blank blank small_disk (λ i. omega arith)

file_alloc-IsReserved_example : Allotted new_disk.0 (file_alloc new_disk.0)
file_alloc-IsReserved_example = file_alloc-IsReserved new_disk.0 new_disk.2.0

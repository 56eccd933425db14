-- ===== src/Examples/Growth.antt =====
-- kernel/fs/fs.c at a disk with a file of one block, which gets a second one.
use weg_os.Base.{
  inr, ℕ, zero, suc, ◌≤◌, ◌<◌, ◌≡◌, ◌≢◌, refl, arith, Array, true, some, ◌==◌, if◌then◌else◌,
}
use weg_os.Base.Bytes.{load32, store32, IsBytes}
use weg_os.Bit.{testbit}
use weg_os.BitAllocation.{bit_alloc}
use weg_os.BitAllocation.Search.{bit_at}
use weg_os.Disk.{Disk}
use weg_os.Fs.{FileCached, FileSystem, file_at, file_to_bytes, no_sector}
use weg_os.Fs.Bytes.{IsStorable}
use weg_os.Fs.Files.{sys_write}
use weg_os.Fs.Files.Chain.{IsFileChain, HasFree}
use weg_os.Fs.Files.Expanding.{RootTaken}
use weg_os.Fs.Files.Longer.{sys_write-expands}
use weg_os.Fs.Files.Whole.{InRoot, Wrote}
use weg_os.Fs.Io.{seek_loop}
use weg_os.Fs.Io.Put.{IsChain}
use weg_os.Fs.Paths.Load.{root}
use weg_os.Examples.Directories.{blank, root_file, usr_file, closed, stack}

abbrev one_block_disk : Disk
one_block_disk s =
    if s == 1024
    then file_to_bytes root_file
    else (if s == 1025
        then file_to_bytes usr_file
        else (if s == 1026 then store32 blank 508 no_sector else blank))

-- The sectors 1024 to 1026 are taken.
abbrev three_taken : Array ℕ
three_taken i = if i == 128 then 7 else 0

abbrev one_block_system : FileSystem
one_block_system = record {
  disk = one_block_disk;
  alloc_bitmap = record { bits = three_taken; size = 8 };
}

three_taken-IsBytes : IsBytes three_taken
three_taken-IsBytes i = ground arith

one_sector-IsChain : (first : ℕ) → IsChain 1 one_block_disk first
one_sector-IsChain first i j h k e = omega arith

usr-taken : (i : ℕ) → i ≤ 0 → bit_at three_taken (seek_loop i one_block_disk 1026) ≡ true
unfolding seek_loop bit_at testbit
usr-taken zero h = refl
usr-taken (suc i) h = absurd (omega arith)

usr-IsFileChain : IsFileChain 0 one_block_system usr_file
unfolding seek_loop load32 store32
usr-IsFileChain = (one_sector-IsChain 1026, refl, refl, usr-taken)

usr-HasFree : HasFree 1 one_block_system usr_file
unfolding bit_alloc testbit
usr-HasFree = ((0, omega arith, refl), tt)

usr-IsStorable : IsStorable usr_file
usr-IsStorable = (omega arith, omega arith, omega arith, omega arith, omega arith)

fcb_apart : (first : ℕ) → 1024 < first → (i : ℕ) → i < 1 → 1024 ≢ seek_loop i one_block_disk first
unfolding seek_loop
fcb_apart first lt zero h e = omega arith
fcb_apart first lt (suc i) h e = omega arith

chains_apart :
    (i j : ℕ)
    → i < 1
    → j < 1
    → seek_loop i one_block_disk 1026
      ≢ seek_loop j one_block_disk (root one_block_disk).first_sector
unfolding seek_loop file_at file_to_bytes load32 store32
chains_apart zero zero h k e = omega arith
chains_apart (suc i) j h k e = omega arith
chains_apart zero (suc j) h k e = omega arith

usr-InRoot : InRoot 1 1 one_block_disk (root one_block_disk) closed
unfolding file_at file_to_bytes load32 store32
usr-InRoot = (
  refl,
  fcb_apart 1026 (omega arith),
  refl,
  (
    refl,
    one_sector-IsChain (root one_block_disk).first_sector,
    omega arith,
    omega arith,
    chains_apart,
  ),
)

root_block_taken :
    (j : ℕ)
    → j < 1
    → bit_at three_taken (seek_loop j one_block_disk (root one_block_disk).first_sector) ≡ true
unfolding seek_loop file_at file_to_bytes load32 store32 bit_at testbit
root_block_taken zero h = refl
root_block_taken (suc j) h = absurd (omega arith)

root-RootTaken : RootTaken 1 one_block_system
unfolding file_at file_to_bytes load32 store32 bit_at testbit
root-RootTaken = (root_block_taken, refl, fcb_apart 1025 (omega arith))

sys_write-expands_example :
    (fs' : FileSystem) × (f' : FileCached) × (last_sector : ℕ) × (sys_write stack blank
        one_block_system closed
        (λ j. 7)
        508
      ≡ some (fs', f'))
    × Wrote stack one_block_disk
        (record closed { file = record usr_file { last_sector = last_sector; sector_count = 2 } })
        (root one_block_disk)
        (λ j. 7)
        508
        (fs'.disk, f')
unfolding seek_loop file_at file_to_bytes load32 store32
sys_write-expands_example =
    sys_write-expands 0 1 stack blank one_block_system closed (λ j. 7) 508 three_taken-IsBytes
      usr-IsFileChain refl (omega arith) usr-HasFree usr-IsStorable (omega arith) usr-InRoot
      root-RootTaken refl (omega arith) (omega arith) (omega arith)
      (omega arith, inr (omega arith, omega arith)) (omega arith)

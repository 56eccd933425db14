-- ===== src/Fs/Table.antt =====
-- kernel/fs/fs.c, `load_alloc_table` and `save_alloc_table`: the table of sectors on the disk, in the 384 sectors
-- behind the kernel.
use weg_os.Base.{
  ℕ, zero, suc, ◌+◌, ◌-◌, ◌*◌, ◌/◌, ◌%◌, ◌≤◌, ◌<◌, ◌≡◌, ap, ap₂, ◌∙◌, ◌⊎◌, arith, Array, leb, ltb,
  ◌==◌, if◌then◌else◌,
}
use native.Mathlib.Decide.{dec_lt}
use weg_os.Disk.{Disk, read_into, write_from, sector_size}
use weg_os.Disk.Copy.{read_into-bytes, memcpy-start}
use weg_os.Fs.{FileSystem}

abbrev pub kernel_dest : ℕ
kernel_dest = 128

abbrev pub kernel_max_size : ℕ
kernel_max_size = 512

-- `read_disk` and `write_disk` of so many sectors.
pub read_run : ℕ → Disk → ℕ → Array ℕ → ℕ → Array ℕ
read_run zero disk sector buf position = buf
read_run (suc sectors) disk sector buf position =
    read_run sectors disk (sector + 1) (read_into disk sector buf position) (position + sector_size)

pub write_run : ℕ → Disk → ℕ → Array ℕ → ℕ → Disk
write_run zero disk sector buf position = disk
write_run (suc sectors) disk sector buf position =
    write_run sectors (write_from disk sector buf position) (sector + 1) buf
      (position + sector_size)

unfoldable pub load_alloc_table : FileSystem → FileSystem
load_alloc_table fs = record fs {
  alloc_bitmap = record fs.alloc_bitmap {
    bits = read_run (1024 - 640) fs.disk (kernel_dest + kernel_max_size) fs.alloc_bitmap.bits 0;
  };
}

unfoldable pub save_alloc_table : FileSystem → FileSystem
save_alloc_table fs = record fs {
  disk = write_run (1024 - 640) fs.disk (kernel_dest + kernel_max_size) fs.alloc_bitmap.bits 0;
}

read_run-bytes :
    (sectors : ℕ) (disk : Disk) (sector : ℕ) (buf : Array ℕ) (position j : ℕ)
    → read_run sectors disk sector buf position j ≡ (
        if leb position j
        then (if ltb j (position + 512 * sectors)
            then disk (sector + (j - position) / 512) ((j - position) % 512)
            else buf j)
        else buf j)
unfolding read_run
read_run-bytes zero disk sector buf position j = ground arith
read_run-bytes (suc sectors) disk sector buf position j =
    let rest =
      read_run-bytes sectors disk (sector + 1) (read_into disk sector buf position) (position + 512)
        j in
    let here = read_into-bytes disk sector buf position j in
    elim (dec_lt j (position + 512)) [
      | no later ↦
          let e : disk (sector + 1 + (j - (position + 512)) / 512) ((j - (position + 512)) % 512)
              ≡ disk (sector + (j - position) / 512) ((j - position) % 512) =
            ap₂ (λ (x y : ℕ). disk x y) (omega arith) (omega arith) in
          ground (arith, rest, here, e)
      | yes near ↦ elim (dec_lt j position) [
        | yes before ↦ ground (arith, rest, here)
        | no inside ↦
            let e : disk sector (j - position)
                ≡ disk (sector + (j - position) / 512) ((j - position) % 512) =
              ap₂ (λ (x y : ℕ). disk x y) (omega arith) (omega arith) in
            ground (arith, rest, here, e)
      ]
    ]

write_from-byte :
    (disk : Disk) (sector : ℕ) (buf : Array ℕ) (position s j : ℕ)
    → j < 512
    → write_from disk sector buf position s j
      ≡ (if sector == s then buf (position + j) else disk s j)
unfolding write_from
write_from-byte disk sector buf position s j h =
    ground (arith, memcpy-start 512 (disk sector) buf position j h)

pub write_run-bytes :
    (sectors : ℕ) (disk : Disk) (sector : ℕ) (buf : Array ℕ) (position s j : ℕ)
    → j < 512
    → write_run sectors disk sector buf position s j ≡ (
        if leb sector s
        then (if ltb s (sector + sectors)
            then buf (position + 512 * (s - sector) + j)
            else disk s j)
        else disk s j)
unfolding write_run
write_run-bytes zero disk sector buf position s j h = ground arith
write_run-bytes (suc sectors) disk sector buf position s j h =
    let rest =
      write_run-bytes sectors (write_from disk sector buf position) (sector + 1) buf
        (position + 512) s j h in
    let here = write_from-byte disk sector buf position s j h in
    elim (dec_lt sector s) [
      | yes later ↦
          let e : buf (position + 512 + 512 * (s - (sector + 1)) + j)
              ≡ buf (position + 512 * (s - sector) + j) =
            ap buf (omega arith) in
          ground (arith, rest, here, e)
      | no up_to ↦
          let e : buf (position + j) ≡ buf (position + 512 * (s - sector) + j) =
            ap buf (omega arith) in
          ground (arith, rest, here, e)
    ]

-- Saving the table and loading it again gives every byte of the table back, whatever table stands in memory
-- in between; and saving writes no sector but the 384 from sector 640 on.
pub load_alloc_table-save_alloc_table :
    (fs : FileSystem) (bits : Array ℕ) (size : ℕ)
    → let saved = save_alloc_table fs in
      ((j : ℕ)
        → j < 384 * 512
        → (load_alloc_table (record saved {
          alloc_bitmap = record { bits = bits; size = size };
        })).alloc_bitmap.bits
            j
          ≡ fs.alloc_bitmap.bits j)
      × ((s j : ℕ) → (s < 640) ⊎ (1024 ≤ s) → j < 512 → saved.disk s j ≡ fs.disk s j)
unfolding load_alloc_table save_alloc_table
load_alloc_table-save_alloc_table fs bits size = (
  λ j h.
      let saved = write_run 384 fs.disk 640 fs.alloc_bitmap.bits 0 in
      let read = read_run-bytes 384 saved 640 bits 0 j in
      let written =
        write_run-bytes 384 fs.disk 640 fs.alloc_bitmap.bits 0 (640 + (j - 0) / 512) ((j - 0) % 512)
          (omega arith) in
      let e : fs.alloc_bitmap.bits (0 + 512 * (640 + (j - 0) / 512 - 640) + (j - 0) % 512)
          ≡ fs.alloc_bitmap.bits j =
        ap fs.alloc_bitmap.bits (omega arith) in
      read ∙ ground (arith, written, e),
  λ s j out h. write_run-bytes 384 fs.disk 640 fs.alloc_bitmap.bits 0 s j h ∙ ground arith,
)

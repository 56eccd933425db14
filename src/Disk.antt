-- ===== src/Disk.antt =====
-- include/comm/disk.h: the disk as sectors of 512 bytes.
-- `read_disk` and `write_disk` copy whole sectors between the disk and memory. A buffer of one sector is
-- written as the sector itself; the calls into the middle of a buffer have its position as an argument.
pub mod Copy
pub mod Driver
use weg_os.Base.{ℕ, zero, suc, ◌+◌, Array, update}
use weg_os.Base.Bytes.{load32, store32}

-- The sectors by number, and the bytes of each.
abbrev pub Disk : Type 0
Disk = Array (Array ℕ)

abbrev pub sector_size : ℕ
sector_size = 0x200

-- `memcpy` from byte i on: so many bytes, from position s of the source to position d of the destination.
pub memcpy : ℕ → ℕ → Array ℕ → ℕ → Array ℕ → ℕ → Array ℕ
memcpy zero i dest d source s = dest
memcpy (suc rounds) i dest d source s =
    memcpy rounds (i + 1) (update dest (d + i) (source (s + i))) d source s

-- One sector into a buffer, and one sector from a buffer.
pub read_into : Disk → ℕ → Array ℕ → ℕ → Array ℕ
read_into disk sector buf position = memcpy sector_size 0 buf position (disk sector) 0

unfoldable pub write_from : Disk → ℕ → Array ℕ → ℕ → Disk
write_from disk sector buf position =
    update disk sector (memcpy sector_size 0 (disk sector) 0 buf position)

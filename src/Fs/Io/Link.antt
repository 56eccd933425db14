-- ===== src/Fs/Io/Link.antt =====
-- kernel/fs/fs.c, `covering_write` over a whole block: the link of the block comes from the caller's buffer.
use weg_os.Base.{ℕ, suc, ◌+◌, ◌-◌, ◌/◌, ◌≡◌, refl, ap, ◌∙◌, arith, Array, update_self, false, ◌==◌}
use native.Mathlib.Nat.{add_assoc}
use weg_os.Base.Bytes.{load32}
use weg_os.Disk.{Disk, memcpy, write_from}
use weg_os.Disk.Copy.{memcpy-start}
use weg_os.Fs.{FileCached, nth_block, in_block_offset, next_sector}
use weg_os.Fs.Io.{covering_write, write_loop}
use weg_os.Fs.Io.Blocks.{more-false}
use weg_os.Fs.Io.Put.{put, memcpy-link, next_sector-put}

-- A buffer from a position on.
abbrev from : Array ℕ → ℕ → Array ℕ
from buf position j = buf (position + j)

next_sector-from :
    (buf : Array ℕ) (position : ℕ) → next_sector (from buf position) ≡ load32 buf (position + 508)
unfolding load32
next_sector-from buf position =
    rw (add_assoc position 508 1, add_assoc position 508 2, add_assoc position 508 3) refl

next_sector-write_from :
    (disk : Disk) (sector : ℕ) (buf : Array ℕ) (position : ℕ)
    → next_sector (write_from disk sector buf position sector) ≡ next_sector (from buf position)
unfolding load32 write_from
next_sector-write_from disk sector buf position =
    ap next_sector (update_self disk sector (memcpy 0x200 0 (disk sector) 0 buf position))
    ∙ rw
        (
          memcpy-start 0x200 (disk sector) buf position 508 (omega arith),
          memcpy-start 0x200 (disk sector) buf position (508 + 1) (omega arith),
          memcpy-start 0x200 (disk sector) buf position (508 + 2) (omega arith),
          memcpy-start 0x200 (disk sector) buf position (508 + 3) (omega arith),
        )
        refl

abbrev room : FileCached → ℕ
room f = 508 - in_block_offset f.write_seek

covering_write-three_blocks :
    (disk : Disk) (f : FileCached) (buf : Array ℕ) (length : ℕ)
    → nth_block (f.write_seek + length) ≡ suc (suc (nth_block f.write_seek))
    → let disk1 = put disk f.write_sector (in_block_offset f.write_seek) (room f) buf 0 in
      let disk2 = write_from disk1 (next_sector (disk f.write_sector)) buf (room f) in
      (covering_write disk f buf length).0
      ≡ put disk2
          (next_sector (from buf (room f)))
          0
          (in_block_offset (length - room f))
          buf
          (room f + 508)
unfolding covering_write write_loop
covering_write-three_blocks disk f buf length three = rw (next_block, one_whole, link) refl
  where
    next_block : (nth_block (f.write_seek + length) - nth_block f.write_seek == 0) ≡ false
    next_block = more-false (omega arith)

    one_whole : (length - room f) / 508 ≡ 1
    one_whole = omega arith

    link :
        next_sector (memcpy (room f) 0 (disk f.write_sector) (in_block_offset f.write_seek) buf 0)
        ≡ next_sector (disk f.write_sector)
    link =
        memcpy-link disk f.write_sector (in_block_offset f.write_seek) (room f) buf 0
          (disk f.write_sector) (omega arith)

-- A write that covers one whole block behind the block of the position leaves that block with the four bytes
-- of the caller's buffer behind the contents of the block as its link, whatever its link was.
pub covering_write-next_sector :
    (disk : Disk) (f : FileCached) (buf : Array ℕ) (length : ℕ)
    → nth_block (f.write_seek + length) ≡ suc (suc (nth_block f.write_seek))
    → next_sector ((covering_write disk f buf length).0 (next_sector (disk f.write_sector)))
      ≡ load32 buf (508 - in_block_offset f.write_seek + 508)
covering_write-next_sector disk f buf length three =
    let disk1 = put disk f.write_sector (in_block_offset f.write_seek) (room f) buf 0 in
    let next = next_sector (disk f.write_sector) in
    ap (λ (d : Disk). next_sector (d next)) (covering_write-three_blocks disk f buf length three)
    ∙ next_sector-put (write_from disk1 next buf (room f)) (next_sector (from buf (room f))) 0
        (in_block_offset (length - room f)) buf (room f + 508) next (omega arith)
    ∙ next_sector-write_from disk1 next buf (room f)
    ∙ next_sector-from buf (room f)

-- ===== src/Fs/Files/Insert.antt =====
-- `sys_write` of kernel/fs/fs.c, within the blocks that the file has: bytes are inserted at the write position.
use weg_os.Base.{
  ℕ, zero, suc, ◌+◌, ◌-◌, ◌≤◌, ◌<◌, ◌≡◌, refl, sym, subst, ap, ◌∙◌, arith, Array, update, ◌⊎◌, inl,
  inr, some, leb, ltb, if◌then◌else◌,
}
use native.Mathlib.Decide.{dec_lt}
use weg_os.Disk.{Disk, memcpy}
use weg_os.Disk.Copy.{memcpy-bytes}
use weg_os.Fs.{File, FileCached, nth_block}
use weg_os.Fs.Files.{move_up, insert_contents, write_contents, read_end, temp_size}
use weg_os.Fs.Io.{sys_rseek, sys_wseek, covering_write, read_remains, seek_loop}
use weg_os.Fs.Io.Blocks.{file_byte, IsReadable, leb-true}
use weg_os.Fs.Io.Put.{IsChain}
use weg_os.Fs.Io.ReadLoop.{moved}
use weg_os.Fs.Io.Reading.{sys_read-kept, sys_read-near}
use weg_os.Fs.Io.Seeking.{IsWritable, sys_rseek-IsReadable, sys_rseek-far, sys_wseek-sys_rseek}
use weg_os.Fs.Io.Writing.{covering_write-file_byte}

-- Moving bytes up keeps them, although the places overlap.
move_up-bytes :
    (i length : ℕ) (temp : Array ℕ) (k : ℕ)
    → move_up i length temp k ≡ (
        if leb length k then (if ltb k (length + i) then temp (k - length) else temp k) else temp k)
unfolding move_up
move_up-bytes zero length temp k = ground arith
move_up-bytes (suc i) length temp k =
    ground (arith, move_up-bytes i length (update temp (length + i) (temp i)) k)

-- What `sys_write` reads first: the bytes from the write position on.
pub remains_read :
    (temp : Array ℕ) (disk : Disk) (f : FileCached)
    → f.write_seek ≤ f.file.file_size
    → let (_, f3, rest) = read_remains disk ((sys_rseek disk f f.write_seek).1) temp in
      (f3 ≡ moved f f3.read_sector f3.read_seek)
      × ((j : ℕ)
          → j < f.file.file_size - f.write_seek
          → rest j ≡ file_byte disk f.file.first_sector (f.write_seek + j))
unfolding read_remains
remains_read temp disk f le = elim (dec_lt f.write_seek f.file.file_size) [
  | yes inside ↦
      let f2 = record f {
        read_sector = seek_loop (nth_block f.write_seek) disk f.file.first_sector;
        read_seek = f.write_seek;
      } in
      rw (sys_rseek-IsReadable disk f f.write_seek inside) (
        sys_read-kept disk f2 temp (f.file.file_size - f.write_seek),
        (sys_read-near disk f2 temp (f.file.file_size - f.write_seek) refl (omega arith)).1,
      )
  | no at_end ↦
      rw (sys_rseek-far disk f f.write_seek (omega arith))
        (sys_read-kept disk f temp (f.file.file_size - f.read_seek), λ j h. absurd (omega arith))
]

-- The bytes that are written: the new ones, and then those that were read.
abbrev pub contents : Array ℕ → Array ℕ → ℕ → ℕ → Array ℕ
contents rest buf length count = memcpy length 0 (move_up count length rest) 0 buf 0

contents-byte :
    (rest buf : Array ℕ) (length count k : ℕ)
    → k < length + count
    → contents rest buf length count k ≡ (if ltb k length then buf k else rest (k - length))
contents-byte rest buf length count k h = ground (
  arith,
  memcpy-bytes length 0 (move_up count length rest) 0 buf 0 k,
  move_up-bytes count length rest k,
)

-- The rest of `insert_contents`, in the state that reading leaves.
abbrev pub write_back : Disk → FileCached → FileCached → Array ℕ → ℕ → Disk × FileCached
write_back disk f f3 bytes length =
    let (disk', f4) = covering_write disk f3 bytes (f.file.file_size - f.write_seek + length) in
    let (_, f5) = sys_wseek disk' f4 (f.write_seek + length) in
    let (_, f6) = sys_rseek disk' f5 f.read_seek in (disk', f6)

-- The contents of the file with the bytes inserted, and the state of the file.
abbrev pub Inserted : Disk → FileCached → Array ℕ → ℕ → Disk × FileCached → Type 0
Inserted disk f buf length (disk', f') =
    let first = f.file.first_sector in
    ((k : ℕ)
      → k < f.file.file_size + length
      → file_byte disk' first k ≡ (
          if ltb k f.write_seek
          then file_byte disk first k
          else (if ltb k (f.write_seek + length)
              then buf (k - f.write_seek)
              else file_byte disk first (k - length))))
    × ((i : ℕ) → seek_loop i disk' first ≡ seek_loop i disk first)
    × IsWritable disk' f'
    × (f'.write_seek ≡ f.write_seek + length)
    × (f'.file ≡ f.file)
    × (((f.read_seek < f.file.file_size) × IsReadable disk' f' × (f'.read_seek ≡ f.read_seek))
        ⊎ (f.file.file_size ≤ f.read_seek))

write_back-Inserted :
    (n : ℕ) (disk : Disk) (f : FileCached) (a b : ℕ) (rest buf : Array ℕ) (length : ℕ)
    → IsWritable disk f
    → IsChain n disk f.file.first_sector
    → f.write_seek ≤ f.file.file_size
    → nth_block (f.file.file_size + length) < n
    → nth_block (f.file.file_size + length) ≤ suc (nth_block f.write_seek)
    → ((j : ℕ)
        → j < f.file.file_size - f.write_seek
        → rest j ≡ file_byte disk f.file.first_sector (f.write_seek + j))
    → Inserted disk f buf length (
        write_back disk f
          (moved f a b)
          (contents rest buf length (f.file.file_size - f.write_seek))
          length)
write_back-Inserted n disk f a b rest buf length v chain le in_n near read =
    let count = f.file.file_size - f.write_seek in
    let bytes = contents rest buf length count in
    let (put_bytes, links, v', seek, file) =
      covering_write-file_byte n disk (moved f a b) bytes (count + length) v chain (omega arith)
        (omega arith) in
    let r = covering_write disk (moved f a b) bytes (count + length) in
    let (w, s, same, r_ok) = sys_wseek-sys_rseek r.0 r.1 (f.write_seek + length) f.read_seek in
    (
      λ k h. put_bytes k (omega arith) ∙ inserted k h,
      links,
      w,
      s,
      same ∙ file,
      elim (dec_lt f.read_seek f.file.file_size) [
        | yes inside ↦
            let (readable, same_seek) =
              r_ok (subst (λ (e : File). f.read_seek < e.file_size) (sym file) inside) in
            inl (inside, readable, same_seek)
        | no at_end ↦ inr (omega arith)
      ],
    )
  where
    old : ℕ → ℕ
    old k = file_byte disk f.file.first_sector k

    new : Array ℕ
    new = contents rest buf length (f.file.file_size - f.write_seek)

    from_behind :
        (k : ℕ)
        → f.write_seek ≤ k
        → k < f.file.file_size + length
        → new (k - f.write_seek)
          ≡ (if ltb k (f.write_seek + length) then buf (k - f.write_seek) else old (k - length))
    from_behind k lo hi =
        let count = f.file.file_size - f.write_seek in
        let byte = contents-byte rest buf length count (k - f.write_seek) (omega arith) in
        elim (dec_lt k (f.write_seek + length)) [
          | yes fresh ↦ byte ∙ ground arith
          | no moved_up ↦
              let e : old (f.write_seek + (k - f.write_seek - length)) ≡ old (k - length) =
                ap old (omega arith) in
              byte ∙ ground (arith, read (k - f.write_seek - length) (omega arith), e)
        ]

    inserted :
        (k : ℕ)
        → k < f.file.file_size + length
        → (if leb f.write_seek k
            then (if ltb k (f.write_seek + (f.file.file_size - f.write_seek + length))
                then new (k - f.write_seek)
                else old k)
            else old k)
          ≡ (if ltb k f.write_seek
              then old k
              else (if ltb k (f.write_seek + length)
                  then buf (k - f.write_seek)
                  else old (k - length)))
    inserted k h = elim (dec_lt k f.write_seek) [
      | yes before ↦ ground arith
      | no behind ↦ ground (arith, from_behind k (omega arith) h)
    ]

pub read_end-bound : (seek length : ℕ) → read_end seek length ≤ length + 4
read_end-bound seek length = ground arith

-- The rest of the file and the new bytes fit into `temp`, and so does what is read when the write position is
-- at the end of the file, where the read position stays as it is.
abbrev pub FitsTemp : FileCached → ℕ → Type 0
FitsTemp f length =
    (f.file.file_size - f.write_seek + length + 4 ≤ temp_size)
    × ((f.write_seek < f.file.file_size)
        ⊎ ((f.read_seek ≤ f.file.file_size) × (f.file.file_size - f.read_seek + 4 ≤ temp_size)))

pub write_contents-fits :
    (temp : Array ℕ) (disk : Disk) (f : FileCached) (buf : Array ℕ) (length : ℕ)
    → FitsTemp f length
    → f.write_seek ≤ f.file.file_size
    → write_contents temp disk f buf length ≡ some (insert_contents temp disk f buf length)
unfolding write_contents
write_contents-fits temp disk f buf length (fits, reads) le =
    elim (dec_lt f.write_seek f.file.file_size) [
      | yes inside ↦
          let bound = read_end-bound f.write_seek (f.file.file_size - f.write_seek) in
          rw
            (
              sys_rseek-IsReadable disk f f.write_seek inside,
              leb-true {m = read_end f.write_seek (f.file.file_size - f.write_seek)} {n = temp_size}
                  (omega arith),
              leb-true {m = f.file.file_size - f.write_seek + length} {n = temp_size} (omega arith),
            )
            refl
      | no at_end ↦
          let bound = read_end-bound f.read_seek (f.file.file_size - f.read_seek) in
          let few : f.file.file_size - f.read_seek + 4 ≤ temp_size = omega arith in
          rw
            (
              sys_rseek-far disk f f.write_seek (omega arith),
              leb-true {m = read_end f.read_seek (f.file.file_size - f.read_seek)} {n = temp_size}
                  (omega arith),
              leb-true {m = f.file.file_size - f.write_seek + length} {n = temp_size} (omega arith),
            )
            refl
    ]

-- Writing within the blocks of a file, from a position whose sector is right, with a chain of n different
-- sectors that holds the new size, which ends at most one block behind the block of the position: the
-- file then has the new bytes at the write position, the bytes in front of it as before, and those
-- that stood there behind the new ones; the chain of the file stays, the write position is behind the
-- new bytes and its sector the right one; and the read position is what it was, with the right
-- sector, if it was before the end of the file.
pub insert_contents-Inserted :
    (n : ℕ) (temp : Array ℕ) (disk : Disk) (f : FileCached) (buf : Array ℕ) (length : ℕ)
    → IsWritable disk f
    → IsChain n disk f.file.first_sector
    → f.write_seek ≤ f.file.file_size
    → nth_block (f.file.file_size + length) < n
    → nth_block (f.file.file_size + length) ≤ suc (nth_block f.write_seek)
    → Inserted disk f buf length (insert_contents temp disk f buf length)
unfolding insert_contents
insert_contents-Inserted n temp disk f buf length v chain le in_n near =
    let (kept, read) = remains_read temp disk f le in
    let (_, f3, rest) = read_remains disk ((sys_rseek disk f f.write_seek).1) temp in
    subst
      (λ (g : FileCached).
        Inserted disk f buf length
          (write_back disk f g (contents rest buf length (f.file.file_size - f.write_seek)) length))
      (sym kept)
      (write_back-Inserted n disk f f3.read_sector f3.read_seek rest buf length v chain le in_n near
        read)

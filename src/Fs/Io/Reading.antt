-- ===== src/Fs/Io/Reading.antt =====
-- `sys_read` against the contents of a file: the bytes of the blocks that its chain leads through.
use weg_os.Base.{
  ℕ, suc, ◌+◌, ◌-◌, ◌*◌, ◌^◌, ◌/◌, ◌%◌, ◌≤◌, ◌<◌, ◌≡◌, refl, sym, ap, ap₂, ◌∙◌, arith, Array, ◌⊎◌,
  inl, inr, if◌then◌else◌, ◌==◌,
}
use native.Mathlib.Decide.{dec_lt, dec_le}
use weg_os.Disk.{Disk, memcpy}
use weg_os.Disk.Copy.{memcpy-inside, memcpy-start, memcpy-before}
use weg_os.Fs.{
  FileCached, FileResult, success, out_of_index, in_block_offset, nth_block, next_sector,
}
use weg_os.Fs.Io.Blocks.{
  file_byte, IsReadable, seek_loop-suc, chain_at, leb-true, leb-false, sub_add, same-true,
  more-false, file_byte-at,
}
use weg_os.Fs.Io.{read_loop, sys_read, seek_loop}
use weg_os.Fs.Io.ReadLoop.{moved, BlocksRead, read_loop_lem, read_loop-kept}

-- What `sys_read` does within a block, and over several: the bytes up to the end of the first block, the
-- whole blocks, and the rest of the last one.
sys_read-one_block :
    (disk : Disk) (f : FileCached) (buf : Array ℕ) (length : ℕ)
    → f.read_seek + length ≤ f.file.file_size
    → nth_block (f.read_seek + length) ≡ nth_block f.read_seek
    → sys_read disk f buf length ≡ (
      success,
      moved f f.read_sector (f.read_seek + length),
      memcpy length 0 buf 0 (disk f.read_sector) (in_block_offset f.read_seek),
    )
unfolding sys_read
sys_read-one_block disk f buf length near one = rw (leb-true near, same-true one) refl

sys_read-far :
    (disk : Disk) (f : FileCached) (buf : Array ℕ) (length : ℕ)
    → f.file.file_size < f.read_seek + length
    → sys_read disk f buf length ≡ (out_of_index, f, buf)
unfolding sys_read
sys_read-far disk f buf length far = rw (leb-false far) refl

abbrev remain : FileCached → ℕ
remain f = 508 - in_block_offset f.read_seek

abbrev read_blocks : Disk → FileCached → Array ℕ → ℕ → FileCached × Array ℕ
read_blocks disk f buf length =
    read_loop ((length - remain f) / 508) disk
      (moved f (next_sector (disk f.read_sector)) (f.read_seek + remain f))
      (memcpy (remain f) 0 buf 0 (disk f.read_sector) (in_block_offset f.read_seek)) (remain f)

sys_read-more_blocks :
    (disk : Disk) (f : FileCached) (buf : Array ℕ) (length : ℕ)
    → f.read_seek + length ≤ f.file.file_size
    → nth_block f.read_seek < nth_block (f.read_seek + length)
    → let r = read_blocks disk f buf length in
      sys_read disk f buf length ≡ (
        success,
        r.0,
        memcpy
            (in_block_offset (length - remain f))
            0
            r.1
            (remain f + (length - remain f) / 508 * 508)
            (disk r.0.read_sector)
            0,
      )
unfolding sys_read
sys_read-more_blocks disk f buf length near more = rw (leb-true near, more-false more) refl

-- The bytes and the state after a read over several blocks.
abbrev whole_blocks : FileCached → ℕ → ℕ
whole_blocks f length = (length - remain f) / 508 * 508

read_blocks-BlocksRead :
    (disk : Disk) (f : FileCached) (buf : Array ℕ) (length : ℕ)
    → IsReadable disk f
    → BlocksRead
        ((length - remain f) / 508)
        (suc (nth_block f.read_seek))
        disk
        (moved f (next_sector (disk f.read_sector)) (f.read_seek + remain f))
        (memcpy (remain f) 0 buf 0 (disk f.read_sector) (in_block_offset f.read_seek))
        (remain f)
        f.file.first_sector
read_blocks-BlocksRead disk f buf length v =
    read_loop_lem ((length - remain f) / 508) (suc (nth_block f.read_seek)) disk
      (moved f (next_sector (disk f.read_sector)) (f.read_seek + remain f))
      (memcpy (remain f) 0 buf 0 (disk f.read_sector) (in_block_offset f.read_seek)) (remain f)
      f.file.first_sector
      (ap (λ (s : ℕ). next_sector (disk s)) v
        ∙ sym (seek_loop-suc (nth_block f.read_seek) disk f.file.first_sector))

read_blocks-moved :
    (disk : Disk) (f : FileCached) (buf : Array ℕ) (length : ℕ)
    → IsReadable disk f
    → nth_block f.read_seek < nth_block (f.read_seek + length)
    → (read_blocks disk f buf length).0
      ≡ moved f
          (seek_loop (nth_block (f.read_seek + length)) disk f.file.first_sector)
          (nth_block (f.read_seek + length) * 508)
read_blocks-moved disk f buf length v more =
    (read_blocks-BlocksRead disk f buf length v).0
    ∙ ap₂ (moved f) (chain_at disk f.file.first_sector (omega arith)) (omega arith)

more_blocks-bytes :
    (disk : Disk) (f : FileCached) (buf : Array ℕ) (length : ℕ)
    → IsReadable disk f
    → nth_block f.read_seek < nth_block (f.read_seek + length)
    → (j : ℕ) → j < length
    → let r = read_blocks disk f buf length in
      memcpy
        (in_block_offset (length - remain f))
        0
        r.1
        (remain f + whole_blocks f length)
        (disk r.0.read_sector)
        0
        j
      ≡ file_byte disk f.file.first_sector (f.read_seek + j)
more_blocks-bytes disk f buf length v more j h =
    let r = read_blocks disk f buf length in
    let last = disk r.0.read_sector in
    let count = in_block_offset (length - remain f) in
    let end = remain f + whole_blocks f length in
    let (_, before, blocks) = read_blocks-BlocksRead disk f buf length v in
    elim (dec_lt j (remain f)) [
      | yes first ↦
          memcpy-before count r.1 end last 0 j (omega arith)
          ∙ before j first
          ∙ memcpy-start (remain f) buf (disk f.read_sector) (in_block_offset f.read_seek) j first
          ∙ ap (λ (s : ℕ). disk s (in_block_offset f.read_seek + j)) v
          ∙ file_byte-at disk f.file.first_sector (f.read_seek + j) (nth_block f.read_seek)
              (in_block_offset f.read_seek + j) (omega arith) (omega arith)
      | no behind ↦ elim (dec_lt j end) [
        | yes whole ↦
            memcpy-before count r.1 end last 0 j whole
            ∙ ap r.1 (sub_add behind)
            ∙ blocks (j - remain f) (omega arith)
            ∙ file_byte-at disk f.file.first_sector (f.read_seek + j)
                (suc (nth_block f.read_seek) + (j - remain f) / 508) ((j - remain f) % 508)
                (omega arith) (omega arith)
        | no scattered ↦
            ap (memcpy count 0 r.1 end last 0) (sub_add scattered)
            ∙ memcpy-inside count r.1 end last 0 (j - end) (omega arith)
            ∙ ap (λ (g : FileCached). disk g.read_sector (0 + (j - end)))
                (read_blocks-moved disk f buf length v more)
            ∙ file_byte-at disk f.file.first_sector (f.read_seek + j)
                (nth_block (f.read_seek + length)) (0 + (j - end)) (omega arith) (omega arith)
      ]
    ]

-- The bytes of a file from its position on, or nothing.
abbrev pub ReadFrom : Disk → FileCached → Array ℕ → ℕ → FileResult × FileCached × Array ℕ → Type 0
ReadFrom disk f buf length (result, f', buf') =
    ((f.read_seek + length ≤ f.file.file_size)
      × (result ≡ success)
      × ((j : ℕ) → j < length → buf' j ≡ file_byte disk f.file.first_sector (f.read_seek + j))
      × IsReadable disk f'
      × (f'.read_seek ≡ (
          if nth_block (f.read_seek + length) == nth_block f.read_seek
          then f.read_seek + length
          else nth_block (f.read_seek + length) * 508)))
    ⊎ ((f.file.file_size < f.read_seek + length)
        × (result ≡ out_of_index)
        × (f' ≡ f)
        × (buf' ≡ buf))

-- As `sys_read-file_byte` below, while no sum overflows.
pub sys_read-ReadFrom :
    (disk : Disk) (f : FileCached) (buf : Array ℕ) (length : ℕ)
    → IsReadable disk f
    → ReadFrom disk f buf length (sys_read disk f buf length)
sys_read-ReadFrom disk f buf length v = elim (dec_le (f.read_seek + length) f.file.file_size) [
  | no far ↦ rw (sys_read-far disk f buf length (omega arith)) (inr (omega arith, refl, refl, refl))
  | yes near ↦ elim (dec_lt (nth_block f.read_seek) (nth_block (f.read_seek + length))) [
    | yes more ↦ rw (sys_read-more_blocks disk f buf length near more) (
        inl (
          near,
          refl,
          more_blocks-bytes disk f buf length v more,
          rw (read_blocks-moved disk f buf length v more)
              (chain_at disk f.file.first_sector (omega arith)),
          rw (read_blocks-moved disk f buf length v more) (ground arith),
        ))
    | no one ↦ rw (sys_read-one_block disk f buf length near (omega arith)) (
        inl (
          near,
          refl,
          λ j h.
              memcpy-start length buf (disk f.read_sector) (in_block_offset f.read_seek) j h
              ∙ ap (λ (s : ℕ). disk s (in_block_offset f.read_seek + j)) v
              ∙ file_byte-at disk f.file.first_sector (f.read_seek + j) (nth_block f.read_seek)
                  (in_block_offset f.read_seek + j) (omega arith) (omega arith),
          v ∙ chain_at disk f.file.first_sector (omega arith),
          ground arith,
        ))
  ]
]

pub sys_read-near :
    (disk : Disk) (f : FileCached) (buf : Array ℕ) (length : ℕ)
    → IsReadable disk f
    → f.read_seek + length ≤ f.file.file_size
    → let (result, f', buf') = sys_read disk f buf length in
      (result ≡ success)
      × ((j : ℕ) → j < length → buf' j ≡ file_byte disk f.file.first_sector (f.read_seek + j))
      × IsReadable disk f'
sys_read-near disk f buf length v near = elim (sys_read-ReadFrom disk f buf length v) [
  | inl (_, result, bytes, v', s) ↦ (result, bytes, v')
  | inr (far, _, _, _) ↦ absurd (omega arith)
]

pub sys_read-kept :
    (disk : Disk) (f : FileCached) (buf : Array ℕ) (length : ℕ)
    → let f' = (sys_read disk f buf length).1 in f' ≡ moved f f'.read_sector f'.read_seek
sys_read-kept disk f buf length = elim (dec_le (f.read_seek + length) f.file.file_size) [
  | no far ↦ rw (sys_read-far disk f buf length (omega arith)) refl
  | yes near ↦ elim (dec_lt (nth_block f.read_seek) (nth_block (f.read_seek + length))) [
    | yes more ↦ rw (sys_read-more_blocks disk f buf length near more) (
        read_loop-kept ((length - remain f) / 508) disk
          (moved f (next_sector (disk f.read_sector)) (f.read_seek + remain f))
          (memcpy (remain f) 0 buf 0 (disk f.read_sector) (in_block_offset f.read_seek)) (remain f))
    | no one ↦ rw (sys_read-one_block disk f buf length near (omega arith)) refl
  ]
]

-- Reading so many bytes from a position whose sector is right, with the size of the file and the end of the
-- bytes below 2 ^ 31, as `int`s: up to the end of the file, `sys_read` succeeds, the buffer
-- holds the bytes of the file from the position on, and the sector is again that of the new position,
-- which is the end of the bytes that were read if they lie in one block, and otherwise the start of
-- the last block that was touched. Beyond the end nothing is read and nothing changes.
pub sys_read-file_byte :
    (disk : Disk) (f : FileCached) (buf : Array ℕ) (length : ℕ)
    → IsReadable disk f
    → f.file.file_size < 2 ^ 31
    → f.read_seek + length < 2 ^ 31
    → ReadFrom disk f buf length (sys_read disk f buf length)
sys_read-file_byte disk f buf length v small in_int = sys_read-ReadFrom disk f buf length v

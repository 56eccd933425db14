-- ===== src/Fs/Io/Writing.antt =====
-- `covering_write` of kernel/fs/fs.c against the contents of the file and its chain of sectors.
use weg_os.Base.{
  ℕ, suc, ◌+◌, ◌-◌, ◌*◌, ◌/◌, ◌≤◌, ◌<◌, ◌≡◌, refl, sym, ap, ◌∙◌, arith, Array, false, ◌⊎◌, inl, inr,
  if◌then◌else◌, leb, ltb, ◌==◌,
}
use native.Mathlib.Decide.{dec_lt}
use weg_os.Disk.{Disk, memcpy}
use weg_os.Fs.{FileCached, nth_block, in_block_offset, next_sector}
use weg_os.Fs.Io.{covering_write, seek_loop, write_loop}
use weg_os.Fs.Io.Blocks.{file_byte, seek_loop-suc, chain_at, same-true, more-false}
use weg_os.Fs.Io.Put.{
  IsChain, put, memcpy-link, seek_loop-put, file_byte-put, file_byte-put_inside,
  file_byte-put_outside, IsChain-put,
}
use weg_os.Fs.Io.Seeking.{IsWritable}

-- What `covering_write` does to the disk: within a block, and up to the next one.
abbrev pub room : FileCached → ℕ
room f = 508 - in_block_offset f.write_seek

pub covering_write-one_block :
    (disk : Disk) (f : FileCached) (buf : Array ℕ) (length : ℕ)
    → nth_block (f.write_seek + length) ≡ nth_block f.write_seek
    → covering_write disk f buf length ≡ (
      put disk f.write_sector (in_block_offset f.write_seek) length buf 0,
      record f { write_seek = f.write_seek + length },
    )
unfolding covering_write
covering_write-one_block disk f buf length one = rw (same-true one) refl

pub covering_write-two_blocks :
    (disk : Disk) (f : FileCached) (buf : Array ℕ) (length : ℕ)
    → nth_block (f.write_seek + length) ≡ suc (nth_block f.write_seek)
    → let disk' = put disk f.write_sector (in_block_offset f.write_seek) (room f) buf 0 in
      let next = next_sector (disk f.write_sector) in
      covering_write disk f buf length ≡ (
        put disk' next 0 (length - room f) buf (room f),
        record f { write_sector = next; write_seek = f.write_seek + length },
      )
unfolding covering_write write_loop
covering_write-two_blocks disk f buf length two =
    rw (next_block, none_whole, link, zero_more, scattered, end) refl
  where
    next_block : (nth_block (f.write_seek + length) - nth_block f.write_seek == 0) ≡ false
    next_block = more-false (omega arith)

    link :
        next_sector (memcpy (room f) 0 (disk f.write_sector) (in_block_offset f.write_seek) buf 0)
        ≡ next_sector (disk f.write_sector)
    link =
        memcpy-link disk f.write_sector (in_block_offset f.write_seek) (room f) buf 0
          (disk f.write_sector) (omega arith)

    zero_more : room f + 0 ≡ room f
    zero_more = omega arith

    scattered : in_block_offset (length - room f) ≡ length - room f
    scattered = omega arith

    end : f.write_seek + room f + (length - room f) ≡ f.write_seek + length
    end = omega arith

    none_whole : (length - room f) / 508 ≡ 0
    none_whole = omega arith

-- The contents after a write, and the chain.
abbrev written : ℕ → ℕ → Array ℕ → ℕ → ℕ → ℕ
written seek length buf k old =
    if leb seek k then (if ltb k (seek + length) then buf (k - seek) else old) else old

one_block-bytes :
    (n : ℕ) (disk : Disk) (f : FileCached) (buf : Array ℕ) (length k : ℕ)
    → IsWritable disk f
    → IsChain n disk f.file.first_sector
    → nth_block (f.write_seek + length) ≡ nth_block f.write_seek
    → nth_block f.write_seek < n
    → nth_block k < n
    → file_byte
        (put disk f.write_sector (in_block_offset f.write_seek) length buf 0)
        f.file.first_sector
        k
      ≡ written f.write_seek length buf k (file_byte disk f.file.first_sector k)
one_block-bytes n disk f buf length k v chain one in_n in_k =
    file_byte-put disk f.write_sector (in_block_offset f.write_seek) length buf 0 n
      (nth_block f.write_seek) f.file.first_sector k chain in_n in_k v (omega arith)
    ∙ ap
        (λ (s : ℕ).
          if leb s k
          then (if ltb k (s + length)
              then buf (0 + (k - s))
              else file_byte disk f.file.first_sector k)
          else file_byte disk f.file.first_sector k)
        start
    ∙ ap
        (λ (i : ℕ).
          if leb f.write_seek k
          then (if ltb k (f.write_seek + length)
              then buf i
              else file_byte disk f.file.first_sector k)
          else file_byte disk f.file.first_sector k)
        zero_more
  where
    start : nth_block f.write_seek * 508 + in_block_offset f.write_seek ≡ f.write_seek
    start = omega arith

    zero_more : 0 + (k - f.write_seek) ≡ k - f.write_seek
    zero_more = omega arith

pub written-inside :
    (seek length : ℕ) (buf : Array ℕ) (k old i : ℕ)
    → seek ≤ k
    → k < seek + length
    → i ≡ k - seek
    → buf i ≡ written seek length buf k old
written-inside seek length buf k old i low high e = ap buf e ∙ ground arith

pub written-outside :
    (seek length : ℕ) (buf : Array ℕ) (k old : ℕ)
    → (k < seek) ⊎ (seek + length ≤ k)
    → old ≡ written seek length buf k old
written-outside seek length buf k old out = ground arith

module _ (n : ℕ) (disk : Disk) (f : FileCached) (buf : Array ℕ) (length k : ℕ)
    (v : IsWritable disk f) (chain : IsChain n disk f.file.first_sector)
    (two : nth_block (f.write_seek + length) ≡ suc (nth_block f.write_seek))
    (in_n : suc (nth_block f.write_seek) < n) (in_k : nth_block k < n) where
  abbrev first_put : Disk
  first_put = put disk f.write_sector (in_block_offset f.write_seek) (room f) buf 0

  next_in_chain :
      next_sector (disk f.write_sector)
      ≡ seek_loop (suc (nth_block f.write_seek)) first_put f.file.first_sector
  next_in_chain =
      ap (λ (s : ℕ). next_sector (disk s)) v
      ∙ sym (seek_loop-suc (nth_block f.write_seek) disk f.file.first_sector)
      ∙ sym (
          seek_loop-put disk f.write_sector (in_block_offset f.write_seek) (room f) buf 0
            (suc (nth_block f.write_seek)) f.file.first_sector (omega arith))

  -- The contents after the first of two puts, and after both.
  first_put-bytes :
      k < suc (nth_block f.write_seek) * 508
      → file_byte first_put f.file.first_sector k
        ≡ written f.write_seek length buf k (file_byte disk f.file.first_sector k)
  first_put-bytes earlier = elim (dec_lt k f.write_seek) [
    | yes before ↦
        file_byte-put_outside disk f.write_sector (in_block_offset f.write_seek) (room f) buf 0 n
          (nth_block f.write_seek) f.file.first_sector k chain (omega arith) in_k v (omega arith)
          (inl (omega arith))
        ∙ written-outside f.write_seek length buf k _ (inl before)
    | no inside ↦
        file_byte-put_inside disk f.write_sector (in_block_offset f.write_seek) (room f) buf 0 n
          (nth_block f.write_seek) f.file.first_sector k chain (omega arith) in_k v (omega arith)
          (omega arith) (omega arith)
        ∙ written-inside f.write_seek length buf k _ _ (omega arith) (omega arith) (omega arith)
  ]

  first_put-behind :
      f.write_seek + length ≤ k
      → suc (nth_block f.write_seek) * 508 ≤ k
      → file_byte first_put f.file.first_sector k
        ≡ written f.write_seek length buf k (file_byte disk f.file.first_sector k)
  first_put-behind behind second =
      file_byte-put_outside disk f.write_sector (in_block_offset f.write_seek) (room f) buf 0 n
        (nth_block f.write_seek) f.file.first_sector k chain (omega arith) in_k v (omega arith)
        (inr (omega arith))
      ∙ written-outside f.write_seek length buf k _ (inr behind)

  two_blocks-bytes :
      file_byte
        (put first_put (next_sector (disk f.write_sector)) 0 (length - room f) buf (room f))
        f.file.first_sector
        k
      ≡ written f.write_seek length buf k (file_byte disk f.file.first_sector k)
  two_blocks-bytes =
      let chain' =
        IsChain-put disk f.write_sector (in_block_offset f.write_seek) (room f) buf 0 n
          f.file.first_sector (omega arith) chain in
      let outside =
        file_byte-put_outside first_put (next_sector (disk f.write_sector)) 0 (length - room f) buf
          (room f) n (suc (nth_block f.write_seek)) f.file.first_sector k chain' in_n in_k
          next_in_chain (omega arith) in
      elim (dec_lt k (suc (nth_block f.write_seek) * 508)) [
        | yes earlier ↦ outside (inl (omega arith)) ∙ first_put-bytes earlier
        | no second ↦ elim (dec_lt k (f.write_seek + length)) [
          | no behind ↦ outside (inr (omega arith)) ∙ first_put-behind (omega arith) (omega arith)
          | yes inside ↦
              file_byte-put_inside first_put (next_sector (disk f.write_sector)) 0 (length - room f)
                buf (room f) n (suc (nth_block f.write_seek)) f.file.first_sector k chain' in_n in_k
                next_in_chain (omega arith) (omega arith) (omega arith)
              ∙ written-inside f.write_seek length buf k _ _ (omega arith) (omega arith)
                  (omega arith)
        ]
      ]

-- The first n blocks of a file with bytes written at its position, and its state.
abbrev pub Written : ℕ → Disk → FileCached → Array ℕ → ℕ → Disk × FileCached → Type 0
Written n disk f buf length (disk', f') =
    ((k : ℕ)
      → nth_block k < n
      → file_byte disk' f.file.first_sector k ≡ (
          if leb f.write_seek k
          then (if ltb k (f.write_seek + length)
              then buf (k - f.write_seek)
              else file_byte disk f.file.first_sector k)
          else file_byte disk f.file.first_sector k))
    × ((i : ℕ) → seek_loop i disk' f.file.first_sector ≡ seek_loop i disk f.file.first_sector)
    × IsWritable disk' f'
    × (f'.write_seek ≡ f.write_seek + length)
    × (f'.file ≡ f.file)

-- A write from a position whose sector is right, over at most the block of the position and the next one,
-- with a chain of n different sectors that reaches past the bytes: every byte of the first n blocks is
-- the written one inside the range and the old one outside of it, no link of the chain changes, the
-- position is the end of the range, its sector is again the right one, and the entry of the file stays.
pub covering_write-file_byte :
    (n : ℕ) (disk : Disk) (f : FileCached) (buf : Array ℕ) (length : ℕ)
    → IsWritable disk f
    → IsChain n disk f.file.first_sector
    → nth_block (f.write_seek + length) < n
    → nth_block (f.write_seek + length) ≤ suc (nth_block f.write_seek)
    → Written n disk f buf length (covering_write disk f buf length)
covering_write-file_byte n disk f buf length v chain in_n near =
    elim (dec_lt (nth_block f.write_seek) (nth_block (f.write_seek + length))) [
      | no one ↦ rw (covering_write-one_block disk f buf length (omega arith)) (
        λ k in_k. one_block-bytes n disk f buf length k v chain (omega arith) (omega arith) in_k,
        λ i. one_block-link i (omega arith),
        v
            ∙ chain_at disk f.file.first_sector (omega arith)
            ∙ sym (one_block-link (nth_block (f.write_seek + length)) (omega arith)),
        refl,
        refl,
      )
      | yes two ↦ rw (covering_write-two_blocks disk f buf length (omega arith)) (
        λ k in_k. two_blocks-bytes n disk f buf length k v chain (omega arith) (omega arith) in_k,
        λ i. two_blocks-link i (omega arith),
        ap (λ (s : ℕ). next_sector (disk s)) v
            ∙ sym (seek_loop-suc (nth_block f.write_seek) disk f.file.first_sector)
            ∙ chain_at disk f.file.first_sector (omega arith)
            ∙ sym (two_blocks-link (nth_block (f.write_seek + length)) (omega arith)),
        refl,
        refl,
      )
    ]
  where
    one_block-link :
        (i : ℕ)
        → nth_block (f.write_seek + length) ≡ nth_block f.write_seek
        → seek_loop i
            (put disk f.write_sector (in_block_offset f.write_seek) length buf 0)
            f.file.first_sector
          ≡ seek_loop i disk f.file.first_sector
    one_block-link i one =
        seek_loop-put disk f.write_sector (in_block_offset f.write_seek) length buf 0 i
          f.file.first_sector (omega arith)

    two_blocks-link :
        (i : ℕ)
        → nth_block (f.write_seek + length) ≡ suc (nth_block f.write_seek)
        → seek_loop i
            (put
              (put disk f.write_sector (in_block_offset f.write_seek) (room f) buf 0)
              (next_sector (disk f.write_sector))
              0
              (length - room f)
              buf
              (room f))
            f.file.first_sector
          ≡ seek_loop i disk f.file.first_sector
    two_blocks-link i two =
        seek_loop-put (put disk f.write_sector (in_block_offset f.write_seek) (room f) buf 0)
          (next_sector (disk f.write_sector)) 0 (length - room f) buf (room f) i f.file.first_sector
          (omega arith)
        ∙ seek_loop-put disk f.write_sector (in_block_offset f.write_seek) (room f) buf 0 i
            f.file.first_sector (omega arith)

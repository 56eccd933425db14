-- ===== src/Fs/Io/Frame.antt =====
-- What the writes of kernel/fs/fs.c leave alone: the sectors outside of a chain, and the place of a file
-- in its directory.
use weg_os.Base.{ℕ, suc, ◌+◌, ◌≤◌, ◌<◌, ◌≡◌, ◌≢◌, refl, sym, ap, ◌∙◌, arith, Array, update_ne}
use native.Mathlib.Decide.{dec_lt}
use weg_os.Disk.{Disk}
use weg_os.Fs.{FileCached, nth_block, in_block_offset, next_sector}
use weg_os.Fs.Io.{covering_write, seek_loop}
use weg_os.Fs.Io.Blocks.{file_byte, seek_loop-suc, seek_loop-same}
use weg_os.Fs.Io.Put.{IsChain, put}
use weg_os.Fs.Io.Seeking.{IsWritable}
use weg_os.Fs.Io.Writing.{room, covering_write-one_block, covering_write-two_blocks}

-- A sector that is not among the first n of a chain.
abbrev pub IsOutside : ℕ → Disk → ℕ → ℕ → Type 0
IsOutside n disk first s = (i : ℕ) → i < n → s ≢ seek_loop i disk first

-- The same place in a directory.
abbrev pub SamePath : FileCached → FileCached → Type 0
SamePath f f' =
    (f'.parent_dir_name ≡ f.parent_dir_name)
    × (f'.has_parent ≡ f.has_parent)
    × (f'.index_in_parent_dir ≡ f.index_in_parent_dir)

-- Only sectors of the chain change, and the place of the file stays.
abbrev pub Framed : ℕ → Disk → FileCached → Disk × FileCached → Type 0
Framed n disk f (disk', f') =
    ((s : ℕ) → IsOutside n disk f.file.first_sector s → disk' s ≡ disk s) × SamePath f f'

-- A write over at most two blocks of a chain of n sectors.
pub covering_write-Framed :
    (n : ℕ) (disk : Disk) (f : FileCached) (buf : Array ℕ) (length : ℕ)
    → IsWritable disk f
    → nth_block (f.write_seek + length) < n
    → nth_block (f.write_seek + length) ≤ suc (nth_block f.write_seek)
    → Framed n disk f (covering_write disk f buf length)
covering_write-Framed n disk f buf length v in_n near =
    elim (dec_lt (nth_block f.write_seek) (nth_block (f.write_seek + length))) [
      | no one ↦ rw (covering_write-one_block disk f buf length (omega arith)) (
        λ s out.
            update_ne disk f.write_sector s _
              (λ e. out (nth_block f.write_seek) (omega arith) (sym e ∙ v)),
        (refl, refl, refl),
      )
      | yes two ↦ rw (covering_write-two_blocks disk f buf length (omega arith)) (
        λ s out.
            update_ne (put disk f.write_sector (in_block_offset f.write_seek) (room f) buf 0)
              (next_sector (disk f.write_sector)) s _
              (λ e. out (suc (nth_block f.write_seek)) (omega arith) (sym e ∙ next))
            ∙ update_ne disk f.write_sector s _
                (λ e. out (nth_block f.write_seek) (omega arith) (sym e ∙ v)),
        (refl, refl, refl),
      )
    ]
  where
    next :
        next_sector (disk f.write_sector)
        ≡ seek_loop (suc (nth_block f.write_seek)) disk f.file.first_sector
    next =
        ap (λ (s : ℕ). next_sector (disk s)) v
        ∙ sym (seek_loop-suc (nth_block f.write_seek) disk f.file.first_sector)

-- A disk that has the sectors of a chain as before has the chain and its contents as before.
module _ (n : ℕ) (disk disk' : Disk) (first : ℕ)
    (same : (i : ℕ) → i < n → disk' (seek_loop i disk first) ≡ disk (seek_loop i disk first)) where
  pub seek_loop-kept : (i : ℕ) → i ≤ n → seek_loop i disk' first ≡ seek_loop i disk first
  seek_loop-kept i h =
      seek_loop-same i disk disk' first (λ j in_i. ap next_sector (same j (omega arith)))

  pub file_byte-kept : (k : ℕ) → nth_block k < n → file_byte disk' first k ≡ file_byte disk first k
  file_byte-kept k h =
      ap (λ (s : ℕ). disk' s (in_block_offset k)) (seek_loop-kept (nth_block k) (omega arith))
      ∙ ap (λ (a : Array ℕ). a (in_block_offset k)) (same (nth_block k) h)

  pub IsChain-kept : IsChain n disk first → IsChain n disk' first
  IsChain-kept chain i j in_i in_j e =
      chain i j in_i in_j
        (sym (seek_loop-kept i (omega arith)) ∙ e ∙ seek_loop-kept j (omega arith))

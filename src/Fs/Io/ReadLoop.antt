-- ===== src/Fs/Io/ReadLoop.antt =====
-- The loop of `sys_read` in kernel/fs/fs.c over whole blocks.
use weg_os.Base.{
  ℕ, zero, suc, ◌+◌, ◌-◌, ◌*◌, ◌/◌, ◌%◌, ◌<◌, ◌≡◌, refl, sym, ap, ap₂, ◌∙◌, arith, Array,
}
use native.Mathlib.Decide.{dec_lt}
use weg_os.Base.Bytes.{load32}
use weg_os.Disk.{Disk, read_into}
use weg_os.Disk.Copy.{read_into-bytes, add_sub}
use weg_os.Fs.{FileCached, next_sector}
use weg_os.Fs.Io.Blocks.{seek_loop-suc, same_byte, chain_at}
use weg_os.Fs.Io.{read_loop, seek_loop}

-- The link of a block that has just been read into a buffer.
pub next_sector-read_into :
    (disk : Disk) (sector : ℕ) (buf : Array ℕ) (position : ℕ)
    → next_sector (λ j. read_into disk sector buf position (position + j))
      ≡ next_sector (disk sector)
unfolding load32
next_sector-read_into disk sector buf position = ground (
  arith,
  read_into-bytes disk sector buf position (position + 508),
  read_into-bytes disk sector buf position (position + (508 + 1)),
  read_into-bytes disk sector buf position (position + (508 + 2)),
  read_into-bytes disk sector buf position (position + (508 + 3)),
)

-- The state with the position that reading has reached.
abbrev pub moved : FileCached → ℕ → ℕ → FileCached
moved f sector seek = record f { read_sector = sector; read_seek = seek }

pub linked :
    (disk : Disk) (f : FileCached) (buf : Array ℕ) (position b first : ℕ)
    → f.read_sector ≡ seek_loop b disk first
    → next_sector (λ j. read_into disk f.read_sector buf position (position + j))
      ≡ seek_loop (suc b) disk first
linked disk f buf position b first e =
    next_sector-read_into disk f.read_sector buf position
    ∙ ap (λ (s : ℕ). next_sector (disk s)) e
    ∙ sym (seek_loop-suc b disk first)

-- What the buffer and the state are after the loop, from block b on.
abbrev pub BlocksRead : ℕ → ℕ → Disk → FileCached → Array ℕ → ℕ → ℕ → Type 0
BlocksRead n b disk f buf position first =
    let r = read_loop n disk f buf position in
    (r.0 ≡ moved f (seek_loop (b + n) disk first) (f.read_seek + n * 508))
    × ((j : ℕ) → j < position → r.1 j ≡ buf j)
    × ((j : ℕ)
        → j < n * 508
        → r.1 (position + j) ≡ disk (seek_loop (b + j / 508) disk first) (j % 508))

-- The buffer and the state after one block.
abbrev pub read_block : Disk → FileCached → Array ℕ → ℕ → FileCached
read_block disk f buf position =
    moved f (next_sector (λ j. read_into disk f.read_sector buf position (position + j)))
      (f.read_seek + 508)

pub BlocksRead-suc :
    (n b : ℕ) (disk : Disk) (f : FileCached) (buf : Array ℕ) (position first : ℕ)
    → f.read_sector ≡ seek_loop b disk first
    → BlocksRead n
        (suc b)
        disk
        (read_block disk f buf position)
        (read_into disk f.read_sector buf position)
        (position + 508)
        first
    → BlocksRead (suc n) b disk f buf position first
unfolding read_loop
BlocksRead-suc n b disk f buf position first e (state, before, blocks) = (
  state ∙ ap₂ (moved f) (chain_at disk first (omega arith)) (omega arith),
  λ j h. before j (omega arith) ∙ ground (arith, read_into-bytes disk f.read_sector buf position j),
  λ j h. elim (dec_lt j 508) [
    | yes here ↦
        before (position + j) (omega arith)
        ∙ block j here
        ∙ same_byte disk (e ∙ chain_at disk first (omega arith)) (omega arith)
    | no later ↦
        ap (λ (x : ℕ). (read_loop (suc n) disk f buf position).1 x) (moved_on j later)
        ∙ blocks (j - 508) (omega arith)
        ∙ same_byte disk (chain_at disk first (omega arith)) (omega arith)
  ],
)
  where
    block :
        (j : ℕ)
        → j < 508
        → read_into disk f.read_sector buf position (position + j) ≡ disk f.read_sector j
    block j h = ground (
      arith,
      read_into-bytes disk f.read_sector buf position (position + j),
      ap (disk f.read_sector) (add_sub position j),
    )

    moved_on : (j : ℕ) → ¬ (j < 508) → position + j ≡ position + 508 + (j - 508)
    moved_on j h = omega arith

pub read_loop_lem :
    (n b : ℕ) (disk : Disk) (f : FileCached) (buf : Array ℕ) (position first : ℕ)
    → f.read_sector ≡ seek_loop b disk first
    → BlocksRead n b disk f buf position first
unfolding read_loop
read_loop_lem zero b disk f buf position first e = (
  ap₂ (moved f) (e ∙ ap (λ (k : ℕ). seek_loop k disk first) (omega arith)) (omega arith),
  λ j h. refl,
  λ j h. absurd (omega arith),
)
read_loop_lem (suc n) b disk f buf position first e =
    BlocksRead-suc n b disk f buf position first e (
      read_loop_lem n (suc b) disk (read_block disk f buf position)
        (read_into disk f.read_sector buf position) (position + 508) first
        (linked disk f buf position b first e))

-- `sys_read` changes nothing in the state of the file but the position to read from, and its sector.
pub read_loop-kept :
    (n : ℕ) (disk : Disk) (f : FileCached) (buf : Array ℕ) (position : ℕ)
    → let f' = (read_loop n disk f buf position).0 in f' ≡ moved f f'.read_sector f'.read_seek
unfolding read_loop
read_loop-kept zero disk f buf position = refl
read_loop-kept (suc n) disk f buf position =
    read_loop-kept n disk (read_block disk f buf position)
      (read_into disk f.read_sector buf position) (position + 508)

-- ===== src/Fs/Io/Blocks.antt =====
-- The chains of blocks that the functions of kernel/fs/fs.c follow, and the contents they hold.
use weg_os.Base.{
  ℕ, zero, suc, ◌+◌, ◌-◌, ◌*◌, ◌≤◌, ◌<◌, ◌≡◌, refl, ap, ap₂, ◌∙◌, arith, true, false, leb, ◌==◌,
}
use weg_os.Disk.{Disk}
use weg_os.Fs.{FileCached, nth_block, in_block_offset, next_sector}
use weg_os.Fs.Io.{seek_loop}

-- Block n of the chain that starts at a sector, and byte k of the contents that the chain holds.
abbrev pub file_byte : Disk → ℕ → ℕ → ℕ
file_byte disk first k = disk (seek_loop (nth_block k) disk first) (in_block_offset k)

-- The sector of a position is the one that the chain leads to.
abbrev pub IsReadable : Disk → FileCached → Type 0
IsReadable disk f = f.read_sector ≡ seek_loop (nth_block f.read_seek) disk f.file.first_sector

pub seek_loop-suc :
    (n : ℕ) (disk : Disk) (sector : ℕ)
    → seek_loop (suc n) disk sector ≡ next_sector (disk (seek_loop n disk sector))
unfolding seek_loop
seek_loop-suc zero disk sector = refl
seek_loop-suc (suc n) disk sector = seek_loop-suc n disk (next_sector (disk sector))

pub leb-true : {m n : ℕ} → m ≤ n → leb m n ≡ true
leb-true h = ground arith

pub leb-false : {m n : ℕ} → n < m → leb m n ≡ false
leb-false h = ground arith

-- The rest of an index behind a start.
pub sub_add : {m n : ℕ} → ¬ (n < m) → n ≡ m + (n - m)
sub_add h = omega arith

pub same-true : {m n : ℕ} → m ≡ n → (m - n == 0) ≡ true
same-true e = ground arith

pub more-false : {m n : ℕ} → n < m → (m - n == 0) ≡ false
more-false h = ground arith

pub same_byte : (disk : Disk) {s t i j : ℕ} → s ≡ t → i ≡ j → disk s i ≡ disk t j
same_byte disk e d = ap₂ (λ (x y : ℕ). disk x y) e d

pub chain_at :
    (disk : Disk) (first : ℕ) {m n : ℕ} → m ≡ n → seek_loop m disk first ≡ seek_loop n disk first
chain_at disk first e = ap (λ (k : ℕ). seek_loop k disk first) e

pub file_byte-at :
    (disk : Disk) (first k b i : ℕ)
    → k ≡ b * 508 + i
    → i < 508
    → disk (seek_loop b disk first) i ≡ file_byte disk first k
file_byte-at disk first k b i e h = same_byte disk (chain_at disk first (omega arith)) (omega arith)

-- A chain before the sectors whose links change.
pub seek_loop-same :
    (n : ℕ) (disk disk' : Disk) (first : ℕ)
    → ((i : ℕ)
        → i < n
        → next_sector (disk' (seek_loop i disk first))
          ≡ next_sector (disk (seek_loop i disk first)))
    → seek_loop n disk' first ≡ seek_loop n disk first
unfolding seek_loop
seek_loop-same zero disk disk' first same = refl
seek_loop-same (suc n) disk disk' first same =
    ap (seek_loop n disk') (same 0 (omega arith))
    ∙ seek_loop-same n disk disk' (next_sector (disk first)) (λ i h. same (suc i) (omega arith))

-- ===== src/Disk/Copy.antt =====
-- Which bytes the copies of `Disk` write.
use weg_os.Base.{
  ℕ, zero, suc, ◌+◌, ◌-◌, ◌≡◌, ap, ◌≤◌, ◌<◌, arith, leb, ltb, if◌then◌else◌, Array, update,
}
use weg_os.Disk.{Disk, memcpy, read_into, sector_size}

pub add_sub : (m n : ℕ) → m + n - m ≡ n
add_sub m n = omega arith

pub memcpy-bytes :
    (rounds i : ℕ) (dest : Array ℕ) (d : ℕ) (source : Array ℕ) (s j : ℕ)
    → memcpy rounds i dest d source s j ≡ (
        if leb (d + i) j
        then (if ltb j (d + i + rounds) then source (s + (j - d)) else dest j)
        else dest j)
unfolding memcpy
memcpy-bytes zero i dest d source s j = ground arith
memcpy-bytes (suc rounds) i dest d source s j =
    ground (arith, memcpy-bytes rounds (i + 1) (update dest (d + i) (source (s + i))) d source s j)

-- A byte of the destination inside, before and behind the copied part.
pub memcpy-inside :
    (rounds : ℕ) (dest : Array ℕ) (d : ℕ) (source : Array ℕ) (s j : ℕ)
    → j < rounds
    → memcpy rounds 0 dest d source s (d + j) ≡ source (s + j)
memcpy-inside rounds dest d source s j h =
    ground (arith, memcpy-bytes rounds 0 dest d source s (d + j), index)
  where
    index : source (s + (d + j - d)) ≡ source (s + j)
    index = ap (λ (x : ℕ). source (s + x)) (add_sub d j)

pub memcpy-start :
    (rounds : ℕ) (dest source : Array ℕ) (s j : ℕ)
    → j < rounds
    → memcpy rounds 0 dest 0 source s j ≡ source (s + j)
memcpy-start rounds dest source s j h = ground (arith, memcpy-bytes rounds 0 dest 0 source s j)

pub memcpy-before :
    (rounds : ℕ) (dest : Array ℕ) (d : ℕ) (source : Array ℕ) (s j : ℕ)
    → j < d
    → memcpy rounds 0 dest d source s j ≡ dest j
memcpy-before rounds dest d source s j h = ground (arith, memcpy-bytes rounds 0 dest d source s j)

pub memcpy-behind :
    (rounds : ℕ) (dest : Array ℕ) (d : ℕ) (source : Array ℕ) (s j : ℕ)
    → d + rounds ≤ j
    → memcpy rounds 0 dest d source s j ≡ dest j
memcpy-behind rounds dest d source s j h = ground (arith, memcpy-bytes rounds 0 dest d source s j)

pub read_into-bytes :
    (disk : Disk) (sector : ℕ) (buf : Array ℕ) (position j : ℕ)
    → read_into disk sector buf position j ≡ (
        if leb position j
        then (if ltb j (position + sector_size) then disk sector (j - position) else buf j)
        else buf j)
unfolding read_into
read_into-bytes disk sector buf position j =
    ground (arith, memcpy-bytes sector_size 0 buf position (disk sector) 0 j)

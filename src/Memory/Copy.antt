-- ===== src/Memory/Copy.antt =====
-- `copy_pts` of kernel/mm/memory.c: a page directory in another page.
use weg_os.Base.{
  ℕ, zero, suc, ◌+◌, ◌-◌, ◌*◌, ◌%◌, ◌^◌, ◌≤◌, ◌<◌, ◌≡◌, ◌⊎◌, ap, ◌∙◌, arith, Array, update, ltb,
  leb, if◌then◌else◌,
}
use native.Mathlib.Decide.{ℕ_discrete}
use weg_os.Base.Bytes.{load32}
use weg_os.Memory.{Memory, page_size, copy_loop, copy_pts}

copy_loop-bytes :
    (rounds i : ℕ) (mem : Array ℕ) (dest source j : ℕ)
    → source + page_size ≤ dest
    → dest + page_size ≤ 2 ^ 32
    → i + rounds ≤ page_size
    → copy_loop rounds i mem dest source j ≡ (
        if leb (dest + i) j
        then (if ltb j (dest + (i + rounds)) then mem (source + (j - dest)) else mem j)
        else mem j)
unfolding copy_loop
copy_loop-bytes zero i mem dest source j apart top size = ground arith
copy_loop-bytes (suc rounds) i mem dest source j apart top size =
    let at : (dest + i) % 2 ^ 32 ≡ dest + i = omega arith in
    let from : (source + i) % 2 ^ 32 ≡ source + i = omega arith in
    rw (at, from)
      (copy_loop-bytes rounds (i + 1) (update mem (dest + i) (mem (source + i))) dest source j apart
          top (omega arith)
        ∙ elim (ℕ_discrete j (dest + i)) [
          | yes here ↦
              let e : mem (source + i) ≡ mem (source + (j - dest)) = ap mem (omega arith) in
              ground (arith, e)
          | no other ↦ ground arith
        ])

-- A page that is copied to one behind it is there byte for byte, and no other byte of memory changes.
pub copy_pts-bytes :
    (m : Memory) (from_pd to_pd j : ℕ)
    → from_pd + page_size ≤ to_pd
    → to_pd + page_size ≤ 2 ^ 32
    → (copy_pts m from_pd to_pd).mem j ≡ (
        if leb to_pd j
        then (if ltb j (to_pd + page_size) then m.mem (from_pd + (j - to_pd)) else m.mem j)
        else m.mem j)
unfolding copy_pts
copy_pts-bytes m from_pd to_pd j apart top =
    copy_loop-bytes page_size 0 m.mem to_pd from_pd j apart top (omega arith) ∙ ground arith

-- Words of the copy, and words elsewhere.
pub copy_pts-word :
    (m : Memory) (from_pd to_pd k : ℕ)
    → from_pd + page_size ≤ to_pd
    → to_pd + page_size ≤ 2 ^ 32
    → k < 1024
    → load32 (copy_pts m from_pd to_pd).mem (to_pd + 4 * k) ≡ load32 m.mem (from_pd + 4 * k)
unfolding load32
copy_pts-word m from_pd to_pd k apart top small =
    let byte : (j x : ℕ)
        → to_pd ≤ j
        → j < to_pd + page_size
        → x + to_pd ≡ j + from_pd
        → (copy_pts m from_pd to_pd).mem j ≡ m.mem x =
      λ j x low high same.
        let e : m.mem (from_pd + (j - to_pd)) ≡ m.mem x = ap m.mem (omega arith) in
        ground (arith, copy_pts-bytes m from_pd to_pd j apart top, e) in
    let p : ℕ = to_pd + 4 * k in
    let q : ℕ = from_pd + 4 * k in
    omega (
      arith,
      byte p q (omega arith) (omega arith) (omega arith),
      byte (p + 1) (q + 1) (omega arith) (omega arith) (omega arith),
      byte (p + 2) (q + 2) (omega arith) (omega arith) (omega arith),
      byte (p + 3) (q + 3) (omega arith) (omega arith) (omega arith),
    )

pub copy_pts-other :
    (m : Memory) (from_pd to_pd a : ℕ)
    → from_pd + page_size ≤ to_pd
    → to_pd + page_size ≤ 2 ^ 32
    → (a + 4 ≤ to_pd) ⊎ (to_pd + page_size ≤ a)
    → load32 (copy_pts m from_pd to_pd).mem a ≡ load32 m.mem a
unfolding load32
copy_pts-other m from_pd to_pd a apart top far = ground (
  arith,
  far,
  copy_pts-bytes m from_pd to_pd a apart top,
  copy_pts-bytes m from_pd to_pd (a + 1) apart top,
  copy_pts-bytes m from_pd to_pd (a + 2) apart top,
  copy_pts-bytes m from_pd to_pd (a + 3) apart top,
)

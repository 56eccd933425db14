-- ===== src/Fs/Files/Chain.antt =====
-- `file_expand` of kernel/fs/fs.c: the chain of a file that gets a block more.
use weg_os.Base.{
  ℕ, zero, suc, ◌+◌, ◌*◌, ◌/◌, ◌^◌, ◌≤◌, ◌<◌, ◌≡◌, ◌≢◌, refl, sym, subst, ap, ◌∙◌, arith, Array,
  update, update_self, update_ne, true, false, Option, some, ◌⊎◌, inl, inr, ◌==◌, ==_of_ne, ==_refl,
  if◌then◌else◌,
}
use mathlib.Core.Bool.{true≢false}
use native.Mathlib.Decide.{ℕ_discrete, dec_lt}
use weg_os.Base.Bytes.{IsBytes, load32-store32_self, store32-apart}
use weg_os.BitAllocation.{Bitmap, bit_alloc}
use weg_os.BitAllocation.Search.{bit_at, Allocated, bit_alloc-Allocated, bit_alloc-IsBytes}
use weg_os.Disk.{Disk}
use weg_os.Fs.{File, FileSystem, next_sector, set_next_sector, no_sector}
use weg_os.Fs.Files.{expand_loop, append_block, file_alloc}
use weg_os.Fs.Io.{seek_loop}
use weg_os.Fs.Io.Put.{IsChain}
use weg_os.Fs.Io.Blocks.{seek_loop-suc, seek_loop-same}

-- The chain of a file has suc n different blocks; it ends at `last_sector`; its sectors are taken.
abbrev pub IsFileChain : ℕ → FileSystem → File → Type 0
IsFileChain n fs file =
    IsChain (suc n) fs.disk file.first_sector
    × (file.last_sector ≡ seek_loop n fs.disk file.first_sector)
    × (next_sector (fs.disk file.last_sector) ≡ no_sector)
    × ((i : ℕ) → i ≤ n → bit_at fs.alloc_bitmap.bits (seek_loop i fs.disk file.first_sector) ≡ true)

-- A link put into a sector.
abbrev pub set_link : Disk → ℕ → ℕ → Disk
set_link disk sector link = update disk sector (set_next_sector (disk sector) link)

next_sector-set_link_self :
    (disk : Disk) (sector link : ℕ)
    → link < 2 ^ 32
    → next_sector (set_link disk sector link sector) ≡ link
next_sector-set_link_self disk sector link h =
    ap next_sector (update_self disk sector _) ∙ load32-store32_self (disk sector) 508 link h

next_sector-set_link_ne :
    (disk : Disk) (sector link s : ℕ)
    → sector ≢ s
    → next_sector (set_link disk sector link s) ≡ next_sector (disk s)
next_sector-set_link_ne disk sector link s h = ap next_sector (update_ne disk sector s _ h)

-- The contents of the blocks do not change with a link.
set_link-byte :
    (disk : Disk) (sector link s j : ℕ) → j < 508 → set_link disk sector link s j ≡ disk s j
set_link-byte disk sector link s j h = elim (ℕ_discrete sector s) [
  | no other ↦ ap (λ (a : Array ℕ). a j) (update_ne disk sector s _ other)
  | yes same ↦
      ap (λ (x : ℕ). set_link disk sector link x j) (sym same)
      ∙ ap (λ (a : Array ℕ). a j) (update_self disk sector _)
      ∙ store32-apart (disk sector) 508 j link (inl h)
      ∙ ap (λ (x : ℕ). disk x j) same
]

-- What `append_block` does when a sector is found.
pub append_block-some :
    (fs : FileSystem) (file : File) (s : ℕ)
    → (bit_alloc fs.alloc_bitmap false).0 ≡ some s
    → append_block fs file ≡ (
      record {
        disk = set_link (set_link fs.disk file.last_sector s) s no_sector;
        alloc_bitmap = (bit_alloc fs.alloc_bitmap false).1;
      },
      record file { last_sector = s },
    )
unfolding file_alloc
append_block-some fs file s e = rw e refl

-- The sector that was found was free, and is the only one to be taken.
pub alloc-some :
    (m : Bitmap) (s : ℕ)
    → IsBytes m.bits
    → (bit_alloc m false).0 ≡ some s
    → (bit_at m.bits s ≡ false)
      × ((k : ℕ) → bit_at (bit_alloc m false).1.bits k ≡ (if s == k then true else bit_at m.bits k))
alloc-some m s h e =
    let facts =
      subst
        (λ (found : Option ℕ).
          Allocated (m.size / 8 * 8) m.bits false (found, (bit_alloc m false).1.bits))
        e (bit_alloc-Allocated m false h).0 in
    (facts.1, facts.3)

module _ (n : ℕ) (fs : FileSystem) (file : File) (s : ℕ) (small : s < 2 ^ 32)
    (bytes : IsBytes fs.alloc_bitmap.bits) (found : (bit_alloc fs.alloc_bitmap false).0 ≡ some s)
    (ok : IsFileChain n fs file) where
  abbrev pub linked : Disk
  linked = set_link (set_link fs.disk file.last_sector s) s no_sector

  abbrev pub block : ℕ → ℕ
  block i = seek_loop i fs.disk file.first_sector

  not_in_chain : (i : ℕ) → i ≤ n → s ≢ block i
  not_in_chain i h e =
      let (chain, last, end, taken) = ok in
      true≢false (
        sym (taken i h)
        ∙ ap (bit_at fs.alloc_bitmap.bits) (sym e)
        ∙ (alloc-some fs.alloc_bitmap s bytes found).0)

  pub linked-before : (i : ℕ) → i ≤ n → seek_loop i linked file.first_sector ≡ block i
  linked-before i h =
      let (chain, last, end, taken) = ok in
      seek_loop-same i fs.disk linked file.first_sector (λ j j_lt.
        next_sector-set_link_ne (set_link fs.disk file.last_sector s) s no_sector (block j)
          (not_in_chain j (omega arith))
        ∙ next_sector-set_link_ne fs.disk file.last_sector s (block j)
            (λ e. absurd (omega (arith, chain n j (omega arith) (omega arith) (sym last ∙ e)))))

  linked-last : seek_loop (suc n) linked file.first_sector ≡ s
  linked-last =
      let (chain, last, end, taken) = ok in
      seek_loop-suc n linked file.first_sector
      ∙ ap (λ (x : ℕ). next_sector (linked x)) (linked-before n (omega arith) ∙ sym last)
      ∙ next_sector-set_link_ne (set_link fs.disk file.last_sector s) s no_sector file.last_sector
          (λ e. not_in_chain n (omega arith) (e ∙ last))
      ∙ next_sector-set_link_self fs.disk file.last_sector s small

  -- Each block of the longer chain: an old one, or the new one.
  pub linked-block :
      (i : ℕ)
      → i ≤ suc n
      → ((i ≤ n) × (seek_loop i linked file.first_sector ≡ block i))
        ⊎ ((i ≡ suc n) × (seek_loop i linked file.first_sector ≡ s))
  linked-block i h = elim (dec_lt n i) [
    | no old ↦ inl (omega arith, linked-before i (omega arith))
    | yes new ↦
        let e : i ≡ suc n = omega arith in
        inr (e, ap (λ (x : ℕ). seek_loop x linked file.first_sector) e ∙ linked-last)
  ]

  linked-IsChain : IsChain (suc (suc n)) linked file.first_sector
  linked-IsChain i j in_i in_j e = elim (linked-block i (omega arith)) [
    | inl (old_i, at_i) ↦ elim (linked-block j (omega arith)) [
      | inl (old_j, at_j) ↦ ok.0 i j (omega arith) (omega arith) (sym at_i ∙ e ∙ at_j)
      | inr (new_j, at_j) ↦ absurd (not_in_chain i old_i (sym at_j ∙ sym e ∙ at_i))
    ]
    | inr (new_i, at_i) ↦ elim (linked-block j (omega arith)) [
      | inl (old_j, at_j) ↦ absurd (not_in_chain j old_j (sym at_i ∙ e ∙ at_j))
      | inr (new_j, at_j) ↦ new_i ∙ sym new_j
    ]
  ]

  linked-taken :
      (i : ℕ)
      → i ≤ suc n
      → bit_at (bit_alloc fs.alloc_bitmap false).1.bits (seek_loop i linked file.first_sector)
        ≡ true
  linked-taken i h =
      let bit = (alloc-some fs.alloc_bitmap s bytes found).1 in
      elim (linked-block i h) [
        | inl (old, at) ↦
            ap (bit_at (bit_alloc fs.alloc_bitmap false).1.bits) at
            ∙ bit (block i)
            ∙ rw (==_of_ne s (block i) (not_in_chain i old)) (ok.3 i old)
        | inr (new, at) ↦
            ap (bit_at (bit_alloc fs.alloc_bitmap false).1.bits) at ∙ bit s ∙ rw (==_refl s) refl
      ]

-- One block more: with a free sector at hand, the chain is a block longer, and the contents of every block
-- that it had are as before.
abbrev pub Appended : ℕ → FileSystem → File → FileSystem × File → Type 0
Appended n fs file (fs', file') =
    IsFileChain n fs' file'
    × IsBytes fs'.alloc_bitmap.bits
    × (file'.first_sector ≡ file.first_sector)
    × (file'.file_size ≡ file.file_size)
    × ((sector j : ℕ) → j < 508 → fs'.disk sector j ≡ fs.disk sector j)

pub append_block-Appended :
    (n : ℕ) (fs : FileSystem) (file : File) (s : ℕ)
    → s < 2 ^ 32
    → IsBytes fs.alloc_bitmap.bits
    → (bit_alloc fs.alloc_bitmap false).0 ≡ some s
    → IsFileChain n fs file
    → Appended (suc n) fs file (append_block fs file)
append_block-Appended n fs file s small bytes found ok =
    subst (Appended (suc n) fs file) (sym (append_block-some fs file s found)) (
      (
        linked-IsChain n fs file s small bytes found ok,
        sym (linked-last n fs file s small bytes found ok),
        next_sector-set_link_self (set_link fs.disk file.last_sector s) s no_sector (omega arith),
        linked-taken n fs file s small bytes found ok,
      ),
      bit_alloc-IsBytes fs.alloc_bitmap false bytes,
      refl,
      refl,
      λ sector j h.
          set_link-byte (set_link fs.disk file.last_sector s) s no_sector sector j h
          ∙ set_link-byte fs.disk file.last_sector s sector j h,
    )

-- So many sectors can be taken one after the other, each a number of 32 bits.
abbrev pub HasFree : ℕ → FileSystem → File → Type 0
HasFree zero fs file = Unit
HasFree (suc need) fs file =
    ((s : ℕ) × (s < 2 ^ 32) × ((bit_alloc fs.alloc_bitmap false).0 ≡ some s))
    × (let (fs', file') = append_block fs file in HasFree need fs' file')

-- The loop of `file_expand` with as many free sectors as it needs: the file's chain is longer by the number
-- of blocks, of different sectors that are all taken, from the same first sector to the new
-- `last_sector`, whose link ends it; and the contents of every sector of the disk, links aside, stay.
pub expand_loop-IsFileChain :
    (need n : ℕ) (fs : FileSystem) (file : File)
    → IsBytes fs.alloc_bitmap.bits
    → IsFileChain n fs file
    → HasFree need fs file
    → Appended (n + need) fs file (expand_loop need fs file)
unfolding expand_loop
expand_loop-IsFileChain zero n fs file bytes ok free = (
  subst (λ (m : ℕ). IsFileChain m fs file) {y = n + 0} (omega arith) ok,
  bytes,
  refl,
  refl,
  λ sector j h. refl,
)
expand_loop-IsFileChain (suc need) n fs file bytes ok ((s, small, found), free) =
    let (fs1, file1) = append_block fs file in
    let (ok1, bytes1, first1, size1, same1) =
      append_block-Appended n fs file s small bytes found ok in
    let (ok2, bytes2, first2, size2, same2) =
      expand_loop-IsFileChain need (suc n) fs1 file1 bytes1 ok1 free in
    let r = expand_loop need fs1 file1 in
    (
      subst (λ (m : ℕ). IsFileChain m r.0 r.1) {x = suc n + need} (omega arith) ok2,
      bytes2,
      first2 ∙ first1,
      size2 ∙ size1,
      λ sector j h. same2 sector j h ∙ same1 sector j h,
    )

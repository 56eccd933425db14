-- ===== src/Fs/Files/Init.antt =====
-- `fs_init` and `root_init` of kernel/fs/fs.c: the state of a new disk.
use weg_os.Base.{
  ℕ, zero, suc, ◌+◌, ◌-◌, ◌*◌, ◌/◌, ◌^◌, ◌≤◌, ◌<◌, ◌≡◌, ◌≢◌, refl, sym, ap, ◌∙◌, arith, Array,
  update, update_ne, true, false, Option, none, some, [], ◌∷◌, ◌⊎◌, inl, inr, leb, ltb, ==_refl,
  if◌then◌else◌,
}
use mathlib.Core.Bool.{true≢false}
use native.Mathlib.Decide.{dec_lt}
use weg_os.Base.Bytes.{IsBytes, store32, load32-store32_self, load32-store32_apart, store32-apart}
use weg_os.BitAllocation.{Bitmap, bit_alloc, bit_free, bit_bind}
use weg_os.BitAllocation.Search.{
  bit_at, bit_at-bit_free, bit_free-IsBytes, Allocated, bit_alloc-Allocated, bit_alloc-IsBytes,
}
use weg_os.Disk.{Disk}
use weg_os.Fs.{
  File, FileSystem, set_next_sector, no_sector, file_at, file_bytes, file_type_directory,
}
use weg_os.Fs.Files.{take_sectors, root_init, fs_init, file_alloc, root_name, set_fcb, string}
use weg_os.Strings.Chars.{Spells, Spells-same, strcpy-Spells}

-- What taking the sectors from the i-th on does to the table.
abbrev Reserved : ℕ → ℕ → Bitmap → Bitmap → Type 0
Reserved rounds i m m' =
    IsBytes m'.bits
    × (m'.size ≡ m.size)
    × ((k : ℕ)
        → bit_at m'.bits k ≡ (
            if leb i k
            then (if ltb k (i + rounds) then true else bit_at m.bits k)
            else bit_at m.bits k))

take_sectors-Reserved :
    (rounds i : ℕ) (m : Bitmap) → IsBytes m.bits → Reserved rounds i m (take_sectors rounds i m)
unfolding take_sectors
take_sectors-Reserved zero i m h = (h, refl, λ k. ground arith)
take_sectors-Reserved (suc rounds) i m h =
    let m1 = bit_free m i true in
    let (bytes, size, bits) =
      take_sectors-Reserved rounds (i + 1) m1 (bit_free-IsBytes m i true h) in
    (
      bytes,
      size ∙ (bit_at-bit_free m i 0 true h).1,
      λ k. ground (arith, bits k, (bit_at-bit_free m i k true h).0),
    )

-- The sectors below 1026 are taken.
abbrev pub IsReserved : FileSystem → Type 0
IsReserved fs =
    IsBytes fs.alloc_bitmap.bits × ((k : ℕ) → k < 1026 → bit_at fs.alloc_bitmap.bits k ≡ true)

-- -1, or a sector that was free and is taken now.
abbrev pub Allotted : FileSystem → ℕ × FileSystem → Type 0
Allotted fs (sector, fs') =
    IsReserved fs'
    × (fs'.disk ≡ fs.disk)
    × ((sector ≡ 2 ^ 32 - 1)
        ⊎ ((1026 ≤ sector)
            × (sector < fs.alloc_bitmap.size)
            × (bit_at fs.alloc_bitmap.bits sector ≡ false)
            × (bit_at fs'.alloc_bitmap.bits sector ≡ true)))

-- In a state in which the sectors below 1026 are taken, `file_alloc` has -1 as its result, or a sector from
-- 1026 on, inside the table, that was free and is taken now; the sectors below 1026 stay taken, and the
-- disk is not written.
pub file_alloc-IsReserved : (fs : FileSystem) → IsReserved fs → Allotted fs (file_alloc fs)
unfolding file_alloc
file_alloc-IsReserved fs (bytes, taken) =
    allocated (bit_alloc fs.alloc_bitmap false).0 refl
      (bit_alloc-Allocated fs.alloc_bitmap false bytes).0
  where
    m' : Bitmap
    m' = (bit_alloc fs.alloc_bitmap false).1

    bytes' : IsBytes m'.bits
    bytes' = bit_alloc-IsBytes fs.alloc_bitmap false bytes

    allocated :
        (found : Option ℕ)
        → (bit_alloc fs.alloc_bitmap false).0 ≡ found
        → Allocated (fs.alloc_bitmap.size / 8 * 8) fs.alloc_bitmap.bits false (found, m'.bits)
        → Allotted fs (file_alloc fs)
    allocated none e (same, full) =
        rw e ((bytes', λ k h. ap (λ (b : Array ℕ). bit_at b k) same ∙ taken k h), refl, inl refl)
    allocated (some s) e (bound, free, before, bits) = rw e (
      (bytes', λ k h. bits k ∙ ground (arith, taken k h)),
      refl,
      inr (
        (elim (dec_lt s 1026) [
          | yes low ↦ absurd (true≢false (sym (taken s low) ∙ free))
          | no high ↦ omega arith
        ]),
        omega arith,
        free,
        bits s ∙ rw (==_refl s) refl,
      ),
    )

set_fcb-fields :
    (block : Array ℕ) (sector size type : ℕ)
    → sector < 2 ^ 32
    → size < 2 ^ 32
    → type < 2 ^ 32
    → let file = file_at (set_fcb block sector size type) 0 in
      ((j : ℕ) → j < 64 → file.file_name j ≡ block j)
      × ((file.first_sector ≡ sector)
          × (file.last_sector ≡ sector)
          × (file.sector_count ≡ 1)
          × (file.file_size ≡ size)
          × (file.file_type ≡ type))
unfolding file_at
set_fcb-fields block sector size type s_small z_small t_small =
    let b1 = store32 block 80 type in
    let b2 = store32 b1 68 sector in
    let b3 = store32 b2 64 sector in
    let b4 = store32 b3 72 1 in
    (
      λ j h.
          ap (store32 b4 76 size) {y = j} (omega arith)
          ∙ store32-apart b4 76 j size (inl (omega arith))
          ∙ store32-apart b3 72 j 1 (inl (omega arith))
          ∙ store32-apart b2 64 j sector (inl (omega arith))
          ∙ store32-apart b1 68 j sector (inl (omega arith))
          ∙ store32-apart block 80 j type (inl (omega arith)),
      (
        load32-store32_apart b4 76 64 size (inr (omega arith))
            ∙ load32-store32_apart b3 72 64 1 (inr (omega arith))
            ∙ load32-store32_self b2 64 sector s_small,
        load32-store32_apart b4 76 68 size (inr (omega arith))
            ∙ load32-store32_apart b3 72 68 1 (inr (omega arith))
            ∙ load32-store32_apart b2 64 68 sector (inl (omega arith))
            ∙ load32-store32_self b1 68 sector s_small,
        load32-store32_apart b4 76 72 size (inr (omega arith))
            ∙ load32-store32_self b3 72 1 (omega arith),
        load32-store32_self b4 76 size z_small,
        load32-store32_apart b4 76 80 size (inl (omega arith))
            ∙ load32-store32_apart b3 72 80 1 (inl (omega arith))
            ∙ load32-store32_apart b2 64 80 sector (inl (omega arith))
            ∙ load32-store32_apart b1 68 80 sector (inl (omega arith))
            ∙ load32-store32_self block 80 type t_small,
      ),
    )

root_name-Spells : Spells root_name 0 (114 ∷ 111 ∷ 111 ∷ 116 ∷ [])
unfolding string
root_name-Spells = (
  refl,
  λ e. absurd (omega arith),
  (
    refl,
    λ e. absurd (omega arith),
    (refl, λ e. absurd (omega arith), (refl, λ e. absurd (omega arith), refl)),
  ),
)

-- The sectors that are taken on a new disk, and the entry of its root.
abbrev pub RootFcb : File → Type 0
RootFcb root =
    Spells root.file_name 0 (114 ∷ 111 ∷ 111 ∷ 116 ∷ [])
    × (root.first_sector ≡ 1025)
    × (root.last_sector ≡ 1025)
    × (root.sector_count ≡ 1)
    × (root.file_size ≡ file_bytes)
    × (root.file_type ≡ file_type_directory)

abbrev pub NewDisk : Array ℕ → Disk → FileSystem → Type 0
NewDisk fs_alloc_table disk fs =
    IsReserved fs
    × (fs.alloc_bitmap.size ≡ 384 * 512 * 8)
    × ((k : ℕ) → 1026 ≤ k → bit_at fs.alloc_bitmap.bits k ≡ bit_at fs_alloc_table k)
    × ((s : ℕ) → s ≢ 1024 → fs.disk s ≡ disk s)
    × RootFcb (file_at (fs.disk 1024) 0)

-- `fs_init` returns, from any table and any bytes on the stack: it takes the sectors of the kernel, that of
-- the root's entry and that of its contents, and no others; and the one sector that it writes is 1024.
-- There it leaves the entry of a directory "root" with room for one entry, whose contents are sector 1025.
pub fs_init-root :
    (fs_alloc_table block : Array ℕ) (disk : Disk)
    → IsBytes fs_alloc_table
    → (fs : FileSystem) × (fs_init fs_alloc_table block disk ≡ some fs)
      × NewDisk fs_alloc_table disk fs
unfolding fs_init root_init bit_bind
fs_init-root table block disk bytes =
    let m = bit_bind table (384 * 512 * 8) in
    let (bytes1, size1, bits1) = take_sectors-Reserved 1024 0 m bytes in
    let m1 = take_sectors 1024 0 m in
    let m2 = bit_free m1 1024 true in
    let bytes2 = bit_free-IsBytes m1 1024 true bytes1 in
    let m3 = bit_free m2 1025 true in
    let bits : (k : ℕ) → bit_at m3.bits k ≡ (if ltb k 1026 then true else bit_at table k) = λ k.
      ground (
        arith,
        bits1 k,
        (bit_at-bit_free m1 1024 k true bytes1).0,
        (bit_at-bit_free m2 1025 k true bytes2).0,
      ) in
    let (named, copied, spelled, behind) =
      strcpy-Spells (set_next_sector block no_sector) root_name (114 ∷ 111 ∷ 111 ∷ 116 ∷ [])
        root_name-Spells (omega arith) in
    (
      record {
        disk = update disk 1024 (set_fcb named 1025 file_bytes file_type_directory);
        alloc_bitmap = m3;
      },
      rw copied refl,
      (
        (bit_free-IsBytes m2 1025 true bytes2, λ k h. bits k ∙ ground arith),
        (bit_at-bit_free m2 1025 0 true bytes2).1
            ∙ (bit_at-bit_free m1 1024 0 true bytes1).1
            ∙ size1,
        (λ k h. bits k ∙ ground arith),
        (λ s other. update_ne disk 1024 s _ (λ e. other (sym e))),
        (let (name, (first, last, count, size, type)) =
              set_fcb-fields named 1025 file_bytes file_type_directory (omega arith) (omega arith)
                (omega arith) in
            (
              Spells-same named _ 0 (114 ∷ 111 ∷ 111 ∷ 116 ∷ []) spelled
                  (λ j lo hi. name j (omega arith)),
              first,
              last,
              count,
              size,
              type,
            )),
      ),
    )

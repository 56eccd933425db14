-- ===== src/Fs/Files/Growing.antt =====
-- `file_expand` of kernel/fs/fs.c: what a file that gets more blocks leaves alone.
use weg_os.Base.{
  ℕ, zero, suc, ◌+◌, ◌^◌, ◌≤◌, ◌<◌, ◌≡◌, ◌≢◌, refl, sym, subst, ap, ◌∙◌, arith, update_ne, true,
  false, some, ◌⊎◌, inl, inr, ==_of_ne,
}
use mathlib.Core.Bool.{true≢false}
use weg_os.Base.Bytes.{IsBytes}
use weg_os.BitAllocation.{bit_alloc}
use weg_os.BitAllocation.Search.{bit_at}
use weg_os.Fs.{File, FileSystem}
use weg_os.Fs.Files.{expand_loop, append_block}
use weg_os.Fs.Files.Chain.{
  IsFileChain, HasFree, append_block-some, append_block-Appended, alloc-some, linked-block,
  linked-before, set_link,
}
use weg_os.Fs.Io.{seek_loop}
use weg_os.Fs.Io.Frame.{IsOutside}

-- The blocks that the file had are in their places; a taken sector outside of the file is left as it was,
-- and outside; and of the entry of the file, only the last sector changes.
abbrev pub Grown : ℕ → ℕ → FileSystem → File → FileSystem × File → Type 0
Grown n need fs file (fs', file') =
    ((i : ℕ)
      → i ≤ n
      → seek_loop i fs'.disk file.first_sector ≡ seek_loop i fs.disk file.first_sector)
    × ((s : ℕ)
        → bit_at fs.alloc_bitmap.bits s ≡ true
        → IsOutside (suc n) fs.disk file.first_sector s
        → (fs'.disk s ≡ fs.disk s)
          × (bit_at fs'.alloc_bitmap.bits s ≡ true)
          × IsOutside (suc n + need) fs'.disk file.first_sector s)
    × (file' ≡ record file { last_sector = file'.last_sector })
    × (file.last_sector < 2 ^ 32 → file'.last_sector < 2 ^ 32)

append_block-Grown :
    (n : ℕ) (fs : FileSystem) (file : File) (s : ℕ)
    → s < 2 ^ 32
    → IsBytes fs.alloc_bitmap.bits
    → (bit_alloc fs.alloc_bitmap false).0 ≡ some s
    → IsFileChain n fs file
    → Grown n 1 fs file (append_block fs file)
append_block-Grown n fs file s small bytes found ok =
    subst (Grown n 1 fs file) (sym (append_block-some fs file s found)) (
      linked-before n fs file s small bytes found ok,
      λ t taken out. (
        update_ne (set_link fs.disk file.last_sector s) s t _ (other t taken)
            ∙ update_ne fs.disk file.last_sector t _ (λ e. out n (omega arith) (sym e ∙ ok.1)),
        (alloc-some fs.alloc_bitmap s bytes found).1 t ∙ rw (==_of_ne s t (other t taken)) taken,
        λ i in_i e.
            outside t taken out e (linked-block n fs file s small bytes found ok i (omega arith)),
      ),
      refl,
      λ h. small,
    )
  where
    other : (t : ℕ) → bit_at fs.alloc_bitmap.bits t ≡ true → s ≢ t
    other t taken e = true≢false (
        sym taken
        ∙ ap (bit_at fs.alloc_bitmap.bits) (sym e)
        ∙ (alloc-some fs.alloc_bitmap s bytes found).0)

    outside :
        (t : ℕ)
        → bit_at fs.alloc_bitmap.bits t ≡ true
        → IsOutside (suc n) fs.disk file.first_sector t
        → {i place : ℕ} → t ≡ place
        → ((i ≤ n) × (place ≡ seek_loop i fs.disk file.first_sector)) ⊎ ((i ≡ suc n) × (place ≡ s))
        → ⊥
    outside t taken out e (inl (old, at)) = out _ (omega arith) (e ∙ at)
    outside t taken out e (inr (new, at)) = other t taken (sym (e ∙ at))

-- The loop of `file_expand`.
pub expand_loop-Grown :
    (need n : ℕ) (fs : FileSystem) (file : File)
    → IsBytes fs.alloc_bitmap.bits
    → IsFileChain n fs file
    → HasFree need fs file
    → Grown n need fs file (expand_loop need fs file)
unfolding expand_loop
expand_loop-Grown zero n fs file bytes ok free =
    (λ i h. refl, λ s taken out. (refl, taken, λ i h. out i (omega arith)), refl, λ h. h)
expand_loop-Grown (suc need) n fs file bytes ok ((s, small, found), free) =
    let (fs1, file1) = append_block fs file in
    let (ok1, bytes1, first1, size1, same1) =
      append_block-Appended n fs file s small bytes found ok in
    let (places1, kept1, file_same1, last1) = append_block-Grown n fs file s small bytes found ok in
    let (places2, kept2, file_same2, last2) =
      expand_loop-Grown need (suc n) fs1 file1 bytes1 ok1 free in
    (
      λ i h. places2 i (omega arith) ∙ places1 i h,
      λ t taken out.
          let (disk1, taken1, out1) = kept1 t taken out in
          let (disk2, taken2, out2) = kept2 t taken1 (λ i in_i. out1 i (omega arith)) in
          (disk2 ∙ disk1, taken2, λ i in_i. out2 i (omega arith)),
      file_same2,
      λ h. last2 (last1 h),
    )

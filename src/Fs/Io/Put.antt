-- ===== src/Fs/Io/Put.antt =====
-- Bytes put into one block of a chain of sectors, as the writes of kernel/fs/fs.c do: the links of the
-- chain stay, and the contents change in the place of the bytes.
use weg_os.Base.{
  ℕ, zero, suc, ◌+◌, ◌-◌, ◌*◌, ◌≤◌, ◌<◌, ◌≡◌, refl, sym, ap, ap₂, ◌∙◌, arith, Array, update,
  update_self, update_ne, ◌⊎◌, if◌then◌else◌, leb, ltb,
}
use native.Mathlib.Decide.{ℕ_discrete}
use weg_os.Base.Bytes.{load32}
use weg_os.Disk.{Disk, memcpy}
use weg_os.Disk.Copy.{memcpy-bytes, memcpy-behind}
use weg_os.Fs.{nth_block, in_block_offset, next_sector}
use weg_os.Fs.Io.{seek_loop}
use weg_os.Fs.Io.Blocks.{file_byte, chain_at}

-- The first n sectors of the chain are different ones.
abbrev pub IsChain : ℕ → Disk → ℕ → Type 0
IsChain n disk first =
    (i j : ℕ) → i < n → j < n → seek_loop i disk first ≡ seek_loop j disk first → i ≡ j

-- Some bytes put into a sector.
abbrev pub put : Disk → ℕ → ℕ → ℕ → Array ℕ → ℕ → Disk
put disk sector offset count buf position =
    update disk sector (memcpy count 0 (disk sector) offset buf position)

module _ (disk : Disk) (sector offset count : ℕ) (buf : Array ℕ) (position : ℕ) where
  pub memcpy-link :
      (dest : Array ℕ)
      → offset + count ≤ 508
      → next_sector (memcpy count 0 dest offset buf position) ≡ next_sector dest
  unfolding load32
  memcpy-link dest h =
      rw
        (
          memcpy-behind count dest offset buf position 508 (omega arith),
          memcpy-behind count dest offset buf position (508 + 1) (omega arith),
          memcpy-behind count dest offset buf position (508 + 2) (omega arith),
          memcpy-behind count dest offset buf position (508 + 3) (omega arith),
        )
        refl

  pub next_sector-put :
      (s : ℕ)
      → offset + count ≤ 508
      → next_sector (put disk sector offset count buf position s) ≡ next_sector (disk s)
  next_sector-put s h = elim (ℕ_discrete sector s) [
    | no other ↦ ap next_sector (update_ne disk sector s _ other)
    | yes same ↦
        ap next_sector (sym (ap (put disk sector offset count buf position) same))
        ∙ ap next_sector (update_self disk sector _)
        ∙ memcpy-link (disk sector) h
        ∙ ap (λ (x : ℕ). next_sector (disk x)) same
  ]

  pub seek_loop-put :
      (n first : ℕ)
      → offset + count ≤ 508
      → seek_loop n (put disk sector offset count buf position) first ≡ seek_loop n disk first
  unfolding seek_loop
  seek_loop-put zero first h = refl
  seek_loop-put (suc n) first h =
      seek_loop-put n (next_sector (put disk sector offset count buf position first)) h
      ∙ ap (seek_loop n disk) (next_sector-put first h)

  -- The bytes of the file after bytes were put into block b of its chain.
  pub file_byte-put :
      (n b first k : ℕ)
      → IsChain n disk first
      → b < n
      → nth_block k < n
      → sector ≡ seek_loop b disk first
      → offset + count ≤ 508
      → file_byte (put disk sector offset count buf position) first k ≡ (
          if leb (b * 508 + offset) k
          then (if ltb k (b * 508 + offset + count)
              then buf (position + (k - (b * 508 + offset)))
              else file_byte disk first k)
          else file_byte disk first k)
  file_byte-put n b first k chain in_b in_k e h =
      ap (λ (s : ℕ). put disk sector offset count buf position s (in_block_offset k))
        (seek_loop-put (nth_block k) first h)
      ∙ elim (ℕ_discrete (nth_block k) b) [
        | yes here ↦
            ap (λ (x : ℕ). put disk sector offset count buf position x (in_block_offset k))
              (sym (e ∙ chain_at disk first (sym here)))
            ∙ ap (λ (a : Array ℕ). a (in_block_offset k)) (update_self disk sector _)
            ∙ memcpy-bytes count 0 (disk sector) offset buf position (in_block_offset k)
            ∙ inside here (disk sector (in_block_offset k))
                (buf (position + (in_block_offset k - offset)))
            ∙ ap₂
                (λ (x y : ℕ).
                  if leb (b * 508 + offset) k
                  then (if ltb k (b * 508 + offset + count) then y else x)
                  else x)
                (ap (λ (s : ℕ). disk s (in_block_offset k)) (e ∙ chain_at disk first (sym here)))
                (ap buf (index here))
        | no other ↦
            ap (λ (a : Array ℕ). a (in_block_offset k))
              (update_ne disk sector (seek_loop (nth_block k) disk first) _
                (λ same. other (chain (nth_block k) b in_k in_b (sym same ∙ e))))
            ∙ outside other (file_byte disk first k) (buf (position + (k - (b * 508 + offset))))
      ]
    where
      index :
          nth_block k ≡ b
          → position + (in_block_offset k - offset) ≡ position + (k - (b * 508 + offset))
      index here = omega arith

      inside :
          nth_block k ≡ b
          → (x y : ℕ)
          → (if leb (offset + 0) (in_block_offset k)
              then (if ltb (in_block_offset k) (offset + 0 + count) then y else x)
              else x)
            ≡ (if leb (b * 508 + offset) k
                then (if ltb k (b * 508 + offset + count) then y else x)
                else x)
      inside here x y = ground arith

      outside :
          ¬ (nth_block k ≡ b)
          → (x y : ℕ)
          → x ≡ (
              if leb (b * 508 + offset) k
              then (if ltb k (b * 508 + offset + count) then y else x)
              else x)
      outside other x y = ground arith

  pub file_byte-put_inside :
      (n b first k : ℕ)
      → IsChain n disk first
      → b < n
      → nth_block k < n
      → sector ≡ seek_loop b disk first
      → offset + count ≤ 508
      → b * 508 + offset ≤ k
      → k < b * 508 + offset + count
      → file_byte (put disk sector offset count buf position) first k
        ≡ buf (position + (k - (b * 508 + offset)))
  file_byte-put_inside n b first k chain in_b in_k e h low high =
      file_byte-put n b first k chain in_b in_k e h ∙ ground arith

  pub file_byte-put_outside :
      (n b first k : ℕ)
      → IsChain n disk first
      → b < n
      → nth_block k < n
      → sector ≡ seek_loop b disk first
      → offset + count ≤ 508
      → (k < b * 508 + offset) ⊎ (b * 508 + offset + count ≤ k)
      → file_byte (put disk sector offset count buf position) first k ≡ file_byte disk first k
  file_byte-put_outside n b first k chain in_b in_k e h out =
      file_byte-put n b first k chain in_b in_k e h ∙ ground arith

  pub IsChain-put :
      (n first : ℕ)
      → offset + count ≤ 508
      → IsChain n disk first
      → IsChain n (put disk sector offset count buf position) first
  IsChain-put n first h chain i j in_i in_j e =
      chain i j in_i in_j (sym (seek_loop-put i first h) ∙ e ∙ seek_loop-put j first h)

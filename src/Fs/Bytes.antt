-- ===== src/Fs/Bytes.antt =====
-- `file_t` in memory: writing its bytes and reading them back.
use weg_os.Base.{ℕ, ◌+◌, ◌^◌, ◌≤◌, ◌<◌, ◌≡◌, refl, ◌∙◌, arith, Array, inl, inr}
use native.Mathlib.Nat.{add_assoc}
use weg_os.Base.Bytes.{load32, store32, load32-store32_self, load32-store32_apart, store32-apart}
use weg_os.Fs.{File, file_to_bytes, file_at}

-- The fields fit into 32 bits.
abbrev pub IsStorable : File → Type 0
IsStorable f =
    (f.first_sector < 2 ^ 32)
    × (f.last_sector < 2 ^ 32)
    × (f.sector_count < 2 ^ 32)
    × (f.file_size < 2 ^ 32)
    × (f.file_type < 2 ^ 32)

-- The same 64 bytes of a name, and the same fields.
abbrev pub SameFile : File → File → Type 0
SameFile f g =
    ((j : ℕ) → j < 64 → f.file_name j ≡ g.file_name j)
    × (f.first_sector ≡ g.first_sector)
    × (f.last_sector ≡ g.last_sector)
    × (f.sector_count ≡ g.sector_count)
    × (f.file_size ≡ g.file_size)
    × (f.file_type ≡ g.file_type)

load32-moved :
    (buf : Array ℕ) (p : ℕ) (a : Array ℕ) (o : ℕ)
    → o + 4 ≤ 84
    → ((j : ℕ) → j < 84 → buf (p + j) ≡ a j)
    → load32 buf (p + o) ≡ load32 a o
unfolding load32
load32-moved buf p a o h same =
    rw
      (
        add_assoc p o 1,
        add_assoc p o 2,
        add_assoc p o 3,
        same o (omega arith),
        same (o + 1) (omega arith),
        same (o + 2) (omega arith),
        same (o + 3) (omega arith),
      )
      refl

-- A buffer that has the 84 bytes of a `file_t` at some position, whose fields fit into 32 bits, has that
-- `file_t` there.
pub file_at-file_to_bytes :
    (buf : Array ℕ) (p : ℕ) (f : File)
    → IsStorable f
    → ((j : ℕ) → j < 84 → buf (p + j) ≡ file_to_bytes f j)
    → SameFile (file_at buf p) f
unfolding file_at file_to_bytes
file_at-file_to_bytes buf p f (first, last, count, size, type) same =
    let name = store32 f.file_name 64 f.first_sector in
    let name1 = store32 name 68 f.last_sector in
    let name2 = store32 name1 72 f.sector_count in
    let name3 = store32 name2 76 f.file_size in
    (
      λ j h.
          same j (omega arith)
          ∙ store32-apart name3 80 j f.file_type (inl (omega arith))
          ∙ store32-apart name2 76 j f.file_size (inl (omega arith))
          ∙ store32-apart name1 72 j f.sector_count (inl (omega arith))
          ∙ store32-apart name 68 j f.last_sector (inl (omega arith))
          ∙ store32-apart f.file_name 64 j f.first_sector (inl (omega arith)),
      load32-moved buf p (file_to_bytes f) 64 (omega arith) same
          ∙ load32-store32_apart name3 80 64 f.file_type (inr (omega arith))
          ∙ load32-store32_apart name2 76 64 f.file_size (inr (omega arith))
          ∙ load32-store32_apart name1 72 64 f.sector_count (inr (omega arith))
          ∙ load32-store32_apart name 68 64 f.last_sector (inr (omega arith))
          ∙ load32-store32_self f.file_name 64 f.first_sector first,
      load32-moved buf p (file_to_bytes f) 68 (omega arith) same
          ∙ load32-store32_apart name3 80 68 f.file_type (inr (omega arith))
          ∙ load32-store32_apart name2 76 68 f.file_size (inr (omega arith))
          ∙ load32-store32_apart name1 72 68 f.sector_count (inr (omega arith))
          ∙ load32-store32_self name 68 f.last_sector last,
      load32-moved buf p (file_to_bytes f) 72 (omega arith) same
          ∙ load32-store32_apart name3 80 72 f.file_type (inr (omega arith))
          ∙ load32-store32_apart name2 76 72 f.file_size (inr (omega arith))
          ∙ load32-store32_self name1 72 f.sector_count count,
      load32-moved buf p (file_to_bytes f) 76 (omega arith) same
          ∙ load32-store32_apart name3 80 76 f.file_type (inr (omega arith))
          ∙ load32-store32_self name2 76 f.file_size size,
      load32-moved buf p (file_to_bytes f) 80 (omega arith) same
          ∙ load32-store32_self name3 80 f.file_type type,
    )

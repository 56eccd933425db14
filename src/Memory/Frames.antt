-- ===== src/Memory/Frames.antt =====
-- Page frames: which frame `p_malloc` gives out, and what `p_free` gives back.
use weg_os.Base.{
  ℕ, zero, suc, ◌+◌, ◌-◌, ◌*◌, ◌/◌, ◌%◌, ◌^◌, ◌≤◌, ◌<◌, ◌≡◌, ◌⊎◌, refl, ◌∙◌, arith, subst, Bool,
  true, false, Option, none, some, ◌==◌, leb, ltb, if◌then◌else◌, Array, inl, inr,
}
use native.Mathlib.Decide.{dec_lt}
use weg_os.Base.Digits.{bit_and_ones}
use weg_os.Base.Bytes.{IsBytes}
use weg_os.BitAllocation.{Bitmap, bit_alloc, bit_free, bit_bind}
use weg_os.BitAllocation.Search.{
  bit_at, bit_at-bit_free, bit_free-IsBytes, Allocated, bit_alloc-Allocated, bit_alloc-IsBytes,
}
use weg_os.Memory.{
  Memory, page_size, p_malloc, p_free, done, out_of_table, reserve_loop, memory_alloc_init,
}

-- The bitmap is a table of bytes with a bit for each of the 2 ^ 20 frames.
pub record HasFrames (m : Memory) : Type 0 where
  pub bytes : IsBytes m.alloc_bitmap.bits
  pub full_size : m.alloc_bitmap.size ≡ 2 ^ 20

-- Whether the frame at an address is taken.
abbrev pub is_taken : Memory → ℕ → Bool
is_taken m addr = bit_at m.alloc_bitmap.bits (addr / page_size)

-- The frames of the kernel's code and data are taken.
abbrev pub IsReserved : Memory → Type 0
IsReserved m = (addr : ℕ) → addr < 0x800000 → is_taken m addr ≡ true

-- What a call of `p_malloc` does: it finds no free frame, returns (unsigned)-1 and changes no bit of
-- the bitmap, or it returns the address of the lowest free frame, which is taken afterwards, and no
-- other frame changes hands.
abbrev pub Malloced : Memory → ℕ → Memory → Type 0
Malloced m addr m' =
    ((addr ≡ 2 ^ 32 - 1)
      × ((a : ℕ) → a < 2 ^ 32 → is_taken m a ≡ true)
      × ((a : ℕ) → is_taken m' a ≡ is_taken m a))
    ⊎ ((addr % page_size ≡ 0)
        × (addr < 2 ^ 32)
        × (is_taken m addr ≡ false)
        × ((a : ℕ) → a < addr → is_taken m a ≡ true)
        × ((a : ℕ)
            → is_taken m' a ≡ (if addr / page_size == a / page_size then true else is_taken m a)))

frame_address : Option ℕ → ℕ
frame_address found = elim found [ none ↦ 2 ^ 32 - 1 | some n ↦ n * page_size % 2 ^ 32 ]

Allocated-Malloced :
    (m : Memory) (found : Option ℕ) (b : Bitmap)
    → Allocated (2 ^ 20) m.alloc_bitmap.bits false (found, b.bits)
    → Malloced m (frame_address found) (record m { alloc_bitmap = b })
unfolding frame_address
Allocated-Malloced m none b (kept, full) =
    inl (refl, λ a h. full (a / page_size) (omega arith), λ a. rw kept refl)
Allocated-Malloced m (some n) b (bound, free, below, after) = inr (
  omega arith,
  omega arith,
  rw index free,
  λ a h. below (a / page_size) (omega arith),
  λ a. rw index (after (a / page_size)),
)
  where
    index : n * page_size % 2 ^ 32 / page_size ≡ n
    index = omega arith

-- With a bitmap of all frames, `p_malloc` does what `Malloced` says: it takes the lowest free frame, or
-- returns (unsigned)-1 and takes none. The bitmap still covers all frames, and memory is not written.
pub p_malloc-Malloced :
    (m : Memory)
    → HasFrames m
    → let (addr, m') = p_malloc m in Malloced m addr m' × HasFrames m' × (m'.mem ≡ m.mem)
unfolding p_malloc frame_address
p_malloc-Malloced m v = (
  Allocated-Malloced m (bit_alloc m.alloc_bitmap false).0 (bit_alloc m.alloc_bitmap false).1 (
      subst (λ s. Allocated (s / 8 * 8) m.alloc_bitmap.bits false (found, bits)) v.full_size
        allocated.0),
  record {
    bytes = bit_alloc-IsBytes m.alloc_bitmap false v.bytes;
    full_size = allocated.1 ∙ v.full_size;
  },
  refl,
)
  where
    found : Option ℕ
    found = (bit_alloc m.alloc_bitmap false).0

    bits : Array ℕ
    bits = (bit_alloc m.alloc_bitmap false).1.bits

    allocated :
        Allocated (m.alloc_bitmap.size / 8 * 8) m.alloc_bitmap.bits false (found, bits)
        × ((bit_alloc m.alloc_bitmap false).1.size ≡ m.alloc_bitmap.size)
    allocated = bit_alloc-Allocated m.alloc_bitmap false v.bytes

pub p_malloc-lt : (m : Memory) → (p_malloc m).0 < 2 ^ 32
unfolding p_malloc
p_malloc-lt m = frame_address-lt (bit_alloc m.alloc_bitmap false).0
  where
    frame_address-lt :
        (found : Option ℕ)
        → (elim found [ none ↦ 2 ^ 32 - 1 | some n ↦ n * page_size % 2 ^ 32 ]) < 2 ^ 32
    frame_address-lt none = omega arith
    frame_address-lt (some n) = omega arith

-- While the kernel's frames are taken, `p_malloc` gives out none of them, and leaves them taken.
pub p_malloc-IsReserved :
    (m : Memory)
    → HasFrames m
    → IsReserved m
    → (0x800000 ≤ (p_malloc m).0) × IsReserved (p_malloc m).1
p_malloc-IsReserved m v reserved = elim (p_malloc-Malloced m v).0 [
  | inl (full, _, kept) ↦ (omega arith, λ a h. kept a ∙ reserved a h)
  | inr (aligned, bound, free, below, after) ↦ (
    elim (dec_lt (p_malloc m).0 0x800000) [
      | yes low ↦ ground (arith, reserved (p_malloc m).0 low)
      | no high ↦ omega arith
    ],
    λ a h. ground (arith, after a, reserved a h),
  )
]

-- A frame below 2 ^ 31 that `p_malloc` gave out can be freed: `p_free` of its address leaves each frame
-- as it was before `p_malloc`.
pub p_free-p_malloc :
    (m : Memory)
    → HasFrames m
    → (p_malloc m).0 < 2 ^ 31
    → (m' : Memory) × (p_free (p_malloc m).1 (p_malloc m).0 ≡ done m')
      × ((a : ℕ) → is_taken m' a ≡ is_taken m a)
      × HasFrames m'
unfolding p_free
p_free-p_malloc m v low = elim (p_malloc-Malloced m v).0 [
  | inl (full, _, _) ↦ absurd (omega arith)
  | inr (aligned, bound, free, below, after) ↦ (
    freed,
    ground (arith, bit_and_ones 12 addr),
    λ a. ground (
      arith,
      after a,
      free,
      bit_at-bit_free bitmap (addr / page_size) (a / page_size) false frames.bytes,
    ),
    record {
      bytes = bit_free-IsBytes bitmap (addr / page_size) false frames.bytes;
      full_size =
          (bit_at-bit_free bitmap (addr / page_size) 0 false frames.bytes).1 ∙ frames.full_size;
    },
  )
]
  where
    addr : ℕ
    addr = (p_malloc m).0

    bitmap : Bitmap
    bitmap = (p_malloc m).1.alloc_bitmap

    frames : HasFrames (p_malloc m).1
    frames = (p_malloc-Malloced m v).1

    freed : Memory
    freed = record (p_malloc m).1 { alloc_bitmap = bit_free bitmap (addr / page_size) false }

-- A frame from 2 ^ 31 on cannot be freed: its address is a negative `int`, and `p_free` writes outside
-- the bitmap.
pub p_free-high :
    (m : Memory) (addr : ℕ) → addr % page_size ≡ 0 → 2 ^ 31 ≤ addr → p_free m addr ≡ out_of_table
unfolding p_free
p_free-high m addr aligned high = ground (arith, bit_and_ones 12 addr)

bit_at-reserve_loop :
    (rounds i : ℕ) (b : Bitmap) (k : ℕ)
    → IsBytes b.bits
    → (bit_at (reserve_loop rounds i b).bits k ≡ (
        if leb i k
        then (if ltb k (i + rounds) then true else bit_at b.bits k)
        else bit_at b.bits k))
      × IsBytes (reserve_loop rounds i b).bits
      × ((reserve_loop rounds i b).size ≡ b.size)
unfolding reserve_loop
bit_at-reserve_loop zero i b k h = (ground arith, h, refl)
bit_at-reserve_loop (suc rounds) i b k h =
    let (bits, bytes, size) =
      bit_at-reserve_loop rounds (i + 1) (bit_free b i true) k (bit_free-IsBytes b i true h) in
    (
      ground (arith, bits, bit_at-bit_free b i k true h),
      bytes,
      size ∙ (bit_at-bit_free b i k true h).1,
    )

-- After `memory_alloc_init` the bitmap covers all frames, those below 0x800000 are taken, and the
-- others are as the table had them.
pub memory_alloc_init_lem :
    (m : Memory) (table : Array ℕ)
    → IsBytes table
    → let m' = memory_alloc_init m table in
      HasFrames m'
      × IsReserved m'
      × ((addr : ℕ) → 0x800000 ≤ addr → is_taken m' addr ≡ bit_at table (addr / page_size))
unfolding memory_alloc_init bit_bind
memory_alloc_init_lem m table h = (
  record { bytes = (loop 0).1; full_size = (loop 0).2 },
  λ addr low. ground (arith, (loop (addr / page_size)).0),
  λ addr high. ground (arith, (loop (addr / page_size)).0),
)
  where
    loop :
        (k : ℕ)
        → (bit_at (reserve_loop 2048 0 (bit_bind table (2 ^ 20))).bits k ≡ (
            if leb 0 k
            then (if ltb k (0 + 2048) then true else bit_at table k)
            else bit_at table k))
          × IsBytes (reserve_loop 2048 0 (bit_bind table (2 ^ 20))).bits
          × ((reserve_loop 2048 0 (bit_bind table (2 ^ 20))).size ≡ 2 ^ 20)
    loop k = bit_at-reserve_loop 2048 0 (bit_bind table (2 ^ 20)) k h

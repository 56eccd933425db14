-- ===== src/Task/Descriptor.antt =====
-- The descriptor of a task state segment, and the search for a free one.
use weg_os.Base.{
  ℕ, zero, suc, ◌+◌, ◌*◌, ◌/◌, ◌%◌, ◌^◌, ◌≤◌, ◌<◌, ◌≡◌, ◌⊎◌, inl, inr, refl, sym, ap, ◌∙◌, arith,
  Bool, true, false, ◌&&◌, bit_and, bit_or, ◌==◌, Array, Bool-cases, from_here,
}
use mathlib.Core.Bool.{true≢false}
use native.Mathlib.Decide.{dec_lt}
use weg_os.Base.Digits.{bit_and_ones, bit_and_high, bit_or_fields}
use weg_os.Bit.Laws.{testbits-div_mod}
use weg_os.PidQueue.{max_gdt_terms, not_found}
use weg_os.Task.{
  GdtDesc, make_gdt_desc_for_tss, is_a_tss_descriptor, empty_loop, get_pid_empty, dpl_kernel,
}

-- The base address, as the processor puts it together from a descriptor.
abbrev pub base_of : GdtDesc → ℕ
base_of desc = desc.high / 2 ^ 24 * 2 ^ 24 + desc.high % 2 ^ 8 * 2 ^ 16 + desc.low / 2 ^ 16

-- A descriptor with nothing in it.
abbrev pub is_free : GdtDesc → Bool
is_free desc = (desc.low == 0) && (desc.high == 0)

high_word :
    (b : ℕ)
    → b < 2 ^ 32
    → (make_gdt_desc_for_tss b dpl_kernel).high ≡ b / 2 ^ 24 * 2 ^ 24 + 0xf8900 + b / 2 ^ 16 % 2 ^ 8
unfolding make_gdt_desc_for_tss
high_word b h =
    let upper : bit_and b 0xff000000 ≡ b / 2 ^ 24 * 2 ^ 24 =
      bit_and_high 24 b 0xff
      ∙ ap (λ (x : ℕ). x * 2 ^ 24) (bit_and_ones 8 (b / 2 ^ 24) ∙ omega arith) in
    let middle : bit_and b 0xff0000 / 2 ^ 16 ≡ b / 2 ^ 16 % 2 ^ 8 =
      ap (λ (x : ℕ). x / 2 ^ 16) (bit_and_high 16 b 0xff)
      ∙ omega (arith, bit_and_ones 8 (b / 2 ^ 16)) in
    let type : bit_or (b / 2 ^ 24 * 2 ^ 24) 0xf8900 ≡ (b / 2 ^ 24 * 2 ^ 16 + 0xf89) * 2 ^ 8 =
      bit_or_fields 24 (b / 2 ^ 24) 0xf8900 (omega arith) ∙ omega arith in
    let whole : bit_or ((b / 2 ^ 24 * 2 ^ 16 + 0xf89) * 2 ^ 8) (b / 2 ^ 16 % 2 ^ 8)
        ≡ b / 2 ^ 24 * 2 ^ 24 + 0xf8900 + b / 2 ^ 16 % 2 ^ 8 =
      bit_or_fields 8 (b / 2 ^ 24 * 2 ^ 16 + 0xf89) (b / 2 ^ 16 % 2 ^ 8) (omega arith)
      ∙ omega arith in
    rw (upper, middle, type, whole) (or_zero (b / 2 ^ 24 * 2 ^ 24 + 0xf8900 + b / 2 ^ 16 % 2 ^ 8))
  where
    or_zero : (x : ℕ) → bit_or x 0 ≡ x
    or_zero x =
        let same : x ≡ x * 2 ^ 0 = omega arith in
        ap (λ (y : ℕ). bit_or y 0) same ∙ bit_or_fields 0 x 0 (omega arith) ∙ omega arith

low_word :
    (b dpl : ℕ) → b < 2 ^ 32 → (make_gdt_desc_for_tss b dpl).low ≡ b % 2 ^ 16 * 2 ^ 16 + 0xffff
unfolding make_gdt_desc_for_tss
low_word b dpl h =
    bit_or_fields 16 (bit_and b 0xffff) 0xffff (omega arith)
    ∙ ap (λ (x : ℕ). x * 2 ^ 16 + 0xffff) (bit_and_ones 16 b)

empty_loop-first :
    (rounds i : ℕ) (gdt : Array GdtDesc)
    → ((empty_loop rounds i gdt ≡ not_found)
        × ((j : ℕ) → i ≤ j → j < i + rounds → is_free (gdt j) ≡ false))
      ⊎ ((i ≤ empty_loop rounds i gdt)
          × (empty_loop rounds i gdt < i + rounds)
          × (is_free (gdt (empty_loop rounds i gdt)) ≡ true)
          × ((j : ℕ) → i ≤ j → j < empty_loop rounds i gdt → is_free (gdt j) ≡ false))
unfolding empty_loop
empty_loop-first zero i gdt = inl (refl, λ j lo hi. absurd (omega arith))
empty_loop-first (suc rounds) i gdt = elim (Bool-cases (is_free (gdt i))) [
  | inl free ↦ rw free (inr (omega arith, omega arith, free, λ j lo hi. absurd (omega arith)))
  | inr full ↦ rw full (elim (empty_loop-first rounds (i + 1) gdt) [
    | inl (none_left, all) ↦ inl (
      none_left,
      λ j lo hi. from_here (λ k. is_free (gdt k) ≡ false) i j full (λ h. all j h (omega arith)) lo,
    )
    | inr (lo, hi, free, below) ↦ inr (
      omega arith,
      omega arith,
      free,
      λ j p q. from_here (λ k. is_free (gdt k) ≡ false) i j full (λ h. below j h q) p,
    )
  ])
]

-- `make_gdt_desc_for_tss` with `DPL_KERNEL` makes a descriptor from which the processor reads the
-- segment's address, and which `is_a_tss_descriptor` accepts.
pub make_gdt_desc_for_tss-base_of :
    (b : ℕ)
    → b < 2 ^ 32
    → let desc = make_gdt_desc_for_tss b dpl_kernel in
      (base_of desc ≡ b) × (is_a_tss_descriptor desc ≡ true)
unfolding is_a_tss_descriptor
make_gdt_desc_for_tss-base_of b h = (
  omega (arith, high_word b h, low_word b dpl_kernel h),
  ground (
    arith,
    high_word b h,
    testbits-div_mod (make_gdt_desc_for_tss b dpl_kernel).high 12 13,
    testbits-div_mod (make_gdt_desc_for_tss b dpl_kernel).high 8 12,
  ),
)

-- `get_pid_empty` returns the lowest pid from 1 on whose descriptor is empty, or `NOT_FOUND` if none of
-- the descriptors 1 .. 8191 is.
pub get_pid_empty-first :
    (gdt : Array GdtDesc)
    → let pid = get_pid_empty gdt in
      ((pid ≡ not_found) × ((j : ℕ) → 1 ≤ j → j < max_gdt_terms → is_free (gdt j) ≡ false))
      ⊎ ((1 ≤ pid)
          × (pid < max_gdt_terms)
          × (is_free (gdt pid) ≡ true)
          × ((j : ℕ) → 1 ≤ j → j < pid → is_free (gdt j) ≡ false))
unfolding get_pid_empty
get_pid_empty-first gdt = empty_loop-first 8191 1 gdt

-- A free descriptor with none below it from 1 on is the one that `get_pid_empty` returns.
pub get_pid_empty-eq :
    (gdt : Array GdtDesc) (pid : ℕ)
    → 1 ≤ pid
    → pid < max_gdt_terms
    → is_free (gdt pid) ≡ true
    → ((j : ℕ) → 1 ≤ j → j < pid → is_free (gdt j) ≡ false)
    → get_pid_empty gdt ≡ pid
get_pid_empty-eq gdt pid low high free below = elim (get_pid_empty-first gdt) [
  | inl (none_left, all) ↦ absurd (true≢false (sym free ∙ all pid low high))
  | inr (lo, hi, found, before) ↦ elim (dec_lt pid (get_pid_empty gdt)) [
    | yes later ↦ absurd (true≢false (sym free ∙ before pid low later))
    | no here ↦ elim (dec_lt (get_pid_empty gdt) pid) [
      | yes earlier ↦ absurd (true≢false (sym found ∙ below (get_pid_empty gdt) lo earlier))
      | no same ↦ omega arith
    ]
  ]
]

-- A descriptor of a task state segment is not free.
pub is_free-tss : (desc : GdtDesc) → is_a_tss_descriptor desc ≡ true → is_free desc ≡ false
unfolding is_a_tss_descriptor
is_free-tss desc h = ground (arith, h, testbits-div_mod desc.high 8 12)

-- ===== src/Memory/Mapping.antt =====
-- Mapping a page and translating an address through the tables.
use weg_os.Base.{
  ℕ, ◌+◌, ◌-◌, ◌*◌, ◌/◌, ◌%◌, ◌^◌, ◌≤◌, ◌<◌, ◌≡◌, ◌≢◌, ◌⊎◌, refl, ap, ◌∙◌, arith, true, false,
  bit_and, bit_or, Array, inl, inr, Bool-cases,
}
use weg_os.Base.Digits.{bit_and_ones, bit_or-lt, bit_or_step}
use weg_os.Base.Bytes.{load32, store32, load32-store32_self, load32-store32_apart}
use weg_os.Bit.{testbit}
use weg_os.Memory.{
  Memory, page_size, page_table_p, page_table_flag_user_read_write, p_malloc, entry, index_in_pde,
  index_in_pte, table_of, ensure_table, set_mmap, load_memory, addr_translate, has_addr,
}
use weg_os.Memory.Frames.{HasFrames, is_taken, p_malloc-lt, p_malloc-Malloced}
use weg_os.Memory.Entries.{bit_and_frame, bit_or_flags, testbit-present}

-- Two words of memory that do not overlap.
abbrev pub Apart : ℕ → ℕ → Type 0
Apart a b = (a + 4 ≤ b) ⊎ (b + 4 ≤ a)

-- The addresses of a virtual address's directory entry and page table entry.
abbrev pub pde_of : ℕ → ℕ → ℕ
pde_of cr3 virtual = entry cr3 (index_in_pde virtual)

abbrev pub pte_of : Array ℕ → ℕ → ℕ → ℕ
pte_of mem cr3 virtual = entry (table_of mem cr3 virtual) (index_in_pte virtual)

-- A write apart from the directory entry leaves the table where it is.
pub table_of-store32 :
    (mem : Array ℕ) (cr3 virtual a w : ℕ)
    → Apart a (pde_of cr3 virtual)
    → table_of (store32 mem a w) cr3 virtual ≡ table_of mem cr3 virtual
unfolding table_of
table_of-store32 mem cr3 virtual a w apart =
    ap (λ (t : ℕ). bit_and t 0xfffff000) (load32-store32_apart mem a (pde_of cr3 virtual) w apart)

-- After `ensure_table` the directory entry is present.
pub ensure_table-present :
    (m : Memory) (cr3 virtual : ℕ)
    → testbit (load32 (ensure_table m cr3 virtual).1.mem (pde_of cr3 virtual)) page_table_p ≡ true
unfolding ensure_table
ensure_table-present m cr3 virtual =
    elim (Bool-cases (testbit (load32 m.mem (pde_of cr3 virtual)) page_table_p)) [
      | inl old ↦ rw old old
      | inr new ↦
          rw
            (
              new,
              load32-store32_self mem' (pde_of cr3 virtual) pde
                  (bit_or-lt 32 frame 7 (p_malloc-lt m) (omega arith)),
            )
            (testbit-present pde ∙ ground (arith, bit_or_step frame 7))
    ]
  where
    frame : ℕ
    frame = (p_malloc m).0

    mem' : Array ℕ
    mem' = (p_malloc m).1.mem

    pde : ℕ
    pde = bit_or frame page_table_flag_user_read_write

module _ (mem : Array ℕ) (cr3 virtual w : ℕ) (fits : w < 2 ^ 32)
    (apart : Apart (pte_of mem cr3 virtual) (pde_of cr3 virtual)) where
  -- Memory after the page table entry of `virtual` is written.
  abbrev written : Array ℕ
  written = store32 mem (pte_of mem cr3 virtual) w

  table-written : table_of written cr3 virtual ≡ table_of mem cr3 virtual
  table-written = table_of-store32 mem cr3 virtual (pte_of mem cr3 virtual) w apart

  pub pte-written : load32 written (pte_of written cr3 virtual) ≡ w
  pte-written =
      ap (λ (t : ℕ). load32 written (entry t (index_in_pte virtual))) table-written
      ∙ load32-store32_self mem (pte_of mem cr3 virtual) w fits

  pub pde-written : load32 written (pde_of cr3 virtual) ≡ load32 mem (pde_of cr3 virtual)
  pde-written = load32-store32_apart mem (pte_of mem cr3 virtual) (pde_of cr3 virtual) w apart

  pub has_addr-written :
      testbit (load32 mem (pde_of cr3 virtual)) page_table_p ≡ true
      → has_addr written cr3 virtual ≡ testbit w page_table_p
  unfolding has_addr
  has_addr-written present = rw (pde-written, present, pte-written)

  pub addr_translate-written :
      addr_translate written cr3 virtual
      ≡ (w / page_size * page_size + virtual % page_size) % 2 ^ 32
  unfolding addr_translate
  addr_translate-written = rw (pte-written, bit_and_frame w fits, bit_and_ones 12 virtual)

-- `set_mmap` maps the page: if the page table does not overlap its own directory entry, the physical
-- address is a page's, and the flags are twelve bits with the present bit among them, then the virtual
-- address has a page, and translates to the physical address with its own low twelve bits.
pub addr_translate-set_mmap :
    (m : Memory) (cr3 virtual physical flags : ℕ)
    → physical % page_size ≡ 0
    → physical < 2 ^ 32
    → flags < page_size
    → flags % 2 ≡ 1
    → Apart (pte_of (ensure_table m cr3 virtual).1.mem cr3 virtual) (pde_of cr3 virtual)
    → let m' = (set_mmap m cr3 virtual physical flags).1 in
      (has_addr m'.mem cr3 virtual ≡ true)
      × (addr_translate m'.mem cr3 virtual ≡ physical + virtual % page_size)
unfolding set_mmap
addr_translate-set_mmap m cr3 virtual physical flags aligned bound small present apart = (
  has_addr-written mem cr3 virtual w fits apart (ensure_table-present m cr3 virtual)
      ∙ testbit-present w
      ∙ ground (arith, entry_is),
  addr_translate-written mem cr3 virtual w fits apart ∙ omega (arith, entry_is),
)
  where
    mem : Array ℕ
    mem = (ensure_table m cr3 virtual).1.mem

    w : ℕ
    w = bit_or physical flags

    entry_is : w ≡ physical + flags
    entry_is = bit_or_flags physical flags aligned small

    fits : w < 2 ^ 32
    fits = omega (arith, entry_is)

-- Whether a table was there is what `set_mmap` returns, and the table is then the one that was there.
pub set_mmap-result :
    (m : Memory) (cr3 virtual physical flags : ℕ)
    → (set_mmap m cr3 virtual physical flags).0
      ≡ testbit (load32 m.mem (pde_of cr3 virtual)) page_table_p
unfolding set_mmap ensure_table
set_mmap-result m cr3 virtual physical flags = ground arith

-- Mapping one page leaves another alone: if both pages have their tables and none of the three entries
-- concerned overlaps the page table entry that is written, the other address has a page exactly as
-- before, and the same translation.
pub addr_translate-set_mmap_other :
    (m : Memory) (cr3 virtual physical flags other : ℕ)
    → testbit (load32 m.mem (pde_of cr3 virtual)) page_table_p ≡ true
    → Apart (pte_of m.mem cr3 virtual) (pde_of cr3 other)
    → Apart (pte_of m.mem cr3 virtual) (pte_of m.mem cr3 other)
    → let m' = (set_mmap m cr3 virtual physical flags).1 in
      (has_addr m'.mem cr3 other ≡ has_addr m.mem cr3 other)
      × (addr_translate m'.mem cr3 other ≡ addr_translate m.mem cr3 other)
unfolding set_mmap ensure_table has_addr addr_translate
addr_translate-set_mmap_other m cr3 virtual physical flags other present pde pte = rw present (
    rw
      (
        table,
        load32-store32_apart m.mem at (pde_of cr3 other) w pde,
        load32-store32_apart m.mem at (pte_of m.mem cr3 other) w pte,
      )
      (refl, refl))
  where
    at : ℕ
    at = pte_of m.mem cr3 virtual

    w : ℕ
    w = bit_or physical flags

    table : table_of (store32 m.mem at w) cr3 other ≡ table_of m.mem cr3 other
    table = table_of-store32 m.mem cr3 other at w pde

-- `load_memory` when a frame is left: it returns the lowest free frame, which `p_malloc` takes, and if the
-- page table does not overlap its own directory entry and the flags are twelve bits with the present bit
-- among them, then the virtual address has a page, and translates into that frame.
pub load_memory-maps :
    (m : Memory) (cr3 virtual flags : ℕ)
    → HasFrames m
    → (p_malloc m).0 ≢ 2 ^ 32 - 1
    → flags < page_size
    → flags % 2 ≡ 1
    → Apart
        (pte_of (ensure_table (p_malloc m).1 cr3 virtual).1.mem cr3 virtual)
        (pde_of cr3 virtual)
    → let (physical, m') = load_memory m cr3 virtual flags in
      (is_taken m physical ≡ false)
      × (is_taken (p_malloc m).1 physical ≡ true)
      × ((a : ℕ) → a < physical → is_taken m a ≡ true)
      × (has_addr m'.mem cr3 virtual ≡ true)
      × (addr_translate m'.mem cr3 virtual ≡ physical + virtual % page_size)
unfolding load_memory
load_memory-maps m cr3 virtual flags frames found small present apart =
    elim (p_malloc-Malloced m frames).0 [
      | inl (full, _, _) ↦ absurd (found full)
      | inr (aligned, bound, free, below, after) ↦
          let (has, translates) =
            addr_translate-set_mmap (p_malloc m).1 cr3 virtual (p_malloc m).0 flags aligned bound
              small present apart in
          (free, after (p_malloc m).0 ∙ ground arith, below, has, translates)
    ]

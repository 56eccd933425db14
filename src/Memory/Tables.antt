-- ===== src/Memory/Tables.antt =====
-- Page tables that follow one another in memory: a directory whose first entries name them in order, and
-- the array of their entries, each of which maps a page to itself.
use weg_os.Base.{
  refl, ℕ, ◌+◌, ◌*◌, ◌/◌, ◌%◌, ◌^◌, ◌≤◌, ◌<◌, ◌≡◌, sym, ap, ◌∙◌, arith, true, bit_and, Array,
}
use weg_os.Base.Bytes.{load32}
use weg_os.Base.Digits.{bit_and_ones}
use weg_os.Bit.{testbit}
use weg_os.Memory.{
  page_size, page_table_p, entry, index_in_pde, index_in_pte, table_of, addr_translate, has_addr,
}
use weg_os.Memory.Entries.{
  bit_and_frame, testbit-present, index_in_pde-div_mod, index_in_pte-div_mod,
}
use weg_os.Memory.Mapping.{pde_of, pte_of}

-- The directory at `cr3` names page tables behind `base`, whose first `pages` entries map to themselves.
pub record Names (cr3 base tables pages : ℕ) (mem : Array ℕ) : Type 0 where
  pub named : (k : ℕ) → k < tables → load32 mem (cr3 + 4 * k) ≡ base + page_size * k + 7
  pub mapped : (p : ℕ) → p < pages → load32 mem (base + 4 * p) ≡ page_size * p + 3

module _ (cr3 base : ℕ) (base_page : base % page_size ≡ 0) (bound : cr3 + page_size ≤ 2 ^ 32) where
  -- The address of a page's directory entry, and that of its page table.
  pub entry-page : (n : ℕ) → n < 2 ^ 20 → pde_of cr3 (page_size * n) ≡ cr3 + 4 * (n / 1024)
  entry-page n small =
      ap (λ (k : ℕ). (cr3 + 4 * k) % 2 ^ 32) (index_in_pde-div_mod (page_size * n) (omega arith))
      ∙ omega arith

  table_of-page :
      (tables pages : ℕ) (mem : Array ℕ) (n : ℕ)
      → Names cr3 base tables pages mem
      → n / 1024 < tables
      → n < 2 ^ 20
      → base + page_size * tables ≤ 2 ^ 32
      → table_of mem cr3 (page_size * n) ≡ base + page_size * (n / 1024)
  unfolding table_of
  table_of-page tables pages mem n v there small top =
      let word : load32 mem (pde_of cr3 (page_size * n)) ≡ base + page_size * (n / 1024) + 7 =
        ap (load32 mem) (entry-page n small) ∙ v.named (n / 1024) there in
      ap (λ (w : ℕ). bit_and w 0xfffff000) word
      ∙ bit_and_frame (base + page_size * (n / 1024) + 7) (omega arith)
      ∙ omega (arith, base_page)

  pub pte_of-page :
      (tables pages : ℕ) (mem : Array ℕ) (n : ℕ)
      → Names cr3 base tables pages mem
      → n / 1024 < tables
      → n < 2 ^ 20
      → base + page_size * tables ≤ 2 ^ 32
      → pte_of mem cr3 (page_size * n) ≡ base + 4 * n
  pte_of-page tables pages mem n v there small top =
      ap (λ (t : ℕ). (t + 4 * index_in_pte (page_size * n)) % 2 ^ 32)
        (table_of-page tables pages mem n v there small top)
      ∙ omega (arith, index_in_pte-div_mod (page_size * n), base_page)

  -- The two entries of an address are those of its page.
  entries-page :
      (mem : Array ℕ) (a : ℕ)
      → a < 2 ^ 32
      → (pde_of cr3 a ≡ pde_of cr3 (page_size * (a / page_size)))
        × (pte_of mem cr3 a ≡ pte_of mem cr3 (page_size * (a / page_size)))
  unfolding table_of
  entries-page mem a small =
      let p : ℕ = a / page_size in
      let pde : index_in_pde a ≡ index_in_pde (page_size * p) =
        index_in_pde-div_mod a small
        ∙ omega arith
        ∙ sym (index_in_pde-div_mod (page_size * p) (omega arith)) in
      let pte : index_in_pte a ≡ index_in_pte (page_size * p) =
        index_in_pte-div_mod a ∙ omega arith ∙ sym (index_in_pte-div_mod (page_size * p)) in
      (
        ap (λ (k : ℕ). entry cr3 k) pde,
        ap (λ (k : ℕ). entry (bit_and (load32 mem (entry cr3 k)) 0xfffff000) (index_in_pte a)) pde
            ∙ ap (λ (k : ℕ). entry (table_of mem cr3 (page_size * p)) k) pte,
      )

  -- Below its pages such memory has every address, and translates it to itself.
  pub Names-identity :
      (tables pages : ℕ) (mem : Array ℕ) (a : ℕ)
      → Names cr3 base tables pages mem
      → a / page_size < pages
      → pages ≤ 1024 * tables
      → base + page_size * tables ≤ 2 ^ 32
      → a < 2 ^ 32
      → (has_addr mem cr3 a ≡ true) × (addr_translate mem cr3 a ≡ a)
  unfolding has_addr addr_translate
  Names-identity tables pages mem a v inside covered top small =
      let p : ℕ = a / page_size in
      let (pde_page, pte_page) = entries-page mem a small in
      let pde : load32 mem (pde_of cr3 a) ≡ base + page_size * (p / 1024) + 7 =
        ap (load32 mem) (pde_page ∙ entry-page p (omega arith))
        ∙ v.named (p / 1024) (omega arith) in
      let pte : load32 mem (pte_of mem cr3 a) ≡ page_size * p + 3 =
        ap (load32 mem)
          (pte_page ∙ pte_of-page tables pages mem p v (omega arith) (omega arith) top)
        ∙ v.mapped p inside in
      let there : testbit (load32 mem (pde_of cr3 a)) page_table_p ≡ true =
        testbit-present _ ∙ ground (arith, pde, base_page) in
      let here : testbit (load32 mem (pte_of mem cr3 a)) page_table_p ≡ true =
        testbit-present _ ∙ ground (arith, pte) in
      let frame : bit_and (load32 mem (pte_of mem cr3 a)) 0xfffff000 ≡ page_size * p =
        ap (λ (w : ℕ). bit_and w 0xfffff000) pte
        ∙ bit_and_frame (page_size * p + 3) (omega arith)
        ∙ omega arith in
      (rw (there, here) refl, rw (frame, bit_and_ones 12 a) (omega arith))

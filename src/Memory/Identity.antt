-- ===== src/Memory/Identity.antt =====
-- `add_mmap_to_itself` of kernel/mm/memory.c: the identity mapping below a limit. The frames below some
-- address are taken and all others are free, as after `memory_alloc_init`; then the page tables follow
-- one another from that address on, and their entries are one array.
use weg_os.Base.{
  ℕ, zero, suc, ◌+◌, ◌-◌, ◌*◌, ◌/◌, ◌%◌, ◌^◌, ◌≤◌, ◌<◌, ◌≡◌, ◌⊎◌, refl, ap, ◌∙◌, subst, arith, true,
  false, bit_or, ltb, inl, inr,
}
use native.Mathlib.Decide.{dec_lt, ℕ_discrete}
use weg_os.Base.Bytes.{load32, store32, load32-store32_self, load32-store32_apart}
use weg_os.Bit.{testbit}
use weg_os.Memory.{
  Memory, page_size, page_table_p, p_malloc, ensure_table, set_mmap, itself_loop,
  add_mmap_to_itself, addr_translate, has_addr,
}
use weg_os.Memory.Entries.{bit_or_flags, testbit-present}
use weg_os.Memory.Mapping.{pde_of, pte_of}
use weg_os.Memory.Tables.{Names, entry-page, pte_of-page, Names-identity}
use weg_os.Memory.Frames.{HasFrames, is_taken, p_malloc-Malloced}

-- When just the frames below an address are taken, the one at the address is given out.
pub p_malloc-lowest :
    (first : ℕ) (m : Memory)
    → HasFrames m
    → first % page_size ≡ 0
    → first < 2 ^ 32
    → ((a : ℕ) → a < 2 ^ 32 → is_taken m a ≡ ltb a first)
    → ((p_malloc m).0 ≡ first)
      × ((p_malloc m).1.mem ≡ m.mem)
      × HasFrames (p_malloc m).1
      × ((a : ℕ) → a < 2 ^ 32 → is_taken (p_malloc m).1 a ≡ ltb a (first + page_size))
p_malloc-lowest first m v page fits taken =
    let free : is_taken m first ≡ false = taken first fits ∙ ground arith in
    let (outcome, frames, kept) = p_malloc-Malloced m v in
    elim outcome [
      | inl (full, all, _) ↦ absurd (ground (arith, all first fits, free))
      | inr (aligned, bound, unused, below, after) ↦
          let low : ¬ ((p_malloc m).0 < first) =
            λ h. ground (arith, taken (p_malloc m).0 bound, unused) in
          let high : ¬ (first < (p_malloc m).0) = λ h. ground (arith, below first h, free) in
          let at : (p_malloc m).0 ≡ first = omega (arith, low, high) in
          (at, kept, frames, λ a h. ground (arith, after a, taken a h, at, page))
    ]

module _ (cr3 base : ℕ) where
  -- The directory is a page below `base`, which is a page's address.
  pub record IsPlaced : Type 0 where
    pub directory_page : cr3 % page_size ≡ 0
    pub base_page : base % page_size ≡ 0
    pub below : cr3 + page_size ≤ base

  -- Memory with `tables` page tables behind `base`, whose first `pages` entries map to themselves.
  pub record Maps (tables pages : ℕ) (m : Memory) : Type 0 where
    pub frames : HasFrames m
    pub taken : (a : ℕ) → a < 2 ^ 32 → is_taken m a ≡ ltb a (base + page_size * tables)
    pub names : Names cr3 base tables pages m.mem
    pub absent : (k : ℕ) → tables ≤ k → k < 1024 → load32 m.mem (cr3 + 4 * k) % 2 ≡ 0

module _ {cr3 base : ℕ} (placed : IsPlaced cr3 base) where
  -- A new table is the frame behind the last one.
  p_malloc-next :
      (tables pages : ℕ) (m : Memory)
      → Maps cr3 base tables pages m
      → base + page_size * tables < 2 ^ 32
      → ((p_malloc m).0 ≡ base + page_size * tables)
        × ((p_malloc m).1.mem ≡ m.mem)
        × HasFrames (p_malloc m).1
        × ((a : ℕ)
            → a < 2 ^ 32
            → is_taken (p_malloc m).1 a ≡ ltb a (base + page_size * (tables + 1)))
  p_malloc-next tables pages m v fits =
      let (at, kept, frames, taken) =
        p_malloc-lowest (base + page_size * tables) m v.frames (omega (arith, placed.base_page))
          fits v.taken in
      let next : base + page_size * tables + page_size ≡ base + page_size * (tables + 1) =
        omega arith in
      (at, kept, frames, λ a h. taken a h ∙ ap (ltb a) next)

  -- A directory entry that is present stays as it is.
  ensure_table-old :
      (tables pages : ℕ) (m : Memory) (n : ℕ)
      → Maps cr3 base tables pages m
      → n / 1024 < tables
      → n < 2 ^ 20
      → base + page_size * tables ≤ 2 ^ 32
      → ensure_table m cr3 (page_size * n) ≡ (true, m)
  unfolding ensure_table
  ensure_table-old tables pages m n v there small top =
      let word : load32 m.mem (pde_of cr3 (page_size * n)) ≡ base + page_size * (n / 1024) + 7 =
        ap (load32 m.mem)
          (entry-page cr3 base placed.base_page (omega (arith, placed.below)) n small)
        ∙ v.names.named (n / 1024) there in
      let present : testbit (load32 m.mem (pde_of cr3 (page_size * n))) page_table_p ≡ true =
        testbit-present _ ∙ ground (arith, word, placed.base_page) in
      rw present refl

  -- The first page behind the last table gets a new table.
  ensure_table-new :
      (tables pages : ℕ) (m : Memory) (n : ℕ)
      → Maps cr3 base tables pages m
      → n / 1024 ≡ tables
      → pages ≤ 1024 * tables
      → n < 2 ^ 20
      → base + page_size * (tables + 1) ≤ 2 ^ 32
      → Maps cr3 base (tables + 1) pages (ensure_table m cr3 (page_size * n)).1
  unfolding ensure_table
  ensure_table-new tables pages m n v next behind small top =
      let at : pde_of cr3 (page_size * n) ≡ cr3 + 4 * tables =
        entry-page cr3 base placed.base_page (omega (arith, placed.below)) n small ∙ omega arith in
      let absent : testbit (load32 m.mem (pde_of cr3 (page_size * n))) page_table_p ≡ false =
        testbit-present _
        ∙ ground (arith, ap (load32 m.mem) at, v.absent tables (omega arith) (omega arith)) in
      let (frame, kept, frames, taken) = p_malloc-next tables pages m v (omega arith) in
      let word : bit_or (p_malloc m).0 7 ≡ base + page_size * tables + 7 =
        bit_or_flags (p_malloc m).0 7 (omega (arith, placed.base_page)) (omega arith)
        ∙ omega arith in
      rw (absent, at, word, kept)
        (record {
          frames = record { bytes = frames.bytes; full_size = frames.full_size };
          taken = taken;
          names = record {
            named = λ k h. elim (dec_lt k tables) [
              | yes old ↦
                  load32-store32_apart m.mem (cr3 + 4 * tables) (cr3 + 4 * k) _ (inr (omega arith))
                  ∙ v.names.named k old
              | no last ↦
                  ap (load32 (store32 m.mem (cr3 + 4 * tables) (base + page_size * tables + 7)))
                    (omega arith)
                  ∙ load32-store32_self m.mem (cr3 + 4 * tables) _ (omega arith)
                  ∙ omega arith
            ];
            mapped = λ p h.
                load32-store32_apart m.mem (cr3 + 4 * tables) (base + 4 * p) _
                  (inl (omega (arith, placed.below)))
                ∙ v.names.mapped p h;
          };
          absent = λ k h l.
              ap (λ (w : ℕ). w % 2)
                (load32-store32_apart m.mem (cr3 + 4 * tables) (cr3 + 4 * k) _ (inl (omega arith)))
              ∙ v.absent k (omega arith) l;
        })

  -- With its table there, the entry of the next page is written behind the entries before it.
  entry-written :
      (tables n : ℕ) (m : Memory)
      → Maps cr3 base tables n m
      → n / 1024 < tables
      → tables ≤ 1024
      → n < 2 ^ 20
      → base + page_size * tables ≤ 2 ^ 32
      → Maps cr3 base tables (n + 1) (record m {
        mem = store32 m.mem (pte_of m.mem cr3 (page_size * n)) (bit_or (page_size * n) 3);
      })
  entry-written tables n m v there few small top =
      let at : pte_of m.mem cr3 (page_size * n) ≡ base + 4 * n =
        pte_of-page cr3 base placed.base_page (omega (arith, placed.below)) tables n m.mem n v.names
          there small top in
      let word : bit_or (page_size * n) 3 ≡ page_size * n + 3 =
        bit_or_flags (page_size * n) 3 (omega arith) (omega arith) in
      let apart : (a : ℕ)
          → (base + 4 * n + 4 ≤ a) ⊎ (a + 4 ≤ base + 4 * n)
          → load32 (store32 m.mem (base + 4 * n) (page_size * n + 3)) a ≡ load32 m.mem a =
        λ a h. load32-store32_apart m.mem (base + 4 * n) a (page_size * n + 3) h in
      rw (at, word)
        (record {
          frames = record { bytes = v.frames.bytes; full_size = v.frames.full_size };
          taken = v.taken;
          names = record {
            named =
                λ k h. apart (cr3 + 4 * k) (inr (omega (arith, placed.below))) ∙ v.names.named k h;
            mapped = λ p h. elim (dec_lt p n) [
              | yes old ↦ apart (base + 4 * p) (inr (omega arith)) ∙ v.names.mapped p old
              | no last ↦
                  let same : p ≡ n = omega arith in
                  rw same (load32-store32_self m.mem (base + 4 * n) _ (omega arith))
            ];
          };
          absent = λ k h l.
              ap (λ (w : ℕ). w % 2) (apart (cr3 + 4 * k) (inr (omega (arith, placed.below))))
              ∙ v.absent k h l;
        })

  -- The page tables for the pages below `pages`.
  abbrev tables_for : ℕ → ℕ
  tables_for pages = (pages + 1023) / 1024

  set_mmap-next :
      (n : ℕ) (m : Memory)
      → Maps cr3 base (tables_for n) n m
      → n < 2 ^ 19
      → base + page_size * tables_for (n + 1) ≤ 2 ^ 32
      → Maps cr3 base
          (tables_for (n + 1))
          (n + 1)
          (set_mmap m cr3 (page_size * n) (page_size * n) 3).1
  unfolding set_mmap
  set_mmap-next n m v small top = elim (ℕ_discrete (n % 1024) 0) [
    | yes first ↦
        let more : Maps cr3 base (tables_for n + 1) n (ensure_table m cr3 (page_size * n)).1 =
          ensure_table-new (tables_for n) n m n v (omega arith) (omega arith) (omega arith)
            (omega arith) in
        let same : tables_for (n + 1) ≡ tables_for n + 1 = omega arith in
        rw same (
          entry-written (tables_for n + 1) n (ensure_table m cr3 (page_size * n)).1 more
            (omega arith) (omega arith) (omega arith) (omega arith))
    | no inside ↦
        let same : tables_for (n + 1) ≡ tables_for n = omega arith in
        rw (same, ensure_table-old (tables_for n) n m n v (omega arith) (omega arith) (omega arith))
          (entry-written (tables_for n) n m v (omega arith) (omega arith) (omega arith)
            (omega arith))
  ]

  itself_loop-Maps :
      (rounds n : ℕ) (m : Memory)
      → Maps cr3 base (tables_for n) n m
      → n + rounds ≤ 2 ^ 19
      → base + page_size * tables_for (n + rounds) ≤ 2 ^ 32
      → Maps cr3 base
          (tables_for (n + rounds))
          (n + rounds)
          (itself_loop rounds (page_size * n) m cr3)
  unfolding itself_loop
  itself_loop-Maps zero n m v small top = let same : n + 0 ≡ n = omega arith in rw same v
  itself_loop-Maps (suc rounds) n m v small top =
      let same : n + suc rounds ≡ n + 1 + rounds = omega arith in
      let at : page_size * n + page_size ≡ page_size * (n + 1) = omega arith in
      rw (same, at)
        (itself_loop-Maps rounds (n + 1) (set_mmap m cr3 (page_size * n) (page_size * n) 3).1
          (set_mmap-next n m v (omega arith) (omega arith)) (omega arith) (omega arith))

-- `add_mmap_to_itself` makes the tables for the pages below the limit.
pub add_mmap_to_itself-Maps :
    (cr3 base : ℕ) (m : Memory) (upper_limit flags : ℕ)
    → IsPlaced cr3 base
    → Maps cr3 base 0 0 m
    → upper_limit ≤ 2 ^ 31
    → base + page_size * ((upper_limit + 2 ^ 22 - 1) / 2 ^ 22) ≤ 2 ^ 32
    → Maps cr3 base
        ((upper_limit + 2 ^ 22 - 1) / 2 ^ 22)
        ((upper_limit + page_size - 1) / page_size)
        (add_mmap_to_itself m cr3 upper_limit flags)
unfolding add_mmap_to_itself
add_mmap_to_itself-Maps cr3 base m upper_limit flags placed start small top =
    let pages : ℕ = (upper_limit + page_size - 1) / page_size in
    let tables : (pages + 1023) / 1024 ≡ (upper_limit + 2 ^ 22 - 1) / 2 ^ 22 = omega arith in
    let all : 0 + pages ≡ pages = omega arith in
    subst (λ (t : ℕ). Maps cr3 base t pages (itself_loop pages 0 m cr3)) tables
      (subst (λ (p : ℕ). Maps cr3 base ((p + 1023) / 1024) p (itself_loop pages 0 m cr3)) all
        (itself_loop-Maps placed pages 0 m start (omega arith) (omega arith)))

-- Take a directory that is a page below `base`, no entry of it present, all frames below `base` taken
-- and all others free, and a limit of at most 2 ^ 31 whose page tables fit between `base` and 2 ^ 32.
-- Then after `add_mmap_to_itself` every address below the limit has a page and translates to itself, and
-- the frames taken besides are just those of the page tables, one for each 2 ^ 22 bytes begun.
pub add_mmap_to_itself-identity :
    (cr3 base : ℕ) (m : Memory) (upper_limit flags : ℕ)
    → IsPlaced cr3 base
    → Maps cr3 base 0 0 m
    → upper_limit ≤ 2 ^ 31
    → base + page_size * ((upper_limit + 2 ^ 22 - 1) / 2 ^ 22) ≤ 2 ^ 32
    → let m' = add_mmap_to_itself m cr3 upper_limit flags in
      ((a : ℕ)
        → a < upper_limit
        → (has_addr m'.mem cr3 a ≡ true) × (addr_translate m'.mem cr3 a ≡ a))
      × ((a : ℕ)
          → a < 2 ^ 32
          → is_taken m' a ≡ ltb a (base + page_size * ((upper_limit + 2 ^ 22 - 1) / 2 ^ 22)))
      × HasFrames m'
add_mmap_to_itself-identity cr3 base m upper_limit flags placed start small top =
    let tables : ℕ = (upper_limit + 2 ^ 22 - 1) / 2 ^ 22 in
    let pages : ℕ = (upper_limit + page_size - 1) / page_size in
    let v : Maps cr3 base tables pages (add_mmap_to_itself m cr3 upper_limit flags) =
      add_mmap_to_itself-Maps cr3 base m upper_limit flags placed start small top in
    (
      λ a h.
          Names-identity cr3 base placed.base_page (omega (arith, placed.below)) tables pages
            (add_mmap_to_itself m cr3 upper_limit flags).mem a v.names (omega arith) (omega arith)
            top (omega arith),
      v.taken,
      v.frames,
    )

-- ===== src/Paging/Page.antt =====
-- A page from the disk, at the frame that it is given.
use weg_os.Base.{
  ℕ, zero, suc, ◌+◌, ◌-◌, ◌/◌, ◌%◌, ◌^◌, ◌≤◌, ◌<◌, ◌≡◌, refl, sym, ap₂, ◌∙◌, ◌⊎◌, arith, true,
  Array, update, some, leb, ltb, if◌then◌else◌,
}
use native.Mathlib.Decide.{ℕ_discrete}
use weg_os.Base.Bytes.{load32}
use weg_os.Base.Digits.{bit_and_ones}
use weg_os.Disk.{Disk}
use weg_os.Memory.{
  Memory, page_size, index_in_pde, index_in_pte, table_of, has_addr, addr_translate, p_malloc,
  load_memory, ensure_table,
}
use weg_os.Memory.Entries.{index_in_pde-div_mod, index_in_pte-div_mod}
use weg_os.Memory.Mapping.{Apart, pde_of, pte_of, addr_translate-set_mmap}
use weg_os.Memory.Swap.{swap_sector_of}
use weg_os.Paging.{read_page, swap_in}

-- A word of memory outside of a frame.
abbrev pub Outside : ℕ → ℕ → Type 0
Outside frame a = (a + 4 ≤ frame) ⊎ (frame + page_size ≤ a)

load32-update :
    (mem : Array ℕ) (frame a b v : ℕ)
    → Outside frame a
    → frame ≤ b
    → b < frame + page_size
    → load32 (update mem b v) a ≡ load32 mem a
unfolding load32
load32-update mem frame a b v out low high = ground arith

module _ (virtual i : ℕ) (aligned : virtual % page_size ≡ 0) (fits : virtual < 2 ^ 32)
    (small : i < page_size) where
  pde-same : index_in_pde (virtual + i) ≡ index_in_pde virtual
  pde-same =
      index_in_pde-div_mod (virtual + i) (omega arith)
      ∙ omega arith
      ∙ sym (index_in_pde-div_mod virtual fits)

  pte-same : index_in_pte (virtual + i) ≡ index_in_pte virtual
  pte-same = index_in_pte-div_mod (virtual + i) ∙ omega arith ∙ sym (index_in_pte-div_mod virtual)

  has_addr-same :
      (mem : Array ℕ) (cr3 : ℕ) → has_addr mem cr3 (virtual + i) ≡ has_addr mem cr3 virtual
  unfolding has_addr table_of
  has_addr-same mem cr3 = rw (pde-same, pte-same) refl

  addr_translate-same :
      (mem : Array ℕ) (cr3 frame : ℕ)
      → addr_translate mem cr3 virtual ≡ frame
      → frame + page_size ≤ 2 ^ 32
      → addr_translate mem cr3 (virtual + i) ≡ frame + i
  unfolding addr_translate table_of
  addr_translate-same mem cr3 frame e room =
      rw (pde-same, pte-same, bit_and_ones 12 (virtual + i))
        (omega (arith, e, bit_and_ones 12 virtual))

-- A virtual page is in a frame, and the words that say so are not in the frame.
abbrev pub Mapped : Array ℕ → ℕ → ℕ → ℕ → Type 0
Mapped mem cr3 virtual frame =
    (has_addr mem cr3 virtual ≡ true)
    × (addr_translate mem cr3 virtual ≡ frame)
    × Outside frame (pde_of cr3 virtual)
    × Outside frame (pte_of mem cr3 virtual)

-- A byte that is written into the frame leaves the page there.
update-Mapped :
    (mem : Array ℕ) (cr3 virtual frame b v : ℕ)
    → Mapped mem cr3 virtual frame
    → frame ≤ b
    → b < frame + page_size
    → Mapped (update mem b v) cr3 virtual frame
unfolding has_addr addr_translate table_of
update-Mapped mem cr3 virtual frame b v (has, at, pde_out, pte_out) low high =
    let pde = load32-update mem frame (pde_of cr3 virtual) b v pde_out low high in
    let pte = load32-update mem frame (pte_of mem cr3 virtual) b v pte_out low high in
    (rw (pde, pte) has, rw (pde, pte) at, pde_out, rw pde pte_out)

-- Memory with the bytes of a frame from the i-th on replaced by those of the sectors.
abbrev pub Filled : ℕ → Array ℕ → ℕ → Disk → ℕ → Array ℕ → Type 0
Filled i mem frame disk sector mem' =
    (k : ℕ)
    → mem' k ≡ (
        if leb (frame + i) k
        then (if ltb k (frame + page_size)
            then disk (sector + (k - frame) / 512) ((k - frame) % 512)
            else mem k)
        else mem k)

Filled-step :
    (i : ℕ) (mem : Array ℕ) (frame b : ℕ) (disk : Disk) (sector : ℕ) (mem' : Array ℕ)
    → b ≡ frame + i
    → i < page_size
    → Filled (i + 1) (update mem b (disk (sector + i / 512) (i % 512))) frame disk sector mem'
    → Filled i mem frame disk sector mem'
Filled-step i mem frame b disk sector mem' e small rest k = elim (ℕ_discrete k b) [
  | yes here ↦
      let same : disk (sector + (k - frame) / 512) ((k - frame) % 512)
          ≡ disk (sector + i / 512) (i % 512) =
        ap₂ (λ (x y : ℕ). disk x y) (omega arith) (omega arith) in
      ground (arith, rest k, same)
  | no other ↦ ground (arith, rest k)
]

read_page-Filled :
    (rounds i : ℕ) (mem : Array ℕ) (cr3 : ℕ) (disk : Disk) (sector virtual frame : ℕ)
    → i + rounds ≡ page_size
    → virtual % page_size ≡ 0
    → virtual < 2 ^ 32
    → frame + page_size ≤ 2 ^ 32
    → Mapped mem cr3 virtual frame
    → (mem' : Array ℕ) × (read_page rounds i mem cr3 disk sector virtual ≡ some mem')
      × Mapped mem' cr3 virtual frame
      × Filled i mem frame disk sector mem'
unfolding read_page
read_page-Filled zero i mem cr3 disk sector virtual frame e aligned fits room mapped =
    (mem, refl, mapped, λ k. ground arith)
read_page-Filled (suc rounds) i mem cr3 disk sector virtual frame e aligned fits room mapped =
    let b = addr_translate mem cr3 (virtual + i) in
    let at : b ≡ frame + i =
      addr_translate-same virtual i aligned fits (omega arith) mem cr3 frame mapped.1 room in
    let has : has_addr mem cr3 (virtual + i) ≡ true =
      has_addr-same virtual i aligned fits (omega arith) mem cr3 ∙ mapped.0 in
    let v = disk (sector + i / 512) (i % 512) in
    let mapped1 = update-Mapped mem cr3 virtual frame b v mapped (omega arith) (omega arith) in
    let (mem', run, mapped', filled) =
      read_page-Filled rounds (i + 1) (update mem b v) cr3 disk sector virtual frame (omega arith)
        aligned fits room mapped1 in
    (mem', rw has run, mapped', Filled-step i mem frame b disk sector mem' at (omega arith) filled)

-- A page that is not in memory, whose entry has a sector, and a free frame for it, in which neither the words of
-- the tables that name the page lie, nor does the table overlap its directory entry: for the address of
-- the start of the page, `swap_in` returns; the page is in memory, in the frame; the frame holds the
-- bytes of the eight sectors; and memory outside of the frame is as the mapping of the page left it.
pub swap_in-Filled :
    (m : Memory) (disk : Disk) (cr3 useful flags sector : ℕ)
    → useful % page_size ≡ 0
    → useful < 2 ^ 32
    → flags < page_size
    → flags % 2 ≡ 1
    → swap_sector_of m.mem cr3 useful ≡ some sector
    → (p_malloc m).0 % page_size ≡ 0
    → (p_malloc m).0 < 2 ^ 32
    → Apart (pte_of (ensure_table (p_malloc m).1 cr3 useful).1.mem cr3 useful) (pde_of cr3 useful)
    → Outside (p_malloc m).0 (pde_of cr3 useful)
    → Outside (p_malloc m).0 (pte_of (load_memory m cr3 useful flags).1.mem cr3 useful)
    → (m' : Memory) × (swap_in m disk cr3 useful flags ≡ some m')
      × (has_addr m'.mem cr3 useful ≡ true)
      × (addr_translate m'.mem cr3 useful ≡ (p_malloc m).0)
      × Filled 0 (load_memory m cr3 useful flags).1.mem (p_malloc m).0 disk sector m'.mem
unfolding swap_in load_memory
swap_in-Filled m disk cr3 useful flags sector aligned fits small present found frame_aligned
      frame_fits apart pde_out pte_out =
    let frame = (p_malloc m).0 in
    let m1 = (load_memory m cr3 useful flags).1 in
    let (has, at) =
      addr_translate-set_mmap (p_malloc m).1 cr3 useful frame flags frame_aligned frame_fits small
        present apart in
    let (mem', run, mapped, filled) =
      read_page-Filled 4096 0 m1.mem cr3 disk sector useful frame refl aligned fits (omega arith)
        (has, at ∙ omega arith, pde_out, pte_out) in
    (record m1 { mem = mem' }, rw (found, run) refl, mapped.0, mapped.1, filled)

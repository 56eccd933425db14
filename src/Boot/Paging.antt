-- ===== src/Boot/Paging.antt =====
-- `memory_init`: the memory that the kernel starts with, mapped to itself.
use weg_os.Base.{
  ℕ, ◌+◌, ◌*◌, ◌/◌, ◌%◌, ◌^◌, ◌≤◌, ◌<◌, ◌≡◌, refl, ap, ◌∙◌, arith, true, false, ltb, Array, ◌==◌,
}
use native.Mathlib.Decide.{dec_lt}
use weg_os.Base.Bytes.{load32}
use weg_os.Base.Digits.{digit-zero}
use weg_os.Bit.{testbit}
use weg_os.Bit.Laws.{testbit-digit}
use weg_os.BitAllocation.Search.{bit_at}
use weg_os.Boot.{Addresses, Machine, memory_of, memory_init, itself_end, page_fault_interrupt}
use weg_os.Interrupt.{set_idt}
use weg_os.Memory.{
  Memory, page_size, memory_alloc_init, has_addr, addr_translate, page_table_flag_kernel_read_write,
}
use weg_os.Memory.Frames.{is_taken, memory_alloc_init_lem}
use weg_os.Memory.Identity.{IsPlaced, Maps, add_mmap_to_itself-Maps}
use weg_os.Memory.Tables.{Names-identity}
use weg_os.Processor.{enable_page}
use weg_os.Base.Flags.{HasDigit, digit-set}

-- The directory is a page of the kernel's, with no entry present, and the bitmap's table is all zero.
pub record IsCleared (at : Addresses) (m : Machine) : Type 0 where
  pub directory_page : at.image.kernel_pd % page_size ≡ 0
  pub in_kernel : at.image.kernel_pd + page_size ≤ 0x800000
  pub absent : (k : ℕ) → k < 1024 → load32 m.mem (at.image.kernel_pd + 4 * k) % 2 ≡ 0
  pub no_frame : (i : ℕ) → m.memory_alloc_table i ≡ 0

memory_alloc_init-mem : (m : Memory) (table : Array ℕ) → (memory_alloc_init m table).mem ≡ m.mem
unfolding memory_alloc_init
memory_alloc_init-mem m table = refl

bit_at-cleared : (bits : Array ℕ) (n : ℕ) → ((i : ℕ) → bits i ≡ 0) → bit_at bits n ≡ false
unfolding bit_at
bit_at-cleared bits n zeros =
    ap (λ (w : ℕ). testbit w (n % 8)) (zeros (n / 8))
    ∙ testbit-digit 0 (n % 8) (omega arith)
    ∙ ap (λ (d : ℕ). d == 1) (digit-zero (n % 8))

pub IsCleared-placed :
    (at : Addresses) (m : Machine) → IsCleared at m → IsPlaced at.image.kernel_pd 0x800000
IsCleared-placed at m s = record {
  directory_page = s.directory_page;
  base_page = refl;
  below = s.in_kernel;
}

pub IsCleared-Maps :
    (at : Addresses) (m : Machine)
    → IsCleared at m
    → Maps at.image.kernel_pd 0x800000 0 0 (memory_alloc_init (memory_of m) m.memory_alloc_table)
IsCleared-Maps at m s =
    let (frames, reserved, others) =
      memory_alloc_init_lem (memory_of m) m.memory_alloc_table
        (λ i. ground (arith, s.no_frame i)) in
    record {
      frames = frames;
      taken = λ a h. elim (dec_lt a 0x800000) [
        | yes low ↦ reserved a low ∙ ground arith
        | no high ↦
            others a (omega arith)
            ∙ bit_at-cleared m.memory_alloc_table (a / page_size) s.no_frame
            ∙ ground arith
      ];
      names = record { named = λ k h. absurd (omega arith); mapped = λ p h. absurd (omega arith) };
      absent = λ k h l.
          ap (λ (b : Array ℕ). load32 b (at.image.kernel_pd + 4 * k) % 2)
            (memory_alloc_init-mem (memory_of m) m.memory_alloc_table)
          ∙ s.absent k l;
    }

pub memory_init-Maps :
    (at : Addresses) (m : Machine)
    → IsCleared at m
    → Maps at.image.kernel_pd 0x800000 64 65536 (memory_of (memory_init at m))
unfolding memory_init
memory_init-Maps at m s =
    add_mmap_to_itself-Maps at.image.kernel_pd 0x800000
      (memory_alloc_init (memory_of m) m.memory_alloc_table) itself_end
      page_table_flag_kernel_read_write (IsCleared-placed at m s) (IsCleared-Maps at m s)
      (omega arith) (omega arith)

-- On a machine whose directory is cleared and whose table of frames is all zero, `memory_init` maps every
-- address below 0x10000000 to itself, takes just the frames below 0x840000, which are those of the kernel
-- and of 64 page tables, has CR3 hold the directory, turns on paging, the highest bit of CR0, and no other
-- bit, and installs the handler of page faults and no other.
pub memory_init-identity :
    (at : Addresses) (m : Machine)
    → IsCleared at m
    → let m' = memory_init at m in
      ((a : ℕ)
        → a < itself_end
        → (has_addr m'.mem m'.processor.cr3 a ≡ true)
          × (addr_translate m'.mem m'.processor.cr3 a ≡ a))
      × ((a : ℕ) → a < 2 ^ 32 → is_taken (memory_of m') a ≡ ltb a 0x840000)
      × (m'.processor.cr3 ≡ at.image.kernel_pd)
      × HasDigit 32 31 1 m.processor.cr0 m'.processor.cr0
      × (m'.idt ≡ set_idt m.idt page_fault_interrupt at.page_fault_handler)
unfolding memory_init enable_page
memory_init-identity at m s =
    let v : Maps at.image.kernel_pd 0x800000 64 65536 (memory_of (memory_init at m)) =
      memory_init-Maps at m s in
    (
      λ a h.
          Names-identity at.image.kernel_pd 0x800000 refl (omega (arith, s.in_kernel)) 64 65536
            (memory_init at m).mem a v.names (omega arith) (omega arith) (omega arith)
            (omega arith),
      v.taken,
      refl,
      λ j h. digit-set m.processor.cr0 31 j,
      refl,
    )

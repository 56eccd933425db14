-- ===== src/Processor/Tables.antt =====
-- The descriptor tables and control registers that the loader and the kernel's start leave.
use weg_os.Base.{
  ℕ, ◌+◌, ◌-◌, ◌*◌, ◌%◌, ◌^◌, ◌≤◌, ◌≡◌, refl, ◌∙◌, arith, bit_or, true, false, ◌∷◌, if◌then◌else◌,
  ltb,
}
use weg_os.Base.Digits.{digit-mod}
use weg_os.Base.Flags.{HasDigit, digit-set, digit-clear}
use weg_os.Interrupt.{Ports}
use weg_os.PidQueue.{max_gdt_terms}
use weg_os.Task.Descriptor.{is_free}
use weg_os.Processor.{Processor, loader_entry, initial_gdt, reload_gdt, eflags_if, inb}

-- `loader_entry` turns off interrupts, the flag at 9, and no other flag; loads the table of three
-- descriptors; sets the lowest bit of CR0, protected mode, and no other; and its one write to a port is
-- to 0x92, of what was read there with bit 1 set, by which the address line A20 is opened.
pub loader_entry-enters :
    (p : Processor) (ports : Ports) (gdt_temp_address : ℕ)
    → let (p', ports') = loader_entry p ports gdt_temp_address in
      HasDigit 32 eflags_if 0 p.eflags p'.eflags
      × (p'.gdtr.limit ≡ 3 * 8 - 1)
      × (p'.gdtr.base_addr ≡ gdt_temp_address)
      × HasDigit 32 0 1 p.cr0 p'.cr0
      × ((value : ℕ) × (ports'.outputs ≡ (0x92, value) ∷ ports.outputs)
          × HasDigit 8 1 1 (inb ports 0x92) value)
unfolding loader_entry
loader_entry-enters p ports gdt_temp_address = (
  λ j h. digit-clear p.eflags eflags_if j (omega arith) h,
  refl,
  refl,
  λ j h. digit-set p.cr0 0 j,
  (
    bit_or (inb ports 0x92) 2 % 2 ^ 8,
    refl,
    λ j h. digit-mod 8 j (bit_or (inb ports 0x92) 2) h ∙ digit-set (inb ports 0x92) 1 j,
  ),
)

-- `sizeof(gdt)` does not fit into 16 bits, but the limit that `lgdt` computes from what is left of it is
-- that of all 8192 descriptors.
pub reload_gdt-limit :
    (p : Processor) (gdt : ℕ)
    → ((reload_gdt p gdt).gdtr.limit + 1 ≡ max_gdt_terms * 8)
      × ((reload_gdt p gdt).gdtr.base_addr ≡ gdt)
unfolding reload_gdt
reload_gdt-limit p gdt = (refl, refl)

-- The first descriptor and those from 5 on are free; the four between are not.
pub initial_gdt-free : (i : ℕ) → 1 ≤ i → is_free (initial_gdt i) ≡ (if ltb i 5 then false else true)
unfolding initial_gdt
initial_gdt-free i low = ground arith

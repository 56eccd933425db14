-- ===== src/Processor.antt =====
-- include/comm/asm.h: the processor's registers that the kernel sets by instructions of their own, with
-- `reload_gdt` of kernel/init/main.c, `enable_page` of kernel/mm/memory.c and the loader, loader/loader_16.c
-- and loader/loader_32.c. An instruction does what the processor's manual says: `lgdt` and `lidt` load a
-- table's limit and base, `cli` and `sti` clear and set the interrupt flag.
pub mod Tables
use weg_os.Base.{
  ℕ, ◌+◌, ◌-◌, ◌*◌, ◌%◌, ◌^◌, bit_and, bit_or, ◌==◌, if◌then◌else◌, Option, Array, List, [], ◌∷◌,
}
use weg_os.Disk.Driver.{read_disk}
use weg_os.Fs.Table.{kernel_dest, kernel_max_size}
use weg_os.Interrupt.{Ports, outb}
use weg_os.PidQueue.{max_gdt_terms}
use weg_os.Task.{GdtDesc}

-- What `lgdt` and `lidt` load.
pub record TableRegister : Type 0 where
  pub limit : ℕ
  pub base_addr : ℕ

pub record Processor : Type 0 where
  pub cr0 : ℕ
  pub cr3 : ℕ
  pub eflags : ℕ
  pub gdtr : TableRegister
  pub idtr : TableRegister

abbrev pub eflags_if : ℕ
eflags_if = 9

unfoldable pub cli : Processor → Processor
cli p = record p { eflags = bit_and p.eflags (2 ^ 32 - 1 - 2 ^ eflags_if) }

unfoldable pub sti : Processor → Processor
sti p = record p { eflags = bit_or p.eflags (2 ^ eflags_if) }

abbrev pub read_cr0 : Processor → ℕ
read_cr0 p = p.cr0

abbrev pub write_cr0 : Processor → ℕ → Processor
write_cr0 p cr0 = record p { cr0 = cr0 }

abbrev pub read_cr3 : Processor → ℕ
read_cr3 p = p.cr3

abbrev pub write_cr3 : Processor → ℕ → Processor
write_cr3 p cr3 = record p { cr3 = cr3 }

-- `size - 1` as a `uint16_t`: a size of 2 ^ 16 arrives as 0, and its limit is 0xffff.
unfoldable pub lgdt : Processor → ℕ → ℕ → Processor
lgdt p base_addr size = record p {
  gdtr = record { limit = (size + 2 ^ 16 - 1) % 2 ^ 16; base_addr = base_addr };
}

unfoldable pub lidt : Processor → ℕ → ℕ → Processor
lidt p base_addr size = record p {
  idtr = record { limit = (size + 2 ^ 16 - 1) % 2 ^ 16; base_addr = base_addr };
}

abbrev pub inb : Ports → ℕ → ℕ
inb ports port = ports.inputs port

unfoldable pub enable_page : Processor → Processor
enable_page p = write_cr0 p (bit_or (read_cr0 p) 0x80000000)

-- A table from its first descriptors; those behind them are zero.
unfoldable pub descriptors : List (ℕ × ℕ) → Array GdtDesc
descriptors [] i = record { low = 0; high = 0 }
descriptors ((low, high) ∷ rest) i =
    if i == 0 then record { low = low; high = high } else descriptors rest (i - 1)

-- The initial `gdt` of the kernel.
unfoldable pub initial_gdt : Array GdtDesc
unfolding descriptors
initial_gdt = descriptors (
    (0, 0)
    ∷ (0x0000ffff, 0x00cf9a00)
    ∷ (0x0000ffff, 0x00cf9200)
    ∷ (0x0000ffff, 0x00cffa00)
    ∷ (0x0000ffff, 0x00cff200)
    ∷ [])

-- `sizeof(gdt)` is handed over as a `uint16_t`.
unfoldable pub reload_gdt : Processor → ℕ → Processor
unfolding lgdt
reload_gdt p gdt = lgdt p gdt (max_gdt_terms * 8 % 2 ^ 16)

-- The loader's `gdt_temp`.
unfoldable pub gdt_temp : Array GdtDesc
unfolding descriptors
gdt_temp = descriptors ((0, 0) ∷ (0x0000ffff, 0x00cf9a00) ∷ (0x0000ffff, 0x00cf9200) ∷ [])

unfoldable pub enter_protected_mode : Processor → Processor
enter_protected_mode p = write_cr0 p (bit_or (read_cr0 p) 1)

unfoldable pub open_a20 : Ports → Ports
open_a20 ports = outb ports 0x92 (bit_or (inb ports 0x92) 0x2)

-- `loader_entry` up to the jump to `kernel_datasg_init_16`, from the address of `gdt_temp`.
unfoldable pub loader_entry : Processor → Ports → ℕ → Processor × Ports
unfolding cli lgdt enter_protected_mode open_a20
loader_entry p ports gdt_temp_address =
    let p1 = cli p in
    let p2 = lgdt p1 gdt_temp_address (3 * 8) in
    let ports' = open_a20 ports in (enter_protected_mode p2, ports')

-- `load_kernel`; the buffer is the memory from 0x100000 on.
unfoldable pub load_kernel : ℕ → (ℕ → ℕ) → (ℕ → ℕ) → Ports → Array ℕ → Option (Ports × Array ℕ)
load_kernel fuel status words ports memory =
    read_disk fuel status words ports kernel_dest kernel_max_size memory

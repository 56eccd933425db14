-- ===== src/Interrupt.antt =====
-- kernel/interrupt/interrupt.c, with include/comm/interrupt.h: the interrupt descriptor table and the
-- two interrupt controllers. The processor's ports are what the devices answer to `inb` and the list of
-- what `outb` wrote, the latest first. `lidt` is left to the processor.
pub mod Laws
pub mod Lines
use weg_os.Base.{
  ℕ, zero, suc, ◌+◌, ◌-◌, ◌*◌, ◌/◌, ◌%◌, ◌^◌, bit_and, bit_or, leb, ltb, if◌then◌else◌, Array,
  update, List, [], ◌∷◌,
}

-- What `inb` answers, by port, and the port and value of each `outb`.
pub record Ports : Type 0 where
  pub inputs : ℕ → ℕ
  pub outputs : List (ℕ × ℕ)

abbrev pub outb : Ports → ℕ → ℕ → Ports
outb ports port value = record ports { outputs = (port, value % 2 ^ 8) ∷ ports.outputs }

-- `idt_desc`
pub record IdtDesc : Type 0 where
  pub low : ℕ
  pub high : ℕ

abbrev pub gdt_kernel_code_seg : ℕ
gdt_kernel_code_seg = 8

abbrev pub pic0_icw1 : ℕ
pic0_icw1 = 0x20

abbrev pub pic0_imr : ℕ
pic0_imr = 0x21

abbrev pub pic1_icw1 : ℕ
pic1_icw1 = 0xa0

abbrev pub pic1_imr : ℕ
pic1_imr = 0xa1

abbrev pub pic_ocw2_eoi : ℕ
pic_ocw2_eoi = 2 ^ 5

abbrev pub pic_start : ℕ
pic_start = 0x20

unfoldable pub make_idt_desc : ℕ → ℕ → IdtDesc
make_idt_desc selector offset =
    let offset_16_31 = offset / 2 ^ 16 % 2 ^ 16 in
    let offset_0_15 = offset % 2 ^ 16 in
    record {
      high = (offset_16_31 * 2 ^ 16 + 0x8e00) % 2 ^ 32;
      low = (selector * 2 ^ 16 + offset_0_15) % 2 ^ 32;
    }

unfoldable pub set_idt : Array IdtDesc → ℕ → ℕ → Array IdtDesc
set_idt idt interrupt_num handler =
    update idt (interrupt_num % 2 ^ 8) (make_idt_desc gdt_kernel_code_seg handler)

-- The loop of `interrupt_init` from descriptor i on.
pub ignore_loop : ℕ → ℕ → Array IdtDesc → ℕ → Array IdtDesc
ignore_loop zero i idt ignore_int = idt
ignore_loop (suc rounds) i idt ignore_int =
    ignore_loop rounds (i + 1) (set_idt idt i ignore_int) ignore_int

-- `PIC_ICW1_ALWAYS_1 | PIC_ICW1_ICW4` is 0x11.
unfoldable pub pic_init : Ports → Ports
pic_init ports =
    let p1 = outb ports pic0_icw1 (bit_or (2 ^ 4) 1) in
    let p2 = outb p1 pic0_imr pic_start in
    let p3 = outb p2 pic0_imr (2 ^ 2) in
    let p4 = outb p3 pic0_imr 1 in
    let p5 = outb p4 pic1_icw1 (bit_or 1 (2 ^ 4)) in
    let p6 = outb p5 pic1_imr (pic_start + 8) in
    let p7 = outb p6 pic1_imr 2 in
    let p8 = outb p7 pic1_imr 1 in
    let p9 = outb p8 pic0_imr (bit_and 0xff (2 ^ 32 - 1 - 2 ^ 2)) in outb p9 pic1_imr 0xff

-- `ignore_int` is the handler's address.
unfoldable pub interrupt_init : Ports → Array IdtDesc → ℕ → Ports × Array IdtDesc
interrupt_init ports idt ignore_int = (pic_init ports, ignore_loop 256 0 idt ignore_int)

-- The slave is told as well when the interrupt is one of its own. A number below `PIC_START` is
-- negative after the subtraction.
unfoldable pub pic_send_eoi : Ports → ℕ → Ports
pic_send_eoi ports interrupt_num =
    if leb (pic_start + 8) interrupt_num
    then outb (outb ports pic1_icw1 pic_ocw2_eoi) pic0_icw1 pic_ocw2_eoi
    else outb ports pic0_icw1 pic_ocw2_eoi

-- `inb(imr) & ~(1 << line)`
abbrev pub unmask : Ports → ℕ → ℕ → Ports
unmask ports imr line = outb ports imr (bit_and (ports.inputs imr) (2 ^ 32 - 1 - 2 ^ line))

-- `inb(imr) | (1 << line)`
abbrev pub mask : Ports → ℕ → ℕ → Ports
mask ports imr line = outb ports imr (bit_or (ports.inputs imr) (2 ^ line))

unfoldable pub interrupt_enable : Ports → ℕ → Ports
interrupt_enable ports interrupt_num =
    if ltb interrupt_num pic_start
    then ports
    else (let line = interrupt_num - pic_start in
        if ltb line 8 then unmask ports pic0_imr line else unmask ports pic1_imr (line - 8))

unfoldable pub interrupt_disable : Ports → ℕ → Ports
interrupt_disable ports interrupt_num =
    if ltb interrupt_num pic_start
    then ports
    else (let line = interrupt_num - pic_start in
        if ltb line 8 then mask ports pic0_imr line else mask ports pic1_imr (line - 8))

-- ===== src/Interrupt/Laws.antt =====
-- What the descriptors say to the processor, and which lines of the controllers are masked.
use weg_os.Base.{
  ℕ, zero, suc, ◌+◌, ◌*◌, ◌/◌, ◌%◌, ◌^◌, ◌≤◌, ◌<◌, ◌≡◌, ap, ◌∙◌, arith, leb, ltb, ◌==◌,
  if◌then◌else◌, Array,
}
use weg_os.Interrupt.{
  Ports, IdtDesc, make_idt_desc, set_idt, ignore_loop, interrupt_init, gdt_kernel_code_seg,
}

-- The handler's address, as the processor puts it together from a descriptor.
abbrev pub handler_of : IdtDesc → ℕ
handler_of desc = desc.high / 2 ^ 16 * 2 ^ 16 + desc.low % 2 ^ 16

-- The processor reads from `make_idt_desc` the selector and the handler's address it was made from, and
-- the access bits of a present 32-bit interrupt gate of level 0.
pub make_idt_desc-handler_of :
    (selector offset : ℕ)
    → selector < 2 ^ 16
    → offset < 2 ^ 32
    → let desc = make_idt_desc selector offset in
      (handler_of desc ≡ offset) × (desc.low / 2 ^ 16 ≡ selector) × (desc.high % 2 ^ 16 ≡ 0x8e00)
unfolding make_idt_desc
make_idt_desc-handler_of selector offset hs ho = (omega arith, omega arith, omega arith)

ignore_loop-slots :
    (rounds i : ℕ) (idt : Array IdtDesc) (ignore_int j : ℕ)
    → i + rounds ≤ 256
    → ignore_loop rounds i idt ignore_int j ≡ (
        if leb i j
        then (if ltb j (i + rounds) then make_idt_desc gdt_kernel_code_seg ignore_int else idt j)
        else idt j)
unfolding ignore_loop set_idt
ignore_loop-slots zero i idt ignore_int j h = ground arith
ignore_loop-slots (suc rounds) i idt ignore_int j h =
    ground (
      arith,
      ignore_loop-slots rounds (i + 1) (set_idt idt i ignore_int) ignore_int j (omega arith),
    )

-- After `interrupt_init` each of the 256 descriptors leads to `ignore_int`, and installing a handler
-- with `set_idt` then changes the descriptor of its own number and no other.
pub interrupt_init-set_idt :
    (ports : Ports) (idt : Array IdtDesc) (ignore_int n handler i : ℕ)
    → ignore_int < 2 ^ 32
    → handler < 2 ^ 32
    → n < 256
    → i < 256
    → let idt' = (interrupt_init ports idt ignore_int).1 in
      (handler_of (idt' i) ≡ ignore_int)
      × (handler_of (set_idt idt' n handler i) ≡ (if n == i then handler else ignore_int))
unfolding interrupt_init set_idt
interrupt_init-set_idt ports idt ignore_int n handler i hig hh hn hi = (
  before,
  ground (arith, before, (make_idt_desc-handler_of gdt_kernel_code_seg handler (omega arith) hh).0),
)
  where
    before : handler_of (ignore_loop 256 0 idt ignore_int i) ≡ ignore_int
    before =
        ap handler_of (ignore_loop-slots 256 0 idt ignore_int i (omega arith) ∙ ground arith)
        ∙ (make_idt_desc-handler_of gdt_kernel_code_seg ignore_int (omega arith) hig).0

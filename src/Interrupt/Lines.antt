-- ===== src/Interrupt/Lines.antt =====
-- Which interrupt lines the controllers' masks leave open.
use weg_os.Base.{
  ℕ, ◌+◌, ◌-◌, ◌%◌, ◌^◌, ◌≤◌, ◌<◌, ◌≡◌, refl, ◌∙◌, arith, bit_and, bit_or, true, false, ltb,
  if◌then◌else◌, ◌∷◌, Bool-cases, inl, inr,
}
use weg_os.Base.Digits.{digit-mod}
use weg_os.Base.Flags.{HasDigit, digit-set, digit-clear}
use weg_os.Interrupt.{Ports, pic0_imr, pic1_imr, pic_start, interrupt_enable, interrupt_disable}

-- The mask's port of the controller that an interrupt comes to.
abbrev pub imr_of : ℕ → ℕ
imr_of interrupt_num = if ltb interrupt_num (pic_start + 8) then pic0_imr else pic1_imr

-- One write to a port, of what was read from it with one bit set to a value.
abbrev pub Rewrites : Ports → Ports → ℕ → ℕ → ℕ → Type 0
Rewrites ports ports' port line value =
    (byte : ℕ) × (ports'.outputs ≡ (port, byte) ∷ ports.outputs)
    × HasDigit 8 line value (ports.inputs port) byte

-- The byte that is written, for a line below 8.
unmask-HasDigit :
    (old line : ℕ)
    → line < 8
    → HasDigit 8 line 0 old (bit_and old (2 ^ 32 - 1 - 2 ^ line) % 2 ^ 8)
      × HasDigit 8 line 1 old (bit_or old (2 ^ line) % 2 ^ 8)
unmask-HasDigit old line low = (
  λ j h.
      digit-mod 8 j (bit_and old (2 ^ 32 - 1 - 2 ^ line)) h
      ∙ digit-clear old line j (omega arith) (omega arith),
  λ j h. digit-mod 8 j (bit_or old (2 ^ line)) h ∙ digit-set old line j,
)

-- For the sixteen interrupts of the controllers, `interrupt_enable` makes one write, to the mask of the
-- interrupt's controller, of the mask that was read with the interrupt's bit cleared and no other changed;
-- `interrupt_disable` writes it with that bit set.
pub interrupt_enable-Rewrites :
    (ports : Ports) (interrupt_num : ℕ)
    → pic_start ≤ interrupt_num
    → interrupt_num < pic_start + 16
    → let port = imr_of interrupt_num in
      let line = interrupt_num % 8 in
      Rewrites ports (interrupt_enable ports interrupt_num) port line 0
      × Rewrites ports (interrupt_disable ports interrupt_num) port line 1
unfolding interrupt_enable interrupt_disable
interrupt_enable-Rewrites ports n low high =
    let known : ltb n pic_start ≡ false = ground arith in
    elim (Bool-cases (ltb n (pic_start + 8))) [
      | inl master ↦
          let line : n - pic_start ≡ n % 8 = ground arith in
          let (cleared, set) = unmask-HasDigit (ports.inputs pic0_imr) (n % 8) (omega arith) in
          let first : ltb (n % 8) 8 ≡ true = ground arith in
          rw (known, line, first, master) ((_, refl, cleared), (_, refl, set))
      | inr slave ↦
          let line : n - pic_start - 8 ≡ n % 8 = ground arith in
          let (cleared, set) = unmask-HasDigit (ports.inputs pic1_imr) (n % 8) (omega arith) in
          let second : ltb (n - pic_start) 8 ≡ false = ground arith in
          rw (known, second, line, slave) ((_, refl, cleared), (_, refl, set))
    ]

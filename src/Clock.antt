-- ===== src/Clock.antt =====
-- kernel/time/time.c: setting up the timer. `on_timer` is in `Sched`.
use weg_os.Base.{ℕ, ◌+◌, ◌*◌, ◌/◌, ◌%◌, ◌^◌, ◌<◌, ◌≡◌, refl, arith, Array}
use weg_os.Disk.Driver.Laws.{written}
use weg_os.Interrupt.{Ports, outb, IdtDesc, set_idt}

abbrev latch : ℕ
latch = 1193180

-- `tmo` has 16 bits.
abbrev tmo : ℕ → ℕ
tmo interval = latch / interval % 2 ^ 16

unfoldable pub cmos_rtc_hardware_init : Ports → ℕ → Ports
cmos_rtc_hardware_init ports interval =
    let p1 = outb ports 0x20 0x11 in
    let p2 = outb p1 0xa0 0x11 in
    let p3 = outb p2 0x21 0x20 in
    let p4 = outb p3 0xa1 0x28 in
    let p5 = outb p4 0x21 0x4 in
    let p6 = outb p5 0xa1 0x2 in
    let p7 = outb p6 0x21 0x1 in
    let p8 = outb p7 0xa1 0x1 in
    let p9 = outb p8 0x21 0xfe in
    let p10 = outb p9 0xa1 0xff in
    let p11 = outb p10 0x43 0x36 in
    let p12 = outb p11 0x40 (tmo interval % 2 ^ 8) in outb p12 0x40 (tmo interval / 2 ^ 8)

abbrev pub timer_interrupt : ℕ
timer_interrupt = 0x20

-- The handler's address is the link editor's.
unfoldable pub time_init : Ports → Array IdtDesc → ℕ → Ports × Array IdtDesc
time_init ports idt timer_interrupt_handler =
    (cmos_rtc_hardware_init ports 100, set_idt idt timer_interrupt timer_interrupt_handler)

-- The counter that the timer is given, low byte first, is the quotient of its frequency and `interval`, if
-- that fits into 16 bits: `interval` interrupts in a second. Of the interrupt lines only that of the
-- timer is left open.
pub cmos_rtc_hardware_init-counter :
    (ports : Ports) (interval : ℕ)
    → latch / interval < 2 ^ 16
    → let out = (cmos_rtc_hardware_init ports interval).outputs in
      (written out 0x40 1 + 2 ^ 8 * written out 0x40 0 ≡ latch / interval)
      × (written out 0x21 0 ≡ 0xfe)
      × (written out 0xa1 0 ≡ 0xff)
unfolding cmos_rtc_hardware_init written
cmos_rtc_hardware_init-counter ports interval fits = (omega arith, refl, refl)

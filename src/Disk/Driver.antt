-- ===== src/Disk/Driver.antt =====
-- include/comm/disk.h, `read_disk` and `write_disk`: the commands to the drive, and the transfer of the sectors.
-- The drive is a parameter: what each read of its status port answers, and the words that its data port
-- has, by their numbers. A drive that is not ready within the fuel for one wait gives `none`; the
-- source waits for ever.
pub mod Laws
pub mod Writing
use weg_os.Base.{
  ℕ, zero, suc, ◌+◌, ◌*◌, ◌/◌, ◌%◌, ◌^◌, bit_and, Option, none, some, ◌>>=◌, ◌==◌, if◌then◌else◌,
  Array, update, List, [], ◌∷◌,
}
use weg_os.Interrupt.{Ports, outb}

-- The ten bytes that select the drive, the sectors and the command.
abbrev pub command : Ports → ℕ → ℕ → ℕ → Ports
command ports sector sector_count code =
    let p1 = outb ports 0x1f6 0xe0 in
    let p2 = outb p1 0x1f2 (sector_count / 2 ^ 8) in
    let p3 = outb p2 0x1f3 (sector / 2 ^ 24) in
    let p4 = outb p3 0x1f4 0 in
    let p5 = outb p4 0x1f5 0 in
    let p6 = outb p5 0x1f2 sector_count in
    let p7 = outb p6 0x1f3 sector in
    let p8 = outb p7 0x1f4 (sector / 2 ^ 8) in
    let p9 = outb p8 0x1f5 (sector / 2 ^ 16) in outb p9 0x1f7 code

-- Waiting from the t-th read of the status port on: how many reads there were.
unfoldable pub wait_loop : ℕ → (ℕ → ℕ) → ℕ → Option ℕ
wait_loop zero status t = none
wait_loop (suc fuel) status t =
    let rest = wait_loop fuel status (t + 1) in
    if bit_and (status t) 0x88 == 8 then some (t + 1) else rest

-- So many words from the w-th on, to a position of the buffer.
pub read_words : ℕ → (ℕ → ℕ) → ℕ → Array ℕ → ℕ → Array ℕ
read_words zero words w buf position = buf
read_words (suc count) words w buf position =
    read_words count words (w + 1)
      (update (update buf position (words w % 2 ^ 8)) (position + 1) (words w / 2 ^ 8 % 2 ^ 8))
      (position + 2)

-- The loop of `read_disk` over the sectors.
pub read_sectors : ℕ → ℕ → (ℕ → ℕ) → ℕ → (ℕ → ℕ) → ℕ → Array ℕ → ℕ → Option (Array ℕ)
read_sectors zero fuel status t words w buf position = some buf
read_sectors (suc sector_count) fuel status t words w buf position = do
  t' ← wait_loop fuel status t
  read_sectors sector_count fuel status t' words (w + 256) (read_words 256 words w buf position)
      (position + 512)

unfoldable pub read_disk :
    ℕ → (ℕ → ℕ) → (ℕ → ℕ) → Ports → ℕ → ℕ → Array ℕ → Option (Ports × Array ℕ)
read_disk fuel status words ports sector sector_count buf = do
  buf' ← read_sectors sector_count fuel status 0 words 0 buf 0
  some (command ports sector sector_count 0x24, buf')

-- `outw` of so many words of the buffer to the data port.
abbrev pub outw : Ports → ℕ → ℕ → Ports
outw ports port value = record ports { outputs = (port, value % 2 ^ 16) ∷ ports.outputs }

pub write_words : ℕ → Ports → Array ℕ → ℕ → Ports
write_words zero ports buf position = ports
write_words (suc count) ports buf position =
    write_words count (outw ports 0x1f0 (buf position + 2 ^ 8 * buf (position + 1))) buf
      (position + 2)

-- The loop of `write_disk` over the sectors.
pub write_sectors : ℕ → ℕ → (ℕ → ℕ) → ℕ → Ports → Array ℕ → ℕ → Option Ports
write_sectors zero fuel status t ports buf position = some ports
write_sectors (suc sector_count) fuel status t ports buf position = do
  t' ← wait_loop fuel status t
  write_sectors sector_count fuel status t' (write_words 256 ports buf position) buf
      (position + 512)

unfoldable pub write_disk : ℕ → (ℕ → ℕ) → Ports → ℕ → ℕ → Array ℕ → Option Ports
write_disk fuel status ports sector sector_count buf = do
  ports' ← write_sectors sector_count fuel status 0 (command ports sector sector_count 0x34) buf 0
  some (outb ports' 0x1f7 0xe7)

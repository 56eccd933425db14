-- ===== src/Disk/Driver/Laws.antt =====
-- What the drive is asked for, and what arrives in the buffer.
use weg_os.Base.{
  ℕ, zero, suc, ◌+◌, ◌-◌, ◌*◌, ◌/◌, ◌%◌, ◌^◌, ◌<◌, ◌≡◌, refl, ap, ◌∙◌, arith, some, ◌==◌,
  if◌then◌else◌, leb, ltb, Array, update, List, [], ◌∷◌,
}
use native.Mathlib.Decide.{dec_lt, ℕ_discrete}
use weg_os.Base.Bytes.{IsBytes}
use weg_os.Disk.{Disk, read_into}
use weg_os.Disk.Copy.{read_into-bytes}
use weg_os.Disk.Driver.{command, wait_loop, read_words, read_sectors, read_disk}
use weg_os.Interrupt.{Ports}

-- The n-th last byte that was written to a port, the last one for 0. A register of the drive holds two: for
-- a number of 48 bits the high half is written first, and then the low one.
unfoldable pub written : List (ℕ × ℕ) → ℕ → ℕ → ℕ
written [] port n = 0
written ((p, value) ∷ rest) port zero = if p == port then value else written rest port zero
written ((p, value) ∷ rest) port (suc n) =
    if p == port then written rest port n else written rest port (suc n)

-- The n-th last write, to whatever port: the port and the value.
unfoldable pub latest : List (ℕ × ℕ) → ℕ → ℕ × ℕ
latest [] n = (0, 0)
latest (w ∷ rest) zero = w
latest (w ∷ rest) (suc n) = latest rest n

-- The sector and the count that the drive takes from its registers.
abbrev pub lba : Ports → ℕ
lba ports =
    written ports.outputs 0x1f3 0
    + 2 ^ 8 * written ports.outputs 0x1f4 0
    + 2 ^ 16 * written ports.outputs 0x1f5 0
    + 2 ^ 24 * written ports.outputs 0x1f3 1
    + 2 ^ 32 * written ports.outputs 0x1f4 1
    + 2 ^ 40 * written ports.outputs 0x1f5 1

abbrev pub count_of : Ports → ℕ
count_of ports = written ports.outputs 0x1f2 0 + 2 ^ 8 * written ports.outputs 0x1f2 1

-- The command of the driver, decoded as the drive decodes it.
pub command-lba :
    (ports : Ports) (sector sector_count code : ℕ)
    → sector < 2 ^ 32
    → sector_count < 2 ^ 16
    → let p = command ports sector sector_count code in
      (lba p ≡ sector) × (count_of p ≡ sector_count) × (written p.outputs 0x1f7 0 ≡ code % 2 ^ 8)
unfolding written
command-lba ports sector sector_count code s c = (omega arith, omega arith, refl)

-- The drive's words, as the bytes of a run of sectors.
abbrev pub Serves : (ℕ → ℕ) → Array ℕ → Type 0
Serves words bytes = IsBytes bytes × ((k : ℕ) → words k ≡ bytes (2 * k) + 2 ^ 8 * bytes (2 * k + 1))

abbrev pub Received : ℕ → Array ℕ → ℕ → Array ℕ → ℕ → Array ℕ → Type 0
Received count bytes start buf position buf' =
    (j : ℕ)
    → buf' j ≡ (
        if leb position j
        then (if ltb j (position + count) then bytes (start + (j - position)) else buf j)
        else buf j)

module _ (words : ℕ → ℕ) (bytes : Array ℕ) (serves : Serves words bytes) where
  low_byte : (w : ℕ) → words w % 2 ^ 8 ≡ bytes (2 * w)
  low_byte w = omega (arith, serves.1 w, serves.0 (2 * w), serves.0 (2 * w + 1))

  high_byte : (w : ℕ) → words w / 2 ^ 8 % 2 ^ 8 ≡ bytes (2 * w + 1)
  high_byte w = omega (arith, serves.1 w, serves.0 (2 * w), serves.0 (2 * w + 1))

  read_words-Received :
      (count w : ℕ) (buf : Array ℕ) (position : ℕ)
      → Received (2 * count) bytes (2 * w) buf position (read_words count words w buf position)
  unfolding read_words
  read_words-Received zero w buf position j = ground arith
  read_words-Received (suc count) w buf position j =
      let rest =
        read_words-Received count (w + 1)
          (update (update buf position (words w % 2 ^ 8)) (position + 1) (words w / 2 ^ 8 % 2 ^ 8))
          (position + 2) j in
      elim (dec_lt j (position + 2)) [
        | no later ↦
            let e : bytes (2 * (w + 1) + (j - (position + 2))) ≡ bytes (2 * w + (j - position)) =
              ap bytes (omega arith) in
            ground (arith, rest, e)
        | yes near ↦ elim (ℕ_discrete j position) [
          | yes first ↦
              let e : bytes (2 * w + (j - position)) ≡ bytes (2 * w) = ap bytes (omega arith) in
              ground (arith, rest, e, low_byte w)
          | no other ↦ elim (ℕ_discrete j (position + 1)) [
            | yes second ↦
                let e : bytes (2 * w + (j - position)) ≡ bytes (2 * w + 1) =
                  ap bytes (omega arith) in
                ground (arith, rest, e, high_byte w)
            | no before ↦ ground (arith, rest)
          ]
        ]
      ]

  -- With a drive that becomes ready in the time of one wait, every sector arrives.
  read_sectors-Received :
      (sector_count fuel : ℕ) (status : ℕ → ℕ) (t w : ℕ) (buf : Array ℕ) (position : ℕ)
      → ((t : ℕ) → (t' : ℕ) × (wait_loop fuel status t ≡ some t'))
      → (buf' : Array ℕ) × (read_sectors sector_count fuel status t words w buf position
          ≡ some buf')
        × Received (512 * sector_count) bytes (2 * w) buf position buf'
  unfolding read_sectors
  read_sectors-Received zero fuel status t w buf position ready = (buf, refl, λ j. ground arith)
  read_sectors-Received (suc sector_count) fuel status t w buf position ready =
      let (t', waited) = ready t in
      let buf1 = read_words 256 words w buf position in
      let (buf', run, received) =
        read_sectors-Received sector_count fuel status t' (w + 256) buf1 (position + 512) ready in
      (
        buf',
        rw waited run,
        λ j. elim (dec_lt j (position + 512)) [
          | yes first ↦ ground (arith, received j, read_words-Received 256 w buf position j)
          | no later ↦
              let e : bytes (2 * (w + 256) + (j - (position + 512)))
                  ≡ bytes (2 * w + (j - position)) =
                ap bytes (omega arith) in
              ground (arith, received j, e, read_words-Received 256 w buf position j)
        ],
      )

-- Take a sector number of 32 bits, a sector count of 16 bits, a drive that becomes ready within the fuel at
-- any time it is asked, and words that are the bytes of the disk from the sector that the command's
-- registers name on. Then `read_disk` returns; the registers of the first drive hold the given sector and that many sectors, and
-- the last write is the command to read them; and it leaves in the buffer
-- the bytes of as many sectors from the given one on, and behind them what the buffer held before.
pub read_disk-sectors :
    (fuel : ℕ) (status words : ℕ → ℕ) (ports : Ports) (sector sector_count : ℕ) (buf : Array ℕ)
    (disk : Disk)
    → sector < 2 ^ 32
    → sector_count < 2 ^ 16
    → ((t : ℕ) → (t' : ℕ) × (wait_loop fuel status t ≡ some t'))
    → Serves words (λ j. disk (lba (command ports sector sector_count 0x24) + j / 512) (j % 512))
    → (ports' : Ports) × (buf' : Array ℕ) × (read_disk fuel status words ports sector sector_count
          buf
        ≡ some (ports', buf'))
      × (lba ports' ≡ sector)
      × (count_of ports' ≡ sector_count)
      × (latest ports'.outputs 0 ≡ (0x1f7, 0x24))
      × (written ports'.outputs 0x1f6 0 ≡ 0xe0)
      × ((j : ℕ)
          → buf' j
            ≡ (if ltb j (512 * sector_count) then disk (sector + j / 512) (j % 512) else buf j))
unfolding read_disk latest written
read_disk-sectors fuel status words ports sector sector_count buf disk s c ready serves =
    let ports' = command ports sector sector_count 0x24 in
    let (same_sector, same_count, _) = command-lba ports sector sector_count 0x24 s c in
    let bytes : Array ℕ = λ j. disk (lba ports' + j / 512) (j % 512) in
    let (buf', run, received) =
      read_sectors-Received words bytes serves sector_count fuel status 0 0 buf 0 ready in
    (
      ports',
      buf',
      rw run refl,
      same_sector,
      same_count,
      refl,
      refl,
      λ j.
          let e : bytes (2 * 0 + (j - 0)) ≡ disk (sector + j / 512) (j % 512) =
            ap bytes (omega arith) ∙ ap (λ (x : ℕ). disk (x + j / 512) (j % 512)) same_sector in
          ground (arith, received j, e),
    )

-- One sector at the start of a buffer is what `read_into` stands for.
pub read_disk-read_into :
    (fuel : ℕ) (status words : ℕ → ℕ) (ports : Ports) (sector : ℕ) (buf : Array ℕ) (disk : Disk)
    → sector < 2 ^ 32
    → ((t : ℕ) → (t' : ℕ) × (wait_loop fuel status t ≡ some t'))
    → Serves words (λ j. disk (lba (command ports sector 1 0x24) + j / 512) (j % 512))
    → (ports' : Ports) × (buf' : Array ℕ) × (read_disk fuel status words ports sector 1 buf
        ≡ some (ports', buf'))
      × ((j : ℕ) → buf' j ≡ read_into disk sector buf 0 j)
read_disk-read_into fuel status words ports sector buf disk s ready serves =
    let (ports', buf', run, _, _, _, _, bytes) =
      read_disk-sectors fuel status words ports sector 1 buf disk s (omega arith) ready serves in
    (
      ports',
      buf',
      run,
      λ j. elim (dec_lt j 512) [
        | yes inside ↦
            let e : disk (sector + j / 512) (j % 512) ≡ disk sector (j - 0) =
              ap (λ (x : ℕ). disk x (j % 512)) (omega arith) ∙ ap (disk sector) (omega arith) in
            ground (arith, bytes j, read_into-bytes disk sector buf 0 j, e)
        | no behind ↦ ground (arith, bytes j, read_into-bytes disk sector buf 0 j)
      ],
    )

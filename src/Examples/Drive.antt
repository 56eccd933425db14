-- ===== src/Examples/Drive.antt =====
-- include/comm/disk.h with a drive that is always ready, and the table of sectors of kernel/fs/fs.c.
use weg_os.Base.{
  ℕ, ◌+◌, ◌-◌, ◌*◌, ◌/◌, ◌%◌, ◌^◌, ◌<◌, ◌≡◌, refl, arith, some, Array, [], ltb, if◌then◌else◌,
}
use weg_os.Disk.{Disk}
use weg_os.Disk.Driver.{command, wait_loop, read_disk, write_disk}
use weg_os.Disk.Driver.Laws.{written, latest, lba, count_of, Serves, read_disk-sectors}
use weg_os.Disk.Driver.Writing.{write_disk-words}
use weg_os.Fs.{FileSystem}
use weg_os.Interrupt.{Ports}

abbrev idle : Ports
idle = record { inputs = λ port. 0; outputs = [] }

-- Every byte on the disk is 7.
abbrev sevens : Disk
sevens s j = 7

-- The status says that data can be moved.
abbrev ready_status : ℕ → ℕ
ready_status t = 8

always_ready : (t : ℕ) → (t' : ℕ) × (wait_loop 1 ready_status t ≡ some t')
unfolding wait_loop
always_ready t = (t + 1, refl)

sevens-Serves :
    Serves (λ k. 7 + 2 ^ 8 * 7) (λ j. sevens (lba (command idle 1024 2 0x24) + j / 512) (j % 512))
sevens-Serves = ((λ j. omega arith), λ k. refl)

read_disk-sectors_example :
    (ports' : Ports) × (buf' : Array ℕ) × (read_disk 1 ready_status
        (λ k. 7 + 2 ^ 8 * 7)
        idle
        1024
        2
        (λ j. 0)
      ≡ some (ports', buf'))
    × (lba ports' ≡ 1024)
    × (count_of ports' ≡ 2)
    × (latest ports'.outputs 0 ≡ (0x1f7, 0x24))
    × (written ports'.outputs 0x1f6 0 ≡ 0xe0)
    × ((j : ℕ) → buf' j ≡ (if ltb j (512 * 2) then 7 else 0))
read_disk-sectors_example =
    read_disk-sectors 1 ready_status (λ k. 7 + 2 ^ 8 * 7) idle 1024 2 (λ j. 0) sevens (omega arith)
      (omega arith) always_ready sevens-Serves

write_disk-words_example :
    (ports' : Ports) × (write_disk 1 ready_status idle 1024 2 (λ j. 7) ≡ some ports')
    × (lba ports' ≡ 1024)
    × (count_of ports' ≡ 2)
    × (written ports'.outputs 0x1f6 0 ≡ 0xe0)
    × (latest ports'.outputs 0 ≡ (0x1f7, 0xe7))
    × ((k : ℕ) → k < 256 * 2 → latest ports'.outputs (256 * 2 - k) ≡ (0x1f0, 7 + 2 ^ 8 * 7))
    × (latest ports'.outputs (256 * 2 + 1) ≡ (0x1f7, 0x34))
write_disk-words_example =
    write_disk-words 1 ready_status idle 1024 2 (λ j. 7) (λ j. omega arith) (omega arith)
      (omega arith) always_ready

abbrev full_table : FileSystem
full_table = record { disk = sevens; alloc_bitmap = record { bits = λ i. 255; size = 1572864 } }

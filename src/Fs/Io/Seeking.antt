-- ===== src/Fs/Io/Seeking.antt =====
-- The seeks of kernel/fs/fs.c, and reading from a position that was sought.
use weg_os.Base.{ℕ, ◌+◌, ◌≤◌, ◌<◌, ◌≡◌, refl, ap, ◌∙◌, arith, Array}
use native.Mathlib.Decide.{dec_lt}
use weg_os.Disk.{Disk}
use weg_os.Fs.{File, FileCached, success, out_of_index, nth_block}
use weg_os.Fs.Io.{sys_read, sys_rseek, sys_wseek, read_all, seek_loop}
use weg_os.Fs.Io.Blocks.{IsReadable, file_byte}
use weg_os.Fs.Io.Reading.{sys_read-near}

-- The sector to write to is the one that the chain leads to.
abbrev pub IsWritable : Disk → FileCached → Type 0
IsWritable disk f = f.write_sector ≡ seek_loop (nth_block f.write_seek) disk f.file.first_sector

pub sys_rseek-IsReadable :
    (disk : Disk) (f : FileCached) (k : ℕ)
    → k < f.file.file_size
    → sys_rseek disk f k ≡ (
      success,
      record f { read_sector = seek_loop (nth_block k) disk f.file.first_sector; read_seek = k },
    )
unfolding sys_rseek
sys_rseek-IsReadable disk f k h = ground arith

pub sys_rseek-far :
    (disk : Disk) (f : FileCached) (k : ℕ)
    → f.file.file_size ≤ k
    → sys_rseek disk f k ≡ (out_of_index, f)
unfolding sys_rseek
sys_rseek-far disk f k h = ground arith

-- What a read from a position sought before has as its result: the bytes of the file from there on, whatever
-- the position was before.
pub sys_rseek-sys_read :
    (disk : Disk) (f : FileCached) (k : ℕ) (buf : Array ℕ) (length : ℕ)
    → k < f.file.file_size
    → k + length ≤ f.file.file_size
    → let (result, f', buf') = sys_read disk ((sys_rseek disk f k).1) buf length in
      (result ≡ success)
      × ((j : ℕ) → j < length → buf' j ≡ file_byte disk f.file.first_sector (k + j))
      × IsReadable disk f'
sys_rseek-sys_read disk f k buf length here fits = rw (sys_rseek-IsReadable disk f k here) (
    sys_read-near disk
      (record f { read_sector = seek_loop (nth_block k) disk f.file.first_sector; read_seek = k })
      buf length refl fits)

-- `read_all` reads the whole file.
pub read_all-file_byte :
    (disk : Disk) (file : File) (buf : Array ℕ) (cached : FileCached) (j : ℕ)
    → j < file.file_size
    → read_all disk file buf cached j ≡ file_byte disk file.first_sector j
unfolding read_all seek_loop
read_all-file_byte disk file buf cached j h =
    (sys_read-near disk
        (record cached { file = file; read_sector = file.first_sector; read_seek = 0 }) buf
        file.file_size refl (omega arith)).1
      j h
    ∙ ap (file_byte disk file.first_sector) (omega arith)

-- The two seeks that restore the positions of a file.
pub sys_wseek-sys_rseek :
    (disk : Disk) (f : FileCached) (write_seek read_seek : ℕ)
    → let f' = (sys_rseek disk ((sys_wseek disk f write_seek).1) read_seek).1 in
      IsWritable disk f'
      × (f'.write_seek ≡ write_seek)
      × (f'.file ≡ f.file)
      × (read_seek < f.file.file_size → IsReadable disk f' × (f'.read_seek ≡ read_seek))
unfolding sys_wseek
sys_wseek-sys_rseek disk f write_seek read_seek =
    let f1 = record f {
      write_sector = seek_loop (nth_block write_seek) disk f.file.first_sector;
      write_seek = write_seek;
    } in
    elim (dec_lt read_seek f.file.file_size) [
      | yes inside ↦
          rw (sys_rseek-IsReadable disk f1 read_seek inside) (refl, refl, refl, λ h. (refl, refl))
      | no far ↦
          rw (sys_rseek-far disk f1 read_seek (omega arith)) (refl, refl, refl, λ h. absurd (far h))
    ]

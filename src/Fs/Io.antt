-- ===== src/Fs/Io.antt =====
-- kernel/fs/fs.c: reading and writing the contents of a file, and its two positions.
pub mod ReadLoop
pub mod Reading
pub mod Blocks
pub mod Frame
pub mod Link
pub mod Put
pub mod RoundTrip
pub mod Seeking
pub mod Writing
use weg_os.Base.{
  ℕ, zero, suc, ◌+◌, ◌-◌, ◌*◌, ◌/◌, ◌%◌, ◌≡◌, Array, update, if◌then◌else◌, leb, ltb, ◌==◌,
}
use weg_os.Disk.{Disk, memcpy, read_into, write_from}
use weg_os.Fs.{
  File, FileCached, FileResult, success, out_of_index, valid_data_size_in_block, in_block_offset,
  nth_block, next_sector, no_sector,
}

-- The loop of `sys_read` over whole blocks, with the position in the buffer.
pub read_loop : ℕ → Disk → FileCached → Array ℕ → ℕ → FileCached × Array ℕ
read_loop zero disk f buf position = (f, buf)
read_loop (suc sectors) disk f buf position =
    let buf' = read_into disk f.read_sector buf position in
    read_loop sectors disk
      (record f {
        read_sector = next_sector (λ j. buf' (position + j));
        read_seek = f.read_seek + valid_data_size_in_block;
      })
      buf' (position + valid_data_size_in_block)

-- The result, the file's state, and the buffer. The sum in the first test is the source's as long as it is
-- below 2 ^ 31: as an `int` it overflows beyond, which the language leaves undefined.
unfoldable pub sys_read : Disk → FileCached → Array ℕ → ℕ → FileResult × FileCached × Array ℕ
sys_read disk f buf length =
    if leb (f.read_seek + length) f.file.file_size
    then (let temp = disk f.read_sector in
        let offset = in_block_offset f.read_seek in
        if nth_block (f.read_seek + length) - nth_block f.read_seek == 0
        then (
          success,
          record f { read_seek = f.read_seek + length },
          memcpy length 0 buf 0 temp offset,
        )
        else (let remain = valid_data_size_in_block - offset in
            let f1 = record f {
              read_seek = f.read_seek + remain;
              read_sector = next_sector temp;
            } in
            let rest = length - remain in
            let sectors = rest / valid_data_size_in_block in
            let r = read_loop sectors disk f1 (memcpy remain 0 buf 0 temp offset) remain in
            (
              success,
              r.0,
              memcpy (in_block_offset rest) 0 r.1 (remain + sectors * valid_data_size_in_block)
                  (disk r.0.read_sector) 0,
            )))
    else (out_of_index, f, buf)

-- The loop of `covering_write` over whole blocks. The link of each block comes from the buffer.
pub write_loop : ℕ → Disk → FileCached → Array ℕ → ℕ → Disk × FileCached
write_loop zero disk f buf position = (disk, f)
write_loop (suc sectors) disk f buf position =
    write_loop sectors (write_from disk f.write_sector buf position)
      (record f {
        write_sector = next_sector (λ j. buf (position + j));
        write_seek = f.write_seek + valid_data_size_in_block;
      })
      buf (position + valid_data_size_in_block)

unfoldable pub covering_write : Disk → FileCached → Array ℕ → ℕ → Disk × FileCached
covering_write disk f buf length =
    let temp = disk f.write_sector in
    let offset = in_block_offset f.write_seek in
    if nth_block (f.write_seek + length) - nth_block f.write_seek == 0
    then (
      update disk f.write_sector (memcpy length 0 temp offset buf 0),
      record f { write_seek = f.write_seek + length },
    )
    else (let remain = valid_data_size_in_block - offset in
        let temp1 = memcpy remain 0 temp offset buf 0 in
        let f1 = record f {
          write_seek = f.write_seek + remain;
          write_sector = next_sector temp1;
        } in
        let rest = length - remain in
        let sectors = rest / valid_data_size_in_block in
        let r = write_loop sectors (update disk f.write_sector temp1) f1 buf remain in
        let scattered = in_block_offset rest in
        (
          update (r.0) (r.1.write_sector) (
              memcpy scattered 0 (r.0 (r.1.write_sector)) 0 buf
                (remain + sectors * valid_data_size_in_block)),
          record (r.1) { write_seek = r.1.write_seek + scattered },
        ))

-- The loop of both seeks: the sector that so many links lead to.
unfoldable pub seek_loop : ℕ → Disk → ℕ → ℕ
seek_loop zero disk sector = sector
seek_loop (suc links) disk sector = seek_loop links disk (next_sector (disk sector))

unfoldable pub sys_rseek : Disk → FileCached → ℕ → FileResult × FileCached
sys_rseek disk f read_seek =
    if ltb read_seek f.file.file_size
    then (
      success,
      record f {
        read_sector = seek_loop (nth_block read_seek) disk f.file.first_sector;
        read_seek = read_seek;
      },
    )
    else (out_of_index, f)

unfoldable pub sys_wseek : Disk → FileCached → ℕ → FileResult × FileCached
sys_wseek disk f write_seek = (
  success,
  record f {
    write_sector = seek_loop (nth_block write_seek) disk f.file.first_sector;
    write_seek = write_seek;
  },
)

-- `read_all`: the contents of a file from its start.
unfoldable pub read_all : Disk → File → Array ℕ → FileCached → Array ℕ
read_all disk file buf cached =
    (sys_read disk (record cached { file = file; read_sector = file.first_sector; read_seek = 0 })
      buf file.file_size).2

unfoldable pub read_remains : Disk → FileCached → Array ℕ → FileResult × FileCached × Array ℕ
read_remains disk f buf = sys_read disk f buf (f.file.file_size - f.read_seek)

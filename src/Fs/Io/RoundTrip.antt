-- ===== src/Fs/Io/RoundTrip.antt =====
-- kernel/fs/fs.c: what a seek and `covering_write` put into a file, a seek and `sys_read` get back.
use weg_os.Base.{ℕ, suc, ◌+◌, ◌≤◌, ◌<◌, ◌≡◌, refl, sym, subst, ap, ◌∙◌, arith, Array}
use weg_os.Disk.{Disk}
use weg_os.Fs.{File, FileCached, success, nth_block}
use weg_os.Fs.Io.{sys_read, sys_rseek, sys_wseek, covering_write}
use weg_os.Fs.Io.Blocks.{file_byte}
use weg_os.Fs.Io.Seeking.{sys_rseek-sys_read}
use weg_os.Fs.Io.Put.{IsChain}
use weg_os.Fs.Io.Writing.{covering_write-file_byte, written-inside}

-- Bytes written at a position k of a file, over at most two blocks of a chain of n different sectors that
-- reaches past them, are the bytes that a read at k has as its result, whatever the two positions were
-- before, if the bytes lie inside the size of the file.
pub covering_write-sys_read :
    (n : ℕ) (disk : Disk) (f : FileCached) (k : ℕ) (buf out : Array ℕ) (length : ℕ)
    → IsChain n disk f.file.first_sector
    → nth_block (k + length) < n
    → nth_block (k + length) ≤ suc (nth_block k)
    → k < f.file.file_size
    → k + length ≤ f.file.file_size
    → let (disk', f') = covering_write disk ((sys_wseek disk f k).1) buf length in
      let (result, _, out') = sys_read disk' ((sys_rseek disk' f' k).1) out length in
      (result ≡ success) × ((j : ℕ) → j < length → out' j ≡ buf j)
unfolding sys_wseek
covering_write-sys_read n disk f k buf out length chain in_n near here fits =
    let f1 = (sys_wseek disk f k).1 in
    let (bytes, _, _, _, file) =
      covering_write-file_byte n disk f1 buf length refl chain in_n near in
    let (disk', f') = covering_write disk f1 buf length in
    let (result, read, _) =
      sys_rseek-sys_read disk' f' k out length
        (subst (λ (e : File). k < e.file_size) (sym file) here)
        (subst (λ (e : File). k + length ≤ e.file_size) (sym file) fits) in
    (
      result,
      λ j h.
          read j h
          ∙ ap (λ (e : File). file_byte disk' e.first_sector (k + j)) file
          ∙ bytes (k + j) (omega arith)
          ∙ sym (written-inside k length buf (k + j) _ j (omega arith) (omega arith) (omega arith)),
    )

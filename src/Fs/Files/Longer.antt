-- ===== src/Fs/Files/Longer.antt =====
-- `sys_write` of kernel/fs/fs.c when the file has to get more blocks first.
use weg_os.Base.{
  ℕ, suc, ◌+◌, ◌-◌, ◌^◌, ◌≤◌, ◌<◌, ◌≡◌, sym, subst, ◌∙◌, arith, Array, true, some, ltb,
  if◌then◌else◌,
}
use native.Mathlib.Decide.{dec_lt}
use weg_os.Base.Bytes.{IsBytes}
use weg_os.Fs.{FileCached, FileSystem, nth_block}
use weg_os.Fs.Bytes.{IsStorable}
use weg_os.Fs.Files.{sys_write, insert_contents, file_expand}
use weg_os.Fs.Files.Chain.{IsFileChain, HasFree}
use weg_os.Fs.Files.Expanding.{RootTaken, expanded, file_expand-Expanded, expanded-IsStorable}
use weg_os.Fs.Files.Insert.{FitsTemp}
use weg_os.Fs.Paths.{files_size}
use weg_os.Fs.Files.Whole.{InRoot, Wrote, written_file, write_and_store, sys_write-runs}
use weg_os.Fs.Io.Blocks.{file_byte}
use weg_os.Fs.Io.Seeking.{IsWritable}
use weg_os.Fs.Paths.{Stack}
use weg_os.Fs.Paths.Load.{root}

-- The blocks that a file of a size needs: one more than are full.
abbrev pub sectors_for : ℕ → ℕ
sectors_for size = nth_block size + 1

-- The bytes inserted, of a file that had other bytes before.
inserted-same :
    (old old' : ℕ → ℕ) (size seek length : ℕ) (buf : Array ℕ) (k x : ℕ)
    → ((i : ℕ) → i < size → old i ≡ old' i)
    → seek ≤ size
    → k < size + length
    → x ≡ (
        if ltb k seek
        then old k
        else (if ltb k (seek + length) then buf (k - seek) else old (k - length)))
    → x ≡ (
        if ltb k seek
        then old' k
        else (if ltb k (seek + length) then buf (k - seek) else old' (k - length)))
inserted-same old old' size seek length buf k x same le h e = elim (dec_lt k seek) [
  | yes before ↦ ground (arith, e, same k (omega arith))
  | no behind ↦ elim (dec_lt k (seek + length)) [
    | yes new ↦ ground (arith, e)
    | no moved_up ↦ ground (arith, e, same (k - length) (omega arith))
  ]
]

-- The blocks that `sys_write` asks for.
expansion :
    (stack : Stack) (fs : FileSystem) (f : FileCached) (n sectors : ℕ) (r : FileSystem × FileCached)
    → f.file.sector_count ≡ suc n
    → suc n < sectors
    → file_expand stack fs f (sectors - suc n) ≡ some r
    → (if ltb f.file.sector_count sectors
        then file_expand stack fs f (sectors - f.file.sector_count)
        else some (fs, f))
      ≡ some r
expansion stack fs f n sectors r count more run =
    rw (fewer count more)
      (subst (λ (c : ℕ). file_expand stack fs f (sectors - c) ≡ some r) (sym count) run)
  where
    fewer : f.file.sector_count ≡ suc n → suc n < sectors → ltb f.file.sector_count sectors ≡ true
    fewer count more = ground arith

-- Writing past the blocks that a file of the root directory has: the file has n + 1 blocks in a chain that
-- ends at its last sector, its count of sectors is n + 1, fewer than are needed for the new size, and that
-- many sectors more are free; the sectors of the file, of the root directory (m of them) and of the
-- root's entry are taken and apart; the file's entry is inside of the root directory, its fields fit
-- into 32 bits; the position is a right one in the file, at most one block in front of the new end;
-- the root directory has at most 512 entries; and `temp`, of 4096 bytes, has room for 4 bytes more than the
-- new bytes and those behind the position, and, when the position is at the end of the file, than those
-- behind the read position. Then
-- `sys_write` returns; the file on the disk has the new bytes at the write position, and its old bytes
-- in front of and behind them; the size, the count of sectors and the write position with its sector are
-- the new ones, and of the other fields of the file only the last sector changes; the read position stays
-- if it was before the end of the file, and the path stays; the entry in the root directory is the cached
-- file, and each byte of the other entries is as before.
pub sys_write-expands :
    (n m : ℕ) (stack : Stack) (temp : Array ℕ) (fs : FileSystem) (f : FileCached) (buf : Array ℕ)
    (length : ℕ)
    → IsBytes fs.alloc_bitmap.bits
    → IsFileChain n fs f.file
    → f.file.sector_count ≡ suc n
    → suc n < sectors_for (f.file.file_size + length)
    → HasFree (sectors_for (f.file.file_size + length) - suc n) fs f.file
    → IsStorable f.file
    → f.file.file_size + length < 2 ^ 31
    → InRoot (suc n) m fs.disk (root fs.disk) f
    → RootTaken m fs
    → IsWritable fs.disk f
    → f.write_seek ≤ f.file.file_size
    → nth_block f.file.file_size ≤ n
    → nth_block (f.file.file_size + length) ≤ suc (nth_block f.write_seek)
    → FitsTemp f length
    → (root fs.disk).file_size ≤ files_size
    → (fs' : FileSystem) × (f' : FileCached) × (last_sector : ℕ) × (sys_write stack temp fs f buf
          length
        ≡ some (fs', f'))
      × Wrote stack fs.disk
          (record f {
            file = record f.file {
              last_sector = last_sector;
              sector_count = sectors_for (f.file.file_size + length);
            };
          })
          (root fs.disk)
          buf
          length
          (fs'.disk, f')
sys_write-expands n m stack temp fs f buf length bytes ok count more free storable small in_root
      taken v le in_old near fits few =
    let need = sectors_for (f.file.file_size + length) - suc n in
    let (fs2, run, (chain2, in_root2, places, contents, stored)) =
      file_expand-Expanded n m need stack fs f bytes ok free storable in_root taken in
    let f1 = expanded need fs f in
    let (first_small, last_small, count_small, size_small, type_small) =
      expanded-IsStorable n m need stack fs f bytes ok free storable in_root taken in
    let (disk', stores, (inserted, file, w, seek, reading, path, (here, others))) =
      write_and_store (suc n + need) m stack temp fs2.disk f1 (root fs.disk) buf length
        (v ∙ sym (places (nth_block f.write_seek) (omega arith)))
        (λ i j in_i in_j. chain2.0 i j (omega arith) (omega arith)) le (omega arith) near
        (first_small, last_small, count_small, omega arith, type_small) in_root2 in
    (
      record fs2 { disk = disk' },
      written_file ((insert_contents temp fs2.disk f1 buf length).1) length,
      f1.file.last_sector,
      sys_write-runs stack temp fs fs2 f f1 buf length disk'
          (expansion stack fs f n (sectors_for (f.file.file_size + length)) (fs2, f1) count more
            run)
          fits le stores,
      subst
          (λ (c : ℕ).
            Wrote stack fs.disk
              (record f {
                file = record f.file { last_sector = f1.file.last_sector; sector_count = c };
              })
              (root fs.disk) buf length
              (disk', written_file ((insert_contents temp fs2.disk f1 buf length).1) length))
          {x = f1.file.sector_count} (omega (arith, count))
          (
            λ k h.
                inserted-same (file_byte fs2.disk f.file.first_sector)
                  (file_byte fs.disk f.file.first_sector) f.file.file_size f.write_seek length buf k
                  _ (λ i in_size. contents i (omega arith)) le h (inserted k h),
            file,
            w,
            seek,
            reading,
            path,
            (
              here,
              λ i j other in_j in_size.
                  others i j other in_j in_size
                  ∙ stored.1 i j (λ e. other (e ∙ sym path.2)) in_j in_size,
            ),
          ),
    )

-- ===== src/Fs/Files/Whole.antt =====
-- `sys_write` of kernel/fs/fs.c as a whole, for a file in the root directory.
use weg_os.Base.{
  ℕ, suc, ◌+◌, ◌-◌, ◌*◌, ◌^◌, ◌≤◌, ◌<◌, ◌≡◌, refl, sym, subst, ap, ◌∙◌, arith, Array, some, [], ◌⊎◌,
  inl, inr, false, ltb, if◌then◌else◌,
}
use weg_os.Disk.{Disk}
use weg_os.Fs.{File, FileCached, FileSystem, nth_block, file_bytes, file_at, sector_with_root_fcb}
use weg_os.Fs.Bytes.{IsStorable}
use weg_os.Fs.Files.{insert_contents, sys_write, file_expand}
use weg_os.Fs.Files.Insert.{FitsTemp, write_contents-fits, insert_contents-Inserted}
use weg_os.Fs.Files.Storing.{
  InDirectory, InDirectory-kept, insert_contents-Framed, store_file_cached-root, chain_apart,
}
use weg_os.Fs.Io.{seek_loop}
use weg_os.Fs.Io.Blocks.{file_byte, IsReadable}
use weg_os.Fs.Io.Frame.{IsOutside, SamePath, seek_loop-kept, file_byte-kept}
use weg_os.Fs.Io.Put.{IsChain}
use weg_os.Fs.Io.Seeking.{IsWritable, read_all-file_byte}
use weg_os.Fs.Paths.{files_size, Stack, store_file_cached}
use weg_os.Fs.Paths.Entries.{Stored}
use weg_os.Fs.Paths.Load.{root}
use weg_os.Strings.Chars.{Spells}

-- What `sys_write` has stored, from the blocks that it has made sure of.
abbrev pub written_file : FileCached → ℕ → FileCached
written_file f length = record f { file = record f.file { file_size = f.file.file_size + length } }

pub sys_write-runs :
    (stack : Stack) (temp : Array ℕ) (fs fs1 : FileSystem) (f f1 : FileCached) (buf : Array ℕ)
    (length : ℕ) (disk : Disk)
    → (if ltb f.file.sector_count (nth_block (f.file.file_size + length) + 1)
        then file_expand stack fs f
            (nth_block (f.file.file_size + length) + 1 - f.file.sector_count)
        else some (fs, f))
      ≡ some (fs1, f1)
    → FitsTemp f1 length
    → f1.write_seek ≤ f1.file.file_size
    → let (disk1, f2) = insert_contents temp fs1.disk f1 buf length in
      store_file_cached stack disk1 (written_file f2 length) ≡ some disk
      → sys_write stack temp fs f buf length
        ≡ some (
          record fs1 { disk = disk },
          written_file ((insert_contents temp fs1.disk f1 buf length).1) length,
        )
unfolding sys_write
sys_write-runs stack temp fs fs1 f f1 buf length disk room fits le stored =
    rw (room, write_contents-fits temp fs1.disk f1 buf length fits le, stored) refl

-- The other entries of a directory whose contents were not touched before.
pub Stored-kept :
    (stack : Stack) (disk disk1 disk2 : Disk) (f parent : FileCached)
    → ((k : ℕ)
        → k < parent.file.file_size
        → file_byte disk1 parent.file.first_sector k ≡ file_byte disk parent.file.first_sector k)
    → Stored stack disk1 f parent disk2
    → Stored stack disk f parent disk2
Stored-kept stack disk disk1 disk2 f parent same (here, others) = (
  here,
  λ i j other in_j in_size.
      let k = i * file_bytes + j in
      others i j other in_j in_size
      ∙ read_all-file_byte disk1 parent.file stack.files stack.file_cached k in_size
      ∙ same k in_size
      ∙ sym (read_all-file_byte disk parent.file stack.files stack.file_cached k in_size),
)

-- The bytes inserted, the entry of the file stored with its new size, and the positions of the file.
abbrev pub Wrote : Stack → Disk → FileCached → File → Array ℕ → ℕ → Disk × FileCached → Type 0
Wrote stack disk f dir buf length (disk', f') =
    ((k : ℕ)
      → k < f.file.file_size + length
      → file_byte disk' f.file.first_sector k ≡ (
          if ltb k f.write_seek
          then file_byte disk f.file.first_sector k
          else (if ltb k (f.write_seek + length)
              then buf (k - f.write_seek)
              else file_byte disk f.file.first_sector (k - length))))
    × (f'.file ≡ record f.file { file_size = f.file.file_size + length })
    × IsWritable disk' f'
    × (f'.write_seek ≡ f.write_seek + length)
    × (f.read_seek < f.file.file_size → f'.read_seek ≡ f.read_seek)
    × SamePath f f'
    × Stored stack disk f' (record stack.parent_dir { file = dir }) disk'

-- A position in the root directory for a file whose chain of n sectors is apart from the root's.
abbrev pub InRoot : ℕ → ℕ → Disk → File → FileCached → Type 0
InRoot n m disk dir f =
    Spells f.parent_dir_name 0 []
    × IsOutside n disk f.file.first_sector sector_with_root_fcb
    × (root disk ≡ dir)
    × InDirectory n m disk dir f

module _ (n m : ℕ) (stack : Stack) (temp : Array ℕ) (disk : Disk) (f : FileCached) (dir : File)
    (buf : Array ℕ) (length : ℕ) (v : IsWritable disk f)
    (chain : IsChain n disk f.file.first_sector) (le : f.write_seek ≤ f.file.file_size)
    (in_n : nth_block (f.file.file_size + length) < n)
    (near : nth_block (f.file.file_size + length) ≤ suc (nth_block f.write_seek))
    (storable : IsStorable (record f.file { file_size = f.file.file_size + length }))
    (in_root : InRoot n m disk dir f) where
  abbrev disk1 : Disk
  disk1 = (insert_contents temp disk f buf length).0

  abbrev stored_file : FileCached
  stored_file = written_file ((insert_contents temp disk f buf length).1) length

  root-kept : root disk1 ≡ dir
  root-kept =
      let (spelled, fcb, is_root, in_dir) = in_root in
      let (frame, path) = insert_contents-Framed n temp disk f buf length v le in_n near in
      ap (λ (a : Array ℕ). file_at a 0) (frame sector_with_root_fcb fcb) ∙ is_root

  stored_file-file : stored_file.file ≡ record f.file { file_size = f.file.file_size + length }
  stored_file-file =
      let (bytes, links, w, seek, file, reading) =
        insert_contents-Inserted n temp disk f buf length v chain le in_n near in
      ap (λ (g : File). record g { file_size = g.file_size + length }) file

  read_seek_kept :
      f.read_seek < f.file.file_size
      → ((f.read_seek < f.file.file_size)
          × IsReadable disk1 stored_file
          × (stored_file.read_seek ≡ f.read_seek))
        ⊎ (f.file.file_size ≤ f.read_seek)
      → stored_file.read_seek ≡ f.read_seek
  read_seek_kept h (inl (inside, readable, same)) = same
  read_seek_kept h (inr far) = absurd (omega arith)

  pub write_and_store :
      (disk2 : Disk) × (store_file_cached stack disk1 stored_file ≡ some disk2)
      × Wrote stack disk f dir buf length (disk2, stored_file)
  write_and_store =
      let (spelled, fcb, is_root, in_dir) = in_root in
      let (bytes, links, w, seek, file, reading) =
        insert_contents-Inserted n temp disk f buf length v chain le in_n near in
      let (frame, path) = insert_contents-Framed n temp disk f buf length v le in_n near in
      let (in_dir1, dir_same) =
        InDirectory-kept n m disk disk1 dir f stored_file (frame, path) links
          (ap (λ (g : File). g.first_sector) file) in_dir in
      let (disk2, (run, stored, frame2, links2)) =
        store_file_cached-root n m stack disk1 stored_file dir
          (subst (λ (a : Array ℕ). Spells a 0 []) (sym path.0) spelled)
          (subst IsStorable (sym stored_file-file) storable) root-kept in_dir1 in
      let same = chain_apart n m disk1 disk2 dir stored_file in_dir1 frame2 in
      let same' =
        subst
          (λ (first : ℕ).
            (i : ℕ) → i < n → disk2 (seek_loop i disk1 first) ≡ disk1 (seek_loop i disk1 first))
          (ap (λ (g : File). g.first_sector) file) same in
      (
        disk2,
        run,
        (
          λ k h. file_byte-kept n disk1 disk2 f.file.first_sector same' k (omega arith) ∙ bytes k h,
          stored_file-file,
          w
              ∙ sym (
                  seek_loop-kept n disk1 disk2 stored_file.file.first_sector same
                    (nth_block stored_file.write_seek) (omega (arith, seek))),
          seek,
          λ h. read_seek_kept h reading,
          path,
          Stored-kept stack disk disk1 disk2 stored_file (record stack.parent_dir { file = dir })
              (λ k h.
                file_byte-kept m disk disk1 dir.first_sector dir_same k (omega (arith, in_dir.2)))
              stored,
        ),
      )

-- Writing to a file of the root directory within the blocks that it has: with the chain of the file, of n
-- different sectors, apart from that of the root directory and from the sector of the root's entry, with
-- the entry of the file inside of the root directory, whose chain has m different sectors, with a right
-- write position in the file, with fields that fit into 32 bits, and with enough blocks for one more
-- than the new size fills, of which the last one is at most one behind the position; with a new size below
-- 2 ^ 31, at most 512 entries in the root directory, and room in the 4096 bytes of `temp`, for 4 bytes
-- more than the new bytes and those behind the position, and, when the position is at the end of the
-- file, than those behind the read position: `sys_write` returns;
-- on the disk the file has the new bytes at the write position and all of its old bytes in front of and
-- behind them, the cached file has the new size, the write position behind the new bytes with its right
-- sector, the read position that it had within the old size, and the path that it had; its entry in the
-- root directory is the cached file, and each byte of the other entries is as before.
pub sys_write-Wrote :
    (n m : ℕ) (stack : Stack) (temp : Array ℕ) (fs : FileSystem) (f : FileCached) (buf : Array ℕ)
    (length : ℕ)
    → IsWritable fs.disk f
    → IsChain n fs.disk f.file.first_sector
    → f.write_seek ≤ f.file.file_size
    → nth_block (f.file.file_size + length) < n
    → nth_block (f.file.file_size + length) ≤ suc (nth_block f.write_seek)
    → IsStorable (record f.file { file_size = f.file.file_size + length })
    → InRoot n m fs.disk (root fs.disk) f
    → nth_block (f.file.file_size + length) + 1 ≤ f.file.sector_count
    → FitsTemp f length
    → f.file.file_size + length < 2 ^ 31
    → (root fs.disk).file_size ≤ files_size
    → (fs' : FileSystem) × (f' : FileCached) × (sys_write stack temp fs f buf length
        ≡ some (fs', f'))
      × (fs'.alloc_bitmap ≡ fs.alloc_bitmap)
      × Wrote stack fs.disk f (root fs.disk) buf length (fs'.disk, f')
sys_write-Wrote n m stack temp fs f buf length v chain le in_n near storable in_root room fits small
      few =
    let (disk2, run, wrote) =
      write_and_store n m stack temp fs.disk f (root fs.disk) buf length v chain le in_n near
        storable in_root in
    (
      record fs { disk = disk2 },
      written_file ((insert_contents temp fs.disk f buf length).1) length,
      sys_write-runs stack temp fs fs f f buf length disk2 (rw (no_expansion room) refl) fits le
          run,
      refl,
      wrote,
    )
  where
    no_expansion :
        nth_block (f.file.file_size + length) + 1 ≤ f.file.sector_count
        → ltb f.file.sector_count (nth_block (f.file.file_size + length) + 1) ≡ false
    no_expansion h = ground arith

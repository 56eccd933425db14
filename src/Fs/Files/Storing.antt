-- ===== src/Fs/Files/Storing.antt =====
-- `sys_write` and `store_file_cached` of kernel/fs/fs.c together: the sectors of a file, and those of its
-- directory.
use weg_os.Base.{
  ℕ, suc, ◌+◌, ◌-◌, ◌*◌, ◌≤◌, ◌<◌, ◌≡◌, ◌≢◌, refl, sym, subst, ap, ◌∙◌, arith, Array, true, [],
  some,
}
use native.Mathlib.Decide.{dec_lt}
use weg_os.Disk.{Disk}
use weg_os.Fs.{File, FileCached, success, nth_block, file_bytes, file_to_bytes}
use weg_os.Fs.Bytes.{IsStorable}
use weg_os.Fs.Files.{insert_contents}
use weg_os.Fs.Files.Insert.{write_back, contents, remains_read}
use weg_os.Fs.Io.{covering_write, read_remains, sys_rseek, sys_wseek, seek_loop}
use weg_os.Fs.Io.Frame.{
  IsOutside, SamePath, Framed, covering_write-Framed, seek_loop-kept, IsChain-kept,
}
use weg_os.Fs.Io.Put.{IsChain}
use weg_os.Fs.Io.ReadLoop.{moved}
use weg_os.Fs.Io.Seeking.{IsWritable, sys_rseek-IsReadable, sys_rseek-far}
use weg_os.Fs.Io.Writing.{covering_write-file_byte}
use weg_os.Fs.Paths.{Stack, load_file_cached, store_file_cached}
use weg_os.Fs.Paths.Load.{root, opened_root, load_file_cached-root}
use weg_os.Strings.Chars.{Spells}
use weg_os.Fs.Paths.Entries.{Stored, entry_written, store_file_cached-found, entry_written-Stored}

sys_rseek-SamePath : (disk : Disk) (f : FileCached) (k : ℕ) → SamePath f ((sys_rseek disk f k).1)
sys_rseek-SamePath disk f k = elim (dec_lt k f.file.file_size) [
  | yes inside ↦ rw (sys_rseek-IsReadable disk f k inside) (refl, refl, refl)
  | no far ↦ rw (sys_rseek-far disk f k (omega arith)) (refl, refl, refl)
]

write_back-Framed :
    (n : ℕ) (disk : Disk) (f : FileCached) (a b : ℕ) (bytes : Array ℕ) (length : ℕ)
    → IsWritable disk f
    → f.write_seek ≤ f.file.file_size
    → nth_block (f.file.file_size + length) < n
    → nth_block (f.file.file_size + length) ≤ suc (nth_block f.write_seek)
    → Framed n disk f (write_back disk f (moved f a b) bytes length)
unfolding sys_wseek
write_back-Framed n disk f a b bytes length v le in_n near =
    let count = f.file.file_size - f.write_seek in
    let (frame, (path, has, index)) =
      covering_write-Framed n disk (moved f a b) bytes (count + length) v (omega arith)
        (omega arith) in
    let r = covering_write disk (moved f a b) bytes (count + length) in
    let (path', has', index') =
      sys_rseek-SamePath r.0 ((sys_wseek r.0 r.1 (f.write_seek + length)).1) f.read_seek in
    (frame, (path' ∙ path, has' ∙ has, index' ∙ index))

-- Inserting bytes touches the sectors of the file only.
pub insert_contents-Framed :
    (n : ℕ) (temp : Array ℕ) (disk : Disk) (f : FileCached) (buf : Array ℕ) (length : ℕ)
    → IsWritable disk f
    → f.write_seek ≤ f.file.file_size
    → nth_block (f.file.file_size + length) < n
    → nth_block (f.file.file_size + length) ≤ suc (nth_block f.write_seek)
    → Framed n disk f (insert_contents temp disk f buf length)
unfolding insert_contents
insert_contents-Framed n temp disk f buf length v le in_n near =
    let (kept, read) = remains_read temp disk f le in
    let (_, f3, rest) = read_remains disk ((sys_rseek disk f f.write_seek).1) temp in
    let bytes = contents rest buf length (f.file.file_size - f.write_seek) in
    subst (λ (g : FileCached). Framed n disk f (write_back disk f g bytes length)) (sym kept)
      (write_back-Framed n disk f f3.read_sector f3.read_seek bytes length v le in_n near)

-- The entry of a file lies inside of a directory whose chain of m sectors is apart from the first n of the
-- file.
abbrev pub InDirectory : ℕ → ℕ → Disk → File → FileCached → Type 0
InDirectory n m disk dir f =
    (f.has_parent ≡ true)
    × IsChain m disk dir.first_sector
    × (nth_block dir.file_size < m)
    × (file_bytes * f.index_in_parent_dir + file_bytes ≤ dir.file_size)
    × ((i j : ℕ)
        → i < n
        → j < m
        → seek_loop i disk f.file.first_sector ≢ seek_loop j disk dir.first_sector)

-- Writing to the file leaves its directory as it was.
pub InDirectory-kept :
    (n m : ℕ) (disk disk' : Disk) (dir : File) (f f' : FileCached)
    → Framed n disk f (disk', f')
    → ((i : ℕ) → seek_loop i disk' f.file.first_sector ≡ seek_loop i disk f.file.first_sector)
    → f'.file.first_sector ≡ f.file.first_sector
    → InDirectory n m disk dir f
    → InDirectory n m disk' dir f'
      × ((j : ℕ)
          → j < m
          → disk' (seek_loop j disk dir.first_sector) ≡ disk (seek_loop j disk dir.first_sector))
InDirectory-kept n m disk disk' dir f f' (frame, (_, has, index)) links first
      (up, chain, in_m, inside, apart) =
    (
      (
        has ∙ up,
        IsChain-kept m disk disk' dir.first_sector same chain,
        in_m,
        subst (λ (i : ℕ). file_bytes * i + file_bytes ≤ dir.file_size) (sym index) inside,
        λ i j in_i in_j e. apart i j in_i in_j (
            sym (links i)
            ∙ ap (seek_loop i disk') (sym first)
            ∙ e
            ∙ seek_loop-kept m disk disk' dir.first_sector same j (omega arith)),
      ),
      same,
    )
  where
    same :
        (j : ℕ)
        → j < m
        → disk' (seek_loop j disk dir.first_sector) ≡ disk (seek_loop j disk dir.first_sector)
    same j in_j =
        frame (seek_loop j disk dir.first_sector) (λ i in_i e. apart i j in_i in_j (sym e))

-- Storing the entry of a file leaves alone what is not in the chain of its directory, and the links there.
pub store_file_cached-apart :
    (n m : ℕ) (stack : Stack) (disk : Disk) (f parent : FileCached)
    → load_file_cached stack disk f.parent_dir_name stack.parent_dir ≡ some (success, parent)
    → IsStorable f.file
    → InDirectory n m disk parent.file f
    → (disk' : Disk) × (store_file_cached stack disk f ≡ some disk')
      × Stored stack disk f parent disk'
      × ((s : ℕ) → IsOutside m disk parent.file.first_sector s → disk' s ≡ disk s)
      × ((j : ℕ)
          → seek_loop j disk' parent.file.first_sector ≡ seek_loop j disk parent.file.first_sector)
unfolding sys_wseek
store_file_cached-apart n m stack disk f parent found storable (up, chain, in_m, inside, apart) =
    let seek = (sys_wseek disk parent (file_bytes * f.index_in_parent_dir)).1 in
    let (frame, _) =
      covering_write-Framed m disk seek (file_to_bytes f.file) file_bytes refl (omega arith)
        (omega arith) in
    (
      entry_written disk f parent,
      store_file_cached-found stack disk f parent found up,
      entry_written-Stored m stack disk f parent storable chain in_m inside,
      frame,
      (covering_write-file_byte m disk seek (file_to_bytes f.file) file_bytes refl chain
          (omega arith) (omega arith)).1,
    )

-- So the sectors of the file stay.
pub chain_apart :
    (n m : ℕ) (disk disk' : Disk) (dir : File) (f : FileCached)
    → InDirectory n m disk dir f
    → ((s : ℕ) → IsOutside m disk dir.first_sector s → disk' s ≡ disk s)
    → (i : ℕ) → i < n
    → disk' (seek_loop i disk f.file.first_sector) ≡ disk (seek_loop i disk f.file.first_sector)
chain_apart n m disk disk' dir f (up, chain, in_m, inside, apart) frame i in_i =
    frame (seek_loop i disk f.file.first_sector) (λ j in_j. apart i j in_i in_j)

-- What storing the entry of a file of the root directory does, in a directory that is the root.
abbrev pub StoredInRoot : ℕ → Stack → Disk → FileCached → File → Disk → Type 0
StoredInRoot m stack disk f dir disk' =
    (store_file_cached stack disk f ≡ some disk')
    × Stored stack disk f (record stack.parent_dir { file = dir }) disk'
    × ((s : ℕ) → IsOutside m disk dir.first_sector s → disk' s ≡ disk s)
    × ((j : ℕ) → seek_loop j disk' dir.first_sector ≡ seek_loop j disk dir.first_sector)

pub store_file_cached-root :
    (n m : ℕ) (stack : Stack) (disk : Disk) (f : FileCached) (dir : File)
    → Spells f.parent_dir_name 0 []
    → IsStorable f.file
    → root disk ≡ dir
    → InDirectory n m disk dir f
    → (disk' : Disk) × StoredInRoot m stack disk f dir disk'
store_file_cached-root n m stack disk f dir spelled storable e =
    subst
      (λ (dir : File).
        InDirectory n m disk dir f → (disk' : Disk) × StoredInRoot m stack disk f dir disk')
      e
      (λ in_dir.
        let (disk', run, stored, frame, links) =
          store_file_cached-apart n m stack disk f (opened_root disk stack.parent_dir)
            (load_file_cached-root stack disk f.parent_dir_name stack.parent_dir spelled) storable
            in_dir in
        (disk', (run, stored, frame, links)))

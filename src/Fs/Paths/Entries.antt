-- ===== src/Fs/Paths/Entries.antt =====
-- `store_file_cached` of kernel/fs/fs.c: the entry of a file in its directory, as the search reads it.
use weg_os.Base.{
  ℕ, ◌+◌, ◌-◌, ◌*◌, ◌≤◌, ◌<◌, ◌≡◌, ◌≢◌, refl, sym, ◌∙◌, arith, true, some, inl, inr, ◌⊎◌,
  if◌then◌else◌, leb, ltb,
}
use native.Mathlib.Decide.{dec_lt}
use weg_os.Disk.{Disk}
use weg_os.Fs.{FileCached, success, nth_block, file_bytes, file_to_bytes}
use weg_os.Fs.Bytes.{IsStorable, SameFile, file_at-file_to_bytes}
use weg_os.Fs.Io.{sys_wseek, covering_write}
use weg_os.Fs.Io.Put.{IsChain}
use weg_os.Fs.Io.Blocks.{file_byte}
use weg_os.Fs.Io.Seeking.{read_all-file_byte}
use weg_os.Fs.Io.Writing.{covering_write-file_byte, written-inside, written-outside}
use weg_os.Fs.Paths.{Stack, files_size, load_file_cached, store_file_cached}
use weg_os.Fs.Paths.Search.{entries, entry}

-- What `store_file_cached` writes: the entry of a file, by the directory that it has found.
abbrev pub entry_written : Disk → FileCached → FileCached → Disk
entry_written disk f parent =
    (covering_write disk ((sys_wseek disk parent (file_bytes * f.index_in_parent_dir)).1)
      (file_to_bytes f.file) file_bytes).0

pub store_file_cached-found :
    (stack : Stack) (disk : Disk) (f parent : FileCached)
    → load_file_cached stack disk f.parent_dir_name stack.parent_dir ≡ some (success, parent)
    → f.has_parent ≡ true
    → store_file_cached stack disk f ≡ some (entry_written disk f parent)
unfolding store_file_cached
store_file_cached-found stack disk f parent found has_parent = rw (found, has_parent) refl

module _ (n : ℕ) (disk : Disk) (f parent : FileCached)
    (chain : IsChain n disk parent.file.first_sector)
    (in_n : nth_block (file_bytes * f.index_in_parent_dir + file_bytes) < n) where
  entry_written-byte :
      (k : ℕ)
      → nth_block k < n
      → file_byte (entry_written disk f parent) parent.file.first_sector k ≡ (
          if leb (file_bytes * f.index_in_parent_dir) k
          then (if ltb k (file_bytes * f.index_in_parent_dir + file_bytes)
              then file_to_bytes f.file (k - file_bytes * f.index_in_parent_dir)
              else file_byte disk parent.file.first_sector k)
          else file_byte disk parent.file.first_sector k)
  unfolding sys_wseek
  entry_written-byte k in_k =
      (covering_write-file_byte n disk
          ((sys_wseek disk parent (file_bytes * f.index_in_parent_dir)).1) (file_to_bytes f.file)
          file_bytes refl chain in_n (omega arith)).0
        k in_k

entries_apart :
    (i index j : ℕ)
    → i ≢ index
    → j < file_bytes
    → (i * file_bytes + j < file_bytes * index)
      ⊎ (file_bytes * index + file_bytes ≤ i * file_bytes + j)
entries_apart i index j other h = elim (dec_lt i index) [
  | yes before ↦ inl (omega arith)
  | no behind ↦ inr (omega arith)
]

-- The entry of a file is in its directory, and the other entries are as before.
abbrev pub Stored : Stack → Disk → FileCached → FileCached → Disk → Type 0
Stored stack disk f parent disk' =
    SameFile (entry stack disk' parent.file f.index_in_parent_dir) f.file
    × ((i j : ℕ)
        → i ≢ f.index_in_parent_dir
        → j < file_bytes
        → i * file_bytes + j < parent.file.file_size
        → entries stack disk' parent.file (i * file_bytes + j)
          ≡ entries stack disk parent.file (i * file_bytes + j))

pub entry_written-Stored :
    (n : ℕ) (stack : Stack) (disk : Disk) (f parent : FileCached)
    → IsStorable f.file
    → IsChain n disk parent.file.first_sector
    → nth_block parent.file.file_size < n
    → file_bytes * f.index_in_parent_dir + file_bytes ≤ parent.file.file_size
    → Stored stack disk f parent (entry_written disk f parent)
entry_written-Stored n stack disk f parent storable chain in_n inside =
    let index = f.index_in_parent_dir in
    let disk' = entry_written disk f parent in
    let byte = entry_written-byte n disk f parent chain (omega arith) in
    let read = λ (d : Disk) (k : ℕ) (h : k < parent.file.file_size).
      read_all-file_byte d parent.file stack.files stack.file_cached k h in
    (
      file_at-file_to_bytes (entries stack disk' parent.file) (index * file_bytes) f.file storable
          (λ j h.
            read disk' (index * file_bytes + j) (omega arith)
            ∙ byte (index * file_bytes + j) (omega arith)
            ∙ sym (
                written-inside (file_bytes * index) file_bytes (file_to_bytes f.file)
                  (index * file_bytes + j) _ j (omega arith) (omega arith) (omega arith))),
      λ i j other h k.
          read disk' (i * file_bytes + j) k
          ∙ byte (i * file_bytes + j) (omega arith)
          ∙ sym (
              written-outside (file_bytes * index) file_bytes (file_to_bytes f.file)
                (i * file_bytes + j) _ (entries_apart i index j other h))
          ∙ sym (read disk (i * file_bytes + j) k),
    )

-- With the directory of a file found, of at most 512 entries, whose chain of n different sectors holds its contents, and the entry
-- of the file inside of them: `store_file_cached` returns, a search in that directory then reads the
-- file's own fields and name in its entry, and reads each byte of every other entry as before.
pub store_file_cached-entry :
    (n : ℕ) (stack : Stack) (disk : Disk) (f parent : FileCached)
    → load_file_cached stack disk f.parent_dir_name stack.parent_dir ≡ some (success, parent)
    → f.has_parent ≡ true
    → IsStorable f.file
    → IsChain n disk parent.file.first_sector
    → nth_block parent.file.file_size < n
    → file_bytes * f.index_in_parent_dir + file_bytes ≤ parent.file.file_size
    → parent.file.file_size ≤ files_size
    → (disk' : Disk) × (store_file_cached stack disk f ≡ some disk')
      × Stored stack disk f parent disk'
store_file_cached-entry n stack disk f parent found has_parent storable chain in_n inside fits = (
  entry_written disk f parent,
  store_file_cached-found stack disk f parent found has_parent,
  entry_written-Stored n stack disk f parent storable chain in_n inside,
)

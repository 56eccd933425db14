-- ===== src/Fs/Files/Expanding.antt =====
-- `file_expand` of kernel/fs/fs.c as a whole, for a file in the root directory.
use weg_os.Base.{
  ℕ, suc, ◌+◌, ◌%◌, ◌^◌, ◌≤◌, ◌<◌, ◌≡◌, refl, sym, subst, ap, ◌∙◌, arith, Array, true, some, ◌>>=◌,
  Option,
}
use weg_os.Base.Bytes.{IsBytes}
use weg_os.BitAllocation.Search.{bit_at}
use weg_os.Disk.{Disk}
use weg_os.Fs.{
  File, FileCached, FileSystem, nth_block, in_block_offset, next_sector, file_at,
  sector_with_root_fcb,
}
use weg_os.Fs.Bytes.{IsStorable}
use weg_os.Fs.Files.{expand_loop, file_expand}
use weg_os.Fs.Files.Chain.{IsFileChain, HasFree, expand_loop-IsFileChain}
use weg_os.Fs.Files.Growing.{expand_loop-Grown}
use weg_os.Fs.Files.Storing.{InDirectory, store_file_cached-root, chain_apart}
use weg_os.Fs.Files.Whole.{InRoot, Stored-kept}
use weg_os.Fs.Io.{seek_loop}
use weg_os.Fs.Io.Blocks.{file_byte}
use weg_os.Fs.Io.Frame.{IsOutside, seek_loop-kept, file_byte-kept, IsChain-kept}
use weg_os.Fs.Io.Put.{IsChain}
use weg_os.Fs.Paths.{Stack, store_file_cached}
use weg_os.Fs.Paths.Entries.{Stored}
use weg_os.Fs.Paths.Load.{root}

-- The sectors of the root directory are taken, and the one of its entry is none of its contents.
abbrev pub RootTaken : ℕ → FileSystem → Type 0
RootTaken m fs =
    ((j : ℕ)
      → j < m
      → bit_at fs.alloc_bitmap.bits (seek_loop j fs.disk (root fs.disk).first_sector) ≡ true)
    × (bit_at fs.alloc_bitmap.bits sector_with_root_fcb ≡ true)
    × IsOutside m fs.disk (root fs.disk).first_sector sector_with_root_fcb

-- The end of `file_expand`.
abbrev store_then : Stack → FileSystem → FileCached → Option (FileSystem × FileCached)
store_then stack fs f = do
  disk ← store_file_cached stack fs.disk f
  some (record fs { disk = disk }, f)

-- The cached file after `file_expand`.
abbrev pub expanded : ℕ → FileSystem → FileCached → FileCached
expanded need fs f = record f {
  file = record f.file {
    last_sector = (expand_loop need fs f.file).1.last_sector;
    sector_count = (f.file.sector_count + need) % 2 ^ 32;
  };
}

module _ (n m need : ℕ) (stack : Stack) (fs : FileSystem) (f : FileCached)
    (bytes : IsBytes fs.alloc_bitmap.bits) (ok : IsFileChain n fs f.file)
    (free : HasFree need fs f.file) (storable : IsStorable f.file)
    (in_root : InRoot (suc n) m fs.disk (root fs.disk) f) (taken : RootTaken m fs) where
  abbrev dir : File
  dir = root fs.disk

  abbrev fs1 : FileSystem
  fs1 = (expand_loop need fs f.file).0

  abbrev total : ℕ
  total = suc n + need

  file_expand-runs :
      (disk : Disk)
      → store_file_cached stack fs1.disk (expanded need fs f) ≡ some disk
      → file_expand stack fs f need ≡ some (record fs1 { disk = disk }, (expanded need fs f))
  unfolding file_expand
  file_expand-runs disk run =
      let (places, kept, same, last) = expand_loop-Grown need n fs f.file bytes ok free in
      subst
        (λ (g : FileCached).
          store_then stack fs1 g ≡ some (record fs1 { disk = disk }, (expanded need fs f)))
        (sym (
          ap
            (λ (g : File). record f {
              file = record g { sector_count = (g.sector_count + need) % 2 ^ 32 };
            })
            same))
        (rw run refl)

  root_kept :
      (j : ℕ)
      → j < m
      → (fs1.disk (seek_loop j fs.disk dir.first_sector)
          ≡ fs.disk (seek_loop j fs.disk dir.first_sector))
        × IsOutside total fs1.disk f.file.first_sector (seek_loop j fs.disk dir.first_sector)
  root_kept j in_j =
      let (spelled, fcb, is_root, (up, chain, in_m, inside, apart)) = in_root in
      let (places, kept, same, last) = expand_loop-Grown need n fs f.file bytes ok free in
      let (d, t, out) =
        kept (seek_loop j fs.disk dir.first_sector) (taken.0 j in_j)
          (λ i in_i e. apart i j in_i in_j (sym e)) in
      (d, out)

  root_place :
      (j : ℕ) → j ≤ m → seek_loop j fs1.disk dir.first_sector ≡ seek_loop j fs.disk dir.first_sector
  root_place j h =
      seek_loop-kept m fs.disk fs1.disk dir.first_sector (λ i in_i. (root_kept i in_i).0) j h

  fcb_kept :
      (fs1.disk sector_with_root_fcb ≡ fs.disk sector_with_root_fcb)
      × IsOutside total fs1.disk f.file.first_sector sector_with_root_fcb
  fcb_kept =
      let (spelled, fcb, is_root, in_dir) = in_root in
      let (places, kept, same, last) = expand_loop-Grown need n fs f.file bytes ok free in
      let (d, t, out) = kept sector_with_root_fcb taken.1 fcb in (d, out)

  expanded-InDirectory : InDirectory total m fs1.disk dir (expanded need fs f)
  expanded-InDirectory =
      let (spelled, fcb, is_root, (up, chain, in_m, inside, apart)) = in_root in
      (
        up,
        IsChain-kept m fs.disk fs1.disk dir.first_sector (λ i in_i. (root_kept i in_i).0) chain,
        in_m,
        inside,
        λ i j in_i in_j e. (root_kept j in_j).1 i in_i (sym (root_place j (omega arith)) ∙ sym e),
      )

  pub expanded-IsStorable : IsStorable (expanded need fs f).file
  expanded-IsStorable =
      let (first, last, count, size, type) = storable in
      let (places, kept, same, last_small) = expand_loop-Grown need n fs f.file bytes ok free in
      (first, last_small last, omega arith, size, type)

  expanded-byte :
      (k : ℕ)
      → nth_block k ≤ n
      → file_byte fs1.disk f.file.first_sector k ≡ file_byte fs.disk f.file.first_sector k
  expanded-byte k h =
      let (places, kept, same, last) = expand_loop-Grown need n fs f.file bytes ok free in
      ap (λ (s : ℕ). fs1.disk s (in_block_offset k)) (places (nth_block k) h)
      ∙ (expand_loop-IsFileChain need n fs f.file bytes ok free).4
          (seek_loop (nth_block k) fs.disk f.file.first_sector) (in_block_offset k) (omega arith)

  -- The chain after the entry of the file was stored, too.
  stored-IsFileChain :
      (disk : Disk)
      → ((i : ℕ)
          → i < total
          → disk (seek_loop i fs1.disk f.file.first_sector)
            ≡ fs1.disk (seek_loop i fs1.disk f.file.first_sector))
      → IsFileChain (n + need) (record fs1 { disk = disk }) (expanded need fs f).file
  stored-IsFileChain disk same =
      let first = f.file.first_sector in
      let (places, kept, file_same, last) = expand_loop-Grown need n fs f.file bytes ok free in
      let ((chain, at_last, end, taken_bits), bytes1, first_same, size_same, contents) =
        expand_loop-IsFileChain need n fs f.file bytes ok free in
      let place = seek_loop-kept total fs1.disk disk first same in
      let at = at_last ∙ ap (seek_loop (n + need) fs1.disk) first_same in
      (
        IsChain-kept (suc (n + need)) fs1.disk disk first (λ i h. same i (omega arith))
            (subst (λ (s : ℕ). IsChain (suc (n + need)) fs1.disk s) first_same chain),
        at ∙ sym (place (n + need) (omega arith)),
        ap next_sector (ap disk at ∙ same (n + need) (omega arith) ∙ ap fs1.disk (sym at)) ∙ end,
        λ i h.
            ap (bit_at fs1.alloc_bitmap.bits)
              (place i (omega arith) ∙ ap (seek_loop i fs1.disk) (sym first_same))
            ∙ taken_bits i h,
      )

  stored-InRoot :
      (disk : Disk)
      → ((i : ℕ)
          → i < total
          → disk (seek_loop i fs1.disk f.file.first_sector)
            ≡ fs1.disk (seek_loop i fs1.disk f.file.first_sector))
      → ((s : ℕ) → IsOutside m fs1.disk dir.first_sector s → disk s ≡ fs1.disk s)
      → ((j : ℕ) → seek_loop j disk dir.first_sector ≡ seek_loop j fs1.disk dir.first_sector)
      → InRoot total m disk dir (expanded need fs f)
  stored-InRoot disk same frame links =
      let (up, chain, in_m, inside, apart) = expanded-InDirectory in
      let place = seek_loop-kept total fs1.disk disk f.file.first_sector same in
      (
        in_root.0,
        λ i in_i e. fcb_kept.1 i in_i (e ∙ place i (omega arith)),
        ap (λ (a : Array ℕ). file_at a 0)
            (frame sector_with_root_fcb
                (λ j in_j e. taken.2 j in_j (e ∙ root_place j (omega arith)))
              ∙ fcb_kept.0),
        (
          up,
          λ i j in_i in_j e. chain i j in_i in_j (sym (links i) ∙ e ∙ links j),
          in_m,
          inside,
          λ i j in_i in_j e. apart i j in_i in_j (sym (place i (omega arith)) ∙ e ∙ links j),
        ),
      )

  -- The chain of the expanded file, its place in the root directory, the blocks and the contents that it had,
  -- and its entry.
  abbrev pub Expanded : FileSystem → Type 0
  Expanded fs2 =
      IsFileChain (n + need) fs2 (expanded need fs f).file
      × InRoot total m fs2.disk dir (expanded need fs f)
      × ((i : ℕ)
          → i ≤ n
          → seek_loop i fs2.disk f.file.first_sector ≡ seek_loop i fs.disk f.file.first_sector)
      × ((k : ℕ)
          → nth_block k ≤ n
          → file_byte fs2.disk f.file.first_sector k ≡ file_byte fs.disk f.file.first_sector k)
      × Stored stack fs.disk (expanded need fs f) (record stack.parent_dir { file = dir }) fs2.disk

  pub file_expand-Expanded :
      (fs2 : FileSystem) × (file_expand stack fs f need ≡ some (fs2, (expanded need fs f)))
      × Expanded fs2
  file_expand-Expanded =
      let (places, kept, file_same, last) = expand_loop-Grown need n fs f.file bytes ok free in
      let (disk, (run, stored, frame, links)) =
        store_file_cached-root total m stack fs1.disk (expanded need fs f) dir in_root.0
          expanded-IsStorable (ap (λ (a : Array ℕ). file_at a 0) fcb_kept.0) expanded-InDirectory in
      let same =
        chain_apart total m fs1.disk disk dir (expanded need fs f) expanded-InDirectory frame in
      (
        record fs1 { disk = disk },
        file_expand-runs disk run,
        (
          stored-IsFileChain disk same,
          stored-InRoot disk same frame links,
          λ i h.
              seek_loop-kept total fs1.disk disk f.file.first_sector same i (omega arith)
              ∙ places i h,
          λ k h.
              file_byte-kept total fs1.disk disk f.file.first_sector same k (omega arith)
              ∙ expanded-byte k h,
          Stored-kept stack fs.disk fs1.disk disk (expanded need fs f)
              (record stack.parent_dir { file = dir })
              (λ k h.
                file_byte-kept m fs.disk fs1.disk dir.first_sector (λ j in_j. (root_kept j in_j).0)
                  k (omega (arith, in_root.3.2)))
              stored,
        ),
      )

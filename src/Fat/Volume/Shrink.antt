-- ===== src/Fat/Volume/Shrink.antt =====
-- A file made shorter: `shrink_existing_file` of src/fs/fat_fs.rs, with the table, the clusters and the
-- entry on the disk.
use bubble_os.Base.{
  ℕ, suc, ◌+◌, ◌-◌, ◌*◌, ◌/◌, ◌%◌, ◌^◌, ◌≤◌, ◌<◌, ◌≡◌, refl, sym, ap, subst, ◌∙◌, ◌≢◌, true, false,
  some, List, ◌∷◌, ◌++◌, arith, length, take, drop, length-take-le, contains,
}
use bubble_os.Fat.Entry.Bytes.{EntryIsValid}
use bubble_os.Fat.Volume.Files.{FileHolds-Numbered}
use bubble_os.Fat.Table.{FatBuffer}
use bubble_os.Fat.Table.Chain.{contains-last_of, last_of, contains-append}
use bubble_os.Fat.Entry.{DirectoryEntry, get_cluster}
use bubble_os.Fat.Volume.{read_cluster, sectors_per_fat, FatFileSystem, Port, cluster_size}
use bubble_os.Fat.Volume.Content.{cluster_at}
use bubble_os.Fat.Volume.Disk.{content-written_ne, Reliable, VolumeIsValid, content}
use bubble_os.Fat.Volume.Splice.{take-drop}
use bubble_os.Fat.Volume.Reading.{cluster_size-pos, contents}
use bubble_os.Fat.Volume.Slots.{read_directory_entry, DirectoryEntryLocation}
use bubble_os.Fat.Volume.Resize.{with_fat, cut_chain, shrink_existing_file}
use bubble_os.Fat.Volume.Writing.{at_port, InVolume}
use bubble_os.Fat.Volume.Refinement.{DisjointFrom, Represents}
use bubble_os.Fat.Volume.Stored.{
  persist_directory_entry_lem, read_directory_entry-persist_directory_entry, stored,
  LocationIsValid,
}
use bubble_os.Fat.Volume.Cut.{cluster_at-Chain, cut_chain_lem, Cut}
use bubble_os.Fat.Volume.Persist.{persist_fat_lem}
use bubble_os.Fat.Volume.Kept.{
  ceil_le, le_ceil, ceil_pos, length-contents, kept, after_persist, after_cut, after_walk,
  shrink_existing_file-walk, Cut-Represents, kept-Represents,
}

-- What a file made shorter leaves: its first clusters with its first bytes, its entry on the disk with the
-- new size, the clusters that it needs no more free, and as they were all files that share no cluster
-- with it and do not use the cluster of its directory.
abbrev pub Shrunk :
    {S : Type 0}
    → Port S
    → FatFileSystem S
    → DirectoryEntry
    → DirectoryEntryLocation
    → ℕ
    → List ℕ
    → List ℕ
    → List ℕ
    → FatFileSystem S
    → Type 0
Shrunk P fs file location new_size r s old fs' =
    let file' = record file { size = new_size % 2 ^ 32 } in
    VolumeIsValid fs'
    × Represents P fs' file' r (take new_size old)
    × (read_directory_entry P fs' location ≡ some file')
    × ((x : ℕ) → contains s x ≡ true → fs'.fat.fat x ≡ 0)
    × ((g : DirectoryEntry) (t b : List ℕ)
        → Represents P fs g t b
        → DisjointFrom g t file (r ++ s)
        → contains (get_cluster g ∷ t) location.cluster ≡ false
        → Represents P fs' g t b)

module _ {S : Type 0} (P : Port S) (R : Reliable P) (fs : FatFileSystem S)
    (valid : VolumeIsValid fs) (file : DirectoryEntry) (r s : List ℕ) where
  Cut-Shrunk :
      (location : DirectoryEntryLocation) (new_size : ℕ) (old : List ℕ) (f : FatBuffer) (port : S)
      → Represents P fs file (r ++ s) old
      → EntryIsValid file
      → LocationIsValid fs location
      → contains (get_cluster file ∷ (r ++ s)) location.cluster ≡ false
      → new_size ≤ file.size
      → new_size ≤ length (contents P fs (get_cluster file ∷ r))
      → Cut fs.fat (get_cluster file) r s (some tt, f)
      → ((x : ℕ) → InVolume fs x → content P (at_port (with_fat fs f) port) x ≡ content P fs x)
      → (valid' : VolumeIsValid (at_port (with_fat fs f) port))
      → Shrunk P fs file location new_size r s old (
          stored P R
            (at_port (with_fat fs f) port)
            valid'
            location
            (record file { size = new_size % 2 ^ 32 }))
  Cut-Shrunk location new_size old f port held v place far l large (_, size, chain, freed, others)
        same valid' =
      let file' = record file { size = new_size % 2 ^ 32 } in
      let fs2 = at_port (with_fat fs f) port in
      let fs3 = stored P R fs2 valid' location file' in
      let num = FileHolds-Numbered P fs file (r ++ s) held.0 in
      let place2 : LocationIsValid fs2 location =
        ((place.0.0, omega (arith, place.0.1)), place.1, place.2, place.3) in
      let v' : EntryIsValid file' = (v.0, v.1, v.2, v.3, v.4, v.5, v.6, v.7, omega arith) in
      let kept_content : (x : ℕ)
          → InVolume fs x
          → location.cluster ≢ x
          → content P fs3 x ≡ content P fs x =
        λ x i n.
          content-written_ne P R fs2 valid' location.cluster x _ place2.0 (i.0, omega (arith, i.1))
            n
          ∙ same x i in
      let back =
        read_directory_entry-persist_directory_entry P R fs2 valid' location file' place2 v' in
      let back' = rw (persist_directory_entry_lem P R fs2 valid' location file' place2) at back in
      (
        valid',
        Cut-Represents P R fs valid file r s fs3 old new_size held l (omega (arith, v.8)) large
            chain
            (λ x m.
              let m' : contains (get_cluster file ∷ (r ++ s)) x ≡ true =
                ground (arith, contains-append r s x) in
              kept_content x (num x m') (λ e. absurd (ground arith))),
        back'.1,
        freed,
        λ g t b hg apart away. kept-Represents P fs fs3 g t b hg size (λ x m.
            let outside = apart x m in
            (
              ground
                  (arith, others x, contains-append r s x, contains-last_of (get_cluster file) r),
              kept_content x (FileHolds-Numbered P fs g t hg.0 x m) (λ e. absurd (ground arith)),
            )),
      )

  -- The same with the walk and the writes that lead there.
  shrink_existing_file-Shrunk :
      (location : DirectoryEntryLocation) (new_size : ℕ) (old : List ℕ)
      → Represents P fs file (r ++ s) old
      → EntryIsValid file
      → LocationIsValid fs location
      → contains (get_cluster file ∷ (r ++ s)) location.cluster ≡ false
      → 0 < sectors_per_fat fs
      → 0 < new_size
      → new_size ≤ file.size
      → length r ≡ kept fs new_size
      → (fs' : FatFileSystem S) × (shrink_existing_file P fs file location new_size
          ≡ (some tt, record file { size = new_size % 2 ^ 32 }, fs'))
        × Shrunk P fs file location new_size r s old fs'
  unfolding sectors_per_fat content read_cluster
  shrink_existing_file-Shrunk location new_size old held v place far table pos l count =
      let c = get_cluster file in
      let file' = record file { size = new_size % 2 ^ 32 } in
      let cut = cut_chain_lem fs.fat c r s held.0.chain in
      let f = (cut_chain fs.fat (last_of c r)).1 in
      let run : cut_chain fs.fat (last_of c r) ≡ (some tt, f) = ap (λ q. (q, f)) cut.0 in
      let valid1 : VolumeIsValid (with_fat fs f) = (valid.0, valid.1, valid.2, rw cut.1 valid.3) in
      let (port, persisted, same) = persist_fat_lem P R (with_fat fs f) valid1 table in
      let fs2 = at_port (with_fat fs f) port in
      let place2 : LocationIsValid fs2 location =
        ((place.0.0, omega (arith, place.0.1, cut.1)), place.1, place.2, place.3) in
      let long = length-contents P R fs valid (c ∷ r) in
      let enough = le_ceil new_size (cluster_size fs) (cluster_size-pos fs valid) in
      let some_kept = ceil_pos new_size (cluster_size fs) (cluster_size-pos fs valid) pos in
      let clusters : suc (length r) ≡ (new_size + cluster_size fs - 1) / cluster_size fs =
        omega arith in
      let nz : c ≢ 0 = λ e. absurd (omega (arith, held.0.numbered c (ground arith))) in
      (
        stored P R fs2 valid1 location file',
        shrink_existing_file-walk P R fs valid file location new_size pos nz
            ∙ ap (after_walk P R fs valid file location new_size)
                (ap (cluster_at fs c) (sym count) ∙ cluster_at-Chain fs c r s held.0.chain)
            ∙ ap (after_cut P R fs valid file location new_size) run
            ∙ ap (after_persist P R fs valid file location new_size) persisted
            ∙ ap (λ q. (q.0, file', q.1))
                (persist_directory_entry_lem P R fs2 valid1 location file' place2),
        Cut-Shrunk location new_size old f port held v place far l
            (omega (arith, ap (λ n. n * cluster_size fs) clusters))
            (refl, cut.1, cut.2, cut.3, cut.4) (λ x i. same x (i.0, omega (arith, i.1, cut.1)))
            valid1,
      )

module _ {S : Type 0} (P : Port S) (R : Reliable P) (fs : FatFileSystem S)
    (valid : VolumeIsValid fs) where
  kept_fits :
      (file : DirectoryEntry) (r old : List ℕ) (new_size : ℕ)
      → Represents P fs file r old
      → new_size ≤ file.size
      → kept fs new_size ≤ length r
  kept_fits file r old new_size (h, _) l =
      let long = length-contents P R fs valid (get_cluster file ∷ r) in
      let large = h.large_enough in
      let needed =
        ceil_le new_size (suc (length r)) (cluster_size fs) (cluster_size-pos fs valid)
          (omega arith) in
      omega arith

  -- On a reliable disk and a valid volume with a table, `shrink_existing_file` makes a stored file, whose entry has its place outside the
  -- file's own clusters, shorter but not empty: it succeeds, the volume stays valid, the file is stored in its first clusters, as
  -- many as the new size needs, with the first bytes of what it had, its entry on the disk has the new
  -- size, the other clusters of its chain are free, and every file that has no cluster in common with it
  -- or with the cluster of the entry is stored with the bytes that it had.
  pub shrink_existing_file-Represents :
      (file : DirectoryEntry) (r old : List ℕ) (location : DirectoryEntryLocation) (new_size : ℕ)
      → Represents P fs file r old
      → EntryIsValid file
      → LocationIsValid fs location
      → contains (get_cluster file ∷ r) location.cluster ≡ false
      → 0 < sectors_per_fat fs
      → 0 < new_size
      → new_size ≤ file.size
      → (fs' : FatFileSystem S) × (shrink_existing_file P fs file location new_size
          ≡ (some tt, record file { size = new_size % 2 ^ 32 }, fs'))
        × Shrunk P fs file location new_size
            (take (kept fs new_size) r)
            (drop (kept fs new_size) r)
            old
            fs'
  shrink_existing_file-Represents file r old location new_size held v place far table pos l =
      let k = kept fs new_size in
      let parts = sym (take-drop k r) in
      shrink_existing_file-Shrunk P R fs valid file (take k r) (drop k r) location new_size old
        (subst (λ t. Represents P fs file t old) parts held) v place
        (subst (λ t. contains (get_cluster file ∷ t) location.cluster ≡ false) parts far) table pos
        l (length-take-le k r (kept_fits file r old new_size held l))

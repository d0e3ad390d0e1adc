-- ===== src/Fat/Volume/Resize.antt =====
-- The size of a file: `truncate_existing_file` of src/fs/fat_fs.rs, with what it calls to shrink and to
-- grow a file's cluster chain and to undo a growth. The `&mut DirectoryEntry` is returned.
use bubble_os.Base.{
  ℕ, ◌+◌, ◌-◌, ◌/◌, ◌%◌, ◌^◌, not, Option, none, some, ltb, leb, ◌==◌, if◌then◌else◌,
}
use bubble_os.Fat.Table.{FatBuffer, fat_cluster_eof, next_cluster, set, free_chain, allocate_chain}
use bubble_os.Fat.Entry.{DirectoryEntry, get_cluster, set_cluster}
use bubble_os.Fat.Volume.{FatFileSystem, Port, cluster_size, clusters_for_size, persist_fat}
use bubble_os.Fat.Volume.Content.{cluster_at, zero_file_range}
use bubble_os.Fat.Volume.Slots.{
  DirectoryEntryLocation, read_directory_entry, persist_directory_entry,
}

abbrev pub with_fat : {S : Type 0} → FatFileSystem S → FatBuffer → FatFileSystem S
with_fat fs f = record fs { fat = f }

-- What a resize returns: its result, the entry and the file system.
abbrev pub Resized : Type 0 → Type 0
Resized S = Option (Unit {0}) × DirectoryEntry × FatFileSystem S

-- The chain ends at the last cluster that is kept, and the clusters after it are freed.
unfoldable pub cut_chain : FatBuffer → ℕ → Option (Unit {0}) × FatBuffer
cut_chain f last_kept_cluster =
    let first_freed_cluster = next_cluster f last_kept_cluster in
    let (r, f') = set f last_kept_cluster fat_cluster_eof in
    elim r [
      | none ↦ (none, f')
      | some _ ↦ elim first_freed_cluster [
        | none ↦ (some tt, f')
        | some first ↦ free_chain f' first
      ]
    ]

module _ {S : Type 0} where
  unfoldable pub rollback_growth :
      FatFileSystem S → DirectoryEntry → ℕ → ℕ → Option ℕ → DirectoryEntry × FatFileSystem S
  unfolding set_cluster
  rollback_growth fs file old_first_cluster old_cluster_count new_chain_start =
      let (file', f) =
        if old_cluster_count == 0
        then (set_cluster file old_first_cluster, fs.fat)
        else elim (cluster_at fs old_first_cluster (old_cluster_count - 1)) [
          | none ↦ (file, fs.fat)
          | some last_old_cluster ↦ (file, (set fs.fat last_old_cluster fat_cluster_eof).1)
        ] in
      elim new_chain_start [
        | none ↦ (file', with_fat fs f)
        | some start ↦ (file', with_fat fs (free_chain f start).1)
      ]

  -- The new clusters are linked to the file; the third component is the start of their chain.
  unfoldable pub link_growth :
      FatFileSystem S
      → DirectoryEntry
      → ℕ
      → ℕ
      → Option (Option ℕ) × DirectoryEntry × FatFileSystem S
  unfolding get_cluster set_cluster
  link_growth fs file old_cluster_count new_cluster_count =
      if leb new_cluster_count old_cluster_count
      then (some none, file, fs)
      else let (r, f) = allocate_chain fs.fat (new_cluster_count - old_cluster_count) in
        let fs' = with_fat fs f in
        elim r [
          | none ↦ (none, file, fs')
          | some start ↦
              if old_cluster_count == 0
              then (some (some start), set_cluster file start, fs')
              else elim (cluster_at fs' (get_cluster file) (old_cluster_count - 1)) [
                | none ↦ (none, file, fs')
                | some last_old_cluster ↦
                    let (r', f') = set f last_old_cluster (start % 2 ^ 32) in
                    (elim r' [ none ↦ none | some _ ↦ some (some start) ], file, with_fat fs f')
              ]
        ]

module _ {S : Type 0} (P : Port S) where
  -- The new entry is written to its place.
  persist_resized : FatFileSystem S → DirectoryEntryLocation → DirectoryEntry → Resized S
  persist_resized fs location file =
      let (r, fs') = persist_directory_entry P fs location file in (r, file, fs')

  -- `self.fat.free_chain(cluster)?; self.persist_fat()?`
  free_and_persist : FatFileSystem S → ℕ → Option (Unit {0}) × FatFileSystem S
  free_and_persist fs cluster =
      let (r, f) = free_chain fs.fat cluster in
      elim r [ none ↦ (none, with_fat fs f) | some _ ↦ persist_fat P (with_fat fs f) ]

  -- `new_size == 0`
  unfoldable pub shrink_to_nothing :
      FatFileSystem S → DirectoryEntry → DirectoryEntryLocation → Resized S
  unfolding persist_resized free_and_persist get_cluster set_cluster
  shrink_to_nothing fs file location =
      let emptied = record (set_cluster file 0) { size = 0 } in
      if get_cluster file == 0
      then persist_resized fs location emptied
      else let (r, fs') = free_and_persist fs (get_cluster file) in
        elim r [ none ↦ (none, file, fs') | some _ ↦ persist_resized fs' location emptied ]

  unfoldable pub shrink_existing_file :
      FatFileSystem S → DirectoryEntry → DirectoryEntryLocation → ℕ → Resized S
  unfolding shrink_to_nothing persist_resized cut_chain get_cluster
  shrink_existing_file fs file location new_size =
      if new_size == 0
      then shrink_to_nothing fs file location
      else if get_cluster file == 0
      then (none, file, fs)
      else let clusters_to_keep = (new_size + cluster_size fs - 1) / cluster_size fs in
        elim (cluster_at fs (get_cluster file) (clusters_to_keep - 1)) [
          | none ↦ (none, file, fs)
          | some last_kept_cluster ↦
              let (r, f) = cut_chain fs.fat last_kept_cluster in
              elim r [
                | none ↦ (none, file, with_fat fs f)
                | some _ ↦
                    let (r', fs') = persist_fat P (with_fat fs f) in
                    elim r' [
                      | none ↦ (none, file, fs')
                      | some _ ↦
                          persist_resized fs' location (record file { size = new_size % 2 ^ 32 })
                    ]
              ]
        ]

  -- A growth that failed: nothing, and what `rollback_growth` leaves.
  undone : FatFileSystem S → DirectoryEntry → ℕ → ℕ → Option ℕ → Resized S
  undone fs file old_first_cluster old_cluster_count start =
      let (file', fs') = rollback_growth fs file old_first_cluster old_cluster_count start in
      (none, file', fs')

  unfoldable pub grow_existing_file :
      FatFileSystem S → DirectoryEntry → DirectoryEntryLocation → ℕ → ℕ → Resized S
  unfolding undone persist_resized get_cluster
  grow_existing_file fs file location old_size new_size =
      let old_count = clusters_for_size fs old_size in
      let (linked, file1, fs1) = link_growth fs file old_count (clusters_for_size fs new_size) in
      elim linked [
        | none ↦ (none, file1, fs1)
        | some start ↦
            let (zeroed, fs2) =
              zero_file_range P fs1 (get_cluster file1) old_size (new_size - old_size) in
            elim zeroed [
              | none ↦ undone fs2 file1 (get_cluster file) old_count start
              | some _ ↦
                  let (persisted, fs3) = persist_fat P fs2 in
                  elim persisted [
                    | none ↦ undone fs3 file1 (get_cluster file) old_count start
                    | some _ ↦
                        persist_resized fs3 location (record file1 { size = new_size % 2 ^ 32 })
                  ]
            ]
      ]

  unfoldable pub truncate_existing_file :
      FatFileSystem S → DirectoryEntry → DirectoryEntryLocation → ℕ → Resized S
  unfolding shrink_existing_file grow_existing_file
  truncate_existing_file fs file location new_size = elim (read_directory_entry P fs location) [
    | none ↦ (none, file, fs)
    | some entry ↦
        if not (entry.attributes == 32)
        then (none, entry, fs)
        else if leb (2 ^ 32) new_size
        then (none, entry, fs)
        else if new_size == entry.size
        then (some tt, entry, fs)
        else if ltb new_size entry.size
        then shrink_existing_file fs entry location new_size
        else grow_existing_file fs entry location entry.size new_size
  ]

-- ===== src/Fat/Directory/Allocate.antt =====
-- Room for new entries in a directory of src/fs/fat_fs.rs: a run of free slots, in new clusters where the
-- old ones have none, and the entries written there.
use bubble_os.Base.{
  ℕ, zero, suc, ◌+◌, ◌-◌, ◌*◌, ◌/◌, ◌%◌, ◌^◌, Bool, true, false, not, ◌||◌, Option, none, some,
  List, [], ◌∷◌, ◌++◌, ltb, leb, ◌==◌, if◌then◌else◌, length, get_elem?, take, splice,
}
use bubble_os.Fat.Table.{fat_cluster_eof, set, free_chain, allocate_chain}
use bubble_os.Fat.Entry.{DirectoryEntry, LongDirectoryEntry, is_end_marker, is_deleted}
use bubble_os.Fat.Entry.Bytes.{entry_size, entry_bytes, to_directory_entry}
use bubble_os.Fat.Volume.{
  FatFileSystem, Port, cluster_size, zeros, write_cluster, clear_cluster, persist_fat,
}
use bubble_os.Fat.Volume.Slots.{
  DirectoryEntryLocation, Slot, load_directory_slots, persist_directory_entry,
}
use bubble_os.Fat.Volume.Resize.{with_fat}
use bubble_os.Fat.Directory.{directory_entry, dot_name}

-- The loop over the slots: the run that is long enough, or the one at the end.
unfoldable pub find_run :
    ℕ → List Slot → List DirectoryEntryLocation → Bool → Bool × List DirectoryEntryLocation
find_run needed [] run past_end = (false, run)
find_run needed ((entry, location) ∷ slots) run past_end =
    let past_end' = past_end || is_end_marker entry in
    let run' = run ++ (location ∷ []) in
    let used = find_run needed slots [] past_end' in
    let more = find_run needed slots run' past_end' in
    if past_end' || is_deleted entry
    then (if length run' == needed then (true, run') else more)
    else used

-- `for index in 0..entries_per_cluster`, on the rounds left, until the run is long enough.
unfoldable pub extend_run :
    ℕ → ℕ → ℕ → ℕ → List DirectoryEntryLocation → List DirectoryEntryLocation
extend_run zero needed cluster index run = run
extend_run (suc left) needed cluster index run =
    let run' =
      run ++ (record { cluster = cluster; index = index; offset = index * entry_size } ∷ []) in
    let rest = extend_run left needed cluster (suc index) run' in
    if length run' == needed then run' else rest

module _ {S : Type 0} (P : Port S) where
  -- What `append_directory_cluster` does when the new cluster cannot be kept.
  unlink_cluster : FatFileSystem S → ℕ → ℕ → Option ℕ × FatFileSystem S
  unlink_cluster fs last_cluster new_cluster =
      let f = (set fs.fat last_cluster fat_cluster_eof).1 in
      (none, (persist_fat P (with_fat fs (free_chain f new_cluster).1)).1)

  -- `self.persist_fat().is_none() || !self.clear_cluster(new_cluster)`, turned round.
  persist_and_clear : FatFileSystem S → ℕ → Bool × FatFileSystem S
  persist_and_clear fs new_cluster =
      let (r, fs') = persist_fat P fs in
      elim r [ none ↦ (false, fs') | some _ ↦ clear_cluster P fs' new_cluster ]

  unfoldable pub append_directory_cluster : FatFileSystem S → ℕ → Option ℕ × FatFileSystem S
  unfolding unlink_cluster persist_and_clear
  append_directory_cluster fs last_cluster =
      let (r, f) = allocate_chain fs.fat 1 in
      elim r [
        | none ↦ (none, with_fat fs f)
        | some new_cluster ↦
            let (linked, f') = set f last_cluster (new_cluster % 2 ^ 32) in
            elim linked [
              | none ↦ (none, with_fat fs (free_chain f' new_cluster).1)
              | some _ ↦
                  let (kept, fs') = persist_and_clear (with_fat fs f') new_cluster in
                  if kept
                  then (some new_cluster, fs')
                  else unlink_cluster fs' last_cluster new_cluster
            ]
      ]

  -- `while run.len() < needed`, on fuel: as many rounds as slots are needed, since a cluster has one.
  unfoldable pub extend_directory :
      ℕ
      → FatFileSystem S
      → ℕ
      → ℕ
      → List DirectoryEntryLocation
      → Option (List DirectoryEntryLocation) × FatFileSystem S
  unfolding append_directory_cluster extend_run
  extend_directory zero fs needed last_cluster run =
      ((if ltb (length run) needed then none else some run), fs)
  extend_directory (suc fuel) fs needed last_cluster run =
      if leb needed (length run)
      then (some run, fs)
      else let (r, fs') = append_directory_cluster fs last_cluster in
        elim r [
          | none ↦ (none, fs')
          | some new_cluster ↦
              extend_directory fuel fs' needed new_cluster
                (extend_run (cluster_size fs / entry_size) needed new_cluster 0 run)
        ]

  unfoldable pub allocate_directory_slots :
      FatFileSystem S → ℕ → ℕ → Option (List DirectoryEntryLocation) × FatFileSystem S
  unfolding find_run extend_directory
  allocate_directory_slots fs dir_cluster needed = elim (load_directory_slots P fs dir_cluster) [
    | none ↦ (none, fs)
    | some (slots, last_cluster) ↦
        let (found, run) = find_run needed slots [] false in
        if found then (some run, fs) else extend_directory needed fs needed last_cluster run
  ]

  -- `lfn_entries.iter().zip(&locations)`
  unfoldable pub persist_long_entries :
      FatFileSystem S
      → List LongDirectoryEntry
      → List DirectoryEntryLocation
      → Option (Unit {0}) × FatFileSystem S
  unfolding to_directory_entry
  persist_long_entries fs [] locations = (some tt, fs)
  persist_long_entries fs (lfn ∷ lfns) [] = (some tt, fs)
  persist_long_entries fs (lfn ∷ lfns) (location ∷ locations) =
      let (r, fs') = persist_directory_entry P fs location (to_directory_entry lfn) in
      elim r [ none ↦ (none, fs') | some _ ↦ persist_long_entries fs' lfns locations ]

  unfoldable pub persist_new_entry :
      FatFileSystem S
      → ℕ
      → List LongDirectoryEntry
      → DirectoryEntry
      → Option (DirectoryEntryLocation × List DirectoryEntryLocation) × FatFileSystem S
  unfolding allocate_directory_slots persist_long_entries
  persist_new_entry fs dir_cluster lfn_entries entry =
      let (allocated, fs1) = allocate_directory_slots fs dir_cluster (length lfn_entries + 1) in
      elim allocated [
        | none ↦ (none, fs1)
        | some locations ↦
            let (r, fs2) = persist_long_entries fs1 lfn_entries locations in
            elim r [
              | none ↦ (none, fs2)
              | some _ ↦ elim (get_elem? locations (length locations - 1)) [
                | none ↦ (none, fs2)
                | some short_location ↦
                    let (r', fs3) = persist_directory_entry P fs2 short_location entry in
                    elim r' [
                      | none ↦ (none, fs3)
                      | some _ ↦ (some (short_location, take (length locations - 1) locations), fs3)
                    ]
              ]
            ]
      ]

  unfoldable pub initialize_directory_cluster : FatFileSystem S → ℕ → ℕ → Bool × FatFileSystem S
  unfolding entry_bytes directory_entry dot_name
  initialize_directory_cluster fs cluster parent_cluster =
      if not (P.alloc fs.port (cluster_size fs))
      then (false, fs)
      else (let dot = directory_entry (dot_name false) cluster in
          let dot_dot = directory_entry (dot_name true) parent_cluster in
          write_cluster P fs cluster (
            splice entry_size (entry_bytes dot_dot)
              (splice 0 (entry_bytes dot) (zeros (cluster_size fs)))))

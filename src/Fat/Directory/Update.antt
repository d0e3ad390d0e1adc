-- ===== src/Fat/Directory/Update.antt =====
-- What src/fs/fat_fs.rs does with a directory: `list_directory`, `create_file`, `create_directory`,
-- `unlink_file` and `remove_directory`.
use bubble_os.Base.{
  ℕ, ◌/◌, ◌%◌, ◌^◌, Bool, true, not, ◌&&◌, ◌||◌, Option, none, some, List, [], ◌∷◌, ◌==◌,
  if◌then◌else◌, ◌>>=◌, length,
}
use bubble_os.Path.{Str}
use bubble_os.Fat.Table.{free_chain, allocate_chain}
use bubble_os.Fat.Entry.{DirectoryEntry, is_directory, is_regular_file, mark_deleted, get_cluster}
use bubble_os.Fat.Name.{Unicode, get_filename_from_fat}
use bubble_os.Fat.Volume.{FatFileSystem, Port, persist_fat}
use bubble_os.Fat.Volume.Slots.{
  DirectoryEntryLocation, load_directory_slots, read_directory_entry, persist_directory_entry,
}
use bubble_os.Fat.Volume.Resize.{with_fat}
use bubble_os.Fat.Directory.{
  LongDirectoryEntry, LocatedDirectoryEntry, parse_directory_entries, find_parsed_entry,
  prepare_name_entries, blank_entry, directory_entry, is_dot_name,
}
use bubble_os.Fat.Directory.Allocate.{persist_new_entry, initialize_directory_cluster}

-- The name `root` as a short name.
abbrev pub root_name : List ℕ
root_name = 82 ∷ 79 ∷ 79 ∷ 84 ∷ 32 ∷ 32 ∷ 32 ∷ 32 ∷ 32 ∷ 32 ∷ 32 ∷ []

-- `(root_cluster >> 16) & 0xFFF` and `root_cluster & 0xFFFF`
unfoldable pub root : {S : Type 0} → FatFileSystem S → DirectoryEntry
root fs = record (blank_entry root_name 0x10) {
  first_cluster_high = fs.bs_32.root_cluster / 2 ^ 16 % 2 ^ 12;
  first_cluster_low = fs.bs_32.root_cluster % 2 ^ 16;
}

unfoldable pub directory_cluster : {S : Type 0} → FatFileSystem S → DirectoryEntry → ℕ
unfolding root get_cluster
directory_cluster fs dir =
    let cluster = get_cluster dir in if cluster == 0 then get_cluster (root fs) else cluster

abbrev pub all_dots : List LocatedDirectoryEntry → Bool
all_dots [] = true
all_dots (e ∷ parsed) = is_dot_name e.entry.name && all_dots parsed

-- The files and the subdirectories, in their order.
unfoldable pub sort_entries :
    List LocatedDirectoryEntry → List LocatedDirectoryEntry × List LocatedDirectoryEntry
unfolding is_directory is_regular_file
sort_entries [] = ([], [])
sort_entries (parsed ∷ rest) =
    let (files, subdirs) = sort_entries rest in
    if is_directory parsed.entry
    then (files, parsed ∷ subdirs)
    else if is_regular_file parsed.entry
    then (parsed ∷ files, subdirs)
    else (files, subdirs)

module _ {S : Type 0} (P : Port S) (unicode : Unicode) where
  -- `load_directory_slots` and `parse_directory_entries`, one after the other.
  parsed_entries : FatFileSystem S → ℕ → Option (List LocatedDirectoryEntry)
  parsed_entries fs cluster = elim (load_directory_slots P fs cluster) [
    | none ↦ none
    | some (slots, _) ↦ some (parse_directory_entries unicode slots)
  ]

  unfoldable pub list_directory :
      FatFileSystem S → DirectoryEntry → List LocatedDirectoryEntry × List LocatedDirectoryEntry
  unfolding parsed_entries directory_cluster sort_entries
  list_directory fs dir = elim (parsed_entries fs (directory_cluster fs dir)) [
    | none ↦ ([], [])
    | some parsed ↦ sort_entries parsed
  ]

  unfoldable pub find_entry_by_name :
      FatFileSystem S → DirectoryEntry → Str → Option LocatedDirectoryEntry
  unfolding parsed_entries directory_cluster
  find_entry_by_name fs dir name = do
    parsed ← parsed_entries fs (directory_cluster fs dir)
    find_parsed_entry unicode parsed name

  unfoldable pub directory_is_empty : FatFileSystem S → DirectoryEntry → Option Bool
  unfolding parsed_entries directory_cluster
  directory_is_empty fs dir = do
    parsed ← parsed_entries fs (directory_cluster fs dir)
    some (all_dots parsed)

  -- The name entries for a name that no entry of the directory has.
  new_name : FatFileSystem S → ℕ → Str → Option (List ℕ × List LongDirectoryEntry)
  unfolding parsed_entries
  new_name fs cluster name = do
    parsed ← parsed_entries fs cluster
    elim (find_parsed_entry unicode parsed name) [
      | some _ ↦ none
      | none ↦ prepare_name_entries unicode parsed name
    ]

  unfoldable pub create_file :
      FatFileSystem S → DirectoryEntry → Str → Option LocatedDirectoryEntry × FatFileSystem S
  unfolding new_name persist_new_entry directory_cluster
  create_file fs dir filename =
      let dir_cluster = directory_cluster fs dir in
      elim (new_name fs dir_cluster filename) [
        | none ↦ (none, fs)
        | some (short_name, lfn_entries) ↦
            let entry = blank_entry short_name 0x20 in
            let (r, fs') = persist_new_entry P fs dir_cluster lfn_entries entry in
            elim r [
              | none ↦ (none, fs')
              | some (location, lfn_locations) ↦ (
                some (record {
                  entry = entry;
                  location = location;
                  name =
                      if length lfn_entries == 0
                      then get_filename_from_fat unicode short_name
                      else filename;
                  lfn_locations = lfn_locations;
                }),
                fs',
              )
            ]
      ]

  unfoldable pub rollback_allocated_chain : FatFileSystem S → ℕ → FatFileSystem S
  rollback_allocated_chain fs cluster =
      (persist_fat P (with_fat fs (free_chain fs.fat cluster).1)).1

  -- The new directory's cluster is allocated: its entry is written, or the cluster is freed again.
  unfoldable pub create_in_cluster :
      FatFileSystem S
      → ℕ
      → List ℕ
      → List LongDirectoryEntry
      → ℕ
      → Option (Unit {0}) × FatFileSystem S
  unfolding initialize_directory_cluster rollback_allocated_chain persist_new_entry directory_entry
  create_in_cluster fs parent_cluster short_name lfn_entries cluster =
      let (filled, fs1) = initialize_directory_cluster P fs cluster parent_cluster in
      if not filled
      then (none, with_fat fs1 (free_chain fs1.fat cluster).1)
      else let (persisted, fs2) = persist_fat P fs1 in
        elim persisted [
          | none ↦ (none, rollback_allocated_chain fs2 cluster)
          | some _ ↦
              let (r, fs3) =
                persist_new_entry P fs2 parent_cluster lfn_entries
                  (directory_entry short_name cluster) in
              elim r [
                | none ↦ (none, rollback_allocated_chain fs3 cluster)
                | some _ ↦ (some tt, fs3)
              ]
        ]

  unfoldable pub create_directory :
      FatFileSystem S → DirectoryEntry → Str → Option (Unit {0}) × FatFileSystem S
  unfolding new_name create_in_cluster directory_cluster
  create_directory fs parent name =
      let parent_cluster = directory_cluster fs parent in
      elim (new_name fs parent_cluster name) [
        | none ↦ (none, fs)
        | some (short_name, lfn_entries) ↦
            let (r, f) = allocate_chain fs.fat 1 in
            elim r [
              | none ↦ (none, with_fat fs f)
              | some cluster ↦
                  create_in_cluster (with_fat fs f) parent_cluster short_name lfn_entries cluster
            ]
      ]

  -- `for lfn_location in &located.lfn_locations`
  unfoldable pub delete_long_entries :
      FatFileSystem S → List DirectoryEntryLocation → Option (Unit {0}) × FatFileSystem S
  unfolding mark_deleted
  delete_long_entries fs [] = (some tt, fs)
  delete_long_entries fs (location ∷ locations) = elim (read_directory_entry P fs location) [
    | none ↦ (none, fs)
    | some lfn_entry ↦
        let (r, fs') = persist_directory_entry P fs location (mark_deleted lfn_entry) in
        elim r [ none ↦ (none, fs') | some _ ↦ delete_long_entries fs' locations ]
  ]

  -- The entry is marked on the disk: its clusters are freed. A table that cannot be written is no error.
  free_deleted : FatFileSystem S → ℕ → Option (Unit {0}) × FatFileSystem S
  free_deleted fs first_cluster =
      if first_cluster == 0
      then (some tt, fs)
      else let (r, f) = free_chain fs.fat first_cluster in
        elim r [
          | none ↦ (none, with_fat fs f)
          | some _ ↦ (some tt, (persist_fat P (with_fat fs f)).1)
        ]

  unfoldable pub delete_directory_entry :
      FatFileSystem S → LocatedDirectoryEntry → Option (Unit {0}) × FatFileSystem S
  unfolding delete_long_entries free_deleted mark_deleted get_cluster
  delete_directory_entry fs located =
      let (r, fs1) = delete_long_entries fs located.lfn_locations in
      elim r [
        | none ↦ (none, fs1)
        | some _ ↦
            let (r', fs2) =
              persist_directory_entry P fs1 located.location (mark_deleted located.entry) in
            elim r' [ none ↦ (none, fs2) | some _ ↦ free_deleted fs2 (get_cluster located.entry) ]
      ]

  unfoldable pub unlink_file :
      FatFileSystem S → DirectoryEntry → Str → Option (Unit {0}) × FatFileSystem S
  unfolding find_entry_by_name delete_directory_entry is_regular_file
  unlink_file fs parent name = elim (find_entry_by_name fs parent name) [
    | none ↦ (none, fs)
    | some file ↦
        if not (is_regular_file file.entry) then (none, fs) else delete_directory_entry fs file
  ]

  unfoldable pub remove_directory :
      FatFileSystem S → DirectoryEntry → Str → Option (Unit {0}) × FatFileSystem S
  unfolding find_entry_by_name delete_directory_entry directory_is_empty is_directory get_cluster
  remove_directory fs parent name = elim (find_entry_by_name fs parent name) [
    | none ↦ (none, fs)
    | some directory ↦
        if not (is_directory directory.entry)
          || get_cluster directory.entry == 0
          || is_dot_name directory.entry.name
        then (none, fs)
        else elim (directory_is_empty fs directory.entry) [
          | none ↦ (none, fs)
          | some empty ↦ if not empty then (none, fs) else delete_directory_entry fs directory
        ]
  ]

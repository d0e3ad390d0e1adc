-- ===== src/Fat/Directory.antt =====
-- The directories of src/fs/fat_fs.rs: their slots decoded into entries with names, the search for a name,
-- and the entries that a new name takes.
pub mod Allocate
pub mod Update
pub mod Handle
pub mod LongSlots
pub mod LongSteps
pub mod Chunks
pub mod Names
pub mod Parsing
mod Tests
use bubble_os.Base.{
  ℕ, zero, suc, ◌+◌, ◌-◌, ◌*◌, ◌/◌, ◌%◌, min, Bool, true, false, not, ◌&&◌, ◌||◌, Option, none,
  some, List, [], ◌∷◌, ◌++◌, map, leb, ◌==◌, if◌then◌else◌, ◌>>=◌, ◌>>◌, length, take, drop,
}
use bubble_os.Path.{Str, str_eq, eq_ignore_ascii_case, dot}
use bubble_os.Fat.Entry.{
  DirectoryEntry, LongDirectoryEntry, is_end_marker, is_deleted, is_long_filename, is_volume_label,
  sequence, is_last, name_units, lfn_checksum, lfn_units_per_entry, new_long_entry, set_cluster,
}
use bubble_os.Fat.Entry.Bytes.{from_directory_entry}
use bubble_os.Fat.Name.{
  Unicode, space, lfn_max_entries, decode_long_filename, encode_long_filename, generate_short_alias,
  get_fat_filename, get_filename_from_fat, spaces,
}
use bubble_os.Fat.Volume.Slots.{DirectoryEntryLocation, Slot}

pub record LocatedDirectoryEntry : Type 0 where
  pub entry : DirectoryEntry
  pub location : DirectoryEntryLocation
  pub name : Str
  pub lfn_locations : List DirectoryEntryLocation

-- The variables of the loop of `parse_directory_entries`. The chunks stand with the latest first, which is
-- the order in which their units make the name.
pub record LfnState : Type 0 where
  pub chunks : List (List ℕ)
  pub locations : List DirectoryEntryLocation
  pub expected_sequence : ℕ
  pub checksum : ℕ

abbrev pub cleared : LfnState → LfnState
cleared st = record st { chunks = []; locations = []; expected_sequence = 0 }

abbrev pub start_state : LfnState
start_state = record { chunks = []; locations = []; expected_sequence = 0; checksum = 0 }

-- The first part of a round on a long filename entry: the last chunk of a name begins a new chain.
abbrev pub begun : LfnState → LongDirectoryEntry → LfnState
begun st lfn =
    if is_last lfn
    then record {
      chunks = [];
      locations = [];
      expected_sequence =
          if leb 1 (sequence lfn) && leb (sequence lfn) lfn_max_entries then sequence lfn else 0;
      checksum = lfn.checksum;
    }
    else st

unfoldable pub lfn_step : LfnState → LongDirectoryEntry → DirectoryEntryLocation → LfnState
unfolding is_last sequence name_units
lfn_step st lfn location =
    let st1 = begun st lfn in
    if st1.expected_sequence == 0
      || not (sequence lfn == st1.expected_sequence)
      || not (lfn.checksum == st1.checksum)
    then cleared st1
    else record st1 {
      chunks = name_units lfn ∷ st1.chunks;
      locations = st1.locations ++ (location ∷ []);
      expected_sequence = st1.expected_sequence - 1;
    }

abbrev pub concat : List (List ℕ) → List ℕ
concat [] = []
concat (c ∷ cs) = c ++ concat cs

abbrev pub no_chunks : List (List ℕ) → Bool
no_chunks [] = true
no_chunks (c ∷ cs) = false

unfoldable pub long_name : LfnState → List ℕ → Option Str
unfolding lfn_checksum
long_name st short_name =
    if st.expected_sequence == 0
      && not (no_chunks st.chunks)
      && st.checksum == lfn_checksum short_name
    then decode_long_filename (concat st.chunks)
    else none

-- `for chunk_index in (0..chunk_count).rev()`, with one more than the next index.
unfoldable pub name_entries : ℕ → ℕ → ℕ → List ℕ → List LongDirectoryEntry
unfolding new_long_entry
name_entries zero chunk_count checksum units = []
name_entries (suc chunk_index) chunk_count checksum units =
    let start = chunk_index * lfn_units_per_entry in
    let end = min (start + lfn_units_per_entry) (length units) in
    new_long_entry ((chunk_index + 1) % 256) (chunk_index == chunk_count - 1) checksum
      (take (end - start) (drop start units))
    ∷ name_entries chunk_index chunk_count checksum units

module _ (unicode : Unicode) where
  unfoldable pub located :
      LfnState → DirectoryEntry → DirectoryEntryLocation → LocatedDirectoryEntry
  unfolding long_name
  located st entry location = elim (long_name st entry.name) [
    | some n ↦ record { entry = entry; location = location; name = n; lfn_locations = st.locations }
    | none ↦ record {
      entry = entry;
      location = location;
      name = get_filename_from_fat unicode entry.name;
      lfn_locations = [];
    }
  ]

  unfoldable pub parse_loop : LfnState → List Slot → List LocatedDirectoryEntry
  unfolding lfn_step located
  parse_loop st [] = []
  parse_loop st ((entry, location) ∷ slots) =
      let skipped = parse_loop (cleared st) slots in
      if is_end_marker entry
      then []
      else if is_deleted entry
      then skipped
      else if is_long_filename entry
      then parse_loop (lfn_step st (from_directory_entry entry) location) slots
      else if is_volume_label entry
      then skipped
      else located st entry location ∷ skipped

  unfoldable pub parse_directory_entries : List Slot → List LocatedDirectoryEntry
  unfolding parse_loop
  parse_directory_entries slots = parse_loop start_state slots

  unfoldable pub find_parsed_entry : List LocatedDirectoryEntry → Str → Option LocatedDirectoryEntry
  find_parsed_entry [] name = none
  find_parsed_entry (candidate ∷ parsed) name =
      let rest = find_parsed_entry parsed name in
      if eq_ignore_ascii_case candidate.name name
        || eq_ignore_ascii_case (get_filename_from_fat unicode candidate.entry.name) name
      then some candidate
      else rest

  unfoldable pub prepare_name_entries :
      List LocatedDirectoryEntry → Str → Option (List ℕ × List LongDirectoryEntry)
  unfolding lfn_checksum name_entries
  prepare_name_entries parsed filename = elim (get_fat_filename unicode filename) [
    | some short_name ↦ some (short_name, [])
    | none ↦ do
      units ← encode_long_filename filename
      short_name ← generate_short_alias filename (map (λ e. e.entry.name) parsed)
      let chunk_count = (length units + lfn_units_per_entry - 1) / lfn_units_per_entry
      some (short_name, name_entries chunk_count chunk_count (lfn_checksum short_name) units)
  ]

-- A new entry with that name and those attributes, and nothing else.
abbrev pub blank_entry : List ℕ → ℕ → DirectoryEntry
blank_entry name attributes = record {
  name = name;
  attributes = attributes;
  reserved = 0;
  creation_time_centiseconds = 0;
  creation_time = 0;
  creation_date = 0;
  last_accessed_date = 0;
  first_cluster_high = 0;
  modified_time = 0;
  modified_date = 0;
  first_cluster_low = 0;
  size = 0;
}

unfoldable pub directory_entry : List ℕ → ℕ → DirectoryEntry
unfolding set_cluster
directory_entry name cluster = set_cluster (blank_entry name 0x10) cluster

unfoldable pub dot_name : Bool → List ℕ
dot_name parent = dot ∷ (if parent then dot else space) ∷ spaces 9

unfoldable pub is_dot_name : List ℕ → Bool
unfolding dot_name
is_dot_name name = str_eq name (dot_name false) || str_eq name (dot_name true)

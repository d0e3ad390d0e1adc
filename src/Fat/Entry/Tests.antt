-- ===== src/Fat/Entry/Tests.antt =====
-- Entries with some names.
use bubble_os.Base.{◌≡◌, refl, true, [], ◌∷◌, arith}
use bubble_os.Fat.Entry.{
  DirectoryEntry, is_end_marker, is_deleted, is_long_filename, is_volume_label, is_normal_entry,
  is_directory, is_regular_file, new_long_entry, sequence, is_last, name_units, lfn_checksum_from,
  lfn_checksum, before_terminator,
}
use bubble_os.Fat.Entry.Units.{new_long_entry_lem}

-- The file `A.B`.
abbrev file : DirectoryEntry
file = record {
  name = 65 ∷ 32 ∷ 32 ∷ 32 ∷ 32 ∷ 32 ∷ 32 ∷ 32 ∷ 66 ∷ 32 ∷ 32 ∷ [];
  attributes = 0x20;
  reserved = 0;
  creation_time_centiseconds = 0;
  creation_time = 0;
  creation_date = 0;
  last_accessed_date = 0;
  first_cluster_high = 0;
  modified_time = 0;
  modified_date = 0;
  first_cluster_low = 2;
  size = 5;
}

file_is_regular : is_regular_file file ≡ true
unfolding is_regular_file is_directory is_normal_entry is_end_marker is_deleted is_long_filename
    is_volume_label
file_is_regular = refl

checksum_of_file : lfn_checksum file.name ≡ 8
unfolding lfn_checksum lfn_checksum_from
checksum_of_file = refl

new_long_entry_lem_example :
    let e = new_long_entry 2 true 8 (97 ∷ 8364 ∷ []) in
    (before_terminator (name_units e) ≡ 97 ∷ 8364 ∷ []) × (sequence e ≡ 2) × (is_last e ≡ true)
new_long_entry_lem_example =
    new_long_entry_lem 2 true 8 (97 ∷ 8364 ∷ []) (omega arith) (omega arith) (
      (λ q. absurd (omega (arith, q))),
      omega arith,
      ((λ q. absurd (omega (arith, q))), omega arith, tt),
    )

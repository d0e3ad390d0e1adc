-- ===== src/Fat/Directory/Tests.antt =====
-- The names of a directory tried on `a long name.txt`.
use bubble_os.Base.{
  ℕ, ◌*◌, ◌≡◌, refl, true, none, some, List, [], ◌∷◌, ◌++◌, map, arith, ◌==◌, length,
}
use bubble_os.Path.{to_ascii_lowercase, Str}
use bubble_os.Fat.Entry.{
  lfn_checksum, is_normal_entry, is_end_marker, is_deleted, is_long_filename, is_volume_label,
}
use bubble_os.Fat.Name.{
  encode_long_filename, generate_short_alias, Unicode, get_fat_filename, to_ascii_uppercase,
  encode_utf16,
}
use bubble_os.Fat.Volume.Slots.{DirectoryEntryLocation}
use bubble_os.Fat.Directory.{
  is_volume_label, is_long_filename, is_deleted, is_end_marker, generate_short_alias,
  encode_long_filename, LongDirectoryEntry, blank_entry, name_entries, prepare_name_entries,
  parse_directory_entries,
}
use bubble_os.Fat.Directory.Chunks.{long_slots}
use bubble_os.Fat.Directory.Names.{parse_directory_entries-prepare_name_entries}
use bubble_os.Fat.Name.Utf16.{IsText}

abbrev ascii : Unicode
ascii = record {
  to_uppercase = map to_ascii_uppercase;
  to_lowercase = map to_ascii_lowercase;
  is_whitespace = λ c. c == 32;
  from_utf8 = λ bytes. some bytes;
}

abbrev test_name : Str
test_name = 97 ∷ 32 ∷ 108 ∷ 111 ∷ 110 ∷ 103 ∷ 32 ∷ 110 ∷ 97 ∷ 109 ∷ 101 ∷ 46 ∷ 116 ∷ 120 ∷ 116 ∷ []

-- `ALONGN~1.TXT`
abbrev test_short : List ℕ
test_short = 65 ∷ 76 ∷ 79 ∷ 78 ∷ 71 ∷ 78 ∷ 126 ∷ 49 ∷ 84 ∷ 88 ∷ 84 ∷ []

abbrev test_entries : List LongDirectoryEntry
test_entries = name_entries 2 2 (lfn_checksum test_short) (encode_utf16 test_name)

abbrev test_place : ℕ → DirectoryEntryLocation
test_place i = record { cluster = 4; index = i; offset = i * 32 }

test_name-not_short : get_fat_filename ascii test_name ≡ none
unfolding get_fat_filename
test_name-not_short = refl

test_name-prepared : prepare_name_entries ascii [] test_name ≡ some (test_short, test_entries)
unfolding prepare_name_entries get_fat_filename encode_long_filename generate_short_alias
    name_entries encode_utf16
test_name-prepared = refl

test_name-IsText : IsText test_name
test_name-IsText = ground arith

test_short-normal : is_normal_entry (blank_entry test_short 0x20) ≡ true
unfolding is_normal_entry is_end_marker is_deleted is_long_filename is_volume_label
test_short-normal = refl

two_entries : length (test_place 0 ∷ test_place 1 ∷ []) ≡ length test_entries
unfolding name_entries
two_entries = refl

parse_directory_entries-prepare_name_entries_example :
    parse_directory_entries ascii (
      long_slots test_entries (test_place 0 ∷ test_place 1 ∷ [])
      ++ ((blank_entry test_short 0x20, test_place 2) ∷ []))
    ≡ record {
      entry = blank_entry test_short 0x20;
      location = test_place 2;
      name = test_name;
      lfn_locations = test_place 0 ∷ test_place 1 ∷ [];
    }
      ∷ parse_directory_entries ascii []
parse_directory_entries-prepare_name_entries_example =
    parse_directory_entries-prepare_name_entries ascii [] test_name test_short test_entries
      (blank_entry test_short 0x20) (test_place 2) (test_place 0 ∷ test_place 1 ∷ []) []
      test_name-IsText test_name-not_short test_name-prepared refl test_short-normal two_entries

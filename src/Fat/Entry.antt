-- ===== src/Fat/Entry.antt =====
-- src/fs/fat.rs: directory entries and long filename entries. A byte is a number below 256, a UTF-16 unit
-- one below 65536, an array of them a list; masks are written as divisions and remainders.
pub mod Units
pub mod Bytes
mod Tests
use bubble_os.Base.{
  ℕ, zero, suc, ◌+◌, ◌-◌, ◌*◌, ◌/◌, ◌%◌, ◌^◌, Bool, not, ◌&&◌, List, [], ◌∷◌, ◌++◌, ◌==◌,
  if◌then◌else◌, set, take, drop,
}

pub record DirectoryEntry : Type 0 where
  pub name : List ℕ
  pub attributes : ℕ
  pub reserved : ℕ
  pub creation_time_centiseconds : ℕ
  pub creation_time : ℕ
  pub creation_date : ℕ
  pub last_accessed_date : ℕ
  pub first_cluster_high : ℕ
  pub modified_time : ℕ
  pub modified_date : ℕ
  pub first_cluster_low : ℕ
  pub size : ℕ

-- `self.name[0]`; the array has 11 bytes.
abbrev pub first_byte : List ℕ → ℕ
first_byte [] = 0
first_byte (b ∷ bs) = b

unfoldable pub is_end_marker : DirectoryEntry → Bool
is_end_marker e = first_byte e.name == 0x00

unfoldable pub is_deleted : DirectoryEntry → Bool
is_deleted e = first_byte e.name == 0xE5

unfoldable pub mark_deleted : DirectoryEntry → DirectoryEntry
mark_deleted e = record e { name = set e.name 0 0xE5 }

-- `attributes & 0x3F == 0x0F`, `attributes & 0x08 != 0` and `attributes & 0x10 != 0`.
unfoldable pub is_long_filename : DirectoryEntry → Bool
is_long_filename e = e.attributes % 64 == 0x0F

unfoldable pub is_volume_label : DirectoryEntry → Bool
is_volume_label e = e.attributes / 8 % 2 == 1

unfoldable pub is_normal_entry : DirectoryEntry → Bool
is_normal_entry e =
    not (is_end_marker e)
    && not (is_deleted e)
    && not (is_long_filename e)
    && not (is_volume_label e)

unfoldable pub is_directory : DirectoryEntry → Bool
is_directory e = is_normal_entry e && e.attributes / 16 % 2 == 1

unfoldable pub is_regular_file : DirectoryEntry → Bool
is_regular_file e = is_normal_entry e && not (is_directory e)

-- The two halves have 16 bits each, so that their union is their sum.
unfoldable pub get_cluster : DirectoryEntry → ℕ
get_cluster e = e.first_cluster_high * 2 ^ 16 + e.first_cluster_low

unfoldable pub set_cluster : DirectoryEntry → ℕ → DirectoryEntry
set_cluster e cluster = record e {
  first_cluster_high = cluster / 2 ^ 16 % 2 ^ 16;
  first_cluster_low = cluster % 2 ^ 16;
}

pub record LongDirectoryEntry : Type 0 where
  pub order : ℕ
  pub name1 : List ℕ
  pub attributes : ℕ
  pub entry_type : ℕ
  pub checksum : ℕ
  pub name2 : List ℕ
  pub first_cluster_low : ℕ
  pub name3 : List ℕ

abbrev pub lfn_units_per_entry : ℕ
lfn_units_per_entry = 13

abbrev pub filling : ℕ → List ℕ
filling zero = []
filling (suc n) = 0xFFFF ∷ filling n

-- The units, a terminator if there is room for it, and filling, `left` in all.
unfoldable pub padded : ℕ → List ℕ → List ℕ
padded zero units = []
padded (suc left) (unit ∷ units) = unit ∷ padded left units
padded (suc left) [] = 0 ∷ filling left

abbrev pub to_le_bytes : List ℕ → List ℕ
to_le_bytes [] = []
to_le_bytes (unit ∷ units) = unit % 256 ∷ unit / 256 ∷ to_le_bytes units

abbrev pub from_le_bytes : List ℕ → List ℕ
from_le_bytes [] = []
from_le_bytes (b ∷ []) = []
from_le_bytes (b ∷ c ∷ bytes) = (b + c * 256) ∷ from_le_bytes bytes

-- `sequence | LFN_LAST_ENTRY_FLAG`
abbrev pub with_last_flag : ℕ → ℕ
with_last_flag sequence = if sequence / 64 % 2 == 1 then sequence else sequence + 64

unfoldable pub new_long_entry : ℕ → Bool → ℕ → List ℕ → LongDirectoryEntry
new_long_entry sequence last checksum units =
    let p = padded lfn_units_per_entry units in
    record {
      order = if last then with_last_flag sequence else sequence;
      name1 = to_le_bytes (take 5 p);
      attributes = 0x0F;
      entry_type = 0;
      checksum = checksum;
      name2 = to_le_bytes (take 6 (drop 5 p));
      first_cluster_low = 0;
      name3 = to_le_bytes (take 2 (drop 11 p));
    }

-- `order & LFN_SEQUENCE_MASK` and `order & LFN_LAST_ENTRY_FLAG != 0`.
unfoldable pub sequence : LongDirectoryEntry → ℕ
sequence e = e.order % 64

unfoldable pub is_last : LongDirectoryEntry → Bool
is_last e = e.order / 64 % 2 == 1

unfoldable pub name_units : LongDirectoryEntry → List ℕ
name_units e = from_le_bytes e.name1 ++ (from_le_bytes e.name2 ++ from_le_bytes e.name3)

-- `sum.rotate_right(1).wrapping_add(*byte)` along the bytes.
unfoldable pub lfn_checksum_from : ℕ → List ℕ → ℕ
lfn_checksum_from sum [] = sum
lfn_checksum_from sum (byte ∷ bytes) =
    lfn_checksum_from ((sum / 2 + sum % 2 * 128 + byte) % 256) bytes

unfoldable pub lfn_checksum : List ℕ → ℕ
lfn_checksum short_name = lfn_checksum_from 0 short_name

-- The units before the first terminator, of which `decode_long_filename` makes the name.
unfoldable pub before_terminator : List ℕ → List ℕ
before_terminator [] = []
before_terminator (unit ∷ units) =
    let rest = before_terminator units in if unit == 0 then [] else unit ∷ rest

-- ===== src/Fat/Entry/Bytes.antt =====
-- The packed layouts of src/fs/fat.rs: the 32 bytes of a directory entry on the disk, which a long filename
-- entry shares. A `transmute_copy` between the two goes over those bytes.
use bubble_os.Base.{
  ℕ, suc, ◌+◌, ◌*◌, ◌/◌, ◌%◌, ◌^◌, ◌<◌, ◌≡◌, refl, none, some, List, [], ◌∷◌, ◌++◌, arith, length,
  get_elem?, take, drop, length-append, take-append, drop-append,
}
use bubble_os.Fat.Entry.{DirectoryEntry, LongDirectoryEntry}

-- `size_of::<DirectoryEntry>()`
abbrev pub entry_size : ℕ
entry_size = 32

-- A field of 16 and of 32 bits, with its least significant byte first.
abbrev pub le16 : ℕ → List ℕ
le16 n = n % 256 ∷ n / 256 % 256 ∷ []

abbrev pub le32 : ℕ → List ℕ
le32 n = n % 256 ∷ n / 256 % 256 ∷ n / 65536 % 256 ∷ n / 16777216 % 256 ∷ []

abbrev pub byte_at : List ℕ → ℕ → ℕ
byte_at bytes i = elim (get_elem? bytes i) [ some b ↦ b | none ↦ 0 ]

abbrev pub u16_at : List ℕ → ℕ → ℕ
u16_at bytes i = byte_at bytes i + byte_at bytes (suc i) * 256

abbrev pub u32_at : List ℕ → ℕ → ℕ
u32_at bytes i = u16_at bytes i + u16_at bytes (suc (suc i)) * 65536

abbrev pub entry_tail : DirectoryEntry → List ℕ
entry_tail e =
    e.attributes
    ∷ e.reserved
    ∷ e.creation_time_centiseconds
    ∷ (le16 e.creation_time
        ++ (le16 e.creation_date
            ++ (le16 e.last_accessed_date
                ++ (le16 e.first_cluster_high
                    ++ (le16 e.modified_time
                        ++ (le16 e.modified_date ++ (le16 e.first_cluster_low ++ le32 e.size)))))))

unfoldable pub entry_bytes : DirectoryEntry → List ℕ
entry_bytes e = e.name ++ entry_tail e

-- The entry whose bytes begin with the name and go on with `tail`.
abbrev pub entry_from : List ℕ → List ℕ → DirectoryEntry
entry_from name tail = record {
  name = name;
  attributes = byte_at tail 0;
  reserved = byte_at tail 1;
  creation_time_centiseconds = byte_at tail 2;
  creation_time = u16_at tail 3;
  creation_date = u16_at tail 5;
  last_accessed_date = u16_at tail 7;
  first_cluster_high = u16_at tail 9;
  modified_time = u16_at tail 11;
  modified_date = u16_at tail 13;
  first_cluster_low = u16_at tail 15;
  size = u32_at tail 17;
}

unfoldable pub entry_of_bytes : List ℕ → DirectoryEntry
entry_of_bytes bytes = entry_from (take 11 bytes) (drop 11 bytes)

unfoldable pub long_entry_bytes : LongDirectoryEntry → List ℕ
long_entry_bytes e =
    e.order
    ∷ (e.name1
        ++ (e.attributes
            ∷ e.entry_type
            ∷ e.checksum
            ∷ (e.name2 ++ (le16 e.first_cluster_low ++ e.name3))))

unfoldable pub long_entry_of_bytes : List ℕ → LongDirectoryEntry
long_entry_of_bytes bytes = record {
  order = byte_at bytes 0;
  name1 = take 10 (drop 1 bytes);
  attributes = byte_at bytes 11;
  entry_type = byte_at bytes 12;
  checksum = byte_at bytes 13;
  name2 = take 12 (drop 14 bytes);
  first_cluster_low = u16_at bytes 26;
  name3 = take 4 (drop 28 bytes);
}

unfoldable pub from_directory_entry : DirectoryEntry → LongDirectoryEntry
unfolding entry_bytes long_entry_of_bytes
from_directory_entry e = long_entry_of_bytes (entry_bytes e)

unfoldable pub to_directory_entry : LongDirectoryEntry → DirectoryEntry
unfolding long_entry_bytes entry_of_bytes
to_directory_entry e = entry_of_bytes (long_entry_bytes e)

-- The array and the fields have the widths that the layout gives them.
abbrev pub EntryIsValid : DirectoryEntry → Type 0
EntryIsValid e =
    (length e.name ≡ 11)
    × (e.creation_time < 2 ^ 16)
    × (e.creation_date < 2 ^ 16)
    × (e.last_accessed_date < 2 ^ 16)
    × (e.first_cluster_high < 2 ^ 16)
    × (e.modified_time < 2 ^ 16)
    × (e.modified_date < 2 ^ 16)
    × (e.first_cluster_low < 2 ^ 16)
    × (e.size < 2 ^ 32)

pub length-entry_bytes : (e : DirectoryEntry) → length e.name ≡ 11 → length (entry_bytes e) ≡ 32
unfolding entry_bytes
length-entry_bytes e h = omega (arith, h, length-append e.name (entry_tail e))

u16_at-le16 : (n : ℕ) → n < 2 ^ 16 → n % 256 + n / 256 % 256 * 256 ≡ n
u16_at-le16 n h = omega arith

u32_at-le32 :
    (n : ℕ)
    → n < 2 ^ 32
    → n % 256 + n / 256 % 256 * 256 + (n / 65536 % 256 + n / 16777216 % 256 * 256) * 65536 ≡ n
u32_at-le32 n h = omega arith

entry_from-entry_tail : (e : DirectoryEntry) → EntryIsValid e → entry_from e.name (entry_tail e) ≡ e
entry_from-entry_tail e (l, a, b, c, d, f, g, h, s) =
    rw
      (
        u16_at-le16 e.creation_time a,
        u16_at-le16 e.creation_date b,
        u16_at-le16 e.last_accessed_date c,
        u16_at-le16 e.first_cluster_high d,
        u16_at-le16 e.modified_time f,
        u16_at-le16 e.modified_date g,
        u16_at-le16 e.first_cluster_low h,
        u32_at-le32 e.size s,
      )
      refl

-- An entry whose name has 11 bytes and whose fields fit their widths is what its 32 bytes are read as.
pub entry_of_bytes-entry_bytes :
    (e : DirectoryEntry) → EntryIsValid e → entry_of_bytes (entry_bytes e) ≡ e
unfolding entry_of_bytes entry_bytes
entry_of_bytes-entry_bytes e h =
    rw (take-append 11 e.name (entry_tail e) h.0, drop-append 11 e.name (entry_tail e) h.0)
      (entry_from-entry_tail e h)

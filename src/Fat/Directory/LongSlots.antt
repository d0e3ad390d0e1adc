-- ===== src/Fat/Directory/LongSlots.antt =====
-- A long filename entry of src/fs/fat.rs stored as a directory entry, and what the loop of
-- `parse_directory_entries` does with it.
use bubble_os.Base.{
  ℕ, zero, suc, ◌+◌, ◌*◌, ◌/◌, ◌%◌, ◌≤◌, ◌<◌, ◌≡◌, refl, sym, ap, subst, ◌∙◌, Bool, true, false,
  List, [], ◌∷◌, arith, ◌==◌, if◌then◌else◌, length, take, drop,
}
use bubble_os.Fat.Entry.{
  with_last_flag, padded, new_long_entry, LongDirectoryEntry, is_end_marker, is_deleted,
  is_long_filename, to_le_bytes,
}
use bubble_os.Fat.Entry.Units.{padded-Wide, length-padded, IsUnits, Wide}
use bubble_os.Fat.Entry.Bytes.{
  byte_at, entry_bytes, entry_of_bytes, long_entry_bytes, long_entry_of_bytes, from_directory_entry,
  to_directory_entry,
}
use bubble_os.Fat.Directory.{
  located, is_volume_label, cleared, lfn_step, Slot, parse_loop, LfnState,
}
use bubble_os.Fat.Name.{Unicode}
use bubble_os.Fat.Volume.Slots.{DirectoryEntryLocation}

-- A list is the table of its elements.
abbrev tabulate : (ℕ → ℕ) → ℕ → List ℕ
tabulate f zero = []
tabulate f (suc n) = f 0 ∷ tabulate (λ i. f (suc i)) n

tabulate_lem : (xs : List ℕ) → tabulate (byte_at xs) (length xs) ≡ xs
tabulate_lem [] = refl
tabulate_lem (x ∷ xs) = ap (◌∷◌ x) (tabulate_lem xs)

byte_at-Wide : (xs : List ℕ) → Wide xs → (i : ℕ) → byte_at xs i < 65536
byte_at-Wide [] h i = omega arith
byte_at-Wide (x ∷ xs) h zero = h.0
byte_at-Wide (x ∷ xs) h (suc i) = byte_at-Wide xs h.1 i

-- The entry with that order byte, that checksum and those thirteen units.
abbrev long_of : ℕ → ℕ → List ℕ → LongDirectoryEntry
long_of order checksum p = record {
  order = order;
  name1 = to_le_bytes (take 5 p);
  attributes = 0x0F;
  entry_type = 0;
  checksum = checksum;
  name2 = to_le_bytes (take 6 (drop 5 p));
  first_cluster_low = 0;
  name3 = to_le_bytes (take 2 (drop 11 p));
}

low_byte : (u : ℕ) → u < 65536 → (u % 256 + u / 256 * 256) % 256 ≡ u % 256
low_byte u h = omega arith

high_byte : (u : ℕ) → u < 65536 → (u % 256 + u / 256 * 256) / 256 % 256 ≡ u / 256
high_byte u h = omega arith

abbrev wide_field : ℕ → ℕ → ℕ
wide_field u v = u % 256 + u / 256 * 256 + (v % 256 + v / 256 * 256) * 65536

wide_bytes :
    (u v : ℕ)
    → u < 65536
    → v < 65536
    → (wide_field u v % 256 ≡ u % 256)
      × (wide_field u v / 256 % 256 ≡ u / 256)
      × (wide_field u v / 65536 % 256 ≡ v % 256)
      × (wide_field u v / 16777216 % 256 ≡ v / 256)
wide_bytes u v h l = (omega arith, omega arith, omega arith, omega arith)

table_stored :
    (order checksum : ℕ) (f : ℕ → ℕ)
    → ((i : ℕ) → f i < 65536)
    → let e = long_of order checksum (tabulate f 13) in
      from_directory_entry (to_directory_entry e) ≡ e
unfolding from_directory_entry to_directory_entry entry_bytes entry_of_bytes long_entry_bytes
    long_entry_of_bytes
table_stored order checksum f h =
    let w = wide_bytes (f 11) (f 12) (h 11) (h 12) in
    rw
      (
        low_byte (f 5) (h 5),
        high_byte (f 5) (h 5),
        low_byte (f 6) (h 6),
        high_byte (f 6) (h 6),
        low_byte (f 7) (h 7),
        high_byte (f 7) (h 7),
        low_byte (f 8) (h 8),
        high_byte (f 8) (h 8),
        low_byte (f 9) (h 9),
        high_byte (f 9) (h 9),
        low_byte (f 10) (h 10),
        high_byte (f 10) (h 10),
        w.0,
        w.1,
        w.2,
        w.3,
      )
      refl

-- What a stored entry is at first sight.
table_kind :
    (order checksum : ℕ) (f : ℕ → ℕ)
    → let d = to_directory_entry (long_of order checksum (tabulate f 13)) in
      (is_long_filename d ≡ true)
      × (is_end_marker d ≡ (order == 0))
      × (is_deleted d ≡ (order == 0xE5))
unfolding to_directory_entry entry_of_bytes long_entry_bytes is_long_filename is_end_marker
    is_deleted
table_kind order checksum f = (refl, refl, refl)

-- A long filename entry made from units goes through the disk unchanged, and a directory has it for a
-- long filename entry that is in use.
pub new_long_entry-stored :
    (number : ℕ) (last : Bool) (checksum : ℕ) (us : List ℕ)
    → IsUnits us
    → let e = new_long_entry number last checksum us in
      (from_directory_entry (to_directory_entry e) ≡ e)
      × (is_long_filename (to_directory_entry e) ≡ true)
      × (is_end_marker (to_directory_entry e) ≡ (e.order == 0))
      × (is_deleted (to_directory_entry e) ≡ (e.order == 0xE5))
unfolding new_long_entry
new_long_entry-stored number last checksum us h =
    let p = padded 13 us in
    let order = if last then with_last_flag number else number in
    let f = byte_at p in
    let table : tabulate f 13 ≡ p = ap (tabulate f) (sym (length-padded 13 us)) ∙ tabulate_lem p in
    let kind = table_kind order checksum f in
    subst
      (λ q.
        (from_directory_entry (to_directory_entry (long_of order checksum q))
          ≡ long_of order checksum q)
        × (is_long_filename (to_directory_entry (long_of order checksum q)) ≡ true)
        × (is_end_marker (to_directory_entry (long_of order checksum q)) ≡ (order == 0))
        × (is_deleted (to_directory_entry (long_of order checksum q)) ≡ (order == 0xE5)))
      table
      (table_stored order checksum f (byte_at-Wide p (padded-Wide 13 us h)), kind.0, kind.1, kind.2)

order-used :
    (number : ℕ) (last : Bool) (checksum : ℕ) (us : List ℕ)
    → 1 ≤ number
    → number ≤ 20
    → let order = (new_long_entry number last checksum us).order in
      ((order == 0) ≡ false) × ((order == 0xE5) ≡ false)
unfolding new_long_entry
order-used number true checksum us l h = (ground arith, ground arith)
order-used number false checksum us l h = (ground arith, ground arith)

module _ (unicode : Unicode) where
  -- A round of the loop on such an entry.
  pub parse_loop-long :
      (st : LfnState) (number : ℕ) (last : Bool) (checksum : ℕ) (us : List ℕ)
      → 1 ≤ number
      → number ≤ 20
      → IsUnits us
      → (location : DirectoryEntryLocation) (slots : List Slot)
      → let e = new_long_entry number last checksum us in
        parse_loop unicode st ((to_directory_entry e, location) ∷ slots)
        ≡ parse_loop unicode (lfn_step st e location) slots
  unfolding parse_loop
  parse_loop-long st number last checksum us l h w location slots =
      let e = new_long_entry number last checksum us in
      let d = to_directory_entry e in
      let (back, long, ended, deleted) = new_long_entry-stored number last checksum us w in
      let (used, live) = order-used number last checksum us l h in
      let skipped = parse_loop unicode (cleared st) slots in
      let rest = parse_loop unicode (lfn_step st (from_directory_entry d) location) slots in
      let other = if is_volume_label d then skipped else located unicode st d location ∷ skipped in
      ap
        (λ b.
          if b
          then []
          else if is_deleted d
          then skipped
          else if is_long_filename d
          then rest
          else other)
        (ended ∙ used)
      ∙ ap (λ b. if b then skipped else if is_long_filename d then rest else other) (deleted ∙ live)
      ∙ ap (λ b. if b then rest else other) long
      ∙ ap (λ q. parse_loop unicode (lfn_step st q location) slots) back

-- ===== src/Fat/Directory/Names.antt =====
-- A name given to an entry and read back: `prepare_name_entries` and `parse_directory_entries` of
-- src/fs/fat_fs.rs.
use bubble_os.Base.{
  ℕ, zero, suc, ◌+◌, ◌-◌, ◌*◌, ◌/◌, ◌≤◌, ◌<◌, ◌≡◌, refl, sym, ap, ◌∙◌, inl, inr, true, false,
  Option, none, some, List, [], ◌∷◌, ◌++◌, map, arith, ltb, Bool-cases, Option-cases, ◌>>=◌, length,
}
use bubble_os.Path.{Str}
use bubble_os.Fat.Entry.{DirectoryEntry, LongDirectoryEntry, lfn_checksum, is_normal_entry}
use bubble_os.Fat.Entry.Units.{IsUnits}
use bubble_os.Fat.Name.{
  Unicode, is_empty, encode_utf16, encode_long_filename, generate_short_alias, get_fat_filename,
}
use bubble_os.Fat.Name.Utf16.{IsText, encode_long_filename_lem}
use bubble_os.Fat.Volume.Slots.{DirectoryEntryLocation, Slot}
use bubble_os.Fat.Directory.{
  LocatedDirectoryEntry, start_state, parse_loop, parse_directory_entries, name_entries,
  prepare_name_entries,
}
use bubble_os.Fat.Directory.Chunks.{long_slots}
use bubble_os.Fat.Directory.Parsing.{parse_loop-name, parse_loop-idle}

length-name_entries :
    (i count checksum : ℕ) (units : List ℕ) → length (name_entries i count checksum units) ≡ i
unfolding name_entries
length-name_entries zero count checksum units = refl
length-name_entries (suc i) count checksum units =
    ap suc (length-name_entries i count checksum units)

encode_utf16-pos : (s : Str) → is_empty s ≡ false → 0 < length (encode_utf16 s)
unfolding encode_utf16
encode_utf16-pos [] h = absurd (cc)
encode_utf16-pos (c ∷ cs) h = elim (Bool-cases (ltb c 0x10000)) [
  | inl e ↦ rw e (omega arith)
  | inr e ↦ rw e (omega arith)
]

-- The entries that `prepare_name_entries` makes of a name that is no short name.
prepare_name_entries-long :
    (unicode : Unicode) (parsed : List LocatedDirectoryEntry) (filename : Str) (short : List ℕ)
    (lfns : List LongDirectoryEntry)
    → get_fat_filename unicode filename ≡ none
    → prepare_name_entries unicode parsed filename ≡ some (short, lfns)
    → (units : List ℕ) × (encode_long_filename filename ≡ some units)
      × (lfns
          ≡ name_entries
              ((length units + 13 - 1) / 13)
              ((length units + 13 - 1) / 13)
              (lfn_checksum short)
              units)
unfolding prepare_name_entries
prepare_name_entries-long unicode parsed filename short lfns none_short e =
    let taken = map (λ q. q.entry.name) parsed in
    let made : List ℕ → List ℕ → List ℕ × List LongDirectoryEntry = λ us s. (
      s,
      name_entries ((length us + 13 - 1) / 13) ((length us + 13 - 1) / 13) (lfn_checksum s) us,
    ) in
    let aliased : List ℕ → Option (List ℕ) → Option (List ℕ × List LongDirectoryEntry) =
      λ us r. r >>= (λ s. some (made us s)) in
    let encoded : Option (List ℕ) → Option (List ℕ × List LongDirectoryEntry) =
      λ r. r >>= (λ us. aliased us (generate_short_alias filename taken)) in
    let shaped : Option (List ℕ) → Option (List ℕ × List LongDirectoryEntry) =
      λ r. elim r [ some s ↦ some (s, []) | none ↦ encoded (encode_long_filename filename) ] in
    let start = ap shaped none_short in
    elim (Option-cases (encode_long_filename filename)) [
      | inl n ↦
          let no : ◌≡◌ {A = Option (List ℕ × List LongDirectoryEntry)} none (some (short, lfns)) =
            sym (start ∙ ap encoded n) ∙ e in
          absurd (cc)
      | inr (us, n) ↦ elim (Option-cases (generate_short_alias filename taken)) [
        | inl m ↦
            let no : ◌≡◌ {A = Option (List ℕ × List LongDirectoryEntry)} none (some (short, lfns)) =
              sym (start ∙ ap encoded n ∙ ap (aliased us) m) ∙ e in
            absurd (cc)
        | inr (s, m) ↦
            let yes : some (made us s) ≡ some (short, lfns) =
              sym (start ∙ ap encoded n ∙ ap (aliased us) m) ∙ e in
            let pair : made us s ≡ (short, lfns) = cc in
            let same : s ≡ short = ap (λ q. q.0) pair in
            (us, n, sym (ap (λ q. q.1) pair) ∙ ap (λ q. (made us q).1) same)
      ]
    ]

-- A name that is no short name, given to an entry of a file or directory whose short name is the alias
-- that `prepare_name_entries` found for it, is the name that `parse_directory_entries` reads for that
-- entry when it finds the long filename entries in the slots before it, in their order; their places
-- are the entry's, and the slots behind it are read as if they stood alone. The name is any sequence of
-- characters, in Rust's sense.
pub parse_directory_entries-prepare_name_entries :
    (unicode : Unicode) (parsed : List LocatedDirectoryEntry) (filename : Str) (short : List ℕ)
    (lfns : List LongDirectoryEntry) (entry : DirectoryEntry) (location : DirectoryEntryLocation)
    (locs : List DirectoryEntryLocation) (rest : List Slot)
    → IsText filename
    → get_fat_filename unicode filename ≡ none
    → prepare_name_entries unicode parsed filename ≡ some (short, lfns)
    → entry.name ≡ short
    → is_normal_entry entry ≡ true
    → length locs ≡ length lfns
    → parse_directory_entries unicode (long_slots lfns locs ++ ((entry, location) ∷ rest))
      ≡ record { entry = entry; location = location; name = filename; lfn_locations = locs }
        ∷ parse_directory_entries unicode rest
unfolding parse_directory_entries
parse_directory_entries-prepare_name_entries unicode parsed filename short lfns entry location locs
      rest text no_short prepared named normal n =
    let (units, e, made) =
      prepare_name_entries-long unicode parsed filename short lfns no_short prepared in
    let (full, same, bound, w) = encode_long_filename_lem filename units text e in
    let some_units = encode_utf16-pos filename full in
    let count = (length units + 13 - 1) / 13 in
    let units_pos : 0 < length units = omega (arith, ap length same) in
    let sum = ap lfn_checksum named in
    let k = count - 1 in
    let counted : suc k ≡ count = omega arith in
    let entries : lfns ≡ name_entries (suc k) (suc k) (lfn_checksum entry.name) units =
      made
      ∙ ap (λ m. name_entries m m (lfn_checksum short) units) (sym counted)
      ∙ ap (λ c. name_entries (suc k) (suc k) c units) (sym sum) in
    let size : length locs ≡ suc k =
      n ∙ ap length entries ∙ length-name_entries (suc k) (suc k) (lfn_checksum entry.name) units in
    ap (λ q. parse_loop unicode start_state (long_slots q locs ++ ((entry, location) ∷ rest)))
      entries
    ∙ with_places unicode units k filename entry location locs rest w text full same (omega arith)
        (omega arith) (omega arith) normal size
  where
    with_places :
        (unicode : Unicode) (units : List ℕ) (k : ℕ) (filename : Str) (entry : DirectoryEntry)
        (location : DirectoryEntryLocation) (locs : List DirectoryEntryLocation) (rest : List Slot)
        → IsUnits units
        → IsText filename
        → is_empty filename ≡ false
        → units ≡ encode_utf16 filename
        → k * 13 ≤ length units
        → length units ≤ k * 13 + 13
        → suc k ≤ 20
        → is_normal_entry entry ≡ true
        → length locs ≡ suc k
        → parse_loop unicode start_state (
            long_slots (name_entries (suc k) (suc k) (lfn_checksum entry.name) units) locs
            ++ ((entry, location) ∷ rest))
          ≡ record { entry = entry; location = location; name = filename; lfn_locations = locs }
            ∷ parse_loop unicode start_state rest
    with_places unicode units k filename entry location [] rest w text full same low high few normal
          n =
        absurd (omega arith)
    with_places unicode units k filename entry location (l ∷ locs) rest w text full same low high
          few normal n =
        parse_loop-name unicode units k start_state filename entry location l locs rest w text full
          same low high few normal (omega arith)
        ∙ ap
            (λ q.
              record {
                entry = entry;
                location = location;
                name = filename;
                lfn_locations = l ∷ locs;
              }
              ∷ q)
            (parse_loop-idle unicode rest (lfn_checksum entry.name) 0)

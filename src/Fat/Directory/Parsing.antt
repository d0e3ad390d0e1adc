-- ===== src/Fat/Directory/Parsing.antt =====
-- The parsing of the slots of a directory in src/fs/fat_fs.rs, from the long filename entries of a name to
-- the entry behind them.
use bubble_os.Base.{
  ℕ, suc, ◌+◌, ◌-◌, ◌*◌, ◌%◌, ◌≤◌, ◌≡◌, refl, sym, ap, ◌∙◌, inl, inr, Bool, true, false, not, ◌&&◌,
  Option, none, some, List, [], ◌∷◌, ◌++◌, arith, ◌==◌, if◌then◌else◌, ==_iff, Bool-cases, length,
}
use bubble_os.Path.{Str}
use bubble_os.Fat.Entry.{
  DirectoryEntry, before_terminator, padded, new_long_entry, lfn_checksum, is_end_marker,
  is_deleted, is_long_filename, is_volume_label, is_normal_entry,
}
use bubble_os.Fat.Entry.Units.{IsUnits}
use bubble_os.Fat.Entry.Bytes.{to_directory_entry}
use bubble_os.Fat.Name.{Unicode, is_empty, encode_utf16, decode_utf16, decode_long_filename}
use bubble_os.Fat.Name.Utf16.{IsText, decode_utf16-encode_utf16}
use bubble_os.Fat.Volume.Slots.{DirectoryEntryLocation, Slot}
use bubble_os.Fat.Directory.{
  is_last, from_directory_entry, get_filename_from_fat, lfn_step, LocatedDirectoryEntry, LfnState,
  cleared, concat, no_chunks, long_name, located, parse_loop, name_entries,
}
use bubble_os.Fat.Directory.LongSlots.{parse_loop-long}
use bubble_os.Fat.Directory.LongSteps.{lfn_step-orphan, lfn_step-begins, lfn_step-last}
use bubble_os.Fat.Directory.Chunks.{
  chunk, chunk-IsUnits, chunk-bound, gather, no_chunks-gather, chunks_lem, long_slots, reading,
  parse_loop-entries,
}

-- What `decode_long_filename` makes of the chunks of a name.
decode_long_filename-chunks :
    (filename : Str) (us : List ℕ)
    → IsText filename
    → is_empty filename ≡ false
    → before_terminator us ≡ encode_utf16 filename
    → decode_long_filename us ≡ some filename
unfolding decode_long_filename
decode_long_filename-chunks filename us h n e =
    let back = ap decode_utf16 e ∙ decode_utf16-encode_utf16 filename h in
    ap (λ r. elim r [ none ↦ none | some name ↦ if is_empty name then none else some name ]) back
    ∙ rw n refl

normal_parts :
    (e : DirectoryEntry)
    → is_normal_entry e ≡ true
    → (is_end_marker e ≡ false)
      × (is_deleted e ≡ false)
      × (is_long_filename e ≡ false)
      × (is_volume_label e ≡ false)
unfolding is_normal_entry
normal_parts e h = four (is_end_marker e) (is_deleted e) (is_long_filename e) (is_volume_label e) h
  where
    four :
        (a b c d : Bool)
        → (not a && not b && not c && not d) ≡ true
        → (a ≡ false) × (b ≡ false) × (c ≡ false) × (d ≡ false)
    four true b c d h = absurd (cc)
    four false true c d h = absurd (cc)
    four false false true d h = absurd (cc)
    four false false false true h = absurd (cc)
    four false false false false h = (refl, refl, refl, refl)

module _ (unicode : Unicode) where
  -- A round on an entry of a file or a directory.
  parse_loop-normal :
      (st : LfnState) (entry : DirectoryEntry) (location : DirectoryEntryLocation)
      (slots : List Slot)
      → is_normal_entry entry ≡ true
      → parse_loop unicode st ((entry, location) ∷ slots)
        ≡ located unicode st entry location ∷ parse_loop unicode (cleared st) slots
  unfolding parse_loop
  parse_loop-normal st entry location slots h =
      let (ended, deleted, long, label) = normal_parts entry h in
      let skipped = parse_loop unicode (cleared st) slots in
      let rest = parse_loop unicode (lfn_step st (from_directory_entry entry) location) slots in
      let here = located unicode st entry location ∷ skipped in
      ap
        (λ b.
          if b
          then []
          else if is_deleted entry
          then skipped
          else if is_long_filename entry
          then rest
          else if is_volume_label entry
          then skipped
          else here)
        ended
      ∙ ap
          (λ b.
            if b
            then skipped
            else if is_long_filename entry
            then rest
            else if is_volume_label entry
            then skipped
            else here)
          deleted
      ∙ ap (λ b. if b then rest else if is_volume_label entry then skipped else here) long
      ∙ ap (λ b. if b then skipped else here) label

  located-long :
      (cs : List (List ℕ)) (ls : List DirectoryEntryLocation) (entry : DirectoryEntry)
      (location : DirectoryEntryLocation) (name : Str)
      → no_chunks cs ≡ false
      → decode_long_filename (concat cs) ≡ some name
      → located unicode (reading cs ls 0 (lfn_checksum entry.name)) entry location
        ≡ record { entry = entry; location = location; name = name; lfn_locations = ls }
  unfolding located long_name
  located-long cs ls entry location name n e =
      let sum = lfn_checksum entry.name in
      let same = (==_iff sum sum).1 refl in
      let short : LocatedDirectoryEntry = record {
        entry = entry;
        location = location;
        name = get_filename_from_fat unicode entry.name;
        lfn_locations = [];
      } in
      let pick : Option Str → LocatedDirectoryEntry = λ r. elim r [
        | some m ↦ record { entry = entry; location = location; name = m; lfn_locations = ls }
        | none ↦ short
      ] in
      let name_of = decode_long_filename (concat cs) in
      ap (λ b. pick (if not b && sum == sum then name_of else none)) n
      ∙ ap (λ b. pick (if b then name_of else none)) same
      ∙ ap pick e

  -- The slots of a long name and of the entry that has it.
  pub parse_loop-name :
      (units : List ℕ) (k : ℕ) (st : LfnState) (filename : Str) (entry : DirectoryEntry)
      (location l : DirectoryEntryLocation) (locs : List DirectoryEntryLocation) (rest : List Slot)
      → IsUnits units
      → IsText filename
      → is_empty filename ≡ false
      → units ≡ encode_utf16 filename
      → k * 13 ≤ length units
      → length units ≤ k * 13 + 13
      → suc k ≤ 20
      → is_normal_entry entry ≡ true
      → length locs ≡ k
      → let sum = lfn_checksum entry.name in
        parse_loop unicode st (
          long_slots (name_entries (suc k) (suc k) sum units) (l ∷ locs)
          ++ ((entry, location) ∷ rest))
        ≡ record { entry = entry; location = location; name = filename; lfn_locations = l ∷ locs }
          ∷ parse_loop unicode (reading [] [] 0 sum) rest
  unfolding name_entries
  parse_loop-name units k st filename entry location l locs rest w text full e low high few normal
        n =
      let sum = lfn_checksum entry.name in
      let us = chunk units k in
      let slots = (entry, location) ∷ rest in
      let more = long_slots (name_entries k (suc k) sum units) locs ++ slots in
      let number : (k + 1) % 256 ≡ suc k = omega arith in
      let last : (k == suc k - 1) ≡ true = ground arith in
      let one : suc k - 1 ≡ k = omega arith in
      let cs = gather units k (padded 13 us ∷ []) in
      ap
        (λ m.
          parse_loop unicode st
            ((to_directory_entry (new_long_entry m (k == suc k - 1) sum us), l) ∷ more))
        number
      ∙ ap
          (λ b.
            parse_loop unicode st
              ((to_directory_entry (new_long_entry (suc k) b sum us), l) ∷ more))
          last
      ∙ parse_loop-long unicode st (suc k) true sum us (omega arith) few (chunk-IsUnits units k w) l
          more
      ∙ ap (λ q. parse_loop unicode q more)
          (lfn_step-last st (suc k) sum us (omega arith) few (chunk-bound units k)
            (chunk-IsUnits units k w) l)
      ∙ ap (λ m. parse_loop unicode (reading (padded 13 us ∷ []) (l ∷ []) m sum) more) one
      ∙ parse_loop-entries unicode units w (suc k) sum k (padded 13 us ∷ []) (l ∷ []) locs slots
          (omega arith) few n
      ∙ parse_loop-normal (reading cs (l ∷ locs) 0 sum) entry location rest normal
      ∙ ap (λ q. q ∷ parse_loop unicode (reading [] [] 0 sum) rest)
          (located-long cs (l ∷ locs) entry location filename
            (no_chunks-gather units k (padded 13 us) [])
            (decode_long_filename-chunks filename (concat cs) text full
              (chunks_lem units k w low high ∙ e)))

  -- Without a name begun, the loop does not look at the checksum that it has.
  pub parse_loop-idle :
      (slots : List Slot) (a b : ℕ)
      → parse_loop unicode (reading [] [] 0 a) slots ≡ parse_loop unicode (reading [] [] 0 b) slots
  unfolding parse_loop located long_name
  parse_loop-idle [] a b = refl
  parse_loop-idle ((entry, location) ∷ slots) a b =
      let e = from_directory_entry entry in
      let skipped = parse_loop-idle slots a b in
      let after = λ (st : LfnState). parse_loop unicode (lfn_step st e location) slots in
      let long : after (reading [] [] 0 a) ≡ after (reading [] [] 0 b) =
        elim (Bool-cases (is_last e)) [
          | inl l ↦
              ap (λ q. parse_loop unicode q slots)
                (lfn_step-begins (reading [] [] 0 a) (reading [] [] 0 b) e location l)
          | inr l ↦
              ap (λ q. parse_loop unicode q slots) (lfn_step-orphan a e location l)
              ∙ skipped
              ∙ sym (ap (λ q. parse_loop unicode q slots) (lfn_step-orphan b e location l))
        ] in
      let round = λ (s l : List LocatedDirectoryEntry).
        if is_end_marker entry
        then []
        else if is_deleted entry
        then s
        else if is_long_filename entry
        then l
        else if is_volume_label entry
        then s
        else located unicode (reading [] [] 0 b) entry location ∷ s in
      ap (λ q. round q (after (reading [] [] 0 a))) skipped
      ∙ ap (round (parse_loop unicode (reading [] [] 0 b) slots)) long

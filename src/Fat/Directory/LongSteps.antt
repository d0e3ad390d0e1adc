-- ===== src/Fat/Directory/LongSteps.antt =====
-- The steps of the parse loop of src/fs/fat_fs.rs at the long filename entries of a name.
use bubble_os.Base.{
  ℕ, ◌-◌, ◌≤◌, ◌≡◌, refl, sym, ap, ◌∙◌, Bool, true, false, not, ◌&&◌, ◌||◌, List, [], ◌∷◌, ◌++◌,
  arith, leb, ◌==◌, if◌then◌else◌, ==_iff, length,
}
use bubble_os.Fat.Entry.{padded, new_long_entry, LongDirectoryEntry}
use bubble_os.Fat.Entry.Units.{name_units-new, new_long_entry_lem, IsUnits}
use bubble_os.Fat.Directory.{is_last, name_units, sequence, cleared, lfn_step, LfnState}
use bubble_os.Fat.Volume.Slots.{DirectoryEntryLocation}

checksum-new :
    (number : ℕ) (last : Bool) (checksum : ℕ) (us : List ℕ)
    → (new_long_entry number last checksum us).checksum ≡ checksum
unfolding new_long_entry
checksum-new number last checksum us = refl

-- The second part of a round, for an entry with that number, checksum and units.
abbrev taken : LfnState → ℕ → ℕ → DirectoryEntryLocation → List ℕ → LfnState
taken st1 number checksum location units =
    if st1.expected_sequence == 0
      || not (number == st1.expected_sequence)
      || not (checksum == st1.checksum)
    then cleared st1
    else record st1 {
      chunks = units ∷ st1.chunks;
      locations = st1.locations ++ (location ∷ []);
      expected_sequence = st1.expected_sequence - 1;
    }

-- It is taken if it is the one that is expected.
taken_expected :
    (cs : List (List ℕ)) (ls : List DirectoryEntryLocation) (number checksum : ℕ)
    → 1 ≤ number
    → (location : DirectoryEntryLocation) (units : List ℕ)
    → taken
        (record { chunks = cs; locations = ls; expected_sequence = number; checksum = checksum })
        number
        checksum
        location
        units
      ≡ record {
        chunks = units ∷ cs;
        locations = ls ++ (location ∷ []);
        expected_sequence = number - 1;
        checksum = checksum;
      }
taken_expected cs ls number checksum l location units =
    let some_left : (number == 0) ≡ false = ground arith in
    rw (some_left, (==_iff number number).1 refl, (==_iff checksum checksum).1 refl) refl

-- The state once a name is begun.
abbrev begun_at : ℕ → ℕ → LfnState
begun_at checksum number = record {
  chunks = [];
  locations = [];
  expected_sequence = if leb 1 number && leb number 20 then number else 0;
  checksum = checksum;
}

begun_at_lem :
    (checksum number : ℕ)
    → 1 ≤ number
    → number ≤ 20
    → begun_at checksum number
      ≡ record { chunks = []; locations = []; expected_sequence = number; checksum = checksum }
begun_at_lem checksum number l h =
    let possible : (leb 1 number && leb number 20) ≡ true = ground arith in rw possible refl

-- The state after an entry that begins a name, and after one that goes on with it.
pub lfn_step-last :
    (st : LfnState) (number checksum : ℕ) (us : List ℕ)
    → 1 ≤ number
    → number ≤ 20
    → length us ≤ 13
    → IsUnits us
    → (location : DirectoryEntryLocation)
    → lfn_step st (new_long_entry number true checksum us) location ≡ record {
      chunks = padded 13 us ∷ [];
      locations = location ∷ [];
      expected_sequence = number - 1;
      checksum = checksum;
    }
unfolding lfn_step
lfn_step-last st number checksum us l h len w location =
    let e = new_long_entry number true checksum us in
    let (_, numbered, last) = new_long_entry_lem number true checksum us (omega arith) len w in
    let ck = checksum-new number true checksum us in
    ap
      (λ b.
        taken (if b then begun_at e.checksum (sequence e) else st) (sequence e) e.checksum location
          (name_units e))
      last
    ∙ ap (λ n. taken (begun_at e.checksum n) n e.checksum location (name_units e)) numbered
    ∙ ap (λ c. taken (begun_at c number) number c location (name_units e)) ck
    ∙ ap (λ q. taken q number checksum location (name_units e)) (begun_at_lem checksum number l h)
    ∙ ap
        (taken
          (record { chunks = []; locations = []; expected_sequence = number; checksum = checksum })
          number checksum location)
        (name_units-new number true checksum us w)
    ∙ taken_expected [] [] number checksum l location (padded 13 us)

pub lfn_step-next :
    (cs : List (List ℕ)) (ls : List DirectoryEntryLocation) (number checksum : ℕ) (us : List ℕ)
    → 1 ≤ number
    → number ≤ 20
    → length us ≤ 13
    → IsUnits us
    → (location : DirectoryEntryLocation)
    → lfn_step
        (record { chunks = cs; locations = ls; expected_sequence = number; checksum = checksum })
        (new_long_entry number false checksum us)
        location
      ≡ record {
        chunks = padded 13 us ∷ cs;
        locations = ls ++ (location ∷ []);
        expected_sequence = number - 1;
        checksum = checksum;
      }
unfolding lfn_step
lfn_step-next cs ls number checksum us l h len w location =
    let e = new_long_entry number false checksum us in
    let st : LfnState = record {
      chunks = cs;
      locations = ls;
      expected_sequence = number;
      checksum = checksum;
    } in
    let (_, numbered, last) = new_long_entry_lem number false checksum us (omega arith) len w in
    let ck = checksum-new number false checksum us in
    ap
      (λ b.
        taken (if b then begun_at e.checksum (sequence e) else st) (sequence e) e.checksum location
          (name_units e))
      last
    ∙ ap (λ n. taken st n e.checksum location (name_units e)) numbered
    ∙ ap (λ c. taken st number c location (name_units e)) ck
    ∙ ap (taken st number checksum location) (name_units-new number false checksum us w)
    ∙ taken_expected cs ls number checksum l location (padded 13 us)

-- An entry that begins a name makes the loop forget its state, and one that goes on with a name that was
-- not begun leaves it idle.
pub lfn_step-begins :
    (st st' : LfnState) (e : LongDirectoryEntry) (location : DirectoryEntryLocation)
    → is_last e ≡ true
    → lfn_step st e location ≡ lfn_step st' e location
unfolding lfn_step
lfn_step-begins st st' e location h =
    let round = λ (s : LfnState) (b : Bool).
      taken (if b then begun_at e.checksum (sequence e) else s) (sequence e) e.checksum location
        (name_units e) in
    ap (round st) h ∙ sym (ap (round st') h)

pub lfn_step-orphan :
    (checksum : ℕ) (e : LongDirectoryEntry) (location : DirectoryEntryLocation)
    → is_last e ≡ false
    → let idle : LfnState = record {
      chunks = [];
      locations = [];
      expected_sequence = 0;
      checksum = checksum;
    } in
      lfn_step idle e location ≡ idle
unfolding lfn_step
lfn_step-orphan checksum e location h =
    let idle : LfnState = record {
      chunks = [];
      locations = [];
      expected_sequence = 0;
      checksum = checksum;
    } in
    ap
      (λ b.
        taken (if b then begun_at e.checksum (sequence e) else idle) (sequence e) e.checksum
          location (name_units e))
      h

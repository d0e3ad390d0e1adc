-- ===== src/Fat/Entry/Units.antt =====
-- What is written into directory entries is read from them again.
use bubble_os.Base.{
  ℕ, zero, suc, ◌+◌, ◌*◌, ◌/◌, ◌%◌, ◌^◌, ◌≤◌, ◌<◌, ◌≡◌, refl, sym, ap, ◌∙◌, ◌≢◌, inl, inr, Bool,
  true, false, not, ◌&&◌, ◌||◌, List, [], ◌∷◌, ◌++◌, arith, ◌==◌, if◌then◌else◌, Bool-cases, length,
  set, take, drop, take_of_le, take-append-drop, drop-drop,
}
use mathlib.Core.Bool.{false≢true}
use bubble_os.Fat.Entry.{
  DirectoryEntry, first_byte, is_end_marker, is_deleted, mark_deleted, is_long_filename,
  is_volume_label, is_normal_entry, is_directory, is_regular_file, get_cluster, set_cluster,
  filling, padded, to_le_bytes, from_le_bytes, new_long_entry, sequence, is_last, name_units,
  before_terminator,
}

-- The cluster that was set is the one that is got, if it has 32 bits.
pub get_cluster-set_cluster :
    (e : DirectoryEntry) (cluster : ℕ)
    → cluster < 2 ^ 32
    → get_cluster (set_cluster e cluster) ≡ cluster
unfolding get_cluster set_cluster
get_cluster-set_cluster e cluster h = omega (arith, h)

abbrev pub IsUnits : List ℕ → Type 0
IsUnits [] = Unit {0}
IsUnits (u ∷ us) = (u ≢ 0) × (u < 65536) × IsUnits us

abbrev pub Wide : List ℕ → Type 0
Wide [] = Unit {0}
Wide (u ∷ us) = (u < 65536) × Wide us

from_le_bytes-to_le_bytes : (us : List ℕ) → Wide us → from_le_bytes (to_le_bytes us) ≡ us
from_le_bytes-to_le_bytes [] h = refl
from_le_bytes-to_le_bytes (u ∷ us) h =
    let e : u % 256 + u / 256 * 256 ≡ u = omega arith in rw (e, from_le_bytes-to_le_bytes us h.1)

take-Wide : (n : ℕ) (us : List ℕ) → Wide us → Wide (take n us)
take-Wide zero us h = tt
take-Wide (suc n) [] h = tt
take-Wide (suc n) (u ∷ us) h = (h.0, take-Wide n us h.1)

drop-Wide : (n : ℕ) (us : List ℕ) → Wide us → Wide (drop n us)
drop-Wide zero us h = h
drop-Wide (suc n) [] h = tt
drop-Wide (suc n) (u ∷ us) h = drop-Wide n us h.1

pub padded-Wide : (left : ℕ) (us : List ℕ) → IsUnits us → Wide (padded left us)
unfolding padded
padded-Wide zero us h = tt
padded-Wide (suc left) (u ∷ us) h = (h.1, padded-Wide left us h.2)
padded-Wide (suc left) [] h = (omega arith, filling-Wide left)
  where
    filling-Wide : (n : ℕ) → Wide (filling n)
    filling-Wide zero = tt
    filling-Wide (suc n) = (omega arith, filling-Wide n)

pub length-padded : (left : ℕ) (us : List ℕ) → length (padded left us) ≡ left
unfolding padded
length-padded zero us = refl
length-padded (suc left) (u ∷ us) = ap suc (length-padded left us)
length-padded (suc left) [] = ap suc (length-filling left)
  where
    length-filling : (n : ℕ) → length (filling n) ≡ n
    length-filling zero = refl
    length-filling (suc n) = ap suc (length-filling n)

pub before_terminator-padded :
    (left : ℕ) (us : List ℕ)
    → length us ≤ left
    → IsUnits us
    → before_terminator (padded left us) ≡ us
unfolding before_terminator padded
before_terminator-padded zero [] l h = refl
before_terminator-padded zero (u ∷ us) l h = elim l [ ]
before_terminator-padded (suc left) [] l h = refl
before_terminator-padded (suc left) (u ∷ us) l h =
    let n : (u == 0) ≡ false = ground (arith, h) in
    rw (n, before_terminator) (ap (◌∷◌ u) (before_terminator-padded left us (omega (arith, l)) h.2))

-- The units of an entry made of some are those and their padding.
pub name_units-new :
    (number : ℕ) (last : Bool) (checksum : ℕ) (us : List ℕ)
    → IsUnits us
    → name_units (new_long_entry number last checksum us) ≡ padded 13 us
unfolding name_units new_long_entry
name_units-new number last checksum us h =
    let p = padded 13 us in
    let w = padded-Wide 13 us h in
    let parts : take 5 p ++ (take 6 (drop 5 p) ++ take 2 (drop 11 p)) ≡ p =
      ap (λ r. take 5 p ++ (take 6 (drop 5 p) ++ take 2 r)) (sym (drop-drop 5 6 p))
      ∙ ap (λ r. take 5 p ++ r) (take-append-drop 6 2 (drop 5 p))
      ∙ take-append-drop 5 8 p
      ∙ take_of_le 13 p (omega (arith, length-padded 13 us)) in
    rw
      (
        from_le_bytes-to_le_bytes (take 5 p) (take-Wide 5 p w),
        from_le_bytes-to_le_bytes (take 6 (drop 5 p)) (take-Wide 6 (drop 5 p) (drop-Wide 5 p w)),
        from_le_bytes-to_le_bytes (take 2 (drop 11 p)) (take-Wide 2 (drop 11 p) (drop-Wide 11 p w)),
      )
      parts

-- A long filename entry made of at most 13 units, none of which is 0, and of a number below 64 gives
-- back its units, its number and whether it is the last.
pub new_long_entry_lem :
    (number : ℕ) (last : Bool) (checksum : ℕ) (us : List ℕ)
    → number < 64
    → length us ≤ 13
    → IsUnits us
    → let e = new_long_entry number last checksum us in
      (before_terminator (name_units e) ≡ us) × (sequence e ≡ number) × (is_last e ≡ last)
unfolding new_long_entry sequence is_last
new_long_entry_lem number true checksum us n l h =
    let off : (number / 64 % 2 == 1) ≡ false = ground arith in
    (
      ap before_terminator (name_units-new number true checksum us h)
          ∙ before_terminator-padded 13 us l h,
      ap (λ b. (if b then number else number + 64) % 64) off ∙ omega arith,
      ap (λ b. (if b then number else number + 64) / 64 % 2 == 1) off ∙ ground arith,
    )
new_long_entry_lem number false checksum us n l h = (
  ap before_terminator (name_units-new number false checksum us h)
      ∙ before_terminator-padded 13 us l h,
  omega arith,
  ground arith,
)

first_byte-set : (name : List ℕ) → 1 ≤ length name → first_byte (set name 0 0xE5) ≡ 0xE5
first_byte-set [] h = elim h [ ]
first_byte-set (b ∷ bs) h = refl

not_normal : (e : DirectoryEntry) → is_deleted e ≡ true → is_normal_entry e ≡ false
unfolding is_normal_entry
not_normal e d =
    ap (λ b. not (is_end_marker e) && not b && not (is_long_filename e) && not (is_volume_label e))
      d
    ∙ last (is_end_marker e) (is_long_filename e) (is_volume_label e)
  where
    last : (a b c : Bool) → (not a && false && not b && not c) ≡ false
    last true b c = refl
    last false b c = refl

not_normal_long : (e : DirectoryEntry) → is_long_filename e ≡ true → is_normal_entry e ≡ false
unfolding is_normal_entry
not_normal_long e d =
    ap (λ b. not (is_end_marker e) && not (is_deleted e) && not b && not (is_volume_label e)) d
    ∙ last (is_end_marker e) (is_deleted e) (is_volume_label e)
  where
    last : (a b c : Bool) → (not a && not b && false && not c) ≡ false
    last true b c = refl
    last false true c = refl
    last false false c = refl

never_both : (n d : Bool) → ((n && not (n && d)) && (n && d)) ≡ false
never_both true true = refl
never_both true false = refl
never_both false d = refl

long_only : (l n d : Bool) → n ≡ false → (l && ((n && not (n && d)) || (n && d))) ≡ false
long_only l true d e = absurd (false≢true (sym e))
long_only true false d e = refl
long_only false false d e = refl

-- An entry that was deleted is no file and no directory, and is not the end of its directory; every
-- entry is at most one of a file, a directory and a piece of a long filename.
pub mark_deleted_lem :
    (e : DirectoryEntry)
    → 1 ≤ length e.name
    → (is_deleted (mark_deleted e) ≡ true)
      × (is_end_marker (mark_deleted e) ≡ false)
      × (is_regular_file (mark_deleted e) ≡ false)
      × (is_directory (mark_deleted e) ≡ false)
      × ((is_regular_file e && is_directory e) ≡ false)
      × ((is_long_filename e && (is_regular_file e || is_directory e)) ≡ false)
unfolding is_deleted mark_deleted is_end_marker is_regular_file is_directory is_normal_entry
    is_long_filename
mark_deleted_lem e h =
    let f : first_byte (set e.name 0 0xE5) ≡ 0xE5 = first_byte-set e.name h in
    let deleted : is_deleted (mark_deleted e) ≡ true = ap (λ b. b == 0xE5) f in
    let marked : is_normal_entry (mark_deleted e) ≡ false = not_normal (mark_deleted e) deleted in
    (
      deleted,
      ap (λ b. b == 0) f,
      ap (λ b. b && not (b && e.attributes / 16 % 2 == 1)) marked,
      ap (λ b. b && e.attributes / 16 % 2 == 1) marked,
      never_both (is_normal_entry e) (e.attributes / 16 % 2 == 1),
      elim (Bool-cases (is_long_filename e)) [
        | inl l ↦
            long_only (is_long_filename e) (is_normal_entry e) (e.attributes / 16 % 2 == 1)
              (not_normal_long e l)
        | inr l ↦ ap (λ b. b && (is_regular_file e || is_directory e)) l
      ],
    )

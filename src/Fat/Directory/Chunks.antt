-- ===== src/Fat/Directory/Chunks.antt =====
-- The units of a long name cut into the chunks of its entries, and put together again: `name_entries` and
-- the loop of `parse_directory_entries` of src/fs/fat_fs.rs.
use bubble_os.Base.{
  ℕ, zero, suc, ◌+◌, ◌-◌, ◌*◌, ◌%◌, ◌≤◌, min, ◌≡◌, refl, sym, ap, ◌∙◌, false, List, [], ◌∷◌, ◌++◌,
  arith, ◌==◌, length, take, drop, length-take-le, length-drop, take_of_le, drop-drop,
}
use bubble_os.Fat.Entry.{LongDirectoryEntry, before_terminator, padded, new_long_entry}
use bubble_os.Fat.Entry.Units.{IsUnits, before_terminator-padded}
use bubble_os.Fat.Entry.Bytes.{to_directory_entry}
use bubble_os.Fat.Name.{Unicode}
use bubble_os.Fat.Volume.Slots.{DirectoryEntryLocation, Slot}
use bubble_os.Fat.Volume.Splice.{take-drop}
use bubble_os.Fat.Directory.{LfnState, concat, no_chunks, name_entries, parse_loop}
use bubble_os.Fat.Directory.LongSlots.{parse_loop-long}
use bubble_os.Fat.Directory.LongSteps.{lfn_step-next}

-- The units of the chunk with that index, as `name_entries` cuts them out.
abbrev pub chunk : List ℕ → ℕ → List ℕ
chunk units i =
    let start = i * 13 in
    let end = min (start + 13) (length units) in take (end - start) (drop start units)

take-IsUnits : (n : ℕ) (us : List ℕ) → IsUnits us → IsUnits (take n us)
take-IsUnits zero us h = tt
take-IsUnits (suc n) [] h = tt
take-IsUnits (suc n) (u ∷ us) (a, b, h) = let rest = take-IsUnits n us h in (a, b, rest)

drop-IsUnits : (n : ℕ) (us : List ℕ) → IsUnits us → IsUnits (drop n us)
drop-IsUnits zero us h = h
drop-IsUnits (suc n) [] h = tt
drop-IsUnits (suc n) (u ∷ us) (a, b, h) = drop-IsUnits n us h

pub chunk-IsUnits : (units : List ℕ) (i : ℕ) → IsUnits units → IsUnits (chunk units i)
chunk-IsUnits units i h = take-IsUnits _ (drop (i * 13) units) (drop-IsUnits (i * 13) units h)

take-bound : (n : ℕ) (xs : List ℕ) → length (take n xs) ≤ n
take-bound zero xs = omega arith
take-bound (suc n) [] = omega arith
take-bound (suc n) (x ∷ xs) = omega (arith, take-bound n xs)

pub chunk-bound : (units : List ℕ) (i : ℕ) → length (chunk units i) ≤ 13
chunk-bound units i =
    omega (arith, take-bound (min (i * 13 + 13) (length units) - i * 13) (drop (i * 13) units))

chunk-full :
    (units : List ℕ) (i : ℕ)
    → i * 13 + 13 ≤ length units
    → (chunk units i ≡ take 13 (drop (i * 13) units)) × (length (chunk units i) ≡ 13)
chunk-full units i h =
    let n : min (i * 13 + 13) (length units) - i * 13 ≡ 13 = omega arith in
    let e : chunk units i ≡ take 13 (drop (i * 13) units) =
      ap (λ k. take k (drop (i * 13) units)) n in
    (
      e,
      ap length e
          ∙ length-take-le 13 (drop (i * 13) units) (omega (arith, length-drop (i * 13) units)),
    )

chunk-last :
    (units : List ℕ) (i : ℕ) → length units ≤ i * 13 + 13 → chunk units i ≡ drop (i * 13) units
chunk-last units i h =
    take_of_le (min (i * 13 + 13) (length units) - i * 13) (drop (i * 13) units)
      (omega (arith, length-drop (i * 13) units))

padded-full : (left : ℕ) (us : List ℕ) → length us ≡ left → padded left us ≡ us
unfolding padded
padded-full zero [] h = refl
padded-full zero (u ∷ us) h = absurd (omega arith)
padded-full (suc left) [] h = absurd (omega arith)
padded-full (suc left) (u ∷ us) h = ap (◌∷◌ u) (padded-full left us (omega arith))

before_terminator-append :
    (us vs : List ℕ) → IsUnits us → before_terminator (us ++ vs) ≡ us ++ before_terminator vs
unfolding before_terminator
before_terminator-append [] vs h = refl
before_terminator-append (u ∷ us) vs (a, b, h) =
    let n : (u == 0) ≡ false = ground arith in
    rw (n, before_terminator) (ap (◌∷◌ u) (before_terminator-append us vs h))

-- The chunks before `i`, put in front of others.
abbrev pub gather : List ℕ → ℕ → List (List ℕ) → List (List ℕ)
gather units zero cs = cs
gather units (suc i) cs = gather units i (padded 13 (chunk units i) ∷ cs)

pub no_chunks-gather :
    (units : List ℕ) (i : ℕ) (c : List ℕ) (cs : List (List ℕ))
    → no_chunks (gather units i (c ∷ cs)) ≡ false
no_chunks-gather units zero c cs = refl
no_chunks-gather units (suc i) c cs = no_chunks-gather units i (padded 13 (chunk units i)) (c ∷ cs)

concat-gather :
    (units : List ℕ) (i : ℕ) (cs : List (List ℕ))
    → IsUnits units
    → i * 13 ≤ length units
    → before_terminator (concat cs) ≡ drop (i * 13) units
    → before_terminator (concat (gather units i cs)) ≡ units
concat-gather units zero cs h l e = e
concat-gather units (suc i) cs h l e =
    let (cut, full) = chunk-full units i (omega arith) in
    let rest = drop (i * 13) units in
    let step : before_terminator (concat (padded 13 (chunk units i) ∷ cs)) ≡ rest =
      ap (λ p. before_terminator (p ++ concat cs)) (padded-full 13 (chunk units i) full)
      ∙ before_terminator-append (chunk units i) (concat cs) (chunk-IsUnits units i h)
      ∙ ap (◌++◌ (chunk units i)) e
      ∙ ap (λ c. c ++ drop (suc i * 13) units) cut
      ∙ ap (◌++◌ (take 13 rest))
          (ap (λ n. drop n units) (omega arith) ∙ sym (drop-drop (i * 13) 13 units))
      ∙ take-drop 13 rest in
    concat-gather units i (padded 13 (chunk units i) ∷ cs) h (omega arith) step

append-nil : (xs : List ℕ) → xs ++ [] ≡ xs
append-nil [] = refl
append-nil (x ∷ xs) = ap (◌∷◌ x) (append-nil xs)

-- All chunks of a name give its units back, when the last one is the one with index `k`.
pub chunks_lem :
    (units : List ℕ) (k : ℕ)
    → IsUnits units
    → k * 13 ≤ length units
    → length units ≤ k * 13 + 13
    → before_terminator (concat (gather units k (padded 13 (chunk units k) ∷ []))) ≡ units
chunks_lem units k h l u = concat-gather units k (padded 13 (chunk units k) ∷ []) h l (
    ap before_terminator (append-nil (padded 13 (chunk units k)))
    ∙ before_terminator-padded 13 (chunk units k) (chunk-bound units k) (chunk-IsUnits units k h)
    ∙ chunk-last units k u)

-- The slots that hold those entries at those places.
abbrev pub long_slots : List LongDirectoryEntry → List DirectoryEntryLocation → List Slot
long_slots [] locations = []
long_slots (e ∷ es) [] = []
long_slots (e ∷ es) (l ∷ ls) = (to_directory_entry e, l) ∷ long_slots es ls

abbrev pub reading : List (List ℕ) → List DirectoryEntryLocation → ℕ → ℕ → LfnState
reading cs ls expected checksum = record {
  chunks = cs;
  locations = ls;
  expected_sequence = expected;
  checksum = checksum;
}

module _ (unicode : Unicode) (units : List ℕ) (w : IsUnits units) (count checksum : ℕ) where
  -- The loop takes the entries below the last one, one after the other.
  pub parse_loop-entries :
      (i : ℕ) (cs : List (List ℕ)) (ls locs : List DirectoryEntryLocation) (rest : List Slot)
      → suc i ≤ count
      → count ≤ 20
      → length locs ≡ i
      → parse_loop unicode
          (reading cs ls i checksum)
          (long_slots (name_entries i count checksum units) locs ++ rest)
        ≡ parse_loop unicode (reading (gather units i cs) (ls ++ locs) 0 checksum) rest
  unfolding name_entries
  parse_loop-entries zero cs ls [] rest l h n =
      ap (λ q. parse_loop unicode (reading cs q 0 checksum) rest) (sym (all ls))
    where
      all : (ls : List DirectoryEntryLocation) → ls ++ [] ≡ ls
      all [] = refl
      all (x ∷ ls) = ap (◌∷◌ x) (all ls)
  parse_loop-entries zero cs ls (x ∷ locs) rest l h n = absurd (omega arith)
  parse_loop-entries (suc i) cs ls [] rest l h n = absurd (omega arith)
  parse_loop-entries (suc i) cs ls (x ∷ locs) rest l h n =
      let us = chunk units i in
      let more = long_slots (name_entries i count checksum units) locs ++ rest in
      let number : (i + 1) % 256 ≡ suc i = omega arith in
      let other : (i == count - 1) ≡ false = ground arith in
      let one : suc i - 1 ≡ i = omega arith in
      let st = reading cs ls (suc i) checksum in
      ap
        (λ k.
          parse_loop unicode st
            ((to_directory_entry (new_long_entry k (i == count - 1) checksum us), x) ∷ more))
        number
      ∙ ap
          (λ b.
            parse_loop unicode st
              ((to_directory_entry (new_long_entry (suc i) b checksum us), x) ∷ more))
          other
      ∙ parse_loop-long unicode st (suc i) false checksum us (omega arith) (omega arith)
          (chunk-IsUnits units i w) x more
      ∙ ap (λ q. parse_loop unicode q more)
          (lfn_step-next cs ls (suc i) checksum us (omega arith) (omega arith) (chunk-bound units i)
            (chunk-IsUnits units i w) x)
      ∙ ap (λ k. parse_loop unicode (reading (padded 13 us ∷ cs) (ls ++ (x ∷ [])) k checksum) more)
          one
      ∙ parse_loop-entries i (padded 13 us ∷ cs) (ls ++ (x ∷ [])) locs rest (omega arith) h
          (omega arith)
      ∙ ap (λ q. parse_loop unicode (reading (gather units (suc i) cs) q 0 checksum) rest)
          (push ls x locs)
    where
      push :
          (ls : List DirectoryEntryLocation) (x : DirectoryEntryLocation)
          (locs : List DirectoryEntryLocation)
          → (ls ++ (x ∷ [])) ++ locs ≡ ls ++ (x ∷ locs)
      push [] x locs = refl
      push (y ∷ ls) x locs = ap (◌∷◌ y) (push ls x locs)

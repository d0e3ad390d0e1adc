-- ===== src/Fat/Volume/Kept.antt =====
-- What a file keeps when it is made shorter: how many clusters, and the bytes in them; and how the calls of
-- `shrink_existing_file` of src/fs/fat_fs.rs follow each other.
use bubble_os.Base.{
  ℕ, zero, suc, ◌+◌, ◌-◌, ◌*◌, ◌/◌, ◌%◌, ◌^◌, ◌≤◌, ◌<◌, ◌≡◌, refl, sym, ap, ◌∙◌, ◌≢◌, true, false,
  Option, none, some, List, [], ◌∷◌, ◌++◌, arith, ◌==◌, if◌then◌else◌, length, take, length-append,
  contains,
}
use bubble_os.Fat.Table.{FatBuffer}
use bubble_os.Fat.Table.Chain.{Chain-frame, Chain, contains-append}
use bubble_os.Fat.Entry.{DirectoryEntry, get_cluster}
use bubble_os.Fat.Volume.{FatFileSystem, Port, cluster_size, persist_fat}
use bubble_os.Fat.Volume.Content.{cluster_at}
use bubble_os.Fat.Volume.Disk.{Reliable, VolumeIsValid, content, read_cluster-content}
use bubble_os.Fat.Volume.Splice.{append_assoc, take-append_le}
use bubble_os.Fat.Volume.Reading.{contents}
use bubble_os.Fat.Volume.Slots.{DirectoryEntryLocation, persist_directory_entry}
use bubble_os.Fat.Volume.Resize.{
  with_fat, Resized, cut_chain, shrink_to_nothing, shrink_existing_file,
}
use bubble_os.Fat.Volume.Writing.{contents-frame}
use bubble_os.Fat.Volume.Refinement.{Represents}

pub ceil_le : (n m k : ℕ) → 0 < k → n ≤ m * k → (n + k - 1) / k ≤ m
ceil_le n m k h l = grind arith

pub le_ceil : (n k : ℕ) → 0 < k → n ≤ (n + k - 1) / k * k
le_ceil n k h = grind arith

pub ceil_pos : (n k : ℕ) → 0 < k → 0 < n → 0 < (n + k - 1) / k
ceil_pos n k h l = grind arith

take-take : (n m : ℕ) (xs : List ℕ) → n ≤ m → take n (take m xs) ≡ take n xs
take-take zero m xs h = refl
take-take (suc n) zero xs h = absurd (omega arith)
take-take (suc n) (suc m) [] h = refl
take-take (suc n) (suc m) (x ∷ xs) h = ap (◌∷◌ x) (take-take n m xs (omega arith))

contents-append :
    {S : Type 0} (P : Port S) (fs : FatFileSystem S) (r s : List ℕ)
    → contents P fs (r ++ s) ≡ contents P fs r ++ contents P fs s
contents-append P fs [] s = refl
contents-append P fs (x ∷ r) s =
    rw (contents-append P fs r s)
      (sym (append_assoc (content P fs x) (contents P fs r) (contents P fs s)))

pub length-contents :
    {S : Type 0} (P : Port S) (R : Reliable P) (fs : FatFileSystem S)
    → VolumeIsValid fs
    → (r : List ℕ) → length (contents P fs r) ≡ length r * cluster_size fs
length-contents P R fs valid [] = omega arith
length-contents P R fs valid (x ∷ r) = omega (
  arith,
  length-append (content P fs x) (contents P fs r),
  (read_cluster-content P R fs valid x).1,
  length-contents P R fs valid r,
)

-- How many clusters `shrink_existing_file` keeps, less the first.
abbrev pub kept : {S : Type 0} → FatFileSystem S → ℕ → ℕ
kept fs new_size = (new_size + cluster_size fs - 1) / cluster_size fs - 1

module _ {S : Type 0} (P : Port S) (R : Reliable P) (fs : FatFileSystem S)
    (valid : VolumeIsValid fs) where
  abbrev shrunk : DirectoryEntry → ℕ → DirectoryEntry
  shrunk file new_size = record file { size = new_size % 2 ^ 32 }

  -- What follows the write of the table, the cut of the chain and the walk to its place.
  abbrev pub after_persist :
      DirectoryEntry → DirectoryEntryLocation → ℕ → Option (Unit {0}) × FatFileSystem S → Resized S
  after_persist file location new_size (r, fs') = elim r [
    | none ↦ (none, file, fs')
    | some _ ↦
        let (q, fs'') = persist_directory_entry P fs' location (shrunk file new_size) in
        (q, shrunk file new_size, fs'')
  ]

  abbrev pub after_cut :
      DirectoryEntry → DirectoryEntryLocation → ℕ → Option (Unit {0}) × FatBuffer → Resized S
  after_cut file location new_size (r, f) = elim r [
    | none ↦ (none, file, with_fat fs f)
    | some _ ↦ after_persist file location new_size (persist_fat P (with_fat fs f))
  ]

  abbrev pub after_walk : DirectoryEntry → DirectoryEntryLocation → ℕ → Option ℕ → Resized S
  after_walk file location new_size r = elim r [
    | none ↦ (none, file, fs)
    | some last_kept_cluster ↦ after_cut file location new_size (cut_chain fs.fat last_kept_cluster)
  ]

  pub shrink_existing_file-walk :
      (file : DirectoryEntry) (location : DirectoryEntryLocation) (new_size : ℕ)
      → 0 < new_size
      → get_cluster file ≢ 0
      → shrink_existing_file P fs file location new_size
        ≡ after_walk file location new_size (cluster_at fs (get_cluster file) (kept fs new_size))
  unfolding shrink_existing_file
  shrink_existing_file-walk file location new_size pos nz =
      let walk =
        after_walk file location new_size (cluster_at fs (get_cluster file) (kept fs new_size)) in
      let sized : (new_size == 0) ≡ false = ground arith in
      let started : (get_cluster file == 0) ≡ false = ground arith in
      ap
        (λ b.
          if b
          then shrink_to_nothing P fs file location
          else if get_cluster file == 0
          then (none, file, fs)
          else walk)
        sized
      ∙ ap (λ b. if b then (none, file, fs) else walk) started

-- A file that goes on through `r` and then through `s`, made to end with `r`.
module _ {S : Type 0} (P : Port S) (R : Reliable P) (fs : FatFileSystem S)
    (valid : VolumeIsValid fs) (file : DirectoryEntry) (r s : List ℕ) where
  -- The same file, on the disk as it is after the cut.
  pub Cut-Represents :
      (fs' : FatFileSystem S) (old : List ℕ) (new_size : ℕ)
      → Represents P fs file (r ++ s) old
      → new_size ≤ file.size
      → new_size < 2 ^ 32
      → new_size ≤ length (contents P fs (get_cluster file ∷ r))
      → Chain fs'.fat (get_cluster file) r
      → ((x : ℕ) → contains (get_cluster file ∷ r) x ≡ true → content P fs' x ≡ content P fs x)
      → Represents P fs' (record file { size = new_size % 2 ^ 32 }) r (take new_size old)
  unfolding get_cluster
  Cut-Represents fs' old new_size (h, e) l w large chain same =
      let c = get_cluster file in
      let size : new_size % 2 ^ 32 ≡ new_size = omega arith in
      let frame = contents-frame P fs fs' (c ∷ r) same in
      let whole = contents P fs (c ∷ (r ++ s)) in
      let parts : whole ≡ contents P fs (c ∷ r) ++ contents P fs s =
        contents-append P fs (c ∷ r) s in
      (
        record {
          regular = h.regular;
          chain = chain;
          numbered = λ x m. h.numbered x (ground (arith, contains-append r s x));
          large_enough = omega (arith, ap length frame);
        },
        ap (λ k. take k (contents P fs' (c ∷ r))) size
            ∙ ap (take new_size) frame
            ∙ sym (take-append_le new_size (contents P fs (c ∷ r)) (contents P fs s) large)
            ∙ ap (take new_size) (sym parts)
            ∙ sym (take-take new_size file.size whole l)
            ∙ ap (take new_size) e,
      )

-- A file none of whose cells and clusters is different.
pub kept-Represents :
    {S : Type 0} (P : Port S) (fs fs' : FatFileSystem S) (g : DirectoryEntry) (t b : List ℕ)
    → Represents P fs g t b
    → fs'.fat.entries ≡ fs.fat.entries
    → ((x : ℕ)
        → contains (get_cluster g ∷ t) x ≡ true
        → (fs'.fat.fat x ≡ fs.fat.fat x) × (content P fs' x ≡ content P fs x))
    → Represents P fs' g t b
kept-Represents P fs fs' g t b (h, e) size same =
    let frame = contents-frame P fs fs' (get_cluster g ∷ t) (λ x m. (same x m).1) in
    let large = h.large_enough in
    (
      record {
        regular = h.regular;
        chain = Chain-frame fs.fat fs'.fat (get_cluster g) t size (λ x m. (same x m).0) h.chain;
        numbered = h.numbered;
        large_enough = omega (arith, ap length frame);
      },
      ap (take g.size) frame ∙ e,
    )

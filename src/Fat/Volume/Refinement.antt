-- ===== src/Fat/Volume/Refinement.antt =====
-- A file as its bytes: what `read_file` and `write_existing_file` of src/fs/fat_fs.rs do to the clusters,
-- seen as a read and a write of a list.
use bubble_os.Base.{
  ℕ, ◌+◌, ◌^◌, ◌≤◌, ◌<◌, ◌≡◌, ap, ◌∙◌, inl, inr, true, false, some, List, [], ◌∷◌, arith, ◌==◌,
  ==_iff, Bool-cases, length, take, splice, contains,
}
use bubble_os.Fat.Entry.{DirectoryEntry, get_cluster}
use bubble_os.Fat.Volume.{FatFileSystem, Port}
use bubble_os.Fat.Volume.Content.{write_existing_file, read_file}
use bubble_os.Fat.Volume.Disk.{Reliable, VolumeIsValid}
use bubble_os.Fat.Volume.Splice.{take-splice, length-splice, take-drop}
use bubble_os.Fat.Volume.Reading.{contents, FileHolds, read_file-FileHolds}
use bubble_os.Fat.Volume.Writing.{at_port, Replaced, contents-frame}
use bubble_os.Fat.Volume.Files.{FileHolds-Numbered, write_existing_file-Replaced}

-- The file with that entry is stored in the chain that begins with its first cluster and goes on
-- through `r`, and its bytes are `bytes`.
abbrev pub Represents :
    {S : Type 0} → Port S → FatFileSystem S → DirectoryEntry → List ℕ → List ℕ → Type 0
Represents P fs file r bytes =
    FileHolds P fs file r × (take file.size (contents P fs (get_cluster file ∷ r)) ≡ bytes)

-- The chains of two files have no cluster in common.
abbrev pub DisjointFrom : DirectoryEntry → List ℕ → DirectoryEntry → List ℕ → Type 0
DisjointFrom g t file r =
    (x : ℕ) → contains (get_cluster g ∷ t) x ≡ true → contains (get_cluster file ∷ r) x ≡ false

-- What a write leaves: the file with those bytes replaced, and every other file as it was.
abbrev pub Written :
    {S : Type 0}
    → Port S
    → FatFileSystem S
    → DirectoryEntry
    → List ℕ
    → ℕ
    → List ℕ
    → List ℕ
    → FatFileSystem S
    → Type 0
Written P fs file r offset bytes old fs' =
    Represents P fs' file r (splice offset bytes old)
    × ((g : DirectoryEntry) (t b : List ℕ)
        → Represents P fs g t b
        → DisjointFrom g t file r
        → Represents P fs' g t b)

splice-nil : (at : ℕ) (xs : List ℕ) → splice at [] xs ≡ xs
unfolding splice
splice-nil at xs = let e : at + 0 ≡ at = omega arith in rw e (take-drop at xs)

module _ {S : Type 0} (P : Port S) (R : Reliable P) (fs : FatFileSystem S)
    (valid : VolumeIsValid fs) where
  -- On a reliable disk and a valid volume, and where the heap has a buffer of the file's size, reading a
  -- stored file returns its bytes.
  pub read_file-Represents :
      (file : DirectoryEntry) (r bytes : List ℕ)
      → Represents P fs file r bytes
      → P.alloc fs.port file.size ≡ true
      → read_file P fs file ≡ some bytes
  unfolding read_file
  read_file-Represents file r bytes (h, e) memory = elim (Bool-cases (file.size == 0)) [
    | inl z ↦
        let empty : file.size ≡ 0 = (==_iff file.size 0).0 z in
        let none_left : [] ≡ bytes = rw empty at e in ground (arith, h.regular, none_left)
    | inr z ↦
        let pos : 0 < file.size = ground arith in
        read_file-FileHolds P R fs valid file r h memory pos ∙ ap some e
  ]

  Replaced-Written :
      (file : DirectoryEntry) (r old : List ℕ) (offset : ℕ) (bytes : List ℕ) (s : S)
      → Represents P fs file r old
      → offset + length bytes ≤ file.size
      → Replaced P fs (get_cluster file ∷ r) offset bytes (at_port fs s)
      → Written P fs file r offset bytes old (at_port fs s)
  Replaced-Written file r old offset bytes s (h, e) l (same, other) =
      let large = h.large_enough in
      let all = contents P fs (get_cluster file ∷ r) in
      let size = ap length same ∙ length-splice offset bytes all (omega arith) in
      (
        (
          record {
            regular = h.regular;
            chain = h.chain;
            numbered = h.numbered;
            large_enough = omega arith;
          },
          ap (take file.size) same
              ∙ take-splice offset bytes file.size all l large
              ∙ ap (splice offset bytes) e,
        ),
        λ g t b (hg, eg) apart.
            let num = FileHolds-Numbered P fs g t hg in
            let kept : contents P (at_port fs s) (get_cluster g ∷ t)
                ≡ contents P fs (get_cluster g ∷ t) =
              contents-frame P fs (at_port fs s) (get_cluster g ∷ t)
                (λ x m. other x (num x m) (apart x m)) in
            let enough = hg.large_enough in
            (
              record {
                regular = hg.regular;
                chain = hg.chain;
                numbered = hg.numbered;
                large_enough = omega (arith, ap length kept);
              },
              ap (take g.size) kept ∙ eg,
            ),
      )

  nothing-Written :
      (file : DirectoryEntry) (r old : List ℕ) (offset : ℕ)
      → Represents P fs file r old
      → Written P fs file r offset [] old fs
  nothing-Written file r old offset held = (rw (splice-nil offset old) held, λ g t b hg _. hg)

  -- On a reliable disk and a valid volume, `write_existing_file` on a stored file refines the replacement
  -- of bytes in a list: for bytes that lie inside the file it reports all of them as written, afterwards
  -- the file's bytes are the old ones with those replaced, and every file whose chain has no cluster in
  -- common with this one's is stored with the bytes that it had. The table and the boot sectors stay.
  pub write_existing_file-Represents :
      (file : DirectoryEntry) (r old : List ℕ) (offset : ℕ) (bytes : List ℕ)
      → Represents P fs file r old
      → file.size < 2 ^ 32
      → offset + length bytes ≤ file.size
      → (s : S) × (write_existing_file P fs file offset bytes ≡ (some (length bytes), at_port fs s))
        × Written P fs file r offset bytes old (at_port fs s)
  unfolding write_existing_file
  write_existing_file-Represents file r old offset [] held w l =
      (fs.port, ground (arith, held.0.regular), nothing-Written file r old offset held)
  write_existing_file-Represents file r old offset (x ∷ bytes) held w l =
      let (s, run, done) =
        write_existing_file-Replaced P R fs valid file r offset (x ∷ bytes) held.0 w (omega arith)
          l in
      (s, run, Replaced-Written file r old offset (x ∷ bytes) s held l done)

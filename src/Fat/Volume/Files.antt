-- ===== src/Fat/Volume/Files.antt =====
-- Files as lists of bytes: `write_existing_file` of src/fs/fat_fs.rs against `read_file`, from the first
-- cluster of the file on.
use bubble_os.Base.{
  ℕ, zero, suc, ◌+◌, ◌-◌, ◌^◌, ◌≤◌, ◌<◌, ◌≡◌, refl, sym, ap, ◌∙◌, inl, inr, Option, none, some,
  List, [], ◌∷◌, ◌++◌, arith, ltb, ltb→lt, lt→ltb, ge→ltb, Bool-cases, length, length-append,
  splice,
}
use bubble_os.Fat.Table.{next_cluster}
use bubble_os.Fat.Table.Chain.{Chain, Chain-fresh, Chain-below}
use bubble_os.Fat.Entry.{DirectoryEntry, get_cluster}
use bubble_os.Fat.Volume.{FatFileSystem, Port, cluster_size}
use bubble_os.Fat.Volume.Content.{seek, write_loop, write_at, write_existing_file}
use bubble_os.Fat.Volume.Disk.{Reliable, VolumeIsValid, content, read_cluster-content}
use bubble_os.Fat.Volume.Splice.{splice-append_right}
use bubble_os.Fat.Volume.Reading.{contents, cluster_size-pos, FileHolds}
use bubble_os.Fat.Volume.Writing.{at_port, Replaced, Numbered, write_loop-Replaced}

module _ {S : Type 0} (P : Port S) (R : Reliable P) (fs : FatFileSystem S)
    (valid : VolumeIsValid fs) where
  abbrev after_seek : List ℕ → Option (Option (ℕ × ℕ)) → Option (Option ℕ × FatFileSystem S)
  after_seek bytes none = none
  after_seek bytes (some none) = some (none, fs)
  after_seek bytes (some (some (cluster, offset))) =
      write_loop P (length bytes) fs cluster offset 0 bytes

  seek_here :
      (fuel c offset : ℕ)
      → offset < cluster_size fs
      → seek (suc fuel) fs c offset ≡ some (some (c, offset))
  unfolding seek
  seek_here fuel c offset h = rw (lt→ltb offset (cluster_size fs) h) refl

  seek_on :
      (fuel c d offset : ℕ)
      → cluster_size fs ≤ offset
      → next_cluster fs.fat c ≡ some d
      → seek (suc fuel) fs c offset ≡ seek fuel fs d (offset - cluster_size fs)
  unfolding seek
  seek_on fuel c d offset h e = rw (ge→ltb offset (cluster_size fs) h, e) refl

  -- The write succeeds, whatever its way to the first cluster that it changes.
  abbrev Succeeds : Option (Option ℕ × FatFileSystem S) → List ℕ → ℕ → List ℕ → Type 0
  Succeeds out cs offset bytes =
      (s : S) × (out ≡ some (some (length bytes), at_port fs s))
      × Replaced P fs cs offset bytes (at_port fs s)

  seek_here-Succeeds :
      (fuel c : ℕ) (r : List ℕ) (offset : ℕ) (bytes : List ℕ)
      → Chain fs.fat c r
      → Numbered fs (c ∷ r)
      → offset < cluster_size fs
      → 0 < length bytes
      → offset + length bytes ≤ length (contents P fs (c ∷ r))
      → Succeeds (after_seek bytes (seek (suc fuel) fs c offset)) (c ∷ r) offset bytes
  seek_here-Succeeds fuel c r offset bytes chain num below pos l =
      let (s, run, done) =
        write_loop-Replaced P R (length bytes) fs c r offset 0 bytes valid chain num below pos
          (omega arith) l in
      let zero_add : 0 + length bytes ≡ length bytes = omega arith in
      (
        s,
        ap (after_seek bytes) (seek_here fuel c offset below)
            ∙ run
            ∙ ap (λ k. some (some k, at_port fs s)) zero_add,
        done,
      )

  -- A write behind the first cluster leaves that cluster as it is.
  onward-Replaced :
      (s : S) (c y : ℕ) (r : List ℕ) (offset : ℕ) (bytes : List ℕ)
      → Chain fs.fat c (y ∷ r)
      → Numbered fs (c ∷ y ∷ r)
      → cluster_size fs ≤ offset
      → Replaced P fs (y ∷ r) (offset - cluster_size fs) bytes (at_port fs s)
      → Replaced P fs (c ∷ y ∷ r) offset bytes (at_port fs s)
  onward-Replaced s c y r offset bytes chain num h (same, other) =
      let (_, size) = read_cluster-content P R fs valid c in
      let rest = contents P fs (y ∷ r) in
      (
        rw (other c (num c (ground arith)) (Chain-fresh fs.fat c (y ∷ r) chain), same)
            (sym (
              splice-append_right offset bytes (content P fs c) rest (omega arith)
              ∙ ap (λ n. content P fs c ++ splice (offset - n) bytes rest) size)),
        λ x v m. other x v (ground arith),
      )

  seek-Succeeds :
      (fuel c : ℕ) (r : List ℕ) (offset : ℕ) (bytes : List ℕ)
      → Chain fs.fat c r
      → Numbered fs (c ∷ r)
      → offset < fuel
      → 0 < length bytes
      → offset + length bytes ≤ length (contents P fs (c ∷ r))
      → Succeeds (after_seek bytes (seek fuel fs c offset)) (c ∷ r) offset bytes
  seek-Succeeds zero c r offset bytes chain num f pos l = absurd (omega arith)
  seek-Succeeds (suc fuel) c [] offset bytes chain num f pos l =
      let (_, size) = read_cluster-content P R fs valid c in
      seek_here-Succeeds fuel c [] offset bytes chain num
        (omega (arith, length-append (content P fs c) [])) pos l
  seek-Succeeds (suc fuel) c (y ∷ r) offset bytes chain num f pos l =
      elim (Bool-cases (ltb offset (cluster_size fs))) [
        | inl e ↦
            seek_here-Succeeds fuel c (y ∷ r) offset bytes chain num
              (ltb→lt offset (cluster_size fs) e) pos l
        | inr e ↦
            let (_, size) = read_cluster-content P R fs valid c in
            let far : cluster_size fs ≤ offset = ground arith in
            let (s, run, done) =
              seek-Succeeds fuel y r (offset - cluster_size fs) bytes chain.2
                (λ x m. num x (ground arith)) (omega (arith, cluster_size-pos fs valid)) pos
                (omega (arith, length-append (content P fs c) (contents P fs (y ∷ r)))) in
            (
              s,
              ap (after_seek bytes) (seek_on fuel c y offset far chain.1) ∙ run,
              onward-Replaced s c y r offset bytes chain num far done,
            )
      ]

-- A chain lies in the table, and so a file's chain lies in the volume.
pub FileHolds-Numbered :
    {S : Type 0} (P : Port S) (fs : FatFileSystem S) (file : DirectoryEntry) (r : List ℕ)
    → FileHolds P fs file r
    → Numbered fs (get_cluster file ∷ r)
FileHolds-Numbered P fs file r h x m =
    (h.numbered x m, Chain-below fs.fat (get_cluster file) r h.chain x m)

module _ {S : Type 0} (P : Port S) (R : Reliable P) (fs : FatFileSystem S)
    (valid : VolumeIsValid fs) where
  -- On a reliable disk, writing bytes that are not none inside a file that its clusters hold reports all
  -- of them as written, replaces exactly those bytes of the file's clusters, and changes no cluster
  -- of the volume outside the file's chain. The table and the boot sectors stay as they are.
  pub write_existing_file-Replaced :
      (file : DirectoryEntry) (r : List ℕ) (offset : ℕ) (bytes : List ℕ)
      → FileHolds P fs file r
      → file.size < 2 ^ 32
      → 0 < length bytes
      → offset + length bytes ≤ file.size
      → (s : S) × (write_existing_file P fs file offset bytes ≡ (some (length bytes), at_port fs s))
        × Replaced P fs (get_cluster file ∷ r) offset bytes (at_port fs s)
  unfolding write_existing_file write_at
  write_existing_file-Replaced file r offset bytes h w pos l =
      let large = h.large_enough in
      let (s, run, done) =
        seek-Succeeds P R fs valid (offset + 1) (get_cluster file) r offset bytes h.chain
          (FileHolds-Numbered P fs file r h) (omega arith) pos (omega arith) in
      let first = h.numbered (get_cluster file) (ground arith) in
      (s, ground (arith, run, h.regular), done)

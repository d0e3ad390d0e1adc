-- ===== src/Fat/Volume/Reading.antt =====
-- `read_file` of src/fs/fat_fs.rs on a cluster chain that holds the file.
use bubble_os.Base.{
  ℕ, zero, suc, ◌-◌, ◌*◌, ◌≤◌, ◌<◌, ◌≡◌, refl, sym, ap, ◌∙◌, inl, inr, true, false, Option, none,
  some, List, [], ◌∷◌, ◌++◌, arith, ltb, ◌==◌, if◌then◌else◌, ltb→lt, ==_iff, Bool-cases, length,
  take, length-append, length-take-le, take_of_le, contains,
}
use bubble_os.Fat.Table.{next_cluster}
use bubble_os.Fat.Table.Chain.{Chain}
use bubble_os.Fat.Entry.{DirectoryEntry, get_cluster}
use bubble_os.Fat.Volume.{FatFileSystem, Port, cluster_size}
use bubble_os.Fat.Volume.Content.{read_loop, read_file}
use bubble_os.Fat.Volume.Disk.{Reliable, VolumeIsValid, content, read_cluster-content}
use bubble_os.Fat.Volume.Splice.{take-append_le, take-append_ge}

-- The bytes of the clusters, one after the other.
abbrev pub contents : {S : Type 0} → Port S → FatFileSystem S → List ℕ → List ℕ
contents P fs [] = []
contents P fs (c ∷ cs) = content P fs c ++ contents P fs cs

pub cluster_size-pos : {S : Type 0} (fs : FatFileSystem S) → VolumeIsValid fs → 0 < cluster_size fs
cluster_size-pos fs (h, l, _, _) = omega (arith, ap (λ n. n * fs.bs.sectors_per_cluster) h)

module _ {S : Type 0} (P : Port S) (R : Reliable P) (fs : FatFileSystem S)
    (valid : VolumeIsValid fs) where
  read_loop-last :
      (fuel c left : ℕ)
      → left ≤ cluster_size fs
      → read_loop P (suc fuel) fs c left ≡ some (some (take left (content P fs c)))
  unfolding read_loop
  read_loop-last fuel c left h =
      let (e, l) = read_cluster-content P R fs valid c in
      let size = length-take-le left (content P fs c) (omega arith) in
      rw (e, read_loop) (rw (size, (==_iff left left).1 refl) refl)

  -- The rest of a round, after the part that it reads.
  abbrev after_part : ℕ → ℕ → ℕ → List ℕ → Option (Option (List ℕ))
  after_part fuel c left part =
      if length part == left then some (some part) else elim (next_cluster fs.fat c) [
        | none ↦ some none
        | some n ↦ elim (read_loop P fuel fs n (left - length part)) [
          | none ↦ none
          | some r ↦ some (elim r [ some rest ↦ some (part ++ rest) | none ↦ none ])
        ]
      ]

  read_loop-next :
      (fuel c n left : ℕ)
      → cluster_size fs < left
      → next_cluster fs.fat c ≡ some n
      → read_loop P (suc fuel) fs c left ≡ elim (read_loop P fuel fs n (left - cluster_size fs)) [
        | none ↦ none
        | some r ↦ some (elim r [ some rest ↦ some (content P fs c ++ rest) | none ↦ none ])
      ]
  unfolding read_loop
  read_loop-next fuel c n left h e' =
      let (e, l) = read_cluster-content P R fs valid c in
      let more : (cluster_size fs == left) ≡ false = ground arith in
      ap
        (λ r. elim r [ none ↦ some none | some region ↦ after_part fuel c left (take left region) ])
        e
      ∙ ap (after_part fuel c left) (take_of_le left (content P fs c) (omega arith))
      ∙ rw (l, more, e') (rw l refl)

  pub read_loop-Chain :
      (fuel c left : ℕ) (r : List ℕ)
      → Chain fs.fat c r
      → 0 < left
      → left ≤ fuel
      → left ≤ length (contents P fs (c ∷ r))
      → read_loop P fuel fs c left ≡ some (some (take left (contents P fs (c ∷ r))))
  read_loop-Chain zero c left r chain pos h l = absurd (omega arith)
  read_loop-Chain (suc fuel) c left [] chain pos h l =
      let size = (read_cluster-content P R fs valid c).1 in
      let fits : left ≤ cluster_size fs = omega (arith, length-append (content P fs c) []) in
      read_loop-last fuel c left fits
      ∙ ap (λ b. some (some b)) (sym (take-append_le left (content P fs c) [] (omega arith)))
  read_loop-Chain (suc fuel) c left (y ∷ r) chain pos h l =
      let size = (read_cluster-content P R fs valid c).1 in
      let rest_bytes = contents P fs (y ∷ r) in
      elim (Bool-cases (ltb (cluster_size fs) left)) [
        | inr e ↦
            let fits : left ≤ cluster_size fs = ground arith in
            read_loop-last fuel c left fits
            ∙ ap (λ b. some (some b))
                (sym (take-append_le left (content P fs c) rest_bytes (omega arith)))
        | inl e ↦
            let big = ltb→lt (cluster_size fs) left e in
            let rest =
              read_loop-Chain fuel y (left - cluster_size fs) r chain.2 (omega arith)
                (omega (arith, cluster_size-pos fs valid))
                (omega (arith, length-append (content P fs c) rest_bytes)) in
            let cut = take-append_ge left (content P fs c) rest_bytes (omega arith) in
            read_loop-next fuel c y left big chain.1 ∙ rw (rest, cut, size) refl
      ]

-- A regular file: its clusters are the chain that its entry begins, hold as much as its size says and
-- have numbers from 2 on, and the kernel heap has a buffer for it.
pub record FileHolds {S : Type 0} (P : Port S) (fs : FatFileSystem S) (file : DirectoryEntry)
    (r : List ℕ) : Type 0 where
  pub regular : file.attributes ≡ 32
  pub chain : Chain fs.fat (get_cluster file) r
  pub numbered : (x : ℕ) → contains (get_cluster file ∷ r) x ≡ true → 2 ≤ x
  pub large_enough : file.size ≤ length (contents P fs (get_cluster file ∷ r))

module _ {S : Type 0} (P : Port S) (R : Reliable P) (fs : FatFileSystem S)
    (valid : VolumeIsValid fs) where
  -- On a reliable disk, a file that is not empty and whose chain holds it is read, where there is memory for it, as the first bytes
  -- of its clusters one after the other, as many as its size.
  pub read_file-FileHolds :
      (file : DirectoryEntry) (r : List ℕ)
      → FileHolds P fs file r
      → P.alloc fs.port file.size ≡ true
      → 0 < file.size
      → read_file P fs file ≡ some (take file.size (contents P fs (get_cluster file ∷ r)))
  unfolding read_file
  read_file-FileHolds file r h memory pos =
      let first = h.numbered (get_cluster file) (ground arith) in
      let loop =
        read_loop-Chain P R fs valid file.size (get_cluster file) file.size r h.chain pos
          (omega arith) h.large_enough in
      ground (arith, loop, h.regular)

-- ===== src/Fat/Volume/Stored.antt =====
-- A directory entry on the disk: `persist_directory_entry` and `read_directory_entry` of src/fs/fat_fs.rs.
use bubble_os.Base.{
  ℕ, ◌+◌, ◌*◌, ◌^◌, ◌≤◌, ◌<◌, ◌≡◌, refl, sym, ap, subst, ◌∙◌, ◌≢◌, ◌⊎◌, inl, inr, false, Option,
  none, some, List, arith, ltb, ◌==◌, if◌then◌else◌, ==_iff, Bool-cases, length, take, drop, splice,
}
use bubble_os.Fat.Entry.{DirectoryEntry}
use bubble_os.Fat.Entry.Bytes.{
  entry_bytes, entry_of_bytes, EntryIsValid, length-entry_bytes, entry_of_bytes-entry_bytes,
}
use bubble_os.Fat.Volume.{write_cluster, read_cluster, FatFileSystem, Port, cluster_size}
use bubble_os.Fat.Volume.Disk.{
  Reliable, VolumeIsValid, content, written, read_cluster-content, write_cluster-written,
  content-written_self, content-written_ne,
}
use bubble_os.Fat.Volume.Splice.{
  length-splice, drop-splice_self, drop-splice_left, drop-splice_right,
}
use bubble_os.Fat.Volume.Slots.{
  DirectoryEntryLocation, entry_end, persist_directory_entry, read_directory_entry,
}
use bubble_os.Fat.Volume.Writing.{InVolume}

-- The place of the entry with that index in a cluster of the volume.
abbrev pub LocationIsValid : {S : Type 0} → FatFileSystem S → DirectoryEntryLocation → Type 0
LocationIsValid fs location =
    InVolume fs location.cluster
    × (location.index * 32 ≡ location.offset)
    × (location.offset + 32 ≤ cluster_size fs)
    × (cluster_size fs < 2 ^ 64)

entry_end_lem :
    {S : Type 0} (fs : FatFileSystem S) (location : DirectoryEntryLocation)
    → LocationIsValid fs location
    → entry_end location ≡ some (location.offset + 32)
unfolding entry_end
entry_end_lem fs location (_, e, l, w) = ground arith

module _ {S : Type 0} (P : Port S) (R : Reliable P) (fs : FatFileSystem S)
    (valid : VolumeIsValid fs) where
  -- The rest of a read and of a write, once the end of the entry is known and the cluster is read.
  abbrev after_read : DirectoryEntryLocation → Option (List ℕ) → ℕ → Option DirectoryEntry
  after_read location r end = elim r [
    | none ↦ none
    | some region ↦
        if ltb (length region) end
        then none
        else some (entry_of_bytes (take 32 (drop location.offset region)))
  ]

  abbrev after_patch :
      DirectoryEntryLocation
      → DirectoryEntry
      → Option (List ℕ)
      → ℕ
      → Option (Unit {0}) × FatFileSystem S
  after_patch location entry r end = elim r [
    | none ↦ (none, fs)
    | some region ↦
        if ltb (length region) end
        then (none, fs)
        else let (status, fs') =
            write_cluster P fs location.cluster
              (splice location.offset (entry_bytes entry) region) in
          ((if status then some tt else none), fs')
  ]

  pub read_directory_entry_lem :
      (location : DirectoryEntryLocation)
      → LocationIsValid fs location
      → read_directory_entry P fs location
        ≡ some (entry_of_bytes (take 32 (drop location.offset (content P fs location.cluster))))
  unfolding read_directory_entry
  read_directory_entry_lem location h =
      let (e, size) = read_cluster-content P R fs valid location.cluster in
      let fits : ltb (length (content P fs location.cluster)) (location.offset + 32) ≡ false =
        ground arith in
      ap
        (λ r. elim r [
          | none ↦ none
          | some end ↦ after_read location (read_cluster P fs location.cluster) end
        ])
        (entry_end_lem fs location h)
      ∙ ap (λ r. after_read location r (location.offset + 32)) e
      ∙ rw fits refl

  -- The file system after an entry is written.
  abbrev pub stored : DirectoryEntryLocation → DirectoryEntry → FatFileSystem S
  stored location entry =
      written P fs location.cluster
        (splice location.offset (entry_bytes entry) (content P fs location.cluster))

  pub persist_directory_entry_lem :
      (location : DirectoryEntryLocation) (entry : DirectoryEntry)
      → LocationIsValid fs location
      → persist_directory_entry P fs location entry ≡ (some tt, stored location entry)
  unfolding persist_directory_entry
  persist_directory_entry_lem location entry h =
      let (e, size) = read_cluster-content P R fs valid location.cluster in
      let fits : ltb (length (content P fs location.cluster)) (location.offset + 32) ≡ false =
        ground arith in
      let w =
        write_cluster-written P R fs valid location.cluster
          (splice location.offset (entry_bytes entry) (content P fs location.cluster)) in
      ap
        (λ r. elim r [
          | none ↦ (none, fs)
          | some end ↦ after_patch location entry (read_cluster P fs location.cluster) end
        ])
        (entry_end_lem fs location h)
      ∙ ap (λ r. after_patch location entry r (location.offset + 32)) e
      ∙ rw fits (ap (λ r. ((if r.0 then some tt else none), r.1)) w)

  stored-content :
      (location : DirectoryEntryLocation) (entry : DirectoryEntry)
      → LocationIsValid fs location
      → length entry.name ≡ 11
      → content P (stored location entry) location.cluster
        ≡ splice location.offset (entry_bytes entry) (content P fs location.cluster)
  stored-content location entry (_, _, l, _) n =
      let (_, size) = read_cluster-content P R fs valid location.cluster in
      content-written_self P R fs valid location.cluster _ (
        length-splice location.offset (entry_bytes entry) (content P fs location.cluster)
          (omega (arith, length-entry_bytes entry n))
        ∙ size)

-- Two places are different.
abbrev pub Apart : DirectoryEntryLocation → DirectoryEntryLocation → Type 0
Apart a b = (a.cluster ≢ b.cluster) ⊎ (a.index ≢ b.index)

module _ {S : Type 0} (P : Port S) (R : Reliable P) (fs : FatFileSystem S)
    (valid : VolumeIsValid fs) where
  stored-read_self :
      (location : DirectoryEntryLocation) (entry : DirectoryEntry)
      → LocationIsValid fs location
      → EntryIsValid entry
      → read_directory_entry P (stored P R fs valid location entry) location ≡ some entry
  stored-read_self location entry h v =
      let (_, size) = read_cluster-content P R fs valid location.cluster in
      let n = length-entry_bytes entry v.0 in
      read_directory_entry_lem P R (stored P R fs valid location entry) valid location h
      ∙ ap (λ b. some (entry_of_bytes (take 32 (drop location.offset b))))
          (stored-content P R fs valid location entry h v.0)
      ∙ ap
          (λ k. some (
            entry_of_bytes (
              take k (
                drop location.offset
                  (splice location.offset (entry_bytes entry) (content P fs location.cluster))))))
          (sym n)
      ∙ ap (λ b. some (entry_of_bytes b))
          (drop-splice_self location.offset (entry_bytes entry) (content P fs location.cluster)
            (omega arith))
      ∙ ap some (entry_of_bytes-entry_bytes entry v)

  stored-window :
      (location place : DirectoryEntryLocation) (entry : DirectoryEntry)
      → LocationIsValid fs location
      → LocationIsValid fs place
      → length entry.name ≡ 11
      → location.index ≢ place.index
      → take 32 (
          drop place.offset
            (splice location.offset (entry_bytes entry) (content P fs location.cluster)))
        ≡ take 32 (drop place.offset (content P fs location.cluster))
  stored-window location place entry h g n d =
      let (_, size) = read_cluster-content P R fs valid location.cluster in
      let long = length-entry_bytes entry n in
      let bytes = entry_bytes entry in
      let old = content P fs location.cluster in
      elim (Bool-cases (ltb place.index location.index)) [
        | inl e ↦
            drop-splice_left location.offset bytes old place.offset 32 (omega arith) (ground arith)
        | inr e ↦
            ap (take 32) (
              drop-splice_right location.offset bytes old place.offset (omega arith) (ground arith))
      ]

  stored-read_ne :
      (location place : DirectoryEntryLocation) (entry : DirectoryEntry)
      → LocationIsValid fs location
      → LocationIsValid fs place
      → length entry.name ≡ 11
      → Apart location place
      → read_directory_entry P (stored P R fs valid location entry) place
        ≡ read_directory_entry P fs place
  stored-read_ne location place entry h g n apart =
      let fs' = stored P R fs valid location entry in
      let same : take 32 (drop place.offset (content P fs' place.cluster))
          ≡ take 32 (drop place.offset (content P fs place.cluster)) =
        elim (Bool-cases (location.cluster == place.cluster)) [
          | inl e ↦
              let c = (==_iff location.cluster place.cluster).0 e in
              let i : location.index ≢ place.index = elim apart [
                | inl d ↦ absurd (d c)
                | inr d ↦ d
              ] in
              subst
                (λ k.
                  take 32 (drop place.offset (content P fs' k))
                  ≡ take 32 (drop place.offset (content P fs k)))
                c
                (ap (λ b. take 32 (drop place.offset b))
                    (stored-content P R fs valid location entry h n)
                  ∙ stored-window location place entry h g n i)
          | inr e ↦
              ap (λ b. take 32 (drop place.offset b))
                (content-written_ne P R fs valid location.cluster place.cluster _ h.0 g.0
                  (λ c. absurd (ground arith)))
        ] in
      read_directory_entry_lem P R fs' valid place g
      ∙ ap (λ b. some (entry_of_bytes b)) same
      ∙ sym (read_directory_entry_lem P R fs valid place g)

  -- On a reliable disk and a valid volume, an entry whose fields fit their widths, written to its place
  -- in a cluster of the volume, is written with success and read back there, and at every other place
  -- of the volume's clusters the entry is read as before.
  pub read_directory_entry-persist_directory_entry :
      (location : DirectoryEntryLocation) (entry : DirectoryEntry)
      → LocationIsValid fs location
      → EntryIsValid entry
      → let (r, fs') = persist_directory_entry P fs location entry in
        (r ≡ some tt)
        × (read_directory_entry P fs' location ≡ some entry)
        × ((place : DirectoryEntryLocation)
            → LocationIsValid fs place
            → Apart location place
            → read_directory_entry P fs' place ≡ read_directory_entry P fs place)
  read_directory_entry-persist_directory_entry location entry h v =
      rw (persist_directory_entry_lem P R fs valid location entry h) (
        refl,
        stored-read_self location entry h v,
        λ place g apart. stored-read_ne location place entry h g v.0 apart,
      )

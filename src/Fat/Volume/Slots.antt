-- ===== src/Fat/Volume/Slots.antt =====
-- The slots of a directory: where an entry stands on the disk, its reads and writes there, and the
-- entries of a directory's whole cluster chain, of src/fs/fat_fs.rs.
use bubble_os.Base.{
  ℕ, zero, suc, ◌+◌, ◌*◌, ◌/◌, Option, none, some, List, [], ◌∷◌, ◌++◌, ltb, ◌==◌, if◌then◌else◌,
  length, take, drop, splice, checked_add, checked_mul,
}
use bubble_os.Fat.Table.{next_cluster}
use bubble_os.Fat.Entry.{DirectoryEntry}
use bubble_os.Fat.Entry.Bytes.{entry_size, entry_bytes, entry_of_bytes}
use bubble_os.Fat.Volume.{FatFileSystem, Port, read_cluster, write_cluster}

pub record DirectoryEntryLocation : Type 0 where
  pub cluster : ℕ
  pub index : ℕ
  pub offset : ℕ

-- A slot of a directory, free ones included.
abbrev pub Slot : Type 0
Slot = DirectoryEntry × DirectoryEntryLocation

-- The end of the entry's bytes, where the location is consistent.
unfoldable pub entry_end : DirectoryEntryLocation → Option ℕ
entry_end location = elim (checked_mul location.index entry_size) [
  | none ↦ none
  | some expected_offset ↦
      if expected_offset == location.offset then checked_add location.offset entry_size else none
]

-- `entries.iter().enumerate()`, on the entries left of the cluster's bytes.
unfoldable pub cluster_slots : ℕ → ℕ → ℕ → List ℕ → List Slot
unfolding entry_of_bytes
cluster_slots zero cluster index bytes = []
cluster_slots (suc left) cluster index bytes =
    (
      entry_of_bytes (take entry_size bytes),
      record { cluster = cluster; index = index; offset = index * entry_size },
    )
    ∷ cluster_slots left cluster (suc index) (drop entry_size bytes)

module _ {S : Type 0} (P : Port S) where
  unfoldable pub persist_directory_entry :
      FatFileSystem S
      → DirectoryEntryLocation
      → DirectoryEntry
      → Option (Unit {0}) × FatFileSystem S
  unfolding entry_end entry_bytes
  persist_directory_entry fs location entry = elim (entry_end location) [
    | none ↦ (none, fs)
    | some end ↦ elim (read_cluster P fs location.cluster) [
      | none ↦ (none, fs)
      | some region ↦
          if ltb (length region) end
          then (none, fs)
          else let (status, fs') =
              write_cluster P fs location.cluster
                (splice location.offset (entry_bytes entry) region) in
            ((if status then some tt else none), fs')
    ]
  ]

  unfoldable pub read_directory_entry :
      FatFileSystem S → DirectoryEntryLocation → Option DirectoryEntry
  unfolding entry_end entry_of_bytes
  read_directory_entry fs location = elim (entry_end location) [
    | none ↦ none
    | some end ↦ elim (read_cluster P fs location.cluster) [
      | none ↦ none
      | some region ↦
          if ltb (length region) end
          then none
          else some (entry_of_bytes (take entry_size (drop location.offset region)))
    ]
  ]

  -- The loop over a directory's clusters; the outer `none` means that the fuel ran out.
  unfoldable pub load_slots_loop :
      ℕ → FatFileSystem S → ℕ → List Slot → Option (Option (List Slot × ℕ))
  unfolding cluster_slots
  load_slots_loop zero fs cluster slots = none
  load_slots_loop (suc fuel) fs cluster slots = elim (read_cluster P fs cluster) [
    | none ↦ some none
    | some region ↦
        let slots' = slots ++ cluster_slots (length region / entry_size) cluster 0 region in
        elim (next_cluster fs.fat cluster) [
          | some n ↦ load_slots_loop fuel fs n slots'
          | none ↦ some (some (slots', cluster))
        ]
  ]

  -- The fuel is enough for every chain that ends. Where the table links clusters in a circle the source's
  -- loop goes on until memory runs out, and the model returns nothing.
  unfoldable pub load_directory_slots : FatFileSystem S → ℕ → Option (List Slot × ℕ)
  unfolding load_slots_loop
  load_directory_slots fs first_cluster =
      elim (load_slots_loop (fs.fat.entries + 1) fs first_cluster []) [ some r ↦ r | none ↦ none ]

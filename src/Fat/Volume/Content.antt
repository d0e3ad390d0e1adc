-- ===== src/Fat/Volume/Content.antt =====
-- The content of a file: `read_file`, `write_existing_file` and `zero_file_range` of src/fs/fat_fs.rs,
-- and `cluster_at`. A loop runs on fuel, and the outer `none` of what it returns means that the fuel ran
-- out.
use bubble_os.Base.{
  ℕ, zero, suc, ◌+◌, ◌-◌, min, not, Option, none, some, List, [], ◌++◌, ltb, ◌==◌, if◌then◌else◌,
  length, take, drop, splice, checked_add,
}
use bubble_os.Fat.Table.{next_cluster}
use bubble_os.Fat.Entry.{DirectoryEntry, get_cluster}
use bubble_os.Fat.Volume.{FatFileSystem, Port, cluster_size, read_cluster, write_cluster, zeros}

module _ {S : Type 0} where
  -- `for _ in 0..index`, on the rounds left.
  unfoldable pub cluster_at : FatFileSystem S → ℕ → ℕ → Option ℕ
  cluster_at fs first_cluster zero = some first_cluster
  cluster_at fs first_cluster (suc index) = elim (next_cluster fs.fat first_cluster) [
    | some n ↦ cluster_at fs n index
    | none ↦ none
  ]

  -- `while cluster_offset >= cluster_size`: the cluster of an offset, and the offset in it.
  unfoldable pub seek : ℕ → FatFileSystem S → ℕ → ℕ → Option (Option (ℕ × ℕ))
  seek zero fs cluster cluster_offset = none
  seek (suc fuel) fs cluster cluster_offset =
      if ltb cluster_offset (cluster_size fs)
      then some (some (cluster, cluster_offset))
      else elim (next_cluster fs.fat cluster) [
        | some n ↦ seek fuel fs n (cluster_offset - cluster_size fs)
        | none ↦ some none
      ]

module _ {S : Type 0} (P : Port S) where
  -- `while bytes_read < filesize`, with the bytes that are left to read.
  unfoldable pub read_loop : ℕ → FatFileSystem S → ℕ → ℕ → Option (Option (List ℕ))
  read_loop zero fs cluster left = none
  read_loop (suc fuel) fs cluster left = elim (read_cluster P fs cluster) [
    | none ↦ some none
    | some region ↦
        let part = take left region in
        if length part == left then some (some part) else elim (next_cluster fs.fat cluster) [
          | none ↦ some none
          | some n ↦ elim (read_loop fuel fs n (left - length part)) [
            | none ↦ none
            | some r ↦ some (elim r [ some rest ↦ some (part ++ rest) | none ↦ none ])
          ]
        ]
  ]

  -- A file is read into a buffer of its size; the fuel is enough where a cluster is not empty.
  unfoldable pub read_file : FatFileSystem S → DirectoryEntry → Option (List ℕ)
  unfolding get_cluster
  read_file fs file =
      if not (file.attributes == 32)
      then none
      else if file.size == 0
      then some []
      else if not (P.alloc fs.port file.size)
      then none
      else if get_cluster file == 0
      then none
      else elim (read_loop file.size fs (get_cluster file) file.size) [ some r ↦ r | none ↦ none ]

  -- `while bytes_written < bytes.len()`, with the bytes that are left to write.
  unfoldable pub write_loop :
      ℕ → FatFileSystem S → ℕ → ℕ → ℕ → List ℕ → Option (Option ℕ × FatFileSystem S)
  write_loop zero fs cluster cluster_offset bytes_written bytes = none
  write_loop (suc fuel) fs cluster cluster_offset bytes_written bytes =
      elim (read_cluster P fs cluster) [
        | none ↦ some (none, fs)
        | some region ↦
            let writable_bytes = min (length bytes) (cluster_size fs - cluster_offset) in
            let (status, fs') =
              write_cluster P fs cluster
                (splice cluster_offset (take writable_bytes bytes) region) in
            if not status
            then some ((if bytes_written == 0 then none else some bytes_written), fs')
            else let written = bytes_written + writable_bytes in
              if writable_bytes == length bytes
              then some (some written, fs')
              else elim (next_cluster fs.fat cluster) [
                | none ↦ some (none, fs')
                | some n ↦ write_loop fuel fs' n 0 written (drop writable_bytes bytes)
              ]
      ]

  -- The loops of `write_existing_file`, once it knows that there is something to write.
  unfoldable pub write_at : FatFileSystem S → ℕ → ℕ → List ℕ → Option (Option ℕ × FatFileSystem S)
  write_at fs first_cluster offset bytes = elim (seek (offset + 1) fs first_cluster offset) [
    | none ↦ none
    | some r ↦ elim r [
      | none ↦ some (none, fs)
      | some (cluster, cluster_offset) ↦ write_loop (length bytes) fs cluster cluster_offset 0 bytes
    ]
  ]

  unfoldable pub write_existing_file :
      FatFileSystem S → DirectoryEntry → ℕ → List ℕ → Option ℕ × FatFileSystem S
  unfolding get_cluster
  write_existing_file fs file offset bytes =
      if not (file.attributes == 32) then (none, fs) else elim (checked_add offset (length bytes)) [
        | none ↦ (none, fs)
        | some end ↦
            if ltb file.size end
            then (none, fs)
            else if length bytes == 0
            then (some 0, fs)
            else if get_cluster file == 0
            then (none, fs)
            else elim (write_at fs (get_cluster file) offset bytes) [
              | some r ↦ r
              | none ↦ (none, fs)
            ]
      ]

  -- `while bytes_zeroed < size`, with the number of bytes that are left.
  unfoldable pub zero_loop :
      ℕ → FatFileSystem S → ℕ → ℕ → ℕ → Option (Option (Unit {0}) × FatFileSystem S)
  zero_loop zero fs cluster cluster_offset left = none
  zero_loop (suc fuel) fs cluster cluster_offset left = elim (read_cluster P fs cluster) [
    | none ↦ some (none, fs)
    | some region ↦
        let zero_size = min left (cluster_size fs - cluster_offset) in
        let (status, fs') =
          write_cluster P fs cluster (splice cluster_offset (zeros zero_size) region) in
        if not status
        then some (none, fs')
        else if zero_size == left
        then some (some tt, fs')
        else elim (next_cluster fs.fat cluster) [
          | none ↦ some (none, fs')
          | some n ↦ zero_loop fuel fs' n 0 (left - zero_size)
        ]
  ]

  zero_at : FatFileSystem S → ℕ → ℕ → ℕ → Option (Option (Unit {0}) × FatFileSystem S)
  zero_at fs first_cluster offset size = elim (seek (offset + 1) fs first_cluster offset) [
    | none ↦ none
    | some r ↦ elim r [
      | none ↦ some (none, fs)
      | some (cluster, cluster_offset) ↦ zero_loop size fs cluster cluster_offset size
    ]
  ]

  unfoldable pub zero_file_range : FatFileSystem S → ℕ → ℕ → ℕ → Option (Unit {0}) × FatFileSystem S
  unfolding zero_at
  zero_file_range fs first_cluster offset size =
      if size == 0
      then (some tt, fs)
      else elim (zero_at fs first_cluster offset size) [ some r ↦ r | none ↦ (none, fs) ]

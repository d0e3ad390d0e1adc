-- ===== src/Fat/Volume.antt =====
-- `FATFileSystem` of src/fs/fat_fs.rs with the boot sectors of src/fs/fat.rs: the geometry of the volume,
-- and the reads and writes of its clusters and of its table through the disk port.
-- Numbers of `usize` wrap at 2 ^ 64 where the source's could leave that range; the sectors of a table and
-- the bytes of a cluster are products of fields of 8, 16 and 32 bits, so that they do not.
pub mod Content
pub mod Disk
pub mod Splice
pub mod Reading
pub mod Writing
pub mod Files
pub mod Refinement
pub mod Slots
pub mod Stored
pub mod Cut
pub mod Persist
pub mod Kept
pub mod Shrink
pub mod Mount
pub mod Remount
mod TestDisk
mod Tests
pub mod Resize
use bubble_os.Base.{
  ℕ, zero, suc, ◌+◌, ◌-◌, ◌*◌, ◌/◌, ◌%◌, ◌^◌, Bool, false, not, Option, none, some, List, [], ◌∷◌,
  ◌==◌, if◌then◌else◌, ◌>>=◌, ◌>>◌, word_mod,
}
use bubble_os.Fat.Table.{FatBuffer}

pub record FatBootSector : Type 0 where
  pub bootjmp : List ℕ
  pub oem_name : List ℕ
  pub bytes_per_sector : ℕ
  pub sectors_per_cluster : ℕ
  pub reserved_sector_count : ℕ
  pub table_count : ℕ
  pub root_entry_count : ℕ
  pub total_sectors_16 : ℕ
  pub media_type : ℕ
  pub table_size_16 : ℕ
  pub sectors_per_track : ℕ
  pub head_side_count : ℕ
  pub hidden_sector_count : ℕ
  pub total_sectors_32 : ℕ

pub record Fat32ExtendedBootSector : Type 0 where
  pub table_size : ℕ
  pub extended_flags : ℕ
  pub fat_version : ℕ
  pub root_cluster : ℕ
  pub fat_info : ℕ
  pub backup_bs_sector : ℕ
  pub reserved_0 : List ℕ
  pub drive_number : ℕ
  pub reserved_1 : ℕ
  pub boot_signature : ℕ
  pub volume_id : ℕ
  pub volume_label : List ℕ
  pub fat_type_label : List ℕ

-- What the volume calls of `AHCIPort`, over the state `S` of the disk and of the port. `read` is given
-- the first sector, the number of sectors and the buffer, and returns the buffer that it filled.
-- `alloc` tells whether the kernel heap has a buffer of that many bytes; where the source panics
-- without one, the model goes on.
pub record Port (S : Type 0) : Type 0 where
  pub read : S → ℕ → ℕ → List ℕ → Option (List ℕ)
  pub write_sectors : S → ℕ → ℕ → List ℕ → Bool × S
  pub alloc : S → ℕ → Bool

pub record FatFileSystem (S : Type 0) : Type 0 where
  pub port : S
  pub fat : FatBuffer
  pub bs : FatBootSector
  pub bs_32 : Fat32ExtendedBootSector

-- `write_bytes(buffer, 0, size)`
abbrev pub zeros : ℕ → List ℕ
zeros zero = []
zeros (suc n) = 0 ∷ zeros n

-- The little-endian bytes of the first `n` cells from cell `i` on.
unfoldable pub cell_bytes : (ℕ → ℕ) → ℕ → ℕ → List ℕ
cell_bytes m i zero = []
cell_bytes m i (suc n) =
    m i % 256 ∷ m i / 256 % 256 ∷ m i / 65536 % 256 ∷ m i / 16777216 % 256 ∷ cell_bytes m (suc i) n

-- The memory behind `as_ptr`.
abbrev pub table_bytes : FatBuffer → List ℕ
table_bytes f = cell_bytes f.fat 0 f.entries

module _ {S : Type 0} where
  -- `first_data_sector` of `get_sector`
  abbrev pub first_data_sector : FatFileSystem S → ℕ
  first_data_sector fs = fs.bs.reserved_sector_count + fs.bs.table_count * fs.bs_32.table_size

  -- `cluster - 2` wraps below 2.
  unfoldable pub get_sector : FatFileSystem S → ℕ → ℕ
  get_sector fs cluster =
      (first_data_sector fs + (cluster + (word_mod - 2)) * fs.bs.sectors_per_cluster) % word_mod

  abbrev pub cluster_size : FatFileSystem S → ℕ
  cluster_size fs = fs.bs.bytes_per_sector * fs.bs.sectors_per_cluster

  unfoldable pub clusters_for_size : FatFileSystem S → ℕ → ℕ
  clusters_for_size fs size =
      if size == 0 then 0 else (size + cluster_size fs - 1) / cluster_size fs

  unfoldable pub sectors_per_fat : FatFileSystem S → ℕ
  sectors_per_fat fs = if fs.bs.table_size_16 == 0 then fs.bs_32.table_size else fs.bs.table_size_16

  unfoldable pub fat_start_sector : FatFileSystem S → ℕ → ℕ
  unfolding sectors_per_fat
  fat_start_sector fs table_index = fs.bs.reserved_sector_count + table_index * sectors_per_fat fs

  module _ (P : Port S) where
    unfoldable pub read_cluster : FatFileSystem S → ℕ → Option (List ℕ)
    unfolding get_sector
    read_cluster fs cluster =
        P.read fs.port (get_sector fs cluster) fs.bs.sectors_per_cluster (zeros (cluster_size fs))

    unfoldable pub write_cluster : FatFileSystem S → ℕ → List ℕ → Bool × FatFileSystem S
    unfolding get_sector
    write_cluster fs cluster buffer =
        let (status, port) =
          P.write_sectors fs.port (get_sector fs cluster) fs.bs.sectors_per_cluster buffer in
        (status, record fs { port = port })

    unfoldable pub clear_cluster : FatFileSystem S → ℕ → Bool × FatFileSystem S
    unfolding write_cluster
    clear_cluster fs cluster =
        if P.alloc fs.port (cluster_size fs)
        then write_cluster fs cluster (zeros (cluster_size fs))
        else (false, fs)

    -- `for table_index in 0..self.bs.table_count`, on the copies left.
    unfoldable pub persist_fat_from : ℕ → FatFileSystem S → ℕ → Option (Unit {0}) × FatFileSystem S
    unfolding sectors_per_fat fat_start_sector
    persist_fat_from zero fs table_index = (some tt, fs)
    persist_fat_from (suc left) fs table_index =
        let (status, port) =
          P.write_sectors fs.port (fat_start_sector fs table_index) (sectors_per_fat fs)
            (table_bytes fs.fat) in
        let fs' = record fs { port = port } in
        let rest = persist_fat_from left fs' (suc table_index) in
        if status then rest else (none, fs')

    unfoldable pub persist_fat : FatFileSystem S → Option (Unit {0}) × FatFileSystem S
    unfolding persist_fat_from
    persist_fat fs = persist_fat_from fs.bs.table_count fs 0

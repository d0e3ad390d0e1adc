-- ===== src/Fat/Volume/Mount.antt =====
-- The mount of a volume: `read_boot_sector`, `read_fat` and `FATFileSystem::new` of src/fs/fat_fs.rs.
use bubble_os.Base.{ℕ, ◌*◌, ◌/◌, not, Option, none, some, List, ◌==◌, if◌then◌else◌, take, drop}
use bubble_os.Fat.Table.{FatBuffer}
use bubble_os.Fat.Entry.Bytes.{byte_at, u16_at, u32_at}
use bubble_os.Fat.Volume.{FatFileSystem, FatBootSector, Fat32ExtendedBootSector, Port, zeros}

-- The packed layouts of the two boot sectors.
unfoldable pub boot_sector_of_bytes : List ℕ → FatBootSector
boot_sector_of_bytes bytes = record {
  bootjmp = take 3 bytes;
  oem_name = take 8 (drop 3 bytes);
  bytes_per_sector = u16_at bytes 11;
  sectors_per_cluster = byte_at bytes 13;
  reserved_sector_count = u16_at bytes 14;
  table_count = byte_at bytes 16;
  root_entry_count = u16_at bytes 17;
  total_sectors_16 = u16_at bytes 19;
  media_type = byte_at bytes 21;
  table_size_16 = u16_at bytes 22;
  sectors_per_track = u16_at bytes 24;
  head_side_count = u16_at bytes 26;
  hidden_sector_count = u32_at bytes 28;
  total_sectors_32 = u32_at bytes 32;
}

unfoldable pub extended_boot_sector_of_bytes : List ℕ → Fat32ExtendedBootSector
extended_boot_sector_of_bytes bytes = record {
  table_size = u32_at bytes 0;
  extended_flags = u16_at bytes 4;
  fat_version = u16_at bytes 6;
  root_cluster = u32_at bytes 8;
  fat_info = u16_at bytes 12;
  backup_bs_sector = u16_at bytes 14;
  reserved_0 = take 12 (drop 16 bytes);
  drive_number = byte_at bytes 28;
  reserved_1 = byte_at bytes 29;
  boot_signature = byte_at bytes 30;
  volume_id = u32_at bytes 31;
  volume_label = take 11 (drop 35 bytes);
  fat_type_label = take 8 (drop 46 bytes);
}

-- `size_of::<FatBootSector>()`
abbrev pub bs_size : ℕ
bs_size = 36

-- The table that the raw pointer reaches, in cells of 32 bits.
unfoldable pub table_of_bytes : List ℕ → ℕ → FatBuffer
table_of_bytes buffer num_fat_entries = record {
  fat = λ i. u32_at buffer (4 * i);
  entries = num_fat_entries;
}

module _ {S : Type 0} (P : Port S) where
  unfoldable pub read_boot_sector : S → Option (FatBootSector × Fat32ExtendedBootSector)
  unfolding boot_sector_of_bytes extended_boot_sector_of_bytes
  read_boot_sector port =
      if not (P.alloc port 512) then none else elim (P.read port 0 1 (zeros 512)) [
        | none ↦ none
        | some buffer ↦
            some (boot_sector_of_bytes buffer, extended_boot_sector_of_bytes (drop bs_size buffer))
      ]

  -- The sectors of the table, its buffer and the read of it.
  unfoldable pub read_fat : S → FatBootSector → Fat32ExtendedBootSector → Option FatBuffer
  unfolding table_of_bytes
  read_fat port bs bs_32 =
      let sectors_per_fat = if bs.table_size_16 == 0 then bs_32.table_size else bs.table_size_16 in
      let fat_size_bytes = sectors_per_fat * bs.bytes_per_sector in
      if not (P.alloc port fat_size_bytes)
      then none
      else elim (P.read port bs.reserved_sector_count sectors_per_fat (zeros fat_size_bytes)) [
        | none ↦ none
        | some buffer ↦ some (table_of_bytes buffer (fat_size_bytes / 4))
      ]

  -- `FATFileSystem::new`
  unfoldable pub new_file_system : S → Option (FatFileSystem S)
  unfolding read_boot_sector read_fat
  new_file_system port = elim (read_boot_sector port) [
    | none ↦ none
    | some (bs, bs_32) ↦ elim (read_fat port bs bs_32) [
      | none ↦ none
      | some fat ↦ some (record { port = port; fat = fat; bs = bs; bs_32 = bs_32 })
    ]
  ]

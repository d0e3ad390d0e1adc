-- ===== src/Fat/Volume/Tests.antt =====
-- The volume tried on a disk in memory: sectors of 512 bytes, one to a cluster, and one file in clusters
-- 2 and 3.
use bubble_os.Base.{
  ℕ, ◌%◌, ◌^◌, ◌<◌, ◌≡◌, refl, false, ◌||◌, some, [], ◌∷◌, arith, ◌==◌, if◌then◌else◌, take, drop,
  length-append, contains,
}
use bubble_os.Fat.Table.{FatBuffer, next_cluster, fat_cluster_eof}
use bubble_os.Fat.Table.Chain.{Chain}
use bubble_os.Fat.Entry.{DirectoryEntry, get_cluster}
use bubble_os.Fat.Volume.{
  persist_fat, sectors_per_fat, FatFileSystem, FatBootSector, Fat32ExtendedBootSector,
}
use bubble_os.Fat.Volume.Content.{write_existing_file, read_file}
use bubble_os.Fat.Volume.Disk.{content, VolumeIsValid, read_cluster-content}
use bubble_os.Fat.Volume.Reading.{contents}
use bubble_os.Fat.Volume.Writing.{at_port}
use bubble_os.Fat.Volume.Refinement.{
  Represents, Written, read_file-Represents, write_existing_file-Represents,
}
use bubble_os.Fat.Volume.TestDisk.{TestBytes, test_disk, test_disk-Reliable}
use bubble_os.Fat.Entry.Bytes.{EntryIsValid}
use bubble_os.Fat.Volume.Slots.{
  read_directory_entry, persist_directory_entry, DirectoryEntryLocation,
}
use bubble_os.Fat.Volume.Stored.{
  read_directory_entry-persist_directory_entry, Apart, LocationIsValid,
}
use bubble_os.Fat.Volume.Resize.{shrink_existing_file}
use bubble_os.Fat.Volume.Kept.{kept}
use bubble_os.Fat.Volume.Shrink.{shrink_existing_file-Represents, Shrunk}
use bubble_os.Fat.Volume.Mount.{read_fat}
use bubble_os.Fat.Volume.Remount.{read_fat-persist_fat}

abbrev test_bs : FatBootSector
test_bs = record {
  bootjmp = [];
  oem_name = [];
  bytes_per_sector = 512;
  sectors_per_cluster = 1;
  reserved_sector_count = 1;
  table_count = 2;
  root_entry_count = 0;
  total_sectors_16 = 0;
  media_type = 0xF8;
  table_size_16 = 0;
  sectors_per_track = 0;
  head_side_count = 0;
  hidden_sector_count = 0;
  total_sectors_32 = 131;
}

abbrev test_bs_32 : Fat32ExtendedBootSector
test_bs_32 = record {
  table_size = 1;
  extended_flags = 0;
  fat_version = 0;
  root_cluster = 4;
  fat_info = 0;
  backup_bs_sector = 0;
  reserved_0 = [];
  drive_number = 0;
  reserved_1 = 0;
  boot_signature = 0x29;
  volume_id = 0;
  volume_label = [];
  fat_type_label = [];
}

-- Cluster 2 goes on in 3, and the directory stands in 4.
abbrev test_fs : FatFileSystem TestBytes
test_fs = record {
  port = λ x. 7;
  fat = record {
    fat = λ c. if c == 2 then 3 else if c == 3 || c == 4 then fat_cluster_eof else 0;
    entries = 128;
  };
  bs = test_bs;
  bs_32 = test_bs_32;
}

abbrev test_file : DirectoryEntry
test_file = record {
  name = 65 ∷ 32 ∷ 32 ∷ 32 ∷ 32 ∷ 32 ∷ 32 ∷ 32 ∷ 32 ∷ 32 ∷ 32 ∷ [];
  attributes = 32;
  reserved = 0;
  creation_time_centiseconds = 0;
  creation_time = 0;
  creation_date = 0;
  last_accessed_date = 0;
  first_cluster_high = 0;
  modified_time = 0;
  modified_date = 0;
  first_cluster_low = 2;
  size = 600;
}

test_fs-IsValid : VolumeIsValid test_fs
test_fs-IsValid = (refl, omega arith, refl, omega arith)

test_file-Chain_end : Chain test_fs.fat 3 []
unfolding next_cluster
test_file-Chain_end = (omega arith, refl)

test_file-Chain : Chain test_fs.fat 2 (3 ∷ [])
unfolding next_cluster
test_file-Chain = (omega arith, refl, test_file-Chain_end)

test_file-Represents :
    Represents test_disk test_fs test_file
      (3 ∷ [])
      (take 600 (contents test_disk test_fs (2 ∷ 3 ∷ [])))
unfolding get_cluster next_cluster
test_file-Represents = (
  record {
    regular = refl;
    chain = test_file-Chain;
    numbered = λ x m. ground arith;
    large_enough = omega (
      arith,
      (read_cluster-content test_disk test_disk-Reliable test_fs test_fs-IsValid 2).1,
      (read_cluster-content test_disk test_disk-Reliable test_fs test_fs-IsValid 3).1,
      length-append (content test_disk test_fs 2) (contents test_disk test_fs (3 ∷ [])),
      length-append (content test_disk test_fs 3) [],
    );
  },
  refl,
)

-- The bytes 1 and 2 at 511 lie in both clusters.
write_existing_file-Represents_example :
    (s : TestBytes) × (write_existing_file test_disk test_fs test_file 511 (1 ∷ 2 ∷ [])
      ≡ (some 2, at_port test_fs s))
    × Written test_disk test_fs test_file
        (3 ∷ [])
        511
        (1 ∷ 2 ∷ [])
        (take 600 (contents test_disk test_fs (2 ∷ 3 ∷ [])))
        (at_port test_fs s)
write_existing_file-Represents_example =
    write_existing_file-Represents test_disk test_disk-Reliable test_fs test_fs-IsValid test_file
      (3 ∷ []) (take 600 (contents test_disk test_fs (2 ∷ 3 ∷ []))) 511 (1 ∷ 2 ∷ [])
      test_file-Represents (omega arith) (omega arith)

read_file-Represents_example :
    read_file test_disk test_fs test_file
    ≡ some (take 600 (contents test_disk test_fs (2 ∷ 3 ∷ [])))
read_file-Represents_example =
    read_file-Represents test_disk test_disk-Reliable test_fs test_fs-IsValid test_file (3 ∷ [])
      (take 600 (contents test_disk test_fs (2 ∷ 3 ∷ []))) test_file-Represents refl

-- Its entry is the first one of the directory in cluster 4.
abbrev test_location : DirectoryEntryLocation
test_location = record { cluster = 4; index = 0; offset = 0 }

test_file-IsValid : EntryIsValid test_file
test_file-IsValid = (
  refl,
  omega arith,
  omega arith,
  omega arith,
  omega arith,
  omega arith,
  omega arith,
  omega arith,
  omega arith,
)

test_location-IsValid : LocationIsValid test_fs test_location
test_location-IsValid = ((omega arith, omega arith), refl, omega arith, omega arith)

read_directory_entry-persist_directory_entry_example :
    let (r, fs') = persist_directory_entry test_disk test_fs test_location test_file in
    (r ≡ some tt)
    × (read_directory_entry test_disk fs' test_location ≡ some test_file)
    × ((place : DirectoryEntryLocation)
        → LocationIsValid test_fs place
        → Apart test_location place
        → read_directory_entry test_disk fs' place ≡ read_directory_entry test_disk test_fs place)
read_directory_entry-persist_directory_entry_example =
    read_directory_entry-persist_directory_entry test_disk test_disk-Reliable test_fs
      test_fs-IsValid test_location test_file test_location-IsValid test_file-IsValid

test_location-far : contains (get_cluster test_file ∷ 3 ∷ []) 4 ≡ false
unfolding get_cluster
test_location-far = refl

test_fs-table : 0 < sectors_per_fat test_fs
unfolding sectors_per_fat
test_fs-table = omega arith

-- Of 600 bytes in two clusters 100 stay, in one.
shrink_existing_file-Represents_example :
    (fs' : FatFileSystem TestBytes) × (shrink_existing_file test_disk test_fs test_file
        test_location 100
      ≡ (some tt, record test_file { size = 100 % 2 ^ 32 }, fs'))
    × Shrunk test_disk test_fs test_file test_location 100
        (take (kept test_fs 100) (3 ∷ []))
        (drop (kept test_fs 100) (3 ∷ []))
        (take 600 (contents test_disk test_fs (2 ∷ 3 ∷ [])))
        fs'
shrink_existing_file-Represents_example =
    shrink_existing_file-Represents test_disk test_disk-Reliable test_fs test_fs-IsValid test_file
      (3 ∷ []) (take 600 (contents test_disk test_fs (2 ∷ 3 ∷ []))) test_location 100
      test_file-Represents test_file-IsValid test_location-IsValid test_location-far test_fs-table
      (omega arith) (omega arith)

test_fs-cells : (x : ℕ) → test_fs.fat.fat x < 2 ^ 32
test_fs-cells x = ground arith

read_fat-persist_fat_example :
    let fs' = (persist_fat test_disk test_fs).1 in
    (f : FatBuffer) × (read_fat test_disk fs'.port test_bs test_bs_32 ≡ some f)
    × (f.entries ≡ 128)
    × ((i : ℕ) → i < 128 → f.fat i ≡ test_fs.fat.fat i)
unfolding sectors_per_fat
read_fat-persist_fat_example =
    read_fat-persist_fat test_disk test_disk-Reliable test_fs test_fs-IsValid test_fs-table
      (omega arith) (omega arith) test_fs-cells refl

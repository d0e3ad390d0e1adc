-- ===== src/Fat/Directory/Handle.antt =====
-- `FATFile` of src/fs/fat_fs.rs: an open file, which looks its entry up on the disk at each call, as the
-- interface to a file that the descriptor tables use. The weak reference to the file system is alive while the volume
-- is mounted, and the locks of the calls are not modelled.
use bubble_os.Base.{ℕ, Option, none, some, List}
use bubble_os.Path.{Str}
use bubble_os.Fat.Entry.{DirectoryEntry}
use bubble_os.Fat.Volume.{FatFileSystem, Port}
use bubble_os.Fat.Volume.Content.{read_file, write_existing_file}
use bubble_os.Fat.Volume.Slots.{
  DirectoryEntryLocation, read_directory_entry, persist_directory_entry,
}
use bubble_os.Fat.Volume.Resize.{truncate_existing_file}

pub record FatFile : Type 0 where
  pub entry : DirectoryEntry
  pub name : Str
  pub location : DirectoryEntryLocation

module _ {S : Type 0} (P : Port S) where
  unfoldable pub file_size : FatFileSystem S → FatFile → ℕ
  file_size fs file = elim (read_directory_entry P fs file.location) [
    | some entry ↦ entry.size
    | none ↦ file.entry.size
  ]

  unfoldable pub file_read : FatFileSystem S → FatFile → Option (List ℕ)
  file_read fs file = elim (read_directory_entry P fs file.location) [
    | some entry ↦ read_file P fs entry
    | none ↦ none
  ]

  unfoldable pub file_write : FatFileSystem S → FatFile → ℕ → List ℕ → Option ℕ × FatFileSystem S
  file_write fs file offset bytes = elim (read_directory_entry P fs file.location) [
    | none ↦ (none, fs)
    | some entry ↦
        let (written, fs1) = write_existing_file P fs entry offset bytes in
        elim written [
          | none ↦ (none, fs1)
          | some bytes_written ↦
              let (r, fs2) = persist_directory_entry P fs1 file.location entry in
              elim r [ none ↦ (none, fs2) | some _ ↦ (some bytes_written, fs2) ]
        ]
  ]

  unfoldable pub file_truncate :
      FatFileSystem S → FatFile → ℕ → Option (Unit {0}) × FatFile × FatFileSystem S
  file_truncate fs file size =
      let (r, entry, fs') = truncate_existing_file P fs file.entry file.location size in
      (r, record file { entry = entry }, fs')

-- ===== src/Fat.antt =====
-- src/fs/fat_fs.rs, src/fs/fat.rs: the FAT32 file system.
pub mod Table
pub mod Entry
pub mod Name
pub mod Volume
pub mod Directory

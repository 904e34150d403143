-- ===== src/Fs.antt =====
-- fs: whole objects on the filesystem.
pub mod Error
pub mod Layout
pub mod Prefix
pub mod Object
pub mod Disk
pub mod Support
pub mod TempFile
pub mod Writer
pub mod Store
pub mod Encoder
pub mod AsyncWriter
pub mod AsyncObject
pub mod AsyncStore

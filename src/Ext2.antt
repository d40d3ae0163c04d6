-- ===== src/Ext2.antt =====
-- The file system on the disk.
pub mod Bitmap
pub mod Volume
pub mod Directory
pub mod Files

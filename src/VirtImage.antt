-- ===== src/VirtImage.antt =====
-- The virtual image of src/xmount.c: what FUSE reads and writes.
pub mod State
pub mod Morphed
pub mod Get
pub mod Set
pub mod Vhd
pub mod Vdi
pub mod CacheFile
mod Tests

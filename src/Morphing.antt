-- ===== src/Morphing.antt =====
-- The morphing libraries, and the interface through which they reach the input images
-- (libxmount_morphing/libxmount_morphing.h).
pub mod Images
pub mod Combine
pub mod Raid
pub mod Swab
pub mod Unallocated

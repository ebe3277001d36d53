-- ===== src/Extents.antt =====
-- The extents of files in the pool of extents.
pub mod Fill
pub mod Held

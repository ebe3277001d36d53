-- ===== src/Fiemap/Tree.antt =====
-- What the index of src/xal_be_fiemap.c leaves: the inodes of files and sorted directories, named
-- by their paths.
pub mod Region
pub mod Listing
pub mod Files
pub mod Named
pub mod Filling
pub mod Entries
pub mod Fill
pub mod Dirs
pub mod Built

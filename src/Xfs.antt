-- ===== src/Xfs.antt =====
-- src/xal_be_xfs.c: the backend that reads the on-disk format of XFS.
pub mod ExtentRecord
pub mod Btree
pub mod State
pub mod Device
pub mod Dentry
pub mod DirBlock
pub mod Iab3
pub mod FileBtree
pub mod DirBtree
pub mod Dirs
pub mod ProcessIno
pub mod Open
pub mod Tests

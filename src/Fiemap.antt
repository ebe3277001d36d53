-- ===== src/Fiemap.antt =====
-- The FIEMAP backend: src/xal_be_fiemap.c and src/xal_be_fiemap_inotify.c.
pub mod State
pub mod Watch
pub mod Files
pub mod Index
pub mod Events
pub mod Open
pub mod Keeps
pub mod Frames
pub mod Ends
pub mod Depth
pub mod Running
pub mod Tests
pub mod Empty
pub mod RootUpdate
pub mod Stored
pub mod Locks
pub mod Search
pub mod Tree

-- ===== src/Lib.antt =====
-- xal reads the metadata of a mounted or unmounted file system from its block device and keeps an
-- index of it in memory: a tree of inodes, and for each file its extents on the disk.
--
-- The program. `xal_open` (src/xal.c) takes a backend. The XFS backend (src/xal_be_xfs.c) reads the
-- superblock and the headers of the allocation groups, retrieves all dinodes through the inode
-- B+trees of the groups into a hash table, and then decodes the tree of directories from the root
-- dinode on. Inodes and extents are elements of two pools (src/xal_pool.c), fixed mappings out of
-- which consecutive elements are handed out by index; a directory's children and a file's extents
-- are an index and a count there. The FIEMAP backend (src/xal_be_fiemap.c) fills the same pools from a
-- mounted file system, by readdir() and the FIEMAP ioctl; an inode has its path as its name there, and
-- inodes are looked up by path, by a binary search in each directory or in a hash table. A thread
-- (src/xal_be_fiemap_inotify.c) reads inotify events meanwhile, updates the extents of files that were
-- written, and marks the index dirty where names came or went. `seq_lock` is stepped before and after
-- the index or an inode is modified.
--
-- The files.
--   Result, Word, Prelude: the int returns of the C code, size_t and uint32_t arithmetic, and
--     helpers on Booleans and lists.
--   Pool: src/xal_pool.c, `struct xal_pool` and one function for each of its own (`map_pool` is
--     `xal_pool_map`). Pool/Bounds has the invariant of a pool, Pool/Claims what claims hand out,
--     Pool/Lifecycle what map and clear leave.
--   Types: the structures of include/libxal.h and include/xal.h.
--   Geometry: block and inode numbers, from src/xal.c and src/xal_be_xfs.c.
--   Convert: `xal_extent_in_bytes` and `xal_extent_in_lba` of src/xal.c.
--   Bytes: buffers and their big-endian fields.
--   Xfs: src/xal_be_xfs.c. Xfs/State is `struct xal` with `struct xal_be_xfs`; ExtentRecord and
--     Btree decode records and node layouts; Device reads; Dentry and DirBlock decode directory
--     blocks, with the bytes of a block in DirBlock/Listing; Iab3 retrieves the dinodes; FileBtree
--     decodes the extents of files, with the bytes of those in a dinode in FileBtree/Inline,
--     DirBtree and Dirs the directories, with the bytes of the short form in Dirs/Encoding and
--     what is read of them in Dirs/ShortForm, ProcessIno dispatches on the dinode, and Open reads
--     the headers.
--     A function has the name of the C function, without the prefix `xal_`.
--   Handle: what the two backends share when they open a handle.
--   Paths: C strings and the functions of string.h on them; Paths/Order and Paths/Parts have their laws.
--   Extents: what a claim and the stores into it leave, for both backends.
--   Fiemap: src/xal_be_fiemap.c and src/xal_be_fiemap_inotify.c. Fiemap/State is `struct xal` with
--     `struct xal_be_fiemap`; Open, Index, Files and Search are the functions of the first file, Watch
--     and Events of the second. Search/Named says what an index is that the look-ups are right on,
--     Search/Traversal, Search/Table, Search/Hashmap and Search/Lookup have the look-ups; Stored the
--     extents of a file, Keeps, Frames and Locks what an index and an event leave alone, Ends and Depth
--     how deep an index recurs, and RootUpdate, Empty and Running single behaviours. Tree has
--     what an index leaves: Tree/Region and Tree/Listing say what an index and the names of a directory
--     are, Tree/Named, Tree/Filling and Tree/Entries follow the loop over the names, Tree/Fill and
--     Tree/Dirs the functions around it, and Tree/Built the whole index.
--   Core: `xal_index`, `xal_close` and `xal_from_pools` of src/xal.c, with `xal_open` in Core/Open and
--     the views of another process in Core/Views.
--   Walk: `xal_walk` and the getters of src/xal.c; Walk/Preorder has the order of a walk.
--   Print: what printf() is given, and src/pp.c with src/utils.c: Print/Records for the handle, Print/Disk
--     for the disk, Print/Inodes for `xal_inode_pp`, and Print/Ends for when that ends.
--   Cli: src/cli.c. Args is `parse_args`, Items what a command line means, Inspect the callbacks of the
--     walks, Counts what they count, Main `main`, Stats and Run what a run prints last.
--   BmapTool: tools/xal_bmap_mp_yaml.c; BmapTool/Pages has the extents of a file page by page.
--
-- State. A function that changes state takes the state and returns it with 0 or an error; the
-- order of the stores is that of the code, and nothing is rolled back on an error. An operation of
-- the FIEMAP backend runs by itself, without another thread. A pointer to an
-- inode or an extent is its index in the pool. The pools are generic in the element, and their
-- memory is a function from the index to the element.
--
-- Numbers are natural numbers; every operation that can wrap has its remainder written out.
--
-- Fuel. The loop over a directory block takes more fuel than the block has bytes, since an entry has 16
-- bytes at least or ends the loop. The recursions over B+trees and directories take the depth of the
-- tree on the disk as fuel: nothing in the code bounds it, a cycle on the disk recurs for ever.
-- The recursions over the directories of a mounted file system, and over the inodes of an index, take
-- their depth, and the search by traversal the length of the path, which it shortens in each round.
-- The block map tool takes more fuel than a file has extents, and the loop of `xal_inode_pp` over the
-- children as many rounds as its counter has values.
-- `assertion` is an assert() of the code that fails, `overrun` a store outside of the code's objects or
-- an `int` that overflows,
-- `stuck` a recursion that ran out of fuel.
--
-- Parameters. The system calls of the pool (`Kernel`, where `ChecksMapping` says that mprotect() fails on
-- pages that are not mapped), the device of libxnvme (`Device`), calloc(), errno and the hash table of
-- tp/khash.h (`Xfs.State.Env`); the mounted file system with stat(), readdir() and the ioctl, inotify,
-- pthreads, allocation, qsort() (with `IsQsort`), bsearch() (with `IsBsearch`), readdir() (with
-- `IsReaddir`) and khash (with `IsTable`) in `Fiemap.State.Env`; what the block map tool calls in
-- `BmapTool.Env` (the ioctl with `IsMapped`); how many bytes printf() writes for a number; the identifier and the namespace of libxnvme and /proc/mounts in `Core.Env`. The
-- environment is the same throughout a call. A key of the path table is a pointer to an inode's name:
-- the model keeps the bytes that it had at the put, which are the same until the next index.
--
-- Not modelled: what goes to stderr, how libc writes a number, and releasing memory where no state
-- is left to look at. A thread beside another is not modelled: neither an index while the watch
-- thread runs, nor pthread_cancel() in the middle of a round. A shift of an `int` or a `uint64_t`
-- by its width or more is taken as on x86, with its count modulo the width. Fields of the on-disk
-- format are read as big-endian where they are used, in place of a conversion of the buffer, and
-- log output is left out.
pub mod Prelude
pub mod Result
pub mod Word
pub mod Pool
pub mod Types
pub mod Handle
pub mod Geometry
pub mod Convert
pub mod Bytes
pub mod Paths
pub mod Extents
pub mod Xfs
pub mod Walk
pub mod Fiemap
pub mod Core
pub mod Print
pub mod Cli
pub mod BmapTool

-- ===== src/Fiemap/Open.antt =====
-- Opening and closing the FIEMAP backend: `retrieve_total_entries`, `xal_be_fiemap_open` and
-- `xal_be_fiemap_close` of src/xal_be_fiemap.c, with `xal_be_fiemap_inotify_close`.
use xallib.Prelude.{
  ℕ, zero, suc, ◌+◌, ◌%◌, ◌^◌, Bool, true, false, inl, inr, Option, none, some, List, [], ◌∷◌, ◌++◌,
  length, ltb, ◌==◌, if◌then◌else◌,
}
use xallib.Result.{Exec, Result, ok, err, einval, overrun, stuck, os, ◌>>◌}
use xallib.Pool.{map_pool}
use xallib.Types.{Sb, fiemap, idx_none, s_isdir, blank_inode, blank_extent}
use xallib.Handle.{
  inode_nbytes, extent_nbytes, pool_reserved, blank_pool, shm_with, suffix_inodes, suffix_extents,
  is_too_long,
}
use xallib.Paths.{path_of}
use xallib.Fiemap.State.{
  Env, Fiemap, Inotify, WatchMode, Dirent, empty_table, is_watching, on_inodes, on_extents,
}
use xallib.Fiemap.Watch.{blank_inotify, inotify_init}
use xallib.Fiemap.Index.{is_directory_member, stat_error}

-- `struct xal_opts`, less the backend; whether `file_lookupmode` is the hash map.
pub record Opts : Type 0 where
  pub watch_mode : WatchMode
  pub is_hashmap : Bool
  pub shm_name : Option (List ℕ)

-- A superblock with the two numbers that `stat` of the mountpoint gives.
abbrev pub fiemap_sb : (blocksize rootino : ℕ) → Sb
fiemap_sb blocksize rootino = record {
  blocksize = blocksize % 2 ^ 32;
  sectsize = 0;
  inodesize = 0;
  inopblock = 0;
  inopblog = 0;
  icount = 0;
  nallocated = 0;
  rootino = rootino;
  agblocks = 0;
  agblklog = 0;
  agcount = 0;
  dirblocksize = 0;
  lba_blksze = 0;
}

-- A zeroed handle with a superblock and the mountpoint.
abbrev pub candidate : (mountpoint : List ℕ) → Sb → Option Inotify → Fiemap
candidate mountpoint sb inotify = record {
  xal = record {
    inodes = blank_pool blank_inode;
    extents = blank_pool blank_extent;
    root_idx = idx_none;
    sb = sb;
    backend = fiemap;
    dirty = false;
    seq_lock = 0;
    shared_view = false;
  };
  mountpoint = mountpoint;
  inotify = inotify;
  path_inode_map = none;
}

-- An addition to `int count`, which is undefined where it overflows.
abbrev pub int_sum : ℕ → Result ℕ
int_sum n = if ltb n (2 ^ 31) then ok n else err overrun

-- The loop over a directory's entries, from a count on; `below` counts in a directory. Its failures
-- become -1, which is -EPERM.
unfoldable pub count_entries :
    (below : List ℕ → Result ℕ) (path : List ℕ) → List Dirent → (count : ℕ) → Result ℕ
count_entries below path [] count = ok count
count_entries below path (entry ∷ rest) count = elim (is_directory_member entry.d_name) [
  | false ↦ count_entries below path rest count
  | true ↦ elim entry.is_dt_dir [
    | false ↦ elim (int_sum (count + 1)) [ err e ↦ err e | ok n ↦ count_entries below path rest n ]
    | true ↦ elim (below (path_of path entry.d_name)) [
      | err e ↦ err (os 1)
      | ok children ↦ elim (int_sum (count + 1 + children)) [
        | err e ↦ err e
        | ok n ↦ count_entries below path rest n
      ]
    ]
  ]
]

module _ (env : Env) where
  -- The fuel is the depth of the directory tree.
  unfoldable pub retrieve_total_entries : (fuel : ℕ) (path : List ℕ) → Result ℕ
  retrieve_total_entries zero path = err stuck
  retrieve_total_entries (suc fuel) path =
      let below = λ (p : List ℕ). retrieve_total_entries fuel p in
      elim (env.stat path) [
        | inl e ↦ err (stat_error e)
        | inr sb ↦
            if s_isdir sb.st_mode
            then (elim (env.opendir path) [
              | inl e ↦ err (os e)
              | inr dirents ↦ count_entries below path dirents 0
            ])
            else ok 0
      ]

  -- `if (opts->watch_mode) { … }`
  unfoldable pub open_inotify : WatchMode → Result (Option Inotify)
  open_inotify watch_mode =
      if is_watching watch_mode
      then (elim env.calloc_inotify [
        | some e ↦ err (os e)
        | none ↦ elim (inotify_init env blank_inotify watch_mode) [
          | err e ↦ err e
          | ok inotify ↦ ok (some inotify)
        ]
      ])
      else ok none

  -- `if (opts->file_lookupmode == XAL_FILE_LOOKUPMODE_HASHMAP) { … }`
  unfoldable pub open_path_map : (is_hashmap : Bool) → Exec Fiemap (Unit {0})
  open_path_map is_hashmap s =
      if is_hashmap
      then if env.kh_init
        then (ok tt, record s { path_inode_map = some empty_table })
        else (err einval, s)
      else (ok tt, s)

  -- The two pools and the table, for a number of entries.
  unfoldable pub open_pools : Opts → (nallocated : ℕ) → Exec Fiemap (Unit {0})
  open_pools opts nallocated = do
    on_inodes (
        map_pool blank_inode env.kernel pool_reserved nallocated inode_nbytes
          (shm_with suffix_inodes opts.shm_name))
    on_extents (
        map_pool blank_extent env.kernel pool_reserved nallocated extent_nbytes
          (shm_with suffix_extents opts.shm_name))
    open_path_map opts.is_hashmap

  -- What follows the inotify object.
  unfoldable pub open_tree : (fuel : ℕ) → List ℕ → Opts → Option Inotify → Result Fiemap
  open_tree fuel mountpoint opts inotify = elim (retrieve_total_entries fuel mountpoint) [
    | err e ↦ err e
    | ok nallocated ↦ elim (env.stat mountpoint) [
      | inl e ↦ err (os e)
      | inr sb ↦
          if is_too_long opts.shm_name
          then err einval
          else (let (r, s) =
                open_pools opts nallocated
                  (candidate mountpoint (fiemap_sb sb.st_blksize sb.st_ino) inotify) in
              elim r [ err e ↦ err e | ok u ↦ ok s ])
    ]
  ]

  -- `xal_be_fiemap_open`. A candidate that fails is closed.
  unfoldable pub open_fiemap : (fuel : ℕ) → Option (List ℕ) → Opts → Result Fiemap
  open_fiemap fuel none opts = err einval
  open_fiemap fuel (some mountpoint) opts = elim env.calloc_xal [
    | some e ↦ err (os e)
    | none ↦ elim (env.calloc_mountpoint (length mountpoint + 1)) [
      | some e ↦ err (os e)
      | none ↦ elim (open_inotify opts.watch_mode) [
        | err e ↦ err e
        | ok inotify ↦ open_tree fuel mountpoint opts inotify
      ]
    ]
  ]

-- What closing a handle gives back, in order.
pub data Release : Type 0 where
  unmap_inodes unmap_extents unmap_dirty free_mountpoint destroy_inode_map destroy_path_map free_xal
        free_buf destroy_dinodes_map free_dinodes :
      Release
  close_fd cancel_thread : ℕ → Release

-- `xal_be_fiemap_inotify_close`
abbrev pub close_inotify : Inotify → List Release
close_inotify inotify =
    (if is_watching inotify.watch_mode then destroy_inode_map ∷ [] else [])
    ++ (if inotify.fd == 0 then [] else close_fd inotify.fd ∷ [])
    ++ (if inotify.flag % 2 == 1 then cancel_thread inotify.watch_thread_id ∷ [] else [])

-- `xal_be_fiemap_close`
unfoldable pub close_fiemap : Fiemap → List Release
close_fiemap s =
    free_mountpoint
    ∷ ((elim s.inotify [ none ↦ [] | some inotify ↦ close_inotify inotify ])
        ++ (elim s.path_inode_map [ none ↦ [] | some map ↦ destroy_path_map ∷ [] ]))

-- ===== src/Fiemap/State.antt =====
-- The state that the functions of src/xal_be_fiemap.c and src/xal_be_fiemap_inotify.c work on, and
-- what they take from the operating system, libc and tp/khash.h.
use Prim.Native.Nat.{Ordering}
use xallib.Prelude.{ℕ, Bool, ◌+◌, ◌%◌, ◌^◌, Option, none, List, ◌⊎◌, true, false, update}
use xallib.Result.{Exec, ok}
use xallib.Pool.{Kernel, Pool}
use xallib.Types.{Xal, Inode, Extent}

-- `enum xal_watchmode`
pub data WatchMode : Type 0 where
  off dirty_detection extent_update : WatchMode

-- `opts->watch_mode`, as a condition
abbrev pub is_watching : WatchMode → Bool
is_watching off = false
is_watching dirty_detection = true
is_watching extent_update = true

-- A khash table from paths to inodes, and one from watch descriptors to inodes: what `kh_get`
-- finds. The bytes of a key are those at its `kh_put`.
abbrev pub PathTable : Type 0
PathTable = List ℕ → Option ℕ

abbrev pub WdTable : Type 0
WdTable = ℕ → Option ℕ

abbrev pub empty_table : {K : Type 0} → K → Option ℕ
empty_table k = none

-- `struct xal_inotify`. Of `flag` only the bit XAL_BE_FIEMAP_INOTIFY_RUNNING is ever set.
pub record Inotify : Type 0 where
  pub watch_mode : WatchMode
  pub fd : ℕ
  pub inode_map : WdTable
  pub watch_thread_id : ℕ
  pub flag : ℕ
  pub has_cb : Bool

-- `struct xal` with its `struct xal_be_fiemap`.
pub record Fiemap : Type 0 where
  pub xal : Xal
  pub mountpoint : List ℕ
  pub inotify : Option Inotify
  pub path_inode_map : Option PathTable

-- What `stat` gives.
pub record Stat : Type 0 where
  pub st_mode : ℕ
  pub st_ino : ℕ
  pub st_size : ℕ
  pub st_blksize : ℕ

-- A directory entry; whether `d_type` is DT_DIR.
pub record Dirent : Type 0 where
  pub d_name : List ℕ
  pub is_dt_dir : Bool

-- `struct fiemap_extent`
pub record FiemapExtent : Type 0 where
  pub fe_logical : ℕ
  pub fe_physical : ℕ
  pub fe_length : ℕ
  pub fe_flags : ℕ

-- The environment, which does not change during a call. Where a call can fail, `inl e` is the
-- failure with `errno` set to `e`, and `none` the success of a call that gives nothing. `ioctl path
-- n` fills in at most `n` extents, and `mapped_extents` is what the ioctl for none gives. The
-- allocations tell whether they succeed: `strdup` of a name, `realloc` to a number of bytes, `calloc`
-- of each structure.
pub record Env : Type 0 where
  pub kernel : Kernel
  pub stat : List ℕ → ℕ ⊎ Stat
  pub opendir : List ℕ → ℕ ⊎ List Dirent
  pub open_file : List ℕ → Option ℕ
  pub mapped_extents : List ℕ → ℕ ⊎ ℕ
  pub ioctl : List ℕ → ℕ → ℕ ⊎ List FiemapExtent
  pub malloc : Bool
  pub strdup : List ℕ → Bool
  pub realloc : ℕ → Option ℕ
  pub calloc_xal : Option ℕ
  pub calloc_mountpoint : ℕ → Option ℕ
  pub calloc_inotify : Option ℕ
  pub kh_init : Bool
  pub kh_put_path : PathTable → List ℕ → ℕ → Option PathTable
  pub kh_put_wd : WdTable → ℕ → ℕ → Option WdTable
  pub inotify_init1 : ℕ ⊎ ℕ
  pub inotify_add_watch : List ℕ → ℕ ⊎ ℕ
  pub qsort : (List ℕ → List ℕ → Ordering) → List (List ℕ) → List (List ℕ)
  pub bsearch : (ℕ → Ordering) → (base count : ℕ) → Option ℕ
  pub pthread_create : ℕ ⊎ ℕ
  pub pthread_cancel : ℕ → Option ℕ
  pub pthread_setcancelstate : Option ℕ

-- The inode at an index, and stores into the pools.
abbrev pub self_at : Fiemap → ℕ → Inode
self_at s self = s.xal.inodes.memory self

abbrev pub with_xal : Fiemap → Xal → Fiemap
with_xal s x = record s { xal = x }

abbrev pub put_inode : ℕ → Inode → Exec Fiemap (Unit {0})
put_inode self inode s = (
  ok tt,
  with_xal s (record s.xal {
    inodes = record s.xal.inodes { memory = update s.xal.inodes.memory self inode };
  }),
)

abbrev pub put_content : ℕ → ℕ → ℕ → Exec Fiemap (Unit {0})
put_content self idx count s =
    put_inode self (record (self_at s self) { content = record { idx = idx; count = count } }) s

abbrev pub put_extent : ℕ → Extent → Exec Fiemap (Unit {0})
put_extent i extent s = (
  ok tt,
  with_xal s (record s.xal {
    extents = record s.xal.extents { memory = update s.xal.extents.memory i extent };
  }),
)

abbrev pub on_inodes : {A : Type 0} → Exec (Pool Inode) A → Exec Fiemap A
on_inodes m s = let (r, p) = m s.xal.inodes in (r, with_xal s (record s.xal { inodes = p }))

abbrev pub on_extents : {A : Type 0} → Exec (Pool Extent) A → Exec Fiemap A
on_extents m s = let (r, p) = m s.xal.extents in (r, with_xal s (record s.xal { extents = p }))

-- `atomic_fetch_add(&xal->seq_lock, 1)` on an `atomic_int`, kept as its 32 bits.
abbrev pub lock_step : Fiemap → Fiemap
lock_step s = with_xal s (record s.xal { seq_lock = (s.xal.seq_lock + 1) % 2 ^ 32 })

-- ===== src/Core.antt =====
-- The handle of src/xal.c: `xal_open`, `xal_close`, `xal_from_pools` and `xal_index`, which call the
-- two backends.
pub mod Open
pub mod Views
pub mod Tests
use xallib.Prelude.{
  ℕ, zero, suc, ◌+◌, ◌*◌, ◌/◌, ◌%◌, ◌^◌, Bool, true, false, ◌||◌, ◌⊎◌, inl, inr, Option, none, some,
  List, [], ◌∷◌, ◌++◌, length, ltb, ◌==◌, if◌then◌else◌,
}
use xallib.Result.{Exec, Result, ok, err, einval, enomem, overrun, os}
use xallib.Pool.{Pool, Kernel}
use xallib.Types.{Xal, Sb, Inode, Extent, Backend, unset, xfs, fiemap, idx_none}
use xallib.Handle.{inode_nbytes, extent_nbytes, path_maxlen}
use xallib.Paths.{str_eq}
use xallib.Xfs.State.{Xfs}
use xallib.Xfs.Open.{xfs_open}
use xallib.Xfs.ProcessIno.{xfs_index}
use xallib.Fiemap.State.{Fiemap}
use xallib.Fiemap.Open.{
  Opts, Release, unmap_inodes, unmap_extents, unmap_dirty, free_xal, free_buf, destroy_dinodes_map,
  free_dinodes, open_fiemap, close_fiemap,
}
use xallib.Fiemap.Index.{index}

-- The backend's part of a handle; a view of pools without a mountpoint has none.
pub data Backing : Type 0 where
  on_xfs : Xfs → Backing
  on_fiemap : Fiemap → Backing
  on_pools : Xal → Backing

-- A handle; whether `dirty` points to shared memory.
pub record Handle : Type 0 where
  pub backing : Backing
  pub is_dirty_shared : Bool

abbrev pub xal_of : Handle → Xal
xal_of h = elim h.backing [ on_xfs s ↦ s.xal | on_fiemap s ↦ s.xal | on_pools x ↦ x ]

abbrev pub with_lba_blksze : Xal → ℕ → Xal
with_lba_blksze xal n = record xal { sb = record xal.sb { lba_blksze = n } }

abbrev pub put_lba_blksze : Backing → ℕ → Backing
put_lba_blksze (on_xfs s) n = on_xfs (record s { xal = with_lba_blksze s.xal n })
put_lba_blksze (on_fiemap s) n = on_fiemap (record s { xal = with_lba_blksze s.xal n })
put_lba_blksze (on_pools x) n = on_pools (with_lba_blksze x n)

-- What xnvme_dev_get_ns() gives: fields of `struct xnvme_spec_idfy_ns`; `lbaf` is the `ds` of each
-- format.
pub record Namespace : Type 0 where
  pub flbas_format : ℕ
  pub flbas_format_msb : ℕ
  pub nlbaf : ℕ
  pub lbaf : ℕ → ℕ

-- The environment: that of the two backends, the URI of the device if libxnvme has an identifier,
-- the lines of /proc/mounts with their first two words or an errno, and the namespace or an errno.
pub record Env : Type 0 where
  pub xfs_env : xallib.Xfs.State.Env
  pub fiemap_env : xallib.Fiemap.State.Env
  pub uri : Option (List ℕ)
  pub mounts : ℕ ⊎ List (List ℕ × List ℕ)
  pub get_ns : ℕ ⊎ Namespace
  pub calloc : Bool
  pub strdup : Bool

-- The loop over /proc/mounts. The words are read into arrays of 256 bytes with `%s`.
unfoldable pub find_mount : (dev_uri : List ℕ) → List (List ℕ × List ℕ) → Result (List ℕ)
find_mount dev_uri [] = err einval
find_mount dev_uri ((d, m) ∷ rest) =
    let later = find_mount dev_uri rest in
    if ltb path_maxlen (length d) || ltb path_maxlen (length m)
    then err overrun
    else if str_eq d dev_uri
    then ok m
    else later

-- A pool of a view: the memory and the size of its elements, the rest is zero.
abbrev pub view_pool : {E : Type 0} → (memory : ℕ → E) (element_size : ℕ) → Pool E
view_pool memory element_size = record {
  reserved = 0;
  allocated = 0;
  growby = 0;
  free = 0;
  element_size = element_size;
  memory = memory;
}

abbrev pub view_of :
    Sb → (inodes_mem : ℕ → Inode) (extents_mem : ℕ → Extent) (dirty : Bool) → Backend → Xal
view_of sb inodes_mem extents_mem dirty backend = record {
  inodes = view_pool inodes_mem inode_nbytes;
  extents = view_pool extents_mem extent_nbytes;
  root_idx = 0;
  sb = sb;
  backend = backend;
  dirty = dirty;
  seq_lock = 0;
  shared_view = true;
}

module _ (env : Env) where
  unfoldable pub retrieve_mountpoint : (dev_uri : List ℕ) → Result (List ℕ)
  retrieve_mountpoint dev_uri = elim env.mounts [
    | inl e ↦ err (os e)
    | inr lines ↦ find_mount dev_uri lines
  ]

  -- `xal_from_pools`; the flag that is shared, if it is given.
  unfoldable pub from_pools :
      Sb
      → (mountpoint : Option (List ℕ)) (inodes_mem : ℕ → Inode) (extents_mem : ℕ → Extent)
        (dirty : Option Bool)
      → Result Handle
  from_pools sb mountpoint inodes_mem extents_mem dirty =
      if env.calloc
      then (elim dirty [
        | none ↦ err einval
        | some flag ↦ elim mountpoint [
          | none ↦ ok (record {
            backing = on_pools (view_of sb inodes_mem extents_mem flag unset);
            is_dirty_shared = true;
          })
          | some path ↦
              if env.strdup
              then ok (record {
                backing = on_fiemap (record {
                  xal = view_of sb inodes_mem extents_mem flag fiemap;
                  mountpoint = path;
                  inotify = none;
                  path_inode_map = none;
                });
                is_dirty_shared = true;
              })
              else err enomem
        ]
      ])
      else err enomem

  -- `be->index(xal)` of the two backends. A view without a mountpoint has no `index`.
  unfoldable pub index_backing : (fuel : ℕ) → Exec Backing (Unit {0})
  index_backing fuel (on_xfs s) = let (r, t) = xfs_index env.xfs_env fuel s in (r, on_xfs t)
  index_backing fuel (on_fiemap s) = let (r, t) = index env.fiemap_env fuel s in (r, on_fiemap t)
  index_backing fuel (on_pools x) = (err overrun, on_pools x)

  -- `xal_index`
  unfoldable pub index_xal : (fuel : ℕ) → Exec Handle (Unit {0})
  index_xal fuel h =
      if (xal_of h).shared_view
      then (err einval, h)
      else (let (r, b) = index_backing fuel h.backing in (r, record h { backing = b }))

-- `xal_be_xfs_close`
abbrev pub close_xfs : Xfs → List Release
close_xfs s = free_buf ∷ (destroy_dinodes_map ∷ (if s.retrieved then free_dinodes ∷ [] else []))

-- `be->close(xal)` of the two backends.
abbrev pub close_backing : Backing → List Release
close_backing (on_xfs s) = close_xfs s
close_backing (on_fiemap s) = close_fiemap s
close_backing (on_pools x) = []

-- `xal_close`: what it gives back, in order.
unfoldable pub close_xal : Handle → List Release
close_xal h =
    if (xal_of h).shared_view
    then close_backing h.backing ++ (free_xal ∷ [])
    else unmap_inodes
      ∷ (unmap_extents
          ∷ ((if h.is_dirty_shared then unmap_dirty ∷ [] else [])
              ++ (close_backing h.backing ++ (free_xal ∷ []))))

-- ===== src/Types.antt =====
-- include/libxal.h and include/xal.h: the structures that the backends fill and the API reads.
use xallib.Prelude.{ℕ, ◌/◌, ◌%◌, ◌^◌, Bool, Option, none, some, List, [], ◌==◌, if◌then◌else◌}
use xallib.Pool.{Pool}

-- `enum xal_backend`; `unset` is the 0 of a structure that was only zeroed.
pub data Backend : Type 0 where
  unset xfs fiemap : Backend

-- `struct xal_extent`
pub record Extent : Type 0 where
  pub start_offset : ℕ
  pub start_block : ℕ
  pub nblocks : ℕ
  pub flag : ℕ

-- `union xal_inode_content`: `dentries` and `extents` lie over one another, so one pair of numbers
-- stands for both (`inodes_idx` and `extent_idx`, and the two counts).
pub record Content : Type 0 where
  pub idx : ℕ
  pub count : ℕ

-- `struct xal_inode`; the name is its bytes before the terminating 0.
pub record Inode : Type 0 where
  pub ino : ℕ
  pub size : ℕ
  pub content : Content
  pub ftype : ℕ
  pub namelen : ℕ
  pub name : List ℕ
  pub parent_idx : ℕ

-- XAL_ODF_DIR3_FT_REG_FILE, XAL_ODF_DIR3_FT_DIR, XAL_POOL_IDX_NONE
abbrev pub ft_reg_file : ℕ
ft_reg_file = 1

abbrev pub ft_dir : ℕ
ft_dir = 2

abbrev pub idx_none : ℕ
idx_none = 0xffff_ffff

-- S_ISDIR() and S_ISREG() of a mode, and the type of an inode from it, where it has none yet.
abbrev pub s_isdir : ℕ → Bool
s_isdir mode = mode / 2 ^ 12 % 16 == 4

abbrev pub s_isreg : ℕ → Bool
s_isreg mode = mode / 2 ^ 12 % 16 == 8

unfoldable pub ftype_of_mode : (ftype di_mode : ℕ) → Option ℕ
ftype_of_mode ftype di_mode =
    if ftype == 0
    then if s_isdir di_mode then some ft_dir else if s_isreg di_mode then some ft_reg_file else none
    else some ftype

-- All bytes zero.
abbrev pub blank_extent : Extent
blank_extent = record { start_offset = 0; start_block = 0; nblocks = 0; flag = 0 }

abbrev pub blank_inode : Inode
blank_inode = record {
  ino = 0;
  size = 0;
  content = record { idx = 0; count = 0 };
  ftype = 0;
  namelen = 0;
  name = [];
  parent_idx = 0;
}

-- `struct xal_sb`
pub record Sb : Type 0 where
  pub blocksize : ℕ
  pub sectsize : ℕ
  pub inodesize : ℕ
  pub inopblock : ℕ
  pub inopblog : ℕ
  pub icount : ℕ
  pub nallocated : ℕ
  pub rootino : ℕ
  pub agblocks : ℕ
  pub agblklog : ℕ
  pub agcount : ℕ
  pub dirblocksize : ℕ
  pub lba_blksze : ℕ

-- `struct xal`, less the device, which is a parameter, and what is private to a backend.
pub record Xal : Type 0 where
  pub inodes : Pool Inode
  pub extents : Pool Extent
  pub root_idx : ℕ
  pub sb : Sb
  pub backend : Backend
  pub dirty : Bool
  pub seq_lock : ℕ
  pub shared_view : Bool

-- `xal_inode_at`, `xal_extent_at`
abbrev pub inode_at : Xal → ℕ → Inode
inode_at xal idx = xal.inodes.memory idx

abbrev pub extent_at : Xal → ℕ → Extent
extent_at xal idx = xal.extents.memory idx

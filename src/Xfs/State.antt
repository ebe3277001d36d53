-- ===== src/Xfs/State.antt =====
-- The state that the functions of src/xal_be_xfs.c work on, and what they take from elsewhere.
use xallib.Prelude.{ℕ, ◌≡◌, Bool, Option, some, List, ◌==◌, if◌then◌else◌}
pub use xallib.Prelude.{update, update_self, update_ne}
use xallib.Result.{Exec, Result, ok}
use xallib.Pool.{Kernel, Pool, claim_inodes, claim_extents}
use xallib.Types.{Xal, Inode, Extent, blank_inode, blank_extent}
use xallib.Bytes.{Buf}

-- The device, as libxnvme gives it: its geometry, and a read of `nlb + 1` blocks from block `slba`
-- on, which gives the bytes or fails (also by a completion status).
pub record Device : Type 0 where
  pub mdts_nbytes : ℕ
  pub lba_nbytes : ℕ
  pub nvm_read : ℕ → ℕ → Option Buf

-- tp/khash.h: a table is what `kh_get` finds in it, and `kh_put` with the store of the value makes
-- a new one, or fails.
abbrev pub Table : Type 0 → Type 0
Table V = ℕ → Option V

-- `calloc n` is `some e` where the allocation fails with that errno, `kh_init` whether the table
-- could be made, `buf_alloc` what `xnvme_buf_alloc` gives, `errno` the value of `errno` where the
-- source reads it after a call of its own has failed, and `unset` what a read of a local `int err` that was never assigned gives.
pub record Env : Type 0 where
  pub device : Device
  pub kernel : Kernel
  pub calloc : ℕ → Option ℕ
  pub kh_init : Bool
  pub buf_alloc : Option Buf
  pub errno : ℕ
  pub unset : Result (Unit {0})
  pub kh_put : Table Buf → ℕ → Buf → Option (Table Buf)

-- What khash.h documents: a put that succeeds binds the key, and no other.
pub record PutsKey (env : Env) : Type 0 where
  pub binds :
      (t u : Table Buf) (k : ℕ) (v : Buf)
      → env.kh_put t k v ≡ some u
      → (j : ℕ) → u j ≡ (if k == j then some v else t j)

-- `struct xal_ag`
pub record Ag : Type 0 where
  pub seqno : ℕ
  pub offset : ℕ
  pub agf_length : ℕ
  pub agi_count : ℕ
  pub agi_root : ℕ
  pub agi_level : ℕ

-- `struct xal` with its `struct xal_be_xfs`. `retrieved` is whether `be->dinodes` is not NULL, and
-- a dinode in `dinodes_map` is its bytes.
pub record Xfs : Type 0 where
  pub xal : Xal
  pub buf : Buf
  pub retrieved : Bool
  pub dinodes_map : Table Buf
  pub ags : List Ag

abbrev pub self_at : Xfs → ℕ → Inode
self_at s self = s.xal.inodes.memory self

abbrev pub with_inodes : Xfs → Pool Inode → Xfs
with_inodes s p = record s { xal = record s.xal { inodes = p } }

abbrev pub with_extents : Xfs → Pool Extent → Xfs
with_extents s p = record s { xal = record s.xal { extents = p } }

abbrev pub put_inode : ℕ → Inode → Exec Xfs (Unit {0})
put_inode self inode s =
    (ok tt, with_inodes s (record s.xal.inodes { memory = update s.xal.inodes.memory self inode }))

abbrev pub put_extent : ℕ → Extent → Exec Xfs (Unit {0})
put_extent i extent s =
    (ok tt, with_extents s (record s.xal.extents { memory = update s.xal.extents.memory i extent }))

abbrev pub put_content : ℕ → ℕ → ℕ → Exec Xfs (Unit {0})
put_content self idx count s =
    put_inode self (record (self_at s self) { content = record { idx = idx; count = count } }) s

-- The calls of the pool that `xal->inodes` and `xal->extents` are.
abbrev pub on_inodes : {A : Type 0} → Exec (Pool Inode) A → Exec Xfs A
on_inodes m s = let (r, p) = m s.xal.inodes in (r, with_inodes s p)

abbrev pub on_extents : {A : Type 0} → Exec (Pool Extent) A → Exec Xfs A
on_extents m s = let (r, p) = m s.xal.extents in (r, with_extents s p)

module _ (env : Env) where
  abbrev pub claim_inode_slots : ℕ → Exec Xfs ℕ
  claim_inode_slots count = on_inodes (claim_inodes blank_inode env.kernel count)

  abbrev pub claim_extent_slots : ℕ → Exec Xfs ℕ
  claim_extent_slots count = on_extents (claim_extents blank_extent env.kernel count)

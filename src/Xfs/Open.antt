-- ===== src/Xfs/Open.antt =====
-- The headers on the disk: superblock and allocation groups, and `xal_be_xfs_open`.
pub mod Groups
pub mod Opened
pub mod Tests
use xallib.Prelude.{
  ℕ, zero, suc, ◌+◌, ◌*◌, ◌^◌, ◌%◌, Bool, false, ◌&&◌, Option, none, some, List, [], ◌∷◌, ◌++◌,
  length, ltb, ◌==◌, if◌then◌else◌,
}
use xallib.Word.{mul_size, add_size}
use xallib.Result.{Exec, Result, ok, err, einval, os, assertion, pure, ◌>>◌}
use xallib.Pool.{Pool, map_pool}
use xallib.Types.{Sb, xfs, idx_none, blank_inode, blank_extent}
use xallib.Handle.{
  inode_nbytes, extent_nbytes, pool_reserved, blank_pool, shm_with, suffix_inodes, suffix_extents,
  is_too_long,
}
use xallib.Bytes.{Buf, be16, be32, be64}
use xallib.Xfs.State.{Env, Xfs, Ag, on_inodes, on_extents}
use xallib.Xfs.Device.{dev_read}

-- XAL_ODF_AGF_MAGIC, XAL_ODF_AGI_MAGIC
abbrev pub agf_magic : ℕ
agf_magic = 0x58414746

abbrev pub agi_magic : ℕ
agi_magic = 0x58414749

pub superblock : Buf → Sb
superblock psb = record {
  blocksize = be32 psb 4;
  sectsize = be16 psb 102;
  inodesize = be16 psb 104;
  inopblock = be16 psb 106;
  inopblog = psb 123;
  icount = be64 psb 128;
  nallocated = 0;
  rootino = be64 psb 56;
  agblocks = be32 psb 84;
  agblklog = psb 124;
  agcount = be32 psb 88;
  dirblocksize = be32 psb 4 * 2 ^ psb 192 % 2 ^ 32;
  lba_blksze = 0;
}

-- The state of the candidate, a zeroed `struct xal` with the IO buffer and a superblock.
abbrev pub candidate : Buf → Sb → Xfs
candidate buf sb = record {
  xal = record {
    inodes = blank_pool blank_inode;
    extents = blank_pool blank_extent;
    root_idx = idx_none;
    sb = sb;
    backend = xfs;
    dirty = false;
    seq_lock = 0;
    shared_view = false;
  };
  buf = buf;
  retrieved = false;
  dinodes_map = λ k. none;
  ags = [];
}

abbrev pub blank_sb : Sb
blank_sb = superblock (λ o. 0)

-- The AG's header in the buffer: the AGF in the second sector, the AGI in the third.
pub decode_ag : Sb → Buf → (seqno : ℕ) → Ag
decode_ag sb buf seqno = record {
  seqno = seqno;
  offset = mul_size (mul_size seqno sb.agblocks) sb.blocksize;
  agf_length = be32 buf (sb.sectsize + 12);
  agi_count = be32 buf (sb.sectsize * 2 + 16);
  agi_root = be32 buf (sb.sectsize * 2 + 20);
  agi_level = be32 buf (sb.sectsize * 2 + 24);
}

-- The four assert()s on the headers
pub is_ag_header : Sb → Buf → (seqno : ℕ) → Bool
is_ag_header sb buf seqno =
    be32 buf sb.sectsize == agf_magic
    && be32 buf (sb.sectsize * 2) == agi_magic
    && seqno == be32 buf (sb.sectsize * 2 + 8)
    && seqno == be32 buf (sb.sectsize + 8)

module _ (env : Env) where
  pub retrieve_and_decode_allocation_group : (seqno : ℕ) → Exec Xfs (Unit {0})
  retrieve_and_decode_allocation_group seqno s0 =
      let sb = s0.xal.sb in
      (do
        dev_read env (sb.sectsize * 4) (mul_size (mul_size seqno sb.agblocks) sb.blocksize)
        (λ s.
            if is_ag_header sb s.buf seqno
            then (ok tt, record s { ags = s.ags ++ decode_ag sb s.buf seqno ∷ [] })
            else (err assertion, s)))
        s0

  -- `cand->sb.nallocated += be->ags[seqno].agi_count`, at the AG that was read last
  abbrev pub count_ag : (seqno : ℕ) → Exec Xfs (Unit {0})
  count_ag seqno s = (
    ok tt,
    record s {
      xal = record s.xal {
        sb = record s.xal.sb {
          nallocated = add_size s.xal.sb.nallocated (decode_ag s.xal.sb s.buf seqno).agi_count;
        };
      };
    },
  )

  -- The loop over the allocation groups, `left` of them from `seqno` on.
  pub ag_loop : (left seqno : ℕ) → Exec Xfs (Unit {0})
  ag_loop zero seqno = pure tt
  ag_loop (suc left) seqno = do
    retrieve_and_decode_allocation_group seqno
    count_ag seqno
    ag_loop left (seqno + 1)

  -- The two pools, behind the test of the length of their names.
  pub map_pools : (shm_name : Option (List ℕ)) → Exec Xfs (Unit {0})
  map_pools shm_name s =
      if is_too_long shm_name
      then (err einval, s)
      else ((do
        on_inodes (
            map_pool blank_inode env.kernel pool_reserved s.xal.sb.nallocated inode_nbytes
              (shm_with suffix_inodes shm_name))
        on_extents (
            map_pool blank_extent env.kernel pool_reserved s.xal.sb.nallocated extent_nbytes
              (shm_with suffix_extents shm_name)))
          s)

  -- What follows the superblock.
  pub open_headers : (shm_name : Option (List ℕ)) → Exec Xfs (Unit {0})
  open_headers shm_name s0 = (do ag_loop s0.xal.sb.agcount 0; map_pools shm_name) s0

  -- `return -errno`, which is a success if `errno` is 0; then `*xal` was not written.
  abbrev pub return_errno : Result (Option Xfs)
  return_errno = if env.errno == 0 then ok none else err (os env.errno)

  -- `retrieve_and_decode_primary_superblock` with what its caller makes of its failures. A
  -- candidate that fails later is closed.
  pub xfs_open : (shm_name : Option (List ℕ)) → Result (Option Xfs)
  xfs_open shm_name = elim env.buf_alloc [
    | none ↦ return_errno
    | some buf ↦
        let (r, s) = dev_read env 4096 0 (candidate buf blank_sb) in
        elim r [
          | err e ↦ return_errno
          | ok u ↦
              let sb = superblock s.buf in
              elim (env.calloc 1) [
                | some e ↦ return_errno
                | none ↦ elim (env.calloc (sb.agcount * 32 % 2 ^ 64)) [
                  | some e ↦ return_errno
                  | none ↦
                      let (q, t) = open_headers shm_name (candidate s.buf sb) in
                      elim q [ err e ↦ err e | ok v ↦ ok (some t) ]
                ]
              ]
        ]
  ]

-- ===== src/Xfs/DirBlock/Progress.antt =====
-- The progress of the loop over a directory block, in src/xal_be_xfs.c.
use xallib.Prelude.{
  ℕ, zero, suc, ◌+◌, ◌*◌, ◌≤◌, ◌<◌, ◌≡◌, ◌≢◌, inl, inr, Bool-cases, ltb, ltb→lt, ◌||◌, ◌==◌, arith,
}
use xallib.Result.{ok, err, stuck, Result-cases}
use xallib.Pool.{claim_inodes}
use xallib.Pool.Bounds.{ChecksMapping}
use xallib.Pool.Claims.{claim_inodes-ne-stuck}
use xallib.Types.{Inode, blank_inode}
use xallib.Bytes.{Buf, be16, be32}
use xallib.Geometry.{fsbno_offset}
use xallib.Xfs.State.{Env, Xfs}
use xallib.Xfs.Device.{dev_read_into, dev_read_into_keeps}
use xallib.Xfs.Dentry.{decode_dentry}
use xallib.Xfs.DirBlock.{
  stop, skip, keep, round_at, add_dentry, dblock_loop, dir3_data_magic, dir3_block_magic,
  process_dinode_dir_extents_dblock,
}
use xallib.Xfs.DirBlock.Entries.{Round-cases}

-- A round that goes on moves forward by 16 bytes at least.
round_at-skip : (b : Buf) (ofz next : ℕ) → round_at b ofz ≡ skip next → ofz + 16 ≤ next
unfolding round_at decode_dentry
round_at-skip b ofz next e = ground arith

round_at-keep :
    (b : Buf) (ofz next : ℕ) (d : Inode) → round_at b ofz ≡ keep next d → ofz + 16 ≤ next
unfolding round_at decode_dentry
round_at-keep b ofz next d e = ground arith

round_at_unused : (b : Buf) (ofz : ℕ) → be16 b ofz ≡ 0xffff → round_at b ofz ≡ stop
unfolding round_at decode_dentry
round_at_unused b ofz e = ground arith

module _ (env : Env) (checks : ChecksMapping env.kernel) where
  add_dentry-ne-stuck : (self : ℕ) (d : Inode) (s : Xfs) → (add_dentry env self d s).0 ≢ err stuck
  unfolding add_dentry
  add_dentry-ne-stuck self d s e =
      elim (Result-cases (claim_inodes blank_inode env.kernel 1 s.xal.inodes).0) [
        | inl (slot, m) ↦ cc (rw m at e)
        | inr (c, m) ↦
            claim_inodes-ne-stuck blank_inode env.kernel checks 1 s.xal.inodes (cc (m, rw m at e))
      ]

  same_sb : (self : ℕ) (d : Inode) (s : Xfs) → (add_dentry env self d s).1.xal.sb ≡ s.xal.sb
  unfolding add_dentry
  same_sb self d s = elim (Result-cases (claim_inodes blank_inode env.kernel 1 s.xal.inodes).0) [
    | inl (slot, m) ↦ rw m
    | inr (c, m) ↦ rw m
  ]

  -- With some fuel, and fuel for more bytes than are left in the block, the loop over a directory
  -- block does not run out of it. This supposes that mprotect() refuses what is not mapped.
  pub dblock_loop-ne-stuck :
      (fuel : ℕ) (dblock : Buf) (ofz self : ℕ) (s : Xfs)
      → 0 < fuel
      → s.xal.sb.dirblocksize < ofz + fuel
      → (dblock_loop env fuel dblock ofz self s).0 ≢ err stuck
  unfolding dblock_loop
  dblock_loop-ne-stuck zero dblock ofz self s p lt h = absurd (omega arith)
  dblock_loop-ne-stuck (suc fuel) dblock ofz self s p lt h =
      elim (Bool-cases (ltb ofz s.xal.sb.dirblocksize)) [
        | inr end ↦ cc (rw (end, dblock_loop) at h)
        | inl more ↦
            let l : ofz < s.xal.sb.dirblocksize = ltb→lt _ _ more in
            elim (Round-cases (round_at dblock ofz)) [
              | inl e ↦ cc (rw (more, e, dblock_loop) at h)
              | inr (inl (next, e)) ↦
                  dblock_loop-ne-stuck fuel dblock next self s (omega arith)
                    (omega (arith, round_at-skip dblock ofz next e))
                    (rw (more, e, dblock_loop) at h)
              | inr (inr (next, d, e)) ↦
                  let h' = rw (more, e, dblock_loop) at h in
                  elim (Result-cases (add_dentry env self d s).0) [
                    | inr (c, m) ↦ add_dentry-ne-stuck self d s (cc (m, rw m at h'))
                    | inl (u, m) ↦
                        dblock_loop-ne-stuck fuel dblock next self (add_dentry env self d s).1
                          (omega arith)
                          (rw (same_sb self d s) (omega (arith, round_at-keep dblock ofz next d e)))
                          (rw m at h')
                  ]
            ]
      ]

  -- Reading and decoding a directory block ends, whatever the disk holds. This supposes that
  -- mprotect() refuses what is not mapped.
  pub process_dinode_dir_extents_dblock-ne-stuck :
      (fsbno self : ℕ) (s : Xfs)
      → (process_dinode_dir_extents_dblock env fsbno self s).0 ≢ err stuck
  unfolding process_dinode_dir_extents_dblock
  process_dinode_dir_extents_dblock-ne-stuck fsbno self s h =
      let n = s.xal.sb.dirblocksize in
      let ofz = fsbno_offset s.xal.backend s.xal.sb fsbno in
      let k = dev_read_into_keeps env n ofz s in
      elim (Result-cases (dev_read_into env n ofz s).0) [
        | inr (c, m) ↦ k.1 (cc (m, rw m at h))
        | inl (block, m) ↦ elim (Bool-cases (ltb (64 * 1024) n)) [
          | inl large ↦ cc (rw (m, large) at h)
          | inr fits ↦
              elim (Bool-cases
                (be32 block 0 == dir3_data_magic || be32 block 0 == dir3_block_magic)) [
                  | inr bad ↦ cc (rw (m, fits, bad) at h)
                  | inl good ↦
                      dblock_loop-ne-stuck (suc n) block 64 self (dev_read_into env n ofz s).1
                        (omega arith) (rw k.0 (omega arith)) (rw (m, fits, good) at h)
                ]
        ]
      ]

-- At an unused entry, with its tag 0xffff, the loop over a directory block ends and leaves the
-- state as it was: what stands behind it in the block is not read.
pub dblock_loop_unused :
    (env : Env) (fuel : ℕ) (dblock : Buf) (ofz self : ℕ) (s : Xfs)
    → be16 dblock ofz ≡ 0xffff
    → dblock_loop env (suc fuel) dblock ofz self s ≡ (ok tt, s)
unfolding dblock_loop
dblock_loop_unused env fuel dblock ofz self s tag =
    elim (Bool-cases (ltb ofz s.xal.sb.dirblocksize)) [
      | inr end ↦ rw (end, dblock_loop)
      | inl more ↦ rw (more, round_at_unused dblock ofz tag, dblock_loop)
    ]

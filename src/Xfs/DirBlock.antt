-- ===== src/Xfs/DirBlock.antt =====
-- The loop over the entries of a directory block, and `process_dinode_dir_extents_dblock`.
pub mod Adds
pub mod Entries
pub mod Listing
pub mod Progress
pub mod Tests
use xallib.Prelude.{
  ℕ, zero, suc, ◌+◌, ◌*◌, ◌/◌, ◌%◌, ◌^◌, ◌≤◌, ◌<◌, ◌≡◌, refl, Bool, true, false, not, ◌&&◌, ◌||◌,
  ltb, ◌==◌, if◌then◌else◌, arith,
}
use xallib.Result.{Exec, Result, ok, err, overrun, stuck, pure, raise, ◌>>=◌, ◌>>◌}
use xallib.Types.{Inode, Sb}
use xallib.Bytes.{Buf, be32}
use xallib.Geometry.{fsbno_offset}
use xallib.Xfs.State.{Env, Xfs, self_at, put_inode, put_content, claim_inode_slots}
use xallib.Xfs.Device.{dev_read_into}
use xallib.Xfs.Dentry.{decode_dentry, ends_block, is_dots}

-- XAL_ODF_DIR3_DATA_MAGIC and XAL_ODF_DIR3_BLOCK_MAGIC
abbrev pub dir3_data_magic : ℕ
dir3_data_magic = 0x58444433

abbrev pub dir3_block_magic : ℕ
dir3_block_magic = 0x58444233

-- One round: the offset of the next entry, or the end of the block.
pub data Round : Type 0 where
  stop : Round
  skip : ℕ → Round
  keep : ℕ → Inode → Round

-- What the tests of the loop's body make of the entry at `ofz`.
unfoldable pub round_at : Buf → ℕ → Round
round_at dblock ofz =
    let (nbytes, dentry) = decode_dentry dblock ofz in
    if ends_block dentry
    then stop
    else if is_dots dentry
    then skip (ofz + nbytes)
    else keep (ofz + nbytes) dentry

module _ (env : Env) where
  -- The end of a round that has an entry to keep: claim a slot, store the entry with its parent,
  -- and count it.
  unfoldable pub add_dentry : (self : ℕ) → Inode → Exec Xfs (Unit {0})
  add_dentry self dentry = do
    slot ← claim_inode_slots env 1
    put_inode slot (record dentry { parent_idx = self })
    λ s.
        let content = (self_at s self).content in
        put_content self content.idx ((content.count + 1) % 2 ^ 32) s

  -- `for (uint64_t ofz = 64; ofz < xal->sb.dirblocksize;)`. A round goes on by 16 bytes at least,
  -- so a fuel above `dirblocksize` is enough.
  unfoldable pub dblock_loop : (fuel : ℕ) → Buf → (ofz self : ℕ) → Exec Xfs (Unit {0})
  dblock_loop zero dblock ofz self s = (err stuck, s)
  dblock_loop (suc fuel) dblock ofz self s = elim (ltb ofz s.xal.sb.dirblocksize) [
    | false ↦ (ok tt, s)
    | true ↦ elim (round_at dblock ofz) [
      | stop ↦ (ok tt, s)
      | skip next ↦ dblock_loop fuel dblock next self s
      | keep next dentry ↦ (add_dentry self dentry >>= λ _. dblock_loop fuel dblock next self) s
    ]
  ]

  -- The block is copied to an array of ODF_BLOCK_FS_BYTES_MAX bytes, whatever its size. On an
  -- unknown magic the source returns `err`, which is 0 there.
  pub process_dinode_dir_extents_dblock : (fsbno self : ℕ) → Exec Xfs (Unit {0})
  process_dinode_dir_extents_dblock fsbno self s0 =
      (do
        dblock ←
            dev_read_into env s0.xal.sb.dirblocksize (fsbno_offset s0.xal.backend s0.xal.sb fsbno)
        (if ltb (64 * 1024) s0.xal.sb.dirblocksize
            then raise overrun
            else if be32 dblock 0 == dir3_data_magic || be32 dblock 0 == dir3_block_magic
            then dblock_loop (suc s0.xal.sb.dirblocksize) dblock 64 self
            else pure tt))
        s0

-- ===== src/Xfs/FileBtree.antt =====
-- Files: extents inline in the dinode, and the B+tree extent list.
pub mod Store
pub mod Contiguous
pub mod Tree
pub mod Files
pub mod Inline
pub mod Tests
use xallib.Prelude.{ℕ, zero, suc, ◌+◌, ◌*◌, ◌%◌, ◌^◌, ltb, ◌&&◌, ◌==◌, if◌then◌else◌}
use xallib.Word.{add_size, sub_size}
use xallib.Result.{Exec, err, einval, stuck, pure, ◌>>=◌, ◌>>◌}
use xallib.Types.{Sb}
use xallib.Bytes.{Buf, be16, be32, be64}
use xallib.Geometry.{fsbno_offset}
use xallib.Xfs.State.{Env, Xfs, self_at, put_extent, put_content, claim_extent_slots}
use xallib.Xfs.Device.{dev_read}
use xallib.Xfs.ExtentRecord.{extent_of_pair}
use xallib.Xfs.Btree.{btree_lblock_meta, btree_dinode_meta, lfmt_nbytes, dinode_nbytes}

-- XAL_ODF_BMAP_CRC_MAGIC and ODF_BLOCK_FS_BYTES_MAX
abbrev pub bmap_crc_magic : ℕ
bmap_crc_magic = 0x424d4133

abbrev pub block_fs_bytes_max : ℕ
block_fs_bytes_max = 64 * 1024

-- `be64toh(fsbnos[rec])` of the pointers that a root holds in its dinode
abbrev pub root_pointer : Sb → Buf → ℕ → ℕ
root_pointer sb dinode rec =
    be64 dinode (add_size (btree_dinode_meta sb.inodesize (dinode 82)).pointers (rec * 8))

-- The pointers of a node, copied to a zeroed array.
pub node_pointer : Sb → Buf → ℕ → ℕ
node_pointer sb buf rec =
    let pointers_ofz = (btree_lblock_meta sb.blocksize).pointers in
    be64 (λ o. if ltb o (sub_size sb.blocksize pointers_ofz) then buf (pointers_ofz + o) else 0)
      (rec * 8)

-- The loop over pointers, `left` of them from `rec` on; `process` is the leaf's or the node's
-- function, at a child.
pub pointers_loop :
    (process : ℕ → Exec Xfs (Unit {0})) (pointer : ℕ → ℕ) (left rec : ℕ) → Exec Xfs (Unit {0})
pointers_loop process pointer zero rec = pure tt
pointers_loop process pointer (suc left) rec = do
  process (pointer rec)
  pointers_loop process pointer left (rec + 1)

-- `di_nextents`, or `di_big_nextents` if that is 0
pub dinode_nextents : Buf → ℕ
dinode_nextents dinode = if be32 dinode 76 == 0 then be64 dinode 24 else be32 dinode 76

-- `decode_xfs_extent` into `extents[rec]`, for `left` records from `rec` on, from the array of
-- pairs at `ofz`.
pub store_loop : Buf → (ofz extent_start left rec : ℕ) → Exec Xfs (Unit {0})
store_loop buf ofz extent_start zero rec = pure tt
store_loop buf ofz extent_start (suc left) rec = do
  put_extent (extent_start + rec) (extent_of_pair buf ofz rec)
  store_loop buf ofz extent_start left (rec + 1)

-- `self->content.extents.count += n`
abbrev pub add_count : (self n : ℕ) → Exec Xfs (Unit {0})
add_count self n s =
    let content = (self_at s self).content in
    put_content self content.idx ((content.count + n) % 2 ^ 32) s

module _ (env : Env) where
  pub process_file_btree_leaf : (fsbno self : ℕ) → Exec Xfs (Unit {0})
  process_file_btree_leaf fsbno self s0 =
      (do
        dev_read env s0.xal.sb.blocksize (fsbno_offset s0.xal.backend s0.xal.sb fsbno)
        (λ s.
            let numrecs = be16 s.buf 6 in
            if be32 s.buf 0 == bmap_crc_magic && be16 s.buf 4 == 0
            then ((do
              extent_start ← claim_extent_slots env numrecs
              add_count self numrecs
              store_loop s.buf lfmt_nbytes extent_start numrecs 0)
                s)
            else (err einval, s)))
        s0

  -- The fuel is the depth of the tree on the disk, whose levels are not compared to one another.
  pub process_file_btree_node : (fuel fsbno self : ℕ) → Exec Xfs (Unit {0})
  process_file_btree_node zero fsbno self s0 = (err stuck, s0)
  process_file_btree_node (suc fuel) fsbno self s0 =
      let deeper = λ (child : ℕ). process_file_btree_node fuel child self in
      if ltb block_fs_bytes_max s0.xal.sb.blocksize
      then (err einval, s0)
      else ((do
        dev_read env s0.xal.sb.blocksize (fsbno_offset s0.xal.backend s0.xal.sb fsbno)
        (λ s.
            if be32 s.buf 0 == bmap_crc_magic && ltb 0 (be16 s.buf 4)
            then (pointers_loop
                (if be16 s.buf 4 == 1
                  then (λ child. process_file_btree_leaf child self)
                  else deeper)
                (node_pointer s.xal.sb s.buf) (be16 s.buf 6) 0 s)
            else (err einval, s)))
          s0)

  pub process_dinode_file_btree_root : (fuel : ℕ) → Buf → (self : ℕ) → Exec Xfs (Unit {0})
  process_dinode_file_btree_root fuel dinode self s =
      let level = be16 dinode dinode_nbytes in
      let numrecs = be16 dinode (dinode_nbytes + 2) in
      if ltb level 1
      then (err einval, s)
      else if (self_at s self).content.count == 0
      then ((do
        put_content self (s.xal.extents.free % 2 ^ 32) 0
        pointers_loop
            (if level == 1
              then (λ child. process_file_btree_leaf child self)
              else (λ child. process_file_btree_node fuel child self))
            (root_pointer s.xal.sb dinode) numrecs 0)
          s)
      else (err einval, s)

  pub process_dinode_file_extents : Buf → (self : ℕ) → Exec Xfs (Unit {0})
  process_dinode_file_extents dinode self = do
    let nextents = dinode_nextents dinode
    extent_idx ← claim_extent_slots env nextents
    put_content self extent_idx (nextents % 2 ^ 32)
    store_loop dinode dinode_nbytes extent_idx nextents 0

-- ===== src/Xfs/DirBtree.antt =====
-- Directories whose extents stand in a B+tree, and the loop over a directory's children.
use xallib.Prelude.{
  ℕ, zero, suc, ◌+◌, ◌/◌, ◌%◌, ◌^◌, Bool, true, false, ◌&&◌, ◌||◌, ltb, ◌==◌, if◌then◌else◌,
}
use xallib.Word.{add_size}
use xallib.Result.{Exec, ok, err, einval, enosys, stuck, pure, raise, ◌>>=◌, ◌>>◌}
use xallib.Types.{Sb, Extent}
use xallib.Bytes.{Buf, be16, be32}
use xallib.Geometry.{fsbno_offset}
use xallib.Xfs.State.{Env, Xfs, self_at, put_content}
use xallib.Xfs.Device.{dev_read_into}
use xallib.Xfs.ExtentRecord.{extent_of_pair}
use xallib.Xfs.Btree.{lfmt_nbytes, dinode_nbytes}
use xallib.Xfs.DirBlock.{dblock_loop, dir3_data_magic, dir3_block_magic}
use xallib.Xfs.FileBtree.{bmap_crc_magic, root_pointer, pointers_loop}

-- `dirblocksize / blocksize`, file-system blocks to a directory block
abbrev pub fsblk_per_dblk : Sb → ℕ
fsblk_per_dblk sb = sb.dirblocksize / sb.blocksize

-- `for (uint32_t i = 0; i < self->content.dentries.count; ++i)` over the children from `idx` on,
-- `left` of which are left; `process` is `process_ino`.
pub children_loop : (process : ℕ → ℕ → Exec Xfs (Unit {0})) (idx left i : ℕ) → Exec Xfs (Unit {0})
children_loop process idx zero i s = (ok tt, s)
children_loop process idx (suc left) i s =
    (process (self_at s (idx + i)).ino (idx + i) >>= λ _. children_loop process idx left (i + 1)) s

-- That loop at the children that `self` has when it starts.
pub process_children : (process : ℕ → ℕ → Exec Xfs (Unit {0})) (self : ℕ) → Exec Xfs (Unit {0})
process_children process self s =
    let content = (self_at s self).content in children_loop process content.idx content.count 0 s

module _ (env : Env) where
  -- The body of the loop of `btree_lblock_decode_leaf_records`. It is that of
  -- `process_dinode_dir_extents_dblock`, but for the return: on an unknown magic the whole
  -- function returns 0. The result is whether to go on.
  pub leaf_dblock : (fsbno self : ℕ) → Exec Xfs Bool
  leaf_dblock fsbno self s0 =
      (do
        dblock ←
            dev_read_into env s0.xal.sb.dirblocksize (fsbno_offset s0.xal.backend s0.xal.sb fsbno)
        (if be32 dblock 0 == dir3_data_magic || be32 dblock 0 == dir3_block_magic
            then (do dblock_loop env (suc s0.xal.sb.dirblocksize) dblock 64 self; pure true)
            else pure false))
        s0

  pub leaf_fsblk_loop : (fuel : ℕ) → Sb → Extent → (self fsblk : ℕ) → Exec Xfs Bool
  leaf_fsblk_loop zero sb extent self fsblk s = (err stuck, s)
  leaf_fsblk_loop (suc fuel) sb extent self fsblk s = elim (ltb fsblk extent.nblocks) [
    | false ↦ (ok true, s)
    | true ↦
        (leaf_dblock (add_size extent.start_block fsblk) self >>= λ go_on s'. elim go_on [
          | false ↦ (ok false, s')
          | true ↦ leaf_fsblk_loop fuel sb extent self (fsblk + fsblk_per_dblk sb) s'
        ])
          s
  ]

  -- The loop over the `left` records from `rec` on.
  pub leaf_extents_loop : Buf → (self left rec : ℕ) → Exec Xfs (Unit {0})
  leaf_extents_loop buf self zero rec s = (ok tt, s)
  leaf_extents_loop buf self (suc left) rec s =
      let extent = extent_of_pair buf lfmt_nbytes rec in
      (leaf_fsblk_loop (suc extent.nblocks) s.xal.sb extent self 0 >>= λ go_on s'. elim go_on [
        | false ↦ (ok tt, s')
        | true ↦ leaf_extents_loop buf self left (rec + 1) s'
      ])
        s

  pub btree_lblock_decode_leaf_records : Buf → (self : ℕ) → Exec Xfs (Unit {0})
  btree_lblock_decode_leaf_records buf self s =
      if be32 buf 0 == bmap_crc_magic && be16 buf 4 == 0
      then leaf_extents_loop buf self (be16 buf 6) 0 s
      else (err einval, s)

  -- A directory's B+tree of two levels and more is not supported.
  pub btree_lblock_decode_node_records : Buf → (self : ℕ) → Exec Xfs (Unit {0})
  btree_lblock_decode_node_records buf self = raise enosys

  pub btree_lblock_read : (fsbno : ℕ) → Exec Xfs Buf
  btree_lblock_read fsbno s =
      dev_read_into env s.xal.sb.blocksize (fsbno_offset s.xal.backend s.xal.sb fsbno) s

  pub btree_lblock_process : (fsbno self : ℕ) → Exec Xfs (Unit {0})
  btree_lblock_process fsbno self = do
    block ← btree_lblock_read fsbno
    (if be16 block 4 == 0
        then btree_lblock_decode_leaf_records block self
        else btree_lblock_decode_node_records block self)

  -- The number of records is read from the place of the level.
  pub process_dinode_dir_btree_root :
      (process : ℕ → ℕ → Exec Xfs (Unit {0})) → Buf → (self : ℕ) → Exec Xfs (Unit {0})
  process_dinode_dir_btree_root process dinode self s =
      let level = be16 dinode dinode_nbytes in
      let numrecs = be16 dinode dinode_nbytes in
      if ltb level 1
      then (err einval, s)
      else if (self_at s self).content.count == 0
      then ((do
        put_content self (s.xal.inodes.free % 2 ^ 32) 0
        pointers_loop (λ fsbno. btree_lblock_process fsbno self) (root_pointer s.xal.sb dinode)
            numrecs 0
        process_children process self)
          s)
      else (err einval, s)

-- ===== src/Xfs/ProcessIno.antt =====
-- `process_ino` and `xal_be_xfs_index`. The recursion of `process_ino` through the directories takes
-- fuel: the depth of the directory tree, and of a file's B+tree.
use xallib.Prelude.{ℕ, zero, suc, ◌%◌, ◌^◌, false, ◌||◌, none, some, ◌==◌, if◌then◌else◌}
use xallib.Result.{Exec, ok, err, einval, enosys, stuck, ◌>>=◌, ◌>>◌}
use xallib.Types.{ftype_of_mode, ft_dir, ft_reg_file, idx_none, blank_inode, blank_extent}
use xallib.Bytes.{Buf, be16, be64}
use xallib.Pool.{clear}
use xallib.Xfs.State.{
  Env, Xfs, self_at, put_inode, put_content, with_inodes, with_extents, claim_inode_slots,
}
use xallib.Xfs.DirBtree.{process_dinode_dir_btree_root}
use xallib.Xfs.Dirs.{process_dinode_dir_local, process_dinode_dir_extents}
use xallib.Xfs.FileBtree.{process_dinode_file_btree_root, process_dinode_file_extents}

-- XAL_DINODE_FMT_LOCAL, XAL_DINODE_FMT_EXTENTS, XAL_DINODE_FMT_BTREE; the others that are named
-- are DEV (0) and UUID (4).
pub data Format : Type 0 where
  local extents btree unsupported unknown : Format

pub format_of : ℕ → Format
format_of di_format =
    if di_format == 1
    then local
    else if di_format == 2
    then extents
    else if di_format == 3
    then btree
    else if di_format == 0 || di_format == 4
    then unsupported
    else unknown

module _ (env : Env) where
  -- The `switch (dinode->di_format)` with the `switch (self->ftype)` in its cases. A format that
  -- is not named falls through to the end.
  pub process_format :
      (process : ℕ → ℕ → Exec Xfs (Unit {0})) (fuel : ℕ)
      → Format
      → (ftype : ℕ) → Buf
      → (self : ℕ) → Exec Xfs (Unit {0})
  process_format process fuel btree ftype dinode self s =
      if ftype == ft_dir
      then ((do
        put_content self (s.xal.inodes.free % 2 ^ 32) (self_at s self).content.count
        process_dinode_dir_btree_root env process dinode self)
          s)
      else if ftype == ft_reg_file
      then process_dinode_file_btree_root env fuel dinode self s
      else (err enosys, s)
  process_format process fuel extents ftype dinode self s =
      if ftype == ft_dir
      then process_dinode_dir_extents env process dinode self s
      else if ftype == ft_reg_file
      then process_dinode_file_extents env dinode self s
      else (err enosys, s)
  process_format process fuel local ftype dinode self s =
      if ftype == ft_dir
      then process_dinode_dir_local env process dinode self s
      else (err enosys, s)
  process_format process fuel unsupported ftype dinode self s = (err enosys, s)
  process_format process fuel unknown ftype dinode self s = (ok tt, s)

  -- `dinodes_get`
  pub dinodes_get : (ino : ℕ) → Exec Xfs Buf
  dinodes_get ino s = elim (s.dinodes_map ino) [
    | none ↦ (err einval, s)
    | some dinode ↦ (ok dinode, s)
  ]

  pub process_ino : (fuel ino self : ℕ) → Exec Xfs (Unit {0})
  process_ino zero ino self s = (err stuck, s)
  process_ino (suc fuel) ino self s0 =
      let deeper = λ (i j : ℕ). process_ino fuel i j in
      (dinodes_get ino >>= λ dinode s. elim (ftype_of_mode (self_at s self).ftype (be16 dinode 2)) [
        | none ↦ (err einval, s)
        | some ftype ↦
            (do
              put_inode self (record (self_at s self) {
                ftype = ftype;
                size = be64 dinode 56;
                ino = be64 dinode 152;
              })
              process_format deeper fuel (format_of (dinode 5)) ftype dinode self)
              s
      ])
        s0

  -- The results of the two `xal_pool_clear`s are ignored.
  pub xfs_index : (fuel : ℕ) → Exec Xfs (Unit {0})
  xfs_index fuel s0 =
      if s0.retrieved
      then (let s1 = with_inodes s0 (clear blank_inode env.kernel s0.xal.inodes).1 in
          let s2 = with_extents s1 (clear blank_extent env.kernel s1.xal.extents).1 in
          (do
            root ← claim_inode_slots env 1
            (λ s. (ok tt, record s { xal = record s.xal { root_idx = root } }))
            (λ s.
                put_inode root
                  (record (self_at s root) {
                    ino = s.xal.sb.rootino;
                    ftype = ft_dir;
                    namelen = 0;
                    parent_idx = idx_none;
                    content = record { idx = (self_at s root).content.idx; count = 0 };
                  })
                  s)
            process_ino fuel s2.xal.sb.rootino root
            (λ s. (ok tt, record s { xal = record s.xal { dirty = false } })))
            s2)
      else (err einval, s0)

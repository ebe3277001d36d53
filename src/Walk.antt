-- ===== src/Walk.antt =====
-- `xal_walk` and the getters of src/xal.c. The callback and what it does with its data are
-- parameters; the tree is the same throughout a walk, but the dirty flag may be set meanwhile.
pub mod Preorder
pub mod Tests
use xallib.Prelude.{ℕ, zero, suc, ◌+◌, Bool, Option, none, some, ◌==◌, if◌then◌else◌}
use xallib.Result.{Exec, ok, err, einval, estale, stuck, pure, ◌>>=◌, ◌>>◌}
use xallib.Types.{Xal, Sb, Inode, inode_at, ft_dir, ft_reg_file}

-- What changes during a walk: the flag behind `xal->dirty`, and the data of the callback.
pub record Walk (D : Type 0) : Type 0 where
  pub dirty : Bool
  pub cb_data : D

-- `xal_inode_is_dir`, `xal_inode_is_file`
abbrev pub inode_is_dir : Inode → Bool
inode_is_dir inode = inode.ftype == ft_dir

abbrev pub inode_is_file : Inode → Bool
inode_is_file inode = inode.ftype == ft_reg_file

abbrev pub get_root : Xal → ℕ
get_root xal = xal.root_idx

-- `xal_is_dirty`, `xal_get_seq_lock`, `xal_get_sb`, `xal_get_sb_blocksize`
abbrev pub is_dirty : Xal → Bool
is_dirty xal = xal.dirty

abbrev pub get_seq_lock : Xal → ℕ
get_seq_lock xal = xal.seq_lock

abbrev pub get_sb : Xal → Sb
get_sb xal = xal.sb

abbrev pub get_sb_blocksize : Xal → ℕ
get_sb_blocksize xal = xal.sb.blocksize

-- The loop over the children, `left` of them from `idx` on.
unfoldable pub children_loop :
    {D : Type 0} (visit : ℕ → Exec (Walk D) (Unit {0})) (idx left : ℕ) → Exec (Walk D) (Unit {0})
children_loop visit idx zero = pure tt
children_loop visit idx (suc left) = do visit idx; children_loop visit (idx + 1) left

module _ {D : Type 0} (xal : Xal) (cb_func : Option (ℕ → ℕ → Exec (Walk D) (Unit {0}))) where
  -- `if (cb_func) { err = cb_func(xal, inode, cb_data, depth); … }`
  unfoldable pub call_back : (inode depth : ℕ) → Exec (Walk D) (Unit {0})
  call_back inode depth = elim cb_func [ none ↦ pure tt | some f ↦ f inode depth ]

  -- The `switch (inode->ftype)`; `deeper` is `_walk` at a child.
  abbrev pub visit_below :
      (deeper : ℕ → Exec (Walk D) (Unit {0})) (inode : ℕ) → Exec (Walk D) (Unit {0})
  visit_below deeper inode =
      if inode_is_dir (inode_at xal inode)
      then children_loop deeper (inode_at xal inode).content.idx (inode_at xal inode).content.count
      else (λ s. if inode_is_file (inode_at xal inode) then (ok tt, s) else (err einval, s))

  -- `_walk`. The fuel is the depth of the tree below the inode, which the code does not bound.
  unfoldable pub walk_from : (fuel inode depth : ℕ) → Exec (Walk D) (Unit {0})
  walk_from zero inode depth s = (err stuck, s)
  walk_from (suc fuel) inode depth s =
      let deeper = λ (child : ℕ). walk_from fuel child (depth + 1) in
      if s.dirty
      then (err estale, s)
      else (call_back inode depth >>= λ _. visit_below deeper inode) s

  unfoldable pub walk : (fuel inode : ℕ) → Exec (Walk D) (Unit {0})
  walk fuel inode = walk_from fuel inode 0

-- ===== src/Walk/Tests.antt =====
-- A walk over a root with a directory and a file.
use xallib.Prelude.{
  ℕ, zero, suc, ◌+◌, ◌<◌, ◌≡◌, refl, inl, inr, Option, some, List, [], ◌∷◌, true, false, ◌==◌,
  if◌then◌else◌, arith,
}
use xallib.Result.{Exec, ok, err, estale}
use xallib.Pool.{Pool}
use xallib.Types.{Xal, Inode, blank_inode, ft_dir, ft_reg_file}
use xallib.Walk.{Walk, walk, walk_from, call_back, children_loop, get_root}
use xallib.Walk.Preorder.{IsTree, preorder, visit_all, walk-preorder}
use xallib.Xfs.Tests.{test_xfs, test_inodes}

abbrev tree_inodes : Pool Inode
tree_inodes = record test_inodes {
  free = 3;
  memory = λ i.
      if i == 0
      then record blank_inode { ftype = ft_dir; content = record { idx = 1; count = 2 } }
      else if i == 1
      then record blank_inode { ftype = ft_dir }
      else record blank_inode { ftype = ft_reg_file };
}

abbrev tree_xal : Xal
tree_xal = record test_xfs.xal { inodes = tree_inodes }

-- The callback keeps the inodes it sees, the last one first.
abbrev note : Option (ℕ → ℕ → Exec (Walk (List ℕ)) (Unit {0}))
note = some (λ inode depth s. (ok tt, record s { cb_data = inode ∷ s.cb_data }))

abbrev fresh : Walk (List ℕ)
fresh = record { dirty = false; cb_data = [] }

abbrev stale : Walk (List ℕ)
stale = record { dirty = true; cb_data = [] }

walk-notes :
    walk tree_xal note 2 (get_root tree_xal) fresh
    ≡ (ok tt, record { dirty = false; cb_data = 2 ∷ 1 ∷ 0 ∷ [] })
unfolding walk walk_from call_back children_loop
walk-notes = refl

walk-stale : walk tree_xal note 2 0 stale ≡ (err estale, stale)
unfolding walk walk_from
walk-stale = refl

child-IsTree : (i : ℕ) → i < 2 → IsTree tree_xal 1 (1 + i)
unfolding IsTree
child-IsTree zero lt = inr (refl, λ i l. absurd (omega arith))
child-IsTree (suc zero) lt = inl refl
child-IsTree (suc (suc i)) lt = absurd (omega arith)

tree_xal-IsTree : IsTree tree_xal 2 0
unfolding IsTree
tree_xal-IsTree = inr (refl, λ i lt. child-IsTree i lt)

walk-preorder_example :
    walk tree_xal note 2 0 fresh ≡ visit_all tree_xal note (preorder tree_xal 2 0 0) fresh
walk-preorder_example = walk-preorder tree_xal note 2 0 fresh tree_xal-IsTree

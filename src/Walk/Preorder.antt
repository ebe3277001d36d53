-- ===== src/Walk/Preorder.antt =====
-- The order in which `_walk` of src/xal.c visits inodes.
use xallib.Prelude.{
  ℕ, zero, suc, ◌+◌, ◌<◌, ◌≡◌, refl, ◌∙◌, ap, sym, fun_ext, ◌⊎◌, inl, inr, Bool, true, false,
  Option, List, [], ◌∷◌, ◌++◌, if◌then◌else◌, arith,
}
use xallib.Result.{Exec, Result, ok, err, estale, bind_result, ◌>>=◌}
use xallib.Types.{Xal, inode_at, ft_dir, ft_reg_file}
use xallib.Walk.{Walk, children_loop, call_back, inode_is_dir, visit_below, walk_from, walk}

-- The lists of consecutive indices, one after the other.
pub concat_from : {A : Type 0} → (ℕ → List A) → (idx left : ℕ) → List A
concat_from f idx zero = []
concat_from f idx (suc left) = f idx ++ concat_from f (idx + 1) left

-- An inode, then what is below each of its children; each with its depth.
pub preorder : Xal → (fuel inode depth : ℕ) → List (ℕ × ℕ)
preorder xal zero inode depth = []
preorder xal (suc fuel) inode depth =
    let below = λ (child : ℕ). preorder xal fuel child (depth + 1) in
    (inode, depth)
    ∷ (if inode_is_dir (inode_at xal inode)
        then concat_from below (inode_at xal inode).content.idx (inode_at xal inode).content.count
        else [])

-- Below `inode` there are only files and directories, and `fuel` levels at most.
unfoldable pub IsTree : Xal → (fuel inode : ℕ) → Type 0
IsTree xal zero inode = ⊥
IsTree xal (suc fuel) inode =
    ((inode_at xal inode).ftype ≡ ft_reg_file)
    ⊎ ((inode_at xal inode).ftype ≡ ft_dir)
      × ((i : ℕ)
          → i < (inode_at xal inode).content.count
          → IsTree xal fuel ((inode_at xal inode).content.idx + i))

module _ {D : Type 0} (xal : Xal) (cb_func : Option (ℕ → ℕ → Exec (Walk D) (Unit {0}))) where
  -- Each inode of a list in turn: is the tree stale, and if not, the callback. The first failure
  -- ends it.
  unfoldable pub visit_all : List (ℕ × ℕ) → Exec (Walk D) (Unit {0})
  visit_all [] s = (ok tt, s)
  visit_all (p ∷ ps) s =
      if s.dirty then (err estale, s) else (call_back xal cb_func p.0 p.1 >>= λ _. visit_all ps) s

  -- What follows a guarded call can be moved into it.
  guard_bind :
      (b : Bool) (s : Walk D) (r : Result (Unit {0}) × Walk D) (k l : Exec (Walk D) (Unit {0}))
      → (if b then (err estale, s) else bind_result r (λ _ t. bind_result (k t) (λ _. l)))
        ≡ bind_result (if b then (err estale, s) else bind_result r (λ _. k)) (λ _. l)
  guard_bind true s r k l = refl
  guard_bind false s (ok u, t) k l = refl
  guard_bind false s (err e, t) k l = refl

  visit_all-append :
      (ps qs : List (ℕ × ℕ)) (s : Walk D)
      → visit_all (ps ++ qs) s ≡ (visit_all ps >>= λ _. visit_all qs) s
  unfolding visit_all
  visit_all-append [] qs s = refl
  visit_all-append (p ∷ ps) qs s =
      ap
        (λ (k : Exec (Walk D) (Unit {0})).
          if s.dirty then (err estale, s) else (call_back xal cb_func p.0 p.1 >>= λ _. k) s)
        (fun_ext (visit_all-append ps qs))
      ∙ guard_bind s.dirty s (call_back xal cb_func p.0 p.1 s) (visit_all ps) (visit_all qs)

  children_loop-visit_all :
      (visit : ℕ → Exec (Walk D) (Unit {0})) (f : ℕ → List (ℕ × ℕ)) (idx left : ℕ)
      → ((i : ℕ) → i < left → (s : Walk D) → visit (idx + i) s ≡ visit_all (f (idx + i)) s)
      → (s : Walk D) → children_loop visit idx left s ≡ visit_all (concat_from f idx left) s
  unfolding children_loop concat_from visit_all
  children_loop-visit_all visit f idx zero h s = refl
  children_loop-visit_all visit f idx (suc left) h s =
      let first : visit idx s ≡ visit_all (f idx) s =
        ap (λ i. visit i s) (omega arith)
        ∙ h 0 (omega arith) s
        ∙ ap (λ i. visit_all (f i) s) (omega arith) in
      let rest : children_loop visit (idx + 1) left ≡ visit_all (concat_from f (idx + 1) left) =
        fun_ext (
          children_loop-visit_all visit f (idx + 1) left
            (λ i lt t. later i t (h (suc i) (omega arith) t))) in
      ap (λ r. bind_result r (λ _. children_loop visit (idx + 1) left)) first
      ∙ ap (λ k. bind_result (visit_all (f idx) s) (λ _. k)) rest
      ∙ sym (visit_all-append (f idx) (concat_from f (idx + 1) left) s)
    where
      later :
          (i : ℕ) (t : Walk D)
          → visit (idx + suc i) t ≡ visit_all (f (idx + suc i)) t
          → visit (idx + 1 + i) t ≡ visit_all (f (idx + 1 + i)) t
      later i t e = let k : idx + 1 + i ≡ idx + suc i = omega arith in rw k e

  -- Below an inode of a tree, if the walk is right at its children.
  below :
      (fuel inode depth : ℕ)
      → ((child : ℕ)
          → IsTree xal fuel child
          → (s : Walk D)
          → walk_from xal cb_func fuel child (depth + 1) s
            ≡ visit_all (preorder xal fuel child (depth + 1)) s)
      → IsTree xal (suc fuel) inode
      → visit_below xal cb_func (λ child. walk_from xal cb_func fuel child (depth + 1)) inode
        ≡ visit_all (
            if inode_is_dir (inode_at xal inode)
            then concat_from
                (λ child. preorder xal fuel child (depth + 1))
                (inode_at xal inode).content.idx
                (inode_at xal inode).content.count
            else [])
  unfolding visit_all IsTree
  below fuel inode depth h (inl file) = rw file refl
  below fuel inode depth h (inr (dir, t)) = rw dir (
      fun_ext (
        children_loop-visit_all _ _ (inode_at xal inode).content.idx
          (inode_at xal inode).content.count
          (λ i lt. h ((inode_at xal inode).content.idx + i) (t i lt))))

  from :
      (fuel inode depth : ℕ)
      → IsTree xal fuel inode
      → (s : Walk D)
      → walk_from xal cb_func fuel inode depth s ≡ visit_all (preorder xal fuel inode depth) s
  unfolding walk_from preorder visit_all IsTree
  from zero inode depth h s = absurd h
  from (suc fuel) inode depth t s =
      ap
        (λ (k : Exec (Walk D) (Unit {0})).
          if s.dirty then (err estale, s) else (call_back xal cb_func inode depth >>= λ _. k) s)
        (below fuel inode depth (λ child. from fuel child (depth + 1)) t)

  -- A walk from an inode below which there is a tree of files and directories, with fuel for its
  -- levels, visits the inodes in pre-order, each with its depth: before each it looks whether the
  -- index is stale, then it calls back, and the first failure ends it.
  pub walk-preorder :
      (fuel inode : ℕ) (s : Walk D)
      → IsTree xal fuel inode
      → walk xal cb_func fuel inode s ≡ visit_all (preorder xal fuel inode 0) s
  unfolding walk
  walk-preorder fuel inode s h = from fuel inode 0 h s

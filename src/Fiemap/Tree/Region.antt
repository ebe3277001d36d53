-- ===== src/Fiemap/Tree/Region.antt =====
-- The index below an inode, with the part of the pool that it stands in.
use xallib.Prelude.{ℕ, zero, suc, ◌+◌, ◌≤◌, ◌<◌, ◌≡◌, ap, ◌∙◌, ◌⊎◌, inl, inr, List, arith}
use xallib.Types.{Xal, inode_at, ft_dir, ft_reg_file}
use xallib.Fiemap.Search.Named.{IsSorted, IsNamed, IsIndexed, child_at}

-- An index below `inode` whose other inodes stand from `lo` on, before `hi`.
unfoldable pub IsIndexedIn : Xal → (lo hi : ℕ) → (fuel : ℕ) → List ℕ → (inode : ℕ) → Type 0
IsIndexedIn xal lo hi zero path inode = ⊥
IsIndexedIn xal lo hi (suc fuel) path inode =
    ((inode_at xal inode).ftype ≡ ft_reg_file)
    ⊎ ((inode_at xal inode).ftype ≡ ft_dir)
      × IsSorted xal inode
      × ((k : ℕ)
          → k < (inode_at xal inode).content.count
          → (lo ≤ child_at xal inode k)
            × (child_at xal inode k < hi)
            × IsNamed path (inode_at xal (child_at xal inode k))
            × IsIndexedIn xal lo hi fuel (inode_at xal (child_at xal inode k)).name
                (child_at xal inode k))

pub IsIndexedIn-IsIndexed :
    (xal : Xal) (lo hi fuel : ℕ) (path : List ℕ) (inode : ℕ)
    → IsIndexedIn xal lo hi fuel path inode
    → IsIndexed xal fuel path inode
unfolding IsIndexedIn IsIndexed
IsIndexedIn-IsIndexed xal lo hi zero path inode h = h
IsIndexedIn-IsIndexed xal lo hi (suc fuel) path inode (inl file) = inl file
IsIndexedIn-IsIndexed xal lo hi (suc fuel) path inode (inr (dir, sorted, at)) = inr (
  dir,
  sorted,
  λ k bound.
      let (from, upto, named, below) = at k bound in
      (named, IsIndexedIn-IsIndexed xal lo hi fuel _ _ below),
)

pub IsIndexedIn-widen :
    (xal : Xal) (lo hi lo' hi' fuel : ℕ) (path : List ℕ) (inode : ℕ)
    → lo' ≤ lo
    → hi ≤ hi'
    → IsIndexedIn xal lo hi fuel path inode
    → IsIndexedIn xal lo' hi' fuel path inode
unfolding IsIndexedIn
IsIndexedIn-widen xal lo hi lo' hi' zero path inode l u h = h
IsIndexedIn-widen xal lo hi lo' hi' (suc fuel) path inode l u (inl file) = inl file
IsIndexedIn-widen xal lo hi lo' hi' (suc fuel) path inode l u (inr (dir, sorted, at)) = inr (
  dir,
  sorted,
  λ k bound.
      let (from, upto, named, below) = at k bound in
      (
        omega (arith, from),
        omega (arith, upto),
        named,
        IsIndexedIn-widen xal lo hi lo' hi' fuel _ _ l u below,
      ),
)

-- An index does not depend on what stands outside of its part of the pool.
pub IsIndexedIn-agree :
    (x y : Xal) (lo hi fuel : ℕ) (path : List ℕ) (inode : ℕ)
    → inode_at y inode ≡ inode_at x inode
    → ((j : ℕ) → lo ≤ j → j < hi → inode_at y j ≡ inode_at x j)
    → IsIndexedIn x lo hi fuel path inode
    → IsIndexedIn y lo hi fuel path inode
unfolding IsIndexedIn IsSorted
IsIndexedIn-agree x y lo hi zero path inode self others h = h
IsIndexedIn-agree x y lo hi (suc fuel) path inode self others (inl file) =
    inl (ap (λ n. n.ftype) self ∙ file)
IsIndexedIn-agree x y lo hi (suc fuel) path inode self others (inr (dir, sorted, at)) = inr (
  ap (λ n. n.ftype) self ∙ dir,
  λ k l less bound.
      let bound' : l < (inode_at x inode).content.count = omega (arith, same_count, bound) in
      let a = child_same k (omega (arith, less, bound')) in
      let b = child_same l bound' in rw (a, b) (sorted k l less bound'),
  λ k bound.
      let bound' : k < (inode_at x inode).content.count = omega (arith, same_count, bound) in
      let (from, upto, named, below) = at k bound' in
      let c : child_at y inode k ≡ child_at x inode k = ap (λ n. n.content.idx + k) self in
      (
        omega (arith, from, c),
        omega (arith, upto, c),
        rw (child_same k bound') named,
        rw (child_same k bound') (
            rw c (
              IsIndexedIn-agree x y lo hi fuel _ _ (others (child_at x inode k) from upto) others
                below)),
      ),
)
  where
    same_count : (inode_at y inode).content.count ≡ (inode_at x inode).content.count
    same_count = ap (λ n. n.content.count) self

    child_same :
        (k : ℕ)
        → k < (inode_at x inode).content.count
        → inode_at y (child_at y inode k) ≡ inode_at x (child_at x inode k)
    child_same k bound =
        let (from, upto, named, below) = at k bound in
        ap (inode_at y) (ap (λ n. n.content.idx + k) self) ∙ others (child_at x inode k) from upto

-- ===== src/Fiemap/Search/Named.antt =====
-- How the inodes of an index lie below one another and are named, for the lookups by path of
-- src/xal_be_fiemap.c, and what is supposed of bsearch().
use Prim.Native.Nat.{Ordering}
use Prim.Native.Nat.Ordering.{lt, eq, gt}
use xallib.Prelude.{
  ℕ, zero, suc, ◌+◌, ◌<◌, ◌≡◌, ◌≢◌, ◌∙◌, ap, sym, ◌⊎◌, inl, inr, false, Option, none, some,
  Option-cases, List, length, arith,
}
use xallib.Types.{Xal, Inode, inode_at, ft_dir, ft_reg_file}
use xallib.Paths.{strcmp, has_slash, basename, path_of}
use xallib.Paths.Order.{strcmp_refl, less_flips, eq_of_strcmp}
use xallib.Paths.Parts.{basename-path_of}
use xallib.Fiemap.Search.{compare_name_to_inode}

-- What the C standard says of bsearch() on elements `base .. base + count`: what it gives is one of
-- them that compares equal, and it finds one where the smaller ones stand before it and the larger
-- ones behind it.
pub record IsBsearch (bsearch : (ℕ → Ordering) → (base count : ℕ) → Option ℕ) : Type 0 where
  pub member :
      (f : ℕ → Ordering) (base count i : ℕ)
      → bsearch f base count ≡ some i
      → (k : ℕ) × (k < count) × (i ≡ base + k) × (f (base + k) ≡ eq)
  pub finds :
      (f : ℕ → Ordering) (base count k : ℕ)
      → k < count
      → f (base + k) ≡ eq
      → ((l : ℕ) → l < k → f (base + l) ≡ gt)
      → ((l : ℕ) → k < l → l < count → f (base + l) ≡ lt)
      → bsearch f base count ≢ none

trichotomy : (k l : ℕ) → (k < l) ⊎ ((k ≡ l) ⊎ (l < k))
trichotomy k l = ground arith

-- The child of a directory at a place.
abbrev pub child_at : Xal → (inode k : ℕ) → ℕ
child_at xal inode k = (inode_at xal inode).content.idx + k

-- The children of an inode stand in the strict order of their last components.
unfoldable pub IsSorted : Xal → (inode : ℕ) → Type 0
IsSorted xal inode =
    (k l : ℕ)
    → k < l
    → l < (inode_at xal inode).content.count
    → strcmp (basename (inode_at xal (child_at xal inode k)).name)
        (basename (inode_at xal (child_at xal inode l)).name)
      ≡ lt

-- A name for a child: the path of the directory, a `/`, and a component without one.
pub record IsNamed (path : List ℕ) (inode : Inode) : Type 0 where
  pub component : List ℕ
  pub not_empty : 0 < length component
  pub no_slash : has_slash component ≡ false
  pub named : inode.name ≡ path_of path component
  pub has_name : 0 < inode.namelen

-- Below `inode`, which has the path `path`, there are files and sorted directories whose inodes
-- are named by their paths, `fuel` levels at most.
unfoldable pub IsIndexed : Xal → (fuel : ℕ) → List ℕ → (inode : ℕ) → Type 0
IsIndexed xal zero path inode = ⊥
IsIndexed xal (suc fuel) path inode =
    ((inode_at xal inode).ftype ≡ ft_reg_file)
    ⊎ ((inode_at xal inode).ftype ≡ ft_dir)
      × IsSorted xal inode
      × ((k : ℕ)
          → k < (inode_at xal inode).content.count
          → IsNamed path (inode_at xal (child_at xal inode k))
            × IsIndexed xal fuel (inode_at xal (child_at xal inode k)).name (child_at xal inode k))

-- The inodes below a directory.
pub data Below (xal : Xal) : ℕ → ℕ → Type 0 where
  child :
      (inode k : ℕ)
      → (inode_at xal inode).ftype ≡ ft_dir
      → k < (inode_at xal inode).content.count
      → Below xal inode (child_at xal inode k)
  deeper :
      (inode k j : ℕ)
      → (inode_at xal inode).ftype ≡ ft_dir
      → k < (inode_at xal inode).content.count
      → Below xal (child_at xal inode k) j
      → Below xal inode j

pub not_file :
    (xal : Xal) (inode : ℕ)
    → (inode_at xal inode).ftype ≡ ft_reg_file
    → (inode_at xal inode).ftype ≡ ft_dir
    → ⊥
not_file xal inode file dir = omega (arith, file, dir)

pub IsNamed-basename :
    (path : List ℕ) (inode : Inode) (n : IsNamed path inode) → basename inode.name ≡ n.component
IsNamed-basename path inode n = ap basename n.named ∙ basename-path_of path n.component n.no_slash

module _ (xal : Xal) (inode : ℕ) (sorted : IsSorted xal inode) where
  abbrev pub last_of : ℕ → List ℕ
  last_of k = basename (inode_at xal (child_at xal inode k)).name

  apart : (k l : ℕ) → k < l → l < (inode_at xal inode).content.count → last_of k ≢ last_of l
  unfolding IsSorted
  apart k l less bound e =
      let s : strcmp (last_of k) (last_of l) ≡ lt = sorted k l less bound in
      cc (ap (strcmp (last_of k)) e, strcmp_refl (last_of k), s)

  same_place :
      (k l : ℕ)
      → k < (inode_at xal inode).content.count
      → l < (inode_at xal inode).content.count
      → last_of k ≡ last_of l
      → k ≡ l
  same_place k l hk hl e = elim (trichotomy k l) [
    | inl less ↦ absurd (apart k l less hl e)
    | inr (inl same) ↦ same
    | inr (inr more) ↦ absurd (apart l k more hk (sym e))
  ]

  -- In a sorted directory bsearch() finds a child by its component.
  pub bsearch_child :
      (bsearch : (ℕ → Ordering) → (base count : ℕ) → Option ℕ) (b : IsBsearch bsearch) (k : ℕ)
      → k < (inode_at xal inode).content.count
      → bsearch
          (compare_name_to_inode xal (last_of k))
          (inode_at xal inode).content.idx
          (inode_at xal inode).content.count
        ≡ some (child_at xal inode k)
  unfolding compare_name_to_inode IsSorted
  bsearch_child bsearch b k bound =
      elim (Option-cases (
        bsearch (compare_name_to_inode xal (last_of k)) (inode_at xal inode).content.idx
          (inode_at xal inode).content.count)) [
            | inl missed ↦ absurd (
                b.finds _ _ _ k bound (strcmp_refl (last_of k))
                  (λ l less. less_flips _ _ (sorted l k less bound))
                  (λ l more lim. sorted k l more lim) missed)
            | inr (i, e) ↦
                let (l, lim, at, same) = b.member _ _ _ i e in
                e
                ∙ ap some (
                    at
                    ∙ ap (child_at xal inode)
                        (same_place l k lim bound (sym (eq_of_strcmp _ _ same))))
          ]

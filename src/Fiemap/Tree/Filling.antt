-- ===== src/Fiemap/Tree/Filling.antt =====
-- The children that the loop of `process_inode_dir_fiemap` in src/xal_be_fiemap.c has made.
use Prim.Native.Nat.Ordering.{lt}
use mathlib.Core.List.{Mem, mem-cons_of_mem}
use xallib.Prelude.{
  ℕ, ◌+◌, ◌≤◌, ◌<◌, ◌≡◌, ◌≢◌, ap, sym, subst, ◌∙◌, ◌⊎◌, inl, inr, List, ◌∷◌, arith,
}
use xallib.Types.{Xal, inode_at, blank_inode, ft_dir}
use xallib.Paths.{strcmp, basename, path_of}
use xallib.Paths.Parts.{basename-path_of}
use xallib.Pool.Bounds.{IsValid}
use xallib.Fiemap.Search.Named.{IsNamed}
use xallib.Fiemap.Tree.Region.{IsIndexedIn, IsIndexedIn-agree, IsIndexedIn-widen}
use xallib.Fiemap.Tree.Listing.{IsComponent}
use xallib.Fiemap.Tree.Named.{Grown, Named}

-- `k` of the `n` children of `self`, which stand from `base` on, have been made, in order; what is
-- below them stands behind all the children.
pub record Filling (fuel : ℕ) (path : List ℕ) (self base n k : ℕ) (x y : Xal) : Type 0 where
  pub valid : IsValid blank_inode y.inodes
  pub room : base + n ≤ y.inodes.free
  pub others : (j : ℕ) → j < base → j ≢ self → inode_at y j ≡ inode_at x j
  pub same_name : (inode_at y self).name ≡ (inode_at x self).name
  pub same_namelen : (inode_at y self).namelen ≡ (inode_at x self).namelen
  pub is_dir : (inode_at y self).ftype ≡ ft_dir
  pub from : (inode_at y self).content.idx ≡ base
  pub count : (inode_at y self).content.count ≡ k
  pub made :
      (l : ℕ)
      → l < k
      → IsNamed path (inode_at y (base + l))
        × IsIndexedIn y (base + n) y.inodes.free fuel (inode_at y (base + l)).name (base + l)
  pub sorted :
      (l m : ℕ)
      → l < m
      → m < k
      → strcmp (basename (inode_at y (base + l)).name) (basename (inode_at y (base + m)).name) ≡ lt

-- The names that are left come behind those of the children.
abbrev pub Ahead : (base k : ℕ) → List (List ℕ) → Xal → Type 0
Ahead base k names y =
    (l : ℕ)
    → l < k
    → (name : List ℕ) → Mem name names
    → strcmp (basename (inode_at y (base + l)).name) name ≡ lt

below_suc : (l k : ℕ) → l < k + 1 → (l < k) ⊎ (l ≡ k)
below_suc l k h = ground arith

module _ (fuel : ℕ) (path : List ℕ) (self base n k : ℕ) (name : List ℕ) (x y y2 y3 : Xal)
    (low : self < base) (some_left : k < n) (filling : Filling fuel path self base n k x y)
    (named : Named path self base k name y y2)
    (grown : Grown fuel (path_of path name) (base + k) y2 y3) where
  old : (j : ℕ) → j < y.inodes.free → j ≢ self → j ≢ base + k → inode_at y3 j ≡ inode_at y j
  old j below ne ne' =
      grown.others j (omega (arith, below, named.same_free)) ne' ∙ named.others j ne ne'

  old_child : (l : ℕ) → l < k → inode_at y3 (base + l) ≡ inode_at y (base + l)
  old_child l h =
      old (base + l) (omega (arith, h, some_left, filling.room)) (λ e. omega (arith, low, e))
        (λ e. omega (arith, h, e))

  new_child : (inode_at y3 (base + k)).name ≡ path_of path name
  new_child = grown.same_name ∙ named.has_path

  counted :
      inode_at y3 self ≡ record (inode_at y self) { content = record { idx = base; count = k + 1 } }
  counted =
      grown.others self (omega (arith, low, filling.room, named.same_free))
        (λ e. omega (arith, low, e))
      ∙ named.counted

  step_made :
      IsComponent name
      → (l : ℕ) → l < k + 1
      → IsNamed path (inode_at y3 (base + l))
        × IsIndexedIn y3 (base + n) y3.inodes.free fuel (inode_at y3 (base + l)).name (base + l)
  step_made c l h = elim (below_suc l k h) [
    | inl before ↦
        let e = old_child l before in
        let (there, below) = filling.made l before in
        (
          subst (IsNamed path) (sym e) there,
          subst (λ p. IsIndexedIn y3 (base + n) y3.inodes.free fuel p (base + l))
              (sym (ap (λ i. i.name) e))
              (IsIndexedIn-widen y3 (base + n) y.inodes.free (base + n) y3.inodes.free fuel _
                (base + l) (omega arith) (omega (arith, grown.grows, named.same_free))
                (IsIndexedIn-agree y y3 (base + n) y.inodes.free fuel _ (base + l) e
                  (λ j lo hi.
                    old j hi (λ e. omega (arith, low, lo, e))
                      (λ e. omega (arith, some_left, lo, e)))
                  below)),
        )
    | inr last ↦
        subst
          (λ l.
            IsNamed path (inode_at y3 (base + l))
            × IsIndexedIn y3 (base + n) y3.inodes.free fuel (inode_at y3 (base + l)).name
                (base + l))
          (sym last)
          (
            record {
              component = name;
              not_empty = c.not_empty;
              no_slash = c.no_slash;
              named = new_child;
              has_name = omega (arith, grown.same_namelen, named.has_name);
            },
            subst (λ p. IsIndexedIn y3 (base + n) y3.inodes.free fuel p (base + k)) (sym new_child)
                (IsIndexedIn-widen y3 y2.inodes.free y3.inodes.free (base + n) y3.inodes.free fuel _
                  (base + k) (omega (arith, filling.room, named.same_free)) (omega arith)
                  grown.indexed),
          )
  ]

  new_basename : IsComponent name → basename (inode_at y3 (base + k)).name ≡ name
  new_basename c = ap basename new_child ∙ basename-path_of path name c.no_slash

  step_sorted :
      IsComponent name
      → ((l : ℕ) → l < k → strcmp (basename (inode_at y (base + l)).name) name ≡ lt)
      → (l m : ℕ) → l < m
      → m < k + 1
      → strcmp (basename (inode_at y3 (base + l)).name) (basename (inode_at y3 (base + m)).name)
        ≡ lt
  step_sorted c ahead l m less h = elim (below_suc m k h) [
    | inl before ↦
        rw (old_child l (omega (arith, less, before)), old_child m before)
          (filling.sorted l m less before)
    | inr last ↦
        rw (last, new_basename c, old_child l (omega (arith, less, last)))
          (ahead l (omega (arith, less, last)))
  ]

  pub step-Filling :
      IsComponent name
      → ((l : ℕ) → l < k → strcmp (basename (inode_at y (base + l)).name) name ≡ lt)
      → Filling fuel path self base n (k + 1) x y3
  step-Filling c ahead = record {
    valid = grown.valid;
    room = omega (arith, filling.room, grown.grows, named.same_free);
    others = λ j below ne.
        old j (omega (arith, below, filling.room)) ne (λ e. omega (arith, below, e))
        ∙ filling.others j below ne;
    same_name = ap (λ i. i.name) counted ∙ filling.same_name;
    same_namelen = ap (λ i. i.namelen) counted ∙ filling.same_namelen;
    is_dir = ap (λ i. i.ftype) counted ∙ filling.is_dir;
    from = ap (λ i. i.content.idx) counted;
    count = ap (λ i. i.content.count) counted;
    made = step_made c;
    sorted = step_sorted c ahead;
  }

  pub step-Ahead :
      (names : List (List ℕ))
      → IsComponent name
      → ((later : List ℕ) → Mem later names → strcmp name later ≡ lt)
      → Ahead base k (name ∷ names) y
      → Ahead base (k + 1) names y3
  step-Ahead names c behind ahead l h later m = elim (below_suc l k h) [
    | inl before ↦
        subst (λ i. strcmp (basename i.name) later ≡ lt) (sym (old_child l before))
          (ahead l before later (mem-cons_of_mem name m))
    | inr last ↦ rw (last, new_basename c) (behind later m)
  ]

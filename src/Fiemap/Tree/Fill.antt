-- ===== src/Fiemap/Tree/Fill.antt =====
-- The children of a directory in `process_inode_dir_fiemap` of src/xal_be_fiemap.c, all together.
use xallib.Prelude.{
  ℕ, suc, ◌+◌, ◌^◌, ◌≤◌, ◌<◌, ◌≡◌, ap, sym, subst, ◌∙◌, inl, inr, Bool-cases, ltb, ltb_false→le,
  List, length, update_self, update_ne, arith,
}
use xallib.Result.{Exec, ok, Result-cases}
use xallib.Types.{Xal, blank_inode, ft_dir}
use xallib.Word.{add_size, uint32_max}
use xallib.Pool.{Pool, Kernel, claim_inodes, take_free, make_room}
use xallib.Pool.Bounds.{IsValid}
use xallib.Pool.Claims.{Granted}
use xallib.Fiemap.State.{Env, Fiemap, self_at, put_content}
use xallib.Fiemap.Index.{process_entries, fill_dir}
use xallib.Fiemap.Stored.{put_path-xal}
use xallib.Fiemap.Search.Named.{IsSorted}
use xallib.Fiemap.Tree.Region.{IsIndexedIn, IsIndexedIn-widen}
use xallib.Fiemap.Tree.Listing.{IsRising}
use xallib.Fiemap.Tree.Files.{put-IsValid}
use xallib.Fiemap.Tree.Named.{Grown, Grows}
use xallib.Fiemap.Tree.Filling.{Filling}
use xallib.Fiemap.Tree.Entries.{process_entries-Filling}

-- A claim hands out no index that does not fit.
pub claim_inodes_fits :
    (kernel : Kernel) (n : ℕ) (p : Pool _) {idx : ℕ}
    → (claim_inodes blank_inode kernel n p).0 ≡ ok idx
    → (claim_inodes blank_inode kernel n p).1.free < 2 ^ 32
unfolding claim_inodes take_free
claim_inodes_fits kernel n p h = elim (Result-cases (make_room blank_inode kernel n p).0) [
  | inr (c, e) ↦ cc (rw e at h)
  | inl (u, e) ↦
      elim (Bool-cases (ltb uint32_max (add_size (make_room blank_inode kernel n p).1.free n))) [
        | inl big ↦ cc (rw (e, big) at h)
        | inr fits ↦ rw (e, fits) (omega (arith, ltb_false→le _ _ fits))
      ]
]

-- A directory all of whose children have been made.
Filling-IsIndexedIn :
    (fuel : ℕ) (path : List ℕ) (self base n : ℕ) (x y : Xal)
    → Filling fuel path self base n n x y
    → IsIndexedIn y base y.inodes.free (suc fuel) path self
unfolding IsIndexedIn IsSorted
Filling-IsIndexedIn fuel path self base n x y f = inr (
  f.is_dir,
  λ k l less bound. rw f.from (f.sorted k l less (omega (arith, bound, f.count))),
  λ k bound.
      let below : k < n = omega (arith, bound, f.count) in
      let (named, there) = f.made k below in
      rw f.from (
        omega arith,
        omega (arith, f.room, below),
        named,
        IsIndexedIn-widen y (base + n) y.inodes.free base y.inodes.free fuel _ (base + k)
            (omega arith) (omega arith) there,
      ),
)

-- An inode of which only the content and what stands behind the free index is stored.
pub Filling-Grown :
    (fuel : ℕ) (path : List ℕ) (self n m idx : ℕ) (x y z : Xal)
    → self < x.inodes.free
    → Granted blank_inode n x.inodes idx y.inodes
    → Filling fuel path self idx m m y z
    → Grown (suc fuel) path self x z
Filling-Grown fuel path self n m idx x y z low g h =
    let f : Filling fuel path self x.inodes.free m m y z =
      subst (λ b. Filling fuel path self b m m y z) g.index h in
    record {
      valid = f.valid;
      grows = omega (arith, f.room);
      others = λ j below ne. f.others j below ne ∙ g.kept j below;
      same_name = f.same_name ∙ ap (λ i. i.name) (g.kept self low);
      same_namelen = f.same_namelen ∙ ap (λ i. i.namelen) (g.kept self low);
      indexed = Filling-IsIndexedIn fuel path self x.inodes.free m y z f;
    }

module _ (env : Env) where
  pub fill_dir-Filling :
      (process : List ℕ → ℕ → Exec Fiemap (Unit {0})) (fuel : ℕ) (path : List ℕ) (self base : ℕ)
      (names : List (List ℕ)) (s : Fiemap)
      → Grows process fuel
      → IsRising names
      → IsValid blank_inode s.xal.inodes
      → self < base
      → base + length names ≤ s.xal.inodes.free
      → base + length names < 2 ^ 32
      → (self_at s self).ftype ≡ ft_dir
      → (fill_dir env process path self names base s).0 ≡ ok tt
      → Filling fuel path self base
          (length names)
          (length names)
          s.xal
          (fill_dir env process path self names base s).1.xal
  unfolding fill_dir
  fill_dir-Filling process fuel path self base names s grows r v low room few dir h =
      let n = length names in
      let t : Fiemap = (put_content self base 0 s).1 in
      let u : Fiemap = (process_entries env process path self names t).1 in
      let there = update_self s.xal.inodes.memory self _ in
      let start : Filling fuel path self base n 0 s.xal t.xal = record {
        valid = put-IsValid s.xal.inodes self _ v (omega (arith, low, room));
        room = room;
        others = λ j below ne. update_ne s.xal.inodes.memory self j _ (λ e. ne (sym e));
        same_name = ap (λ i. i.name) there;
        same_namelen = ap (λ i. i.namelen) there;
        is_dir = ap (λ i. i.ftype) there ∙ dir;
        from = ap (λ i. i.content.idx) there;
        count = ap (λ i. i.content.count) there;
        made = λ l h. absurd (omega (arith, h));
        sorted = λ l m less h. absurd (omega (arith, h));
      } in
      elim (Result-cases (process_entries env process path self names t).0) [
        | inr (c, e) ↦ cc (rw e at h)
        | inl (w, e) ↦ rw e (
            subst (Filling fuel path self base n n s.xal)
              (sym (put_path-xal env (self_at u self).name self u))
              (process_entries-Filling env process fuel grows path self base n low few 0 names s.xal
                t (omega arith) r (λ l h. absurd (omega (arith, h))) start e))
      ]

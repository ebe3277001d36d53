-- ===== src/Fiemap/Tree/Named.antt =====
-- What a round of the loop of `process_inode_dir_fiemap` in src/xal_be_fiemap.c starts from, and
-- what it stores first.
use xallib.Prelude.{
  ℕ, suc, ◌+◌, ◌%◌, ◌^◌, ◌≤◌, ◌<◌, ◌≡◌, ◌≢◌, refl, ap, sym, ◌∙◌, false, ltb, ltb_false→le, List,
  ◌∷◌, length, length-append, update, update_self, update_ne, arith,
}
use xallib.Result.{Exec, ok}
use xallib.Types.{Xal, Inode, inode_at, blank_inode}
use xallib.Paths.{path_of}
use xallib.Pool.Bounds.{IsValid}
use xallib.Fiemap.State.{Env, Fiemap, self_at}
use xallib.Fiemap.Index.{name_maxlen, name_dentry, count_dentry}
use xallib.Fiemap.Tree.Region.{IsIndexedIn}
use xallib.Fiemap.Tree.Files.{put-IsValid}

-- What processing an inode leaves: below it an index, in inodes that were free.
pub record Grown (fuel : ℕ) (path : List ℕ) (self : ℕ) (x y : Xal) : Type 0 where
  pub valid : IsValid blank_inode y.inodes
  pub grows : x.inodes.free ≤ y.inodes.free
  pub others : (j : ℕ) → j < x.inodes.free → j ≢ self → inode_at y j ≡ inode_at x j
  pub same_name : (inode_at y self).name ≡ (inode_at x self).name
  pub same_namelen : (inode_at y self).namelen ≡ (inode_at x self).namelen
  pub indexed : IsIndexedIn y x.inodes.free y.inodes.free fuel path self

abbrev pub Grows : (process : List ℕ → ℕ → Exec Fiemap (Unit {0})) (fuel : ℕ) → Type 0
Grows process fuel =
    (path : List ℕ) (self : ℕ) (s : Fiemap)
    → IsValid blank_inode s.xal.inodes
    → self < s.xal.inodes.free
    → (process path self s).0 ≡ ok tt
    → Grown fuel path self s.xal (process path self s).1.xal

-- The stores that give the child at `base + k` its name, and count it.
pub record Named (path : List ℕ) (self base k : ℕ) (name : List ℕ) (x y : Xal) : Type 0 where
  pub valid : IsValid blank_inode y.inodes
  pub same_free : y.inodes.free ≡ x.inodes.free
  pub counted :
      inode_at y self ≡ record (inode_at x self) { content = record { idx = base; count = k + 1 } }
  pub has_path : (inode_at y (base + k)).name ≡ path_of path name
  pub has_name : 0 < (inode_at y (base + k)).namelen
  pub others : (j : ℕ) → j ≢ self → j ≢ base + k → inode_at y j ≡ inode_at x j

length-path_of : (path name : List ℕ) → length (path_of path name) ≡ suc (length path + length name)
length-path_of path name = omega (arith, length-append path (b'/' ∷ name))

module _ (env : Env) where
  pub entry-Named :
      (path : List ℕ) (self base k : ℕ) (name : List ℕ) (s : Fiemap)
      → IsValid blank_inode s.xal.inodes
      → self < base
      → base + k < s.xal.inodes.free
      → k + 1 < 2 ^ 32
      → (self_at s self).content.idx ≡ base
      → (self_at s self).content.count ≡ k
      → ltb name_maxlen (length (path_of path name)) ≡ false
      → Named path self base k name s.xal
          (count_dentry env self (name_dentry env (base + k) (path_of path name) self s).1).1.xal
  unfolding name_dentry count_dentry
  entry-Named path self base k name s v low room small at count fits =
      let p = path_of path name in
      let m = s.xal.inodes.memory in
      let child : Inode = record (self_at s (base + k)) {
        name = p;
        namelen = length p % 2 ^ 8;
        parent_idx = self;
      } in
      let m1 = update m (base + k) child in
      let e : m1 self ≡ m self = update_ne m (base + k) self child (λ e. omega (arith, low, e)) in
      let i1 : (m1 self).content.idx ≡ base = ap (λ n. n.content.idx) e ∙ at in
      let c1 : ((m1 self).content.count + 1) % 2 ^ 32 ≡ k + 1 =
        omega (arith, ap (λ n. n.content.count) e, count, small) in
      let inode : Inode = record (m1 self) {
        content = record {
          idx = (m1 self).content.idx;
          count = ((m1 self).content.count + 1) % 2 ^ 32;
        };
      } in
      let counted : inode ≡ record (m self) { content = record { idx = base; count = k + 1 } } =
        λ i. record (e i) { content = record { idx = i1 i; count = c1 i } } in
      let child_there : update m1 self inode (base + k) ≡ child =
        update_ne m1 self (base + k) inode (λ e. omega (arith, low, e))
        ∙ update_self m (base + k) child in
      rw fits (record {
        valid =
            put-IsValid _ self inode (put-IsValid s.xal.inodes (base + k) child v room)
              (omega (arith, low, room));
        same_free = refl;
        counted = update_self m1 self inode ∙ counted;
        has_path = ap (λ n. n.name) child_there;
        has_name = omega (
          arith,
          ap (λ n. n.namelen) child_there,
          ltb_false→le name_maxlen (length p) fits,
          length-path_of path name,
        );
        others = λ j ne ne'.
            update_ne m1 self j inode (λ e. ne (sym e))
            ∙ update_ne m (base + k) j child (λ e. ne' (sym e));
      })

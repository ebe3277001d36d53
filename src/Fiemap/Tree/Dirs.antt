-- ===== src/Fiemap/Tree/Dirs.antt =====
-- `process_inode_dir_fiemap` and `process_ino_fiemap` of src/xal_be_fiemap.c: the index that they
-- leave below an inode.
use xallib.Prelude.{
  ℕ, zero, suc, ◌<◌, ◌≡◌, refl, ap, sym, subst, ◌∙◌, inl, inr, Bool-cases, Option-cases, ◌==◌,
  ==_iff, List, length, update_self, update_ne, arith,
}
use xallib.Result.{Exec, ok, Result-cases, ◌>>=◌}
use xallib.Types.{inode_at, blank_inode, ftype_of_mode, ft_dir, ft_reg_file}
use xallib.Walk.{inode_is_dir}
use xallib.Pool.{claim_inodes}
use xallib.Pool.Bounds.{ChecksMapping, IsValid}
use xallib.Pool.Claims.{claim_inodes-Granted}
use xallib.Fiemap.State.{Env, Fiemap, self_at, put_inode, on_inodes}
use xallib.Fiemap.Watch.{add_watcher}
use xallib.Fiemap.Index.{
  compare_dirent, read_dir, fill_dir, process_inode_dir, process_content, process_ino,
}
use xallib.Fiemap.Keeps.{call_cases}
use xallib.Fiemap.Tree.Region.{IsIndexedIn}
use xallib.Fiemap.Tree.Listing.{IsQsort, IsReaddir, IsRising, length-Perm, read_dir-IsRising}
use xallib.Fiemap.Tree.Files.{put-IsValid, process_inode_file-Edits, add_watcher-xal}
use xallib.Fiemap.Tree.Named.{Grown, Grows}
use xallib.Fiemap.Tree.Fill.{claim_inodes_fits, Filling-Grown, fill_dir-Filling}

module _ (env : Env) (checks : ChecksMapping env.kernel) (readdir : IsReaddir env.opendir)
    (qsort : IsQsort env.qsort) (process : List ℕ → ℕ → Exec Fiemap (Unit {0})) (fuel : ℕ)
    (grows : Grows process fuel) (path : List ℕ) (self : ℕ) where
  -- From the names on.
  claim_and_fill : List (List ℕ) → Exec Fiemap (Unit {0})
  claim_and_fill names = on_inodes (claim_inodes blank_inode env.kernel (length names)) >>= λ idx.
      fill_dir env process path self (env.qsort compare_dirent names) idx

  claim_and_fill-Grown :
      (names : List (List ℕ)) (s : Fiemap)
      → IsRising (env.qsort compare_dirent names)
      → IsValid blank_inode s.xal.inodes
      → self < s.xal.inodes.free
      → (self_at s self).ftype ≡ ft_dir
      → (claim_and_fill names s).0 ≡ ok tt
      → Grown (suc fuel) path self s.xal (claim_and_fill names s).1.xal
  unfolding claim_and_fill
  claim_and_fill-Grown names s r v low dir h =
      let sorted = env.qsort compare_dirent names in
      let claim = claim_inodes blank_inode env.kernel (length names) in
      elim (Result-cases (claim s.xal.inodes).0) [
        | inr (c, e) ↦ cc (rw e at h)
        | inl (idx, e) ↦
            let t : Fiemap = (on_inodes claim s).1 in
            let g =
              claim_inodes-Granted blank_inode env.kernel checks (length names) s.xal.inodes v e in
            let small = claim_inodes_fits env.kernel (length names) s.xal.inodes e in
            let same = length-Perm names sorted (qsort.permutes names) in
            let h' : (fill_dir env process path self sorted idx t).0 ≡ ok tt = rw e at h in
            rw e (
              Filling-Grown fuel path self (length names) (length sorted) idx s.xal t.xal _ low g (
                fill_dir-Filling env process fuel path self idx sorted t grows r g.valid
                  (omega (arith, low, g.index)) (omega (arith, g.index, g.next, same))
                  (omega (arith, g.index, g.next, same, small))
                  (ap (λ i. i.ftype) (g.kept self low) ∙ dir) h'))
      ]

  read_dir_state : (dir : List ℕ) (s : Fiemap) → (read_dir env dir s).1 ≡ s
  unfolding read_dir
  read_dir_state dir s = elim (call_cases (env.opendir dir)) [
    | inl (c, e) ↦ simp (read_dir, e) refl
    | inr (ds, e) ↦ simp (read_dir, e) refl
  ]

  process_inode_dir-Grown :
      (s : Fiemap)
      → IsValid blank_inode s.xal.inodes
      → self < s.xal.inodes.free
      → (process_inode_dir env process path self s).0 ≡ ok tt
      → Grown (suc fuel) path self s.xal (process_inode_dir env process path self s).1.xal
  unfolding process_inode_dir claim_and_fill
  process_inode_dir-Grown s v low h = elim (Bool-cases (inode_is_dir (self_at s self))) [
    | inr other ↦ cc (rw other at h)
    | inl dir ↦ elim (Result-cases (add_watcher env path self s).0) [
      | inr (c, e) ↦ cc (rw (dir, e) at h)
      | inl (u, e) ↦
          let t : Fiemap = (add_watcher env path self s).1 in
          elim (Result-cases (read_dir env path t).0) [
            | inr (c, k) ↦ cc (rw (dir, e, k) at h)
            | inl (names, k) ↦
                let u : Fiemap = (read_dir env path t).1 in
                let same : u.xal ≡ s.xal =
                  ap (λ f. f.xal) (read_dir_state path t) ∙ add_watcher-xal env path self s in
                rw (dir, e, k)
                  (subst (λ x. Grown (suc fuel) path self x (claim_and_fill names u).1.xal) same
                    (claim_and_fill-Grown names u
                      (read_dir-IsRising env path t names readdir qsort k)
                      (subst (λ x. IsValid blank_inode x.inodes) (sym same) v)
                      (subst (λ x. self < x.inodes.free) (sym same) low)
                      (subst (λ x. (inode_at x self).ftype ≡ ft_dir) (sym same)
                        ((==_iff (self_at s self).ftype ft_dir).0 dir))
                      (rw (dir, e, k) at h)))
          ]
    ]
  ]

  process_content-Grown :
      (ftype : ℕ) (s : Fiemap)
      → IsValid blank_inode s.xal.inodes
      → self < s.xal.inodes.free
      → (self_at s self).ftype ≡ ftype
      → (process_content env process ftype path self s).0 ≡ ok tt
      → Grown (suc fuel) path self s.xal (process_content env process ftype path self s).1.xal
  unfolding process_content IsIndexedIn
  process_content-Grown ftype s v low typed h = elim (Bool-cases (ftype == ft_dir)) [
    | inl dir ↦ rw dir (process_inode_dir-Grown s v low (rw dir at h))
    | inr other ↦ elim (Bool-cases (ftype == ft_reg_file)) [
      | inr none_of ↦ cc (rw (other, none_of) at h)
      | inl file ↦
          let e = process_inode_file-Edits env path self s v low in
          rw (other, file)
            (record {
              valid = e.valid;
              grows = omega (arith, e.same_free);
              others = λ j below ne. e.others j ne;
              same_name = e.same_name;
              same_namelen = e.same_namelen;
              indexed = inl (e.same_ftype ∙ typed ∙ (==_iff ftype ft_reg_file).0 file);
            })
    ]
  ]

module _ (env : Env) (checks : ChecksMapping env.kernel) (readdir : IsReaddir env.opendir)
    (qsort : IsQsort env.qsort) where
  pub process_ino-Grown : (fuel : ℕ) → Grows (process_ino env fuel) fuel
  unfolding process_ino
  process_ino-Grown zero path self s v low h = cc h
  process_ino-Grown (suc fuel) path self s v low h = elim (call_cases (env.stat path)) [
    | inl (c, e) ↦ cc (simp (process_ino, e) at h)
    | inr (sb, e) ↦ elim (Option-cases (ftype_of_mode (self_at s self).ftype sb.st_mode)) [
      | inl f ↦ cc (simp (process_ino, e, f) at h)
      | inr (ftype, f) ↦
          let inode = record (self_at s self) {
            ftype = ftype;
            ino = sb.st_ino;
            size = sb.st_size;
          } in
          let t : Fiemap = (put_inode self inode s).1 in
          let there = update_self s.xal.inodes.memory self inode in
          let g =
            process_content-Grown env checks readdir qsort (λ p i. process_ino env fuel p i) fuel
              (process_ino-Grown fuel) path self ftype t (put-IsValid s.xal.inodes self inode v low)
              low (ap (λ i. i.ftype) there) (simp (process_ino, e, f) at h) in
          simp (process_ino, e, f)
            (record {
              valid = g.valid;
              grows = g.grows;
              others = λ j below ne.
                  g.others j below ne
                  ∙ update_ne s.xal.inodes.memory self j inode (λ e. ne (sym e));
              same_name = g.same_name ∙ ap (λ i. i.name) there;
              same_namelen = g.same_namelen ∙ ap (λ i. i.namelen) there;
              indexed = g.indexed;
            })
    ]
  ]

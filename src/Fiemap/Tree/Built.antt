-- ===== src/Fiemap/Tree/Built.antt =====
-- What `xal_be_fiemap_index` of src/xal_be_fiemap.c leaves where it succeeds.
use xallib.Prelude.{
  none, ℕ, ◌<◌, ◌≡◌, refl, ap, sym, subst, ◌∙◌, inl, inr, List-cases, Option-cases, ◌∷◌,
  update_self, arith,
}
use xallib.Result.{ok, Result-cases, ◌>>=◌}
use xallib.Types.{inode_at, blank_inode}
use xallib.Pool.{claim_inodes}
use xallib.Pool.Bounds.{ChecksMapping, IsValid}
use xallib.Pool.Claims.{claim_inodes-Granted}
use xallib.Pool.Lifecycle.{clear_lem}
use xallib.Fiemap.State.{Env, Fiemap, self_at, on_inodes, lock_step, empty_table}
use xallib.Fiemap.Watch.{clear_inode_map, with_inotify}
use xallib.Fiemap.Search.{search_by_traversal}
use xallib.Fiemap.Search.Named.{IsBsearch, Below}
use xallib.Fiemap.Search.Traversal.{search_by_traversal-name}
use xallib.Fiemap.Index.{
  process_ino, with_root, mark_clean, clear_pools, index_root, index_locked, index,
}
use xallib.Fiemap.Frames.{process_ino-Frames}
use xallib.Fiemap.Tree.Region.{
  IsIndexedIn, IsIndexedIn-IsIndexed, IsIndexedIn-agree, IsIndexedIn-widen,
}
use xallib.Fiemap.Tree.Listing.{IsQsort, IsReaddir}
use xallib.Fiemap.Tree.Files.{put-IsValid}
use xallib.Fiemap.Tree.Dirs.{process_ino-Grown}

-- The index of a handle below its mountpoint, in inodes that its pool has handed out.
pub record HasIndex (levels : ℕ) (s : Fiemap) : Type 0 where
  pub valid : IsValid blank_inode s.xal.inodes
  pub no_name : (self_at s s.xal.root_idx).namelen ≡ 0
  pub within : IsIndexedIn s.xal 0 s.xal.inodes.free levels s.mountpoint s.xal.root_idx

-- Only the inodes, the root and the mountpoint matter to an index.
HasIndex-map :
    (levels : ℕ) (s t : Fiemap)
    → t.xal.inodes ≡ s.xal.inodes
    → t.xal.root_idx ≡ s.xal.root_idx
    → t.mountpoint ≡ s.mountpoint
    → HasIndex levels s
    → HasIndex levels t
HasIndex-map levels s t inodes root mountpoint h = record {
  valid = subst (IsValid blank_inode) (sym inodes) h.valid;
  no_name = rw (root, inodes) h.no_name;
  within =
      simp (ap (λ p. p.free) inodes, root, mountpoint)
        (IsIndexedIn-agree s.xal t.xal 0 s.xal.inodes.free levels s.mountpoint s.xal.root_idx
          (ap (λ p. p.memory s.xal.root_idx) inodes) (λ j lo hi. ap (λ p. p.memory j) inodes)
          h.within);
}

module _ (env : Env) (checks : ChecksMapping env.kernel) (readdir : IsReaddir env.opendir)
    (qsort : IsQsort env.qsort) (levels : ℕ) where
  index_root-HasIndex :
      (root : ℕ) (s : Fiemap)
      → IsValid blank_inode s.xal.inodes
      → root < s.xal.inodes.free
      → (index_root env levels root s).0 ≡ ok tt
      → HasIndex levels (index_root env levels root s).1
  unfolding index_root
  index_root-HasIndex root s v low h =
      let t = with_root root s in
      elim (Result-cases (process_ino env levels s.mountpoint root t).0) [
        | inr (c, e) ↦ cc (rw e at h)
        | inl (u, e) ↦
            let done : Fiemap = (process_ino env levels s.mountpoint root t).1 in
            let there = update_self s.xal.inodes.memory root _ in
            let g =
              process_ino-Grown env checks readdir qsort levels s.mountpoint root t
                (put-IsValid s.xal.inodes root _ v low) low e in
            let frames = process_ino-Frames env levels s.mountpoint root t in
            let found : HasIndex levels done = record {
              valid = g.valid;
              no_name = rw frames.same_root (g.same_namelen ∙ ap (λ i. i.namelen) there);
              within =
                  rw (frames.same_root, frames.same_mountpoint)
                    (IsIndexedIn-widen done.xal t.xal.inodes.free done.xal.inodes.free 0
                      done.xal.inodes.free levels s.mountpoint root (omega arith) (omega arith)
                      g.indexed);
            } in
            rw e (HasIndex-map levels done (mark_clean done).1 refl refl refl found)
      ]

  -- From the claim of the root on.
  claim_root-HasIndex :
      (s : Fiemap)
      → IsValid blank_inode s.xal.inodes
      → ((on_inodes (claim_inodes blank_inode env.kernel 1) >>= index_root env levels) s).0 ≡ ok tt
      → HasIndex levels
          ((on_inodes (claim_inodes blank_inode env.kernel 1) >>= index_root env levels) s).1
  claim_root-HasIndex s v h =
      elim (Result-cases (claim_inodes blank_inode env.kernel 1 s.xal.inodes).0) [
        | inr (c, e) ↦ cc (rw e at h)
        | inl (root, e) ↦
            let t : Fiemap = (on_inodes (claim_inodes blank_inode env.kernel 1) s).1 in
            let g = claim_inodes-Granted blank_inode env.kernel checks 1 s.xal.inodes v e in
            rw e (index_root-HasIndex root t g.valid (omega (arith, g.index, g.next)) (rw e at h))
      ]

  -- Clearing the pools leaves them valid also where it fails.
  cleared-IsValid :
      (s : Fiemap)
      → IsValid blank_inode s.xal.inodes
      → IsValid blank_inode (clear_pools env s).xal.inodes
  unfolding clear_pools
  cleared-IsValid s v = elim (clear_lem blank_inode env.kernel checks s.xal.inodes v) [
    | inl (done, fresh, step) ↦ fresh.valid
    | inr (c, e) ↦ subst (λ r. IsValid blank_inode r.1) (sym e) v
  ]

  index_locked-HasIndex :
      (s : Fiemap)
      → IsValid blank_inode s.xal.inodes
      → (index_locked env levels s).0 ≡ ok tt
      → HasIndex levels (index_locked env levels s).1
  unfolding index_locked clear_inode_map
  index_locked-HasIndex s v h =
      let t = clear_pools env s in
      let v' = cleared-IsValid s v in
      elim (Option-cases t.inotify) [
        | inl e ↦
            simp (index_locked, clear_inode_map, e)
              (claim_root-HasIndex (record t { inotify = none }) v'
                (simp (index_locked, clear_inode_map, e) at h))
        | inr (i, e) ↦
            simp (index_locked, clear_inode_map, e)
              (claim_root-HasIndex (with_inotify t (record i { inode_map = empty_table })) v'
                (simp (index_locked, clear_inode_map, e) at h))
      ]

  -- An index that succeeds, with a valid pool of inodes before it, leaves a valid pool, a root
  -- without a name, and below it files and directories whose children stand one behind the other
  -- in the strict order of their names, each named by its path, and each an inode that the pool
  -- has handed out; the fuel bounds the levels. This supposes what POSIX says of readdir(), what
  -- the C standard says of qsort(), and that mprotect() refuses what is not mapped.
  pub index-HasIndex :
      (s : Fiemap)
      → IsValid blank_inode s.xal.inodes
      → (index env levels s).0 ≡ ok tt
      → HasIndex levels (index env levels s).1
  unfolding index
  index-HasIndex s v h = elim (List-cases s.mountpoint) [
    | inl e ↦ cc (simp (index, e) at h)
    | inr (c, m, e) ↦
        let t : Fiemap = record (lock_step s) { mountpoint = c ∷ m } in
        let done : Fiemap = (index_locked env levels t).1 in
        simp (index, e)
          (HasIndex-map levels done (lock_step done) refl refl refl
            (index_locked-HasIndex t v (simp (index, e) at h)))
  ]

  -- After an index that succeeds, with a valid pool of inodes before it, the search by traversal
  -- finds each inode below the root by its path, at any depth. This supposes what POSIX says of
  -- readdir(), what the C standard says of qsort() and bsearch(), and that mprotect() refuses
  -- what is not mapped.
  pub index_finds :
      (s : Fiemap) (j : ℕ)
      → IsBsearch env.bsearch
      → IsValid blank_inode s.xal.inodes
      → (index env levels s).0 ≡ ok tt
      → Below (index env levels s).1.xal (index env levels s).1.xal.root_idx j
      → search_by_traversal env
          (index env levels s).1.xal
          (index env levels s).1.mountpoint
          (index env levels s).1.xal.root_idx
          (inode_at (index env levels s).1.xal j).name
        ≡ ok j
  index_finds s j b v h below =
      let t : Fiemap = (index env levels s).1 in
      let found = index-HasIndex s v h in
      search_by_traversal-name env b t.xal levels t.mountpoint t.xal.root_idx j
        (IsIndexedIn-IsIndexed t.xal 0 t.xal.inodes.free levels t.mountpoint t.xal.root_idx
          found.within)
        below

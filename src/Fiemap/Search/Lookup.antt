-- ===== src/Fiemap/Search/Lookup.antt =====
-- `xal_get_inode` of src/xal_be_fiemap.c after `xal_build_lookup_hashmap`.
use xallib.Prelude.{
  ℕ, ◌≡◌, refl, ◌∙◌, ap, sym, subst, ◌⊎◌, inl, inr, true, none, some, Option-cases, List,
}
use xallib.Result.{ok, err, eio}
use xallib.Types.{fiemap, inode_at}
use xallib.Fiemap.State.{Env, Fiemap, PathTable, empty_table}
use xallib.Fiemap.Search.{build_lookup_hashmap, get_inode}
use xallib.Fiemap.Search.Named.{IsBsearch, IsIndexed, Below}
use xallib.Fiemap.Search.Traversal.{name_injective}
use xallib.Fiemap.Search.Table.{IsTable, with_map, Grows, Refuses}
use xallib.Fiemap.Search.Hashmap.{root-Ends}

module _ (env : Env) (t : IsTable env.kh_put_path) (s : Fiemap) where
  -- What a successful build leaves.
  pub record Built (built : Fiemap) : Type 0 where
    pub same_xal : built.xal ≡ s.xal
    pub finds :
        (j : ℕ) → Below s.xal s.xal.root_idx j → get_inode env built (inode_at s.xal j).name ≡ ok j
    pub only :
        (p : List ℕ) (j : ℕ)
        → get_inode env built p ≡ ok j
        → Below s.xal s.xal.root_idx j × ((inode_at s.xal j).name ≡ p)

  get_inode-some :
      (m : PathTable) (p : List ℕ) (j : ℕ)
      → s.xal.backend ≡ fiemap
      → m p ≡ some j
      → get_inode env (with_map s m) p ≡ ok j
  unfolding get_inode
  get_inode-some m p j be h = simp (get_inode, be, h) refl

  some_of-get_inode :
      (m : PathTable) (p : List ℕ) (j : ℕ)
      → s.xal.backend ≡ fiemap
      → get_inode env (with_map s m) p ≡ ok j
      → m p ≡ some j
  unfolding get_inode
  some_of-get_inode m p j be h = elim (Option-cases (m p)) [
    | inl missed ↦ cc (simp (get_inode, be, missed) at h)
    | inr (i, e) ↦
        let same : ok i ≡ ok j = simp (get_inode, be, e) at h in
        let k : i ≡ j = cc same in e ∙ ap some k
  ]

  with_map-Built :
      (levels : ℕ) (m : PathTable)
      → IsBsearch env.bsearch
      → s.xal.backend ≡ fiemap
      → IsIndexed s.xal levels s.mountpoint s.xal.root_idx
      → Grows s.xal (Below s.xal s.xal.root_idx) empty_table m
      → Built (with_map s m)
  with_map-Built levels m b be h g = record { same_xal = refl; finds = finds; only = only }
    where
      only :
          (p : List ℕ) (j : ℕ)
          → get_inode env (with_map s m) p ≡ ok j
          → Below s.xal s.xal.root_idx j × ((inode_at s.xal j).name ≡ p)
      only p j e = elim (g.sound p j (some_of-get_inode m p j be e)) [
        | inl before ↦ cc before
        | inr found ↦ found
      ]

      finds :
          (j : ℕ)
          → Below s.xal s.xal.root_idx j
          → get_inode env (with_map s m) (inode_at s.xal j).name ≡ ok j
      finds j d =
          let (i, e) = g.covers j d in
          let there = only _ i (get_inode-some m _ i be e) in
          get_inode-some m _ j be (
            e
            ∙ ap some (
                name_injective env b s.xal levels s.mountpoint s.xal.root_idx i j h there.0 d
                  there.1))

  -- Where the mountpoint is the root of an index of files and sorted directories whose inodes are
  -- named by their paths, with fuel for its levels and a root without a name, and memory for the
  -- table can be had, building the table either fails with -EIO, since a put into it fails, and
  -- leaves no table, or succeeds; then xal_get_inode gives for the path of each inode below the
  -- root that inode, and only that, and refuses every other path. The index itself does not
  -- change. This supposes what the C standard says of bsearch() and what khash promises of a put.
  pub build_lookup_hashmap-Built :
      (levels : ℕ)
      → IsBsearch env.bsearch
      → s.xal.backend ≡ fiemap
      → env.kh_init ≡ true
      → IsIndexed s.xal levels s.mountpoint s.xal.root_idx
      → (inode_at s.xal s.xal.root_idx).namelen ≡ 0
      → (Refuses env
          × ((build_lookup_hashmap env levels s).0 ≡ err eio)
          × ((build_lookup_hashmap env levels s).1.path_inode_map ≡ none))
        ⊎ (((build_lookup_hashmap env levels s).0 ≡ ok tt)
            × Built (build_lookup_hashmap env levels s).1)
  unfolding build_lookup_hashmap get_inode
  build_lookup_hashmap-Built levels b be init h n =
      elim (root-Ends env t s levels s.mountpoint s.xal.root_idx h n empty_table) [
        | inl (missed, m, e) ↦ inl (
          missed,
          simp (build_lookup_hashmap, be, init, e) refl,
          simp (build_lookup_hashmap, be, init, e) refl,
        )
        | inr (m, e, g) ↦
            let built : build_lookup_hashmap env levels s ≡ (ok tt, with_map s m) =
              simp (build_lookup_hashmap, be, init, e) refl in
            inr (
              ap (λ r. r.0) built,
              subst (λ r. Built r.1) (sym built) (with_map-Built levels m b be h g),
            )
      ]

-- ===== src/Fiemap/Empty.antt =====
-- `xal_be_fiemap_open` and `xal_be_fiemap_index` of src/xal_be_fiemap.c on a mountpoint without
-- entries.
use xallib.Prelude.{
  ℕ, ◌≡◌, refl, ◌∙◌, ap, sym, Bool, Bool-cases, Option, none, some, inl, inr, Option-cases,
  List-cases, ◌+◌, List, ◌∷◌, length, ltb, ◌==◌, arith,
}
use xallib.Result.{ok, err, einval, Result-cases}
use xallib.Word.{mul_size}
use xallib.Pool.{Kernel, Pool, grow, map_private, map_pool, make_room, claim_inodes, clear}
use xallib.Types.{Inode, blank_inode, blank_extent}
use xallib.Handle.{
  extent_nbytes, suffix_extents, shm_with, suffix_inodes, inode_nbytes, pool_reserved,
}
use xallib.Fiemap.State.{Env, Fiemap, Inotify, on_inodes, on_extents, lock_step}
use xallib.Fiemap.Watch.{clear_inode_map}
use xallib.Fiemap.Index.{index, index_locked, clear_pools}
use xallib.Fiemap.Keeps.{call_cases}
use xallib.Fiemap.Open.{
  Opts, candidate, fiemap_sb, retrieve_total_entries, open_inotify, open_path_map, open_pools,
  open_tree, open_fiemap,
}

module _ {E : Type 0} (blank : E) (kernel : Kernel) where
  grow-growby : (n : ℕ) (p : Pool E) → (grow blank kernel n p).1.growby ≡ p.growby
  unfolding grow
  grow-growby n p = ground arith

  map_pool-growby :
      (reserved n element_size : ℕ) (p : Pool E)
      → (map_pool blank kernel reserved n element_size none p).0 ≡ ok tt
      → (map_pool blank kernel reserved n element_size none p).1.growby ≡ n
  unfolding map_pool map_private
  map_pool-growby reserved n element_size p e = elim (Bool-cases (p.reserved == 0)) [
    | inr old ↦ cc (rw old at e)
    | inl new ↦ elim (Bool-cases (ltb reserved n)) [
      | inl big ↦ cc (rw (new, big) at e)
      | inr fits ↦ elim (Option-cases (kernel.mmap_private (mul_size reserved element_size))) [
        | inr (c, m) ↦ cc (rw (new, fits, m) at e)
        | inl m ↦ rw (new, fits, m) (grow-growby n _)
      ]
    ]
  ]

  clear-growby : (p : Pool E) → (clear blank kernel p).1.growby ≡ p.growby
  unfolding clear
  clear-growby p = ground arith

module _ (env : Env) where
  claim-refused :
      (p : Pool Inode) → p.growby ≡ 0 → claim_inodes blank_inode env.kernel 1 p ≡ (err einval, p)
  unfolding claim_inodes make_room
  claim-refused p e = rw e refl

  open_path_map-inodes :
      (b : Bool) (s : Fiemap) → (open_path_map env b s).1.xal.inodes ≡ s.xal.inodes
  unfolding open_path_map
  open_path_map-inodes b s = ground arith

  open_pools-growby :
      (opts : Opts) (n : ℕ) (s : Fiemap)
      → opts.shm_name ≡ none
      → (open_pools env opts n s).0 ≡ ok tt
      → (open_pools env opts n s).1.xal.inodes.growby ≡ n
  unfolding open_pools
  open_pools-growby opts n s none_given e =
      let name = shm_with suffix_inodes opts.shm_name in
      let mapped = map_pool blank_inode env.kernel pool_reserved n inode_nbytes name s.xal.inodes in
      let private : name ≡ none = simp none_given refl in
      elim (Result-cases mapped.0) [
        | inr (c, k) ↦ cc (rw k at e)
        | inl (u, k) ↦
            let f = rw k at e in
            let grows =
              map_pool-growby blank_inode env.kernel pool_reserved n inode_nbytes s.xal.inodes
                (simp private at k) in
            let t : Fiemap =
              (on_extents
                (map_pool blank_extent env.kernel pool_reserved n extent_nbytes
                  (shm_with suffix_extents opts.shm_name))
                (on_inodes (map_pool blank_inode env.kernel pool_reserved n inode_nbytes name)
                  s).1).1 in
            elim (Result-cases
              (map_pool blank_extent env.kernel pool_reserved n extent_nbytes
                (shm_with suffix_extents opts.shm_name) s.xal.extents).0) [
                  | inr (c, l) ↦ cc (rw l at f)
                  | inl (v, l) ↦
                      rw (k, l)
                        (ap (λ p. p.growby) (open_path_map-inodes opts.is_hashmap t)
                          ∙ simp private grows)
                ]
      ]

  index_locked-einval :
      (fuel : ℕ) (s : Fiemap) → s.xal.inodes.growby ≡ 0 → (index_locked env fuel s).0 ≡ err einval
  unfolding index_locked clear_pools clear_inode_map
  index_locked-einval fuel s e =
      let cleared : Pool Inode = (clear blank_inode env.kernel s.xal.inodes).1 in
      let refused : (claim_inodes blank_inode env.kernel 1 cleared).0 ≡ err einval =
        ap (λ r. r.0)
          (claim-refused cleared (clear-growby blank_inode env.kernel s.xal.inodes ∙ e)) in
      elim (Option-cases s.inotify) [
        | inl i ↦ simp (index_locked, clear_pools, clear_inode_map, i, refused) refl
        | inr (w, i) ↦ simp (index_locked, clear_pools, clear_inode_map, i, refused) refl
      ]

  index-einval :
      (fuel : ℕ) (s : Fiemap) → s.xal.inodes.growby ≡ 0 → (index env fuel s).0 ≡ err einval
  unfolding index
  index-einval fuel s e = elim (List-cases s.mountpoint) [
    | inl none_given ↦ simp (index, none_given) refl
    | inr (c, m, some_given) ↦
        simp (index, some_given)
          (index_locked-einval fuel (record (lock_step s) { mountpoint = c ∷ m }) e)
  ]

  open_tree-growby :
      (fuel n : ℕ) (mountpoint : List ℕ) (opts : Opts) (inotify : Option Inotify) (s : Fiemap)
      → opts.shm_name ≡ none
      → retrieve_total_entries env fuel mountpoint ≡ ok n
      → open_tree env fuel mountpoint opts inotify ≡ ok s
      → s.xal.inodes.growby ≡ n
  unfolding open_tree
  open_tree-growby fuel n mountpoint opts inotify s none_given total e =
      let f = simp (open_tree, total) at e in
      elim (call_cases (env.stat mountpoint)) [
        | inl (c, k) ↦ cc (simp k at f)
        | inr (sb, k) ↦
            let start = candidate mountpoint (fiemap_sb sb.st_blksize sb.st_ino) inotify in
            let g = simp (k, none_given) at f in
            elim (Result-cases (open_pools env opts n start).0) [
              | inr (c, l) ↦ cc (simp l at g)
              | inl (u, l) ↦
                  let same : ok (open_pools env opts n start).1 ≡ ok s = simp l at g in
                  let h : (open_pools env opts n start).1 ≡ s = cc same in
                  ap (λ t. t.xal.inodes.growby) (sym h)
                  ∙ open_pools-growby opts n start none_given l
            ]
      ]

  -- A handle that was opened without shared memory on a mountpoint without entries cannot be
  -- indexed: xal_index returns -EINVAL, since its pools grow by no element.
  pub open_fiemap-empty :
      (fuel levels : ℕ) (mountpoint : List ℕ) (opts : Opts) (s : Fiemap)
      → opts.shm_name ≡ none
      → retrieve_total_entries env levels mountpoint ≡ ok 0
      → open_fiemap env levels (some mountpoint) opts ≡ ok s
      → (index env fuel s).0 ≡ err einval
  unfolding open_fiemap
  open_fiemap-empty fuel levels mountpoint opts s none_given total e =
      elim (Option-cases env.calloc_xal) [
        | inr (c, k) ↦ cc (simp (open_fiemap, k) at e)
        | inl k ↦ elim (Option-cases (env.calloc_mountpoint (length mountpoint + 1))) [
          | inr (c, l) ↦ cc (simp (open_fiemap, k, l) at e)
          | inl l ↦ elim (Result-cases (open_inotify env opts.watch_mode)) [
            | inr (c, m) ↦ cc (simp (open_fiemap, k, l, m) at e)
            | inl (inotify, m) ↦ index-einval fuel s (
                open_tree-growby levels 0 mountpoint opts inotify s none_given total
                  (simp (open_fiemap, k, l, m) at e))
          ]
        ]
      ]

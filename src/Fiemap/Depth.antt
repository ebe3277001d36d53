-- ===== src/Fiemap/Depth.antt =====
-- The recursion of `process_ino_fiemap` in src/xal_be_fiemap.c over a directory tree ends.
use xallib.Prelude.{
  ℕ, zero, suc, ◌+◌, ◌≡◌, ◌≢◌, ◌∙◌, ap, subst, Bool-cases, inl, inr, none, Option-cases, List, [],
  ◌∷◌, All, length, ◌==◌, List-cases,
}
use xallib.Result.{Exec, ok, err, stuck, Result-cases, ◌>>=◌}
use xallib.Pool.{claim_inodes}
use xallib.Pool.Bounds.{ChecksMapping}
use xallib.Pool.Claims.{claim_inodes-ne-stuck}
use xallib.Types.{ftype_of_mode, ft_dir, ft_reg_file, blank_inode}
use xallib.Walk.{inode_is_dir}
use xallib.Paths.{path_of}
use xallib.Fiemap.State.{
  Env, Fiemap, empty_table, self_at, put_inode, put_content, on_inodes, lock_step,
}
use xallib.Fiemap.Watch.{add_watcher, clear_inode_map, with_inotify}
use xallib.Fiemap.Search.{put_path}
use xallib.Fiemap.Index.{
  stat_error, compare_dirent, read_dir, name_dentry, count_dentry, process_entry, process_entries,
  fill_dir, process_inode_dir, process_content, process_ino, with_root, mark_clean, clear_pools,
  index_root, index_locked, index,
}
use xallib.Fiemap.Keeps.{call_cases}
use xallib.Fiemap.Ends.{
  Ends, bind-Ends, put_path-Ends, process_inode_file-Ends, add_watcher-Ends, read_dir-Ends,
  name_dentry-Ends,
}

-- A path below which directories are nested less than `levels` deep, as `readdir` and the sorting
-- of its names give them.
unfoldable pub IsShallow : Env → (levels : ℕ) → (path : List ℕ) → Type 0
IsShallow env zero path = ⊥
IsShallow env (suc levels) path =
    (s : Fiemap) (names : List (List ℕ))
    → (read_dir env path s).0 ≡ ok names
    → All (λ name. IsShallow env levels (path_of path name)) (env.qsort compare_dirent names)

All-map :
    (P Q : List ℕ → Type 0)
    → ((name : List ℕ) → P name → Q name)
    → (names : List (List ℕ)) → All P names
    → All Q names
All-map P Q f [] h = tt
All-map P Q f (name ∷ names) (h, hs) = (f name h, All-map P Q f names hs)

module _ (env : Env) (checks : ChecksMapping env.kernel) where
  process_entry-Ends :
      (process : List ℕ → ℕ → Exec Fiemap (Unit {0})) (path : List ℕ) (inode : ℕ) (name : List ℕ)
      → ((i : ℕ) → Ends (process (path_of path name) i))
      → Ends (process_entry env process path inode name)
  unfolding process_entry count_dentry
  process_entry-Ends process path inode name h s =
      let dentry = (self_at s inode).content.idx + (self_at s inode).content.count in
      let p = path_of path name in
      bind-Ends (name_dentry env dentry p inode)
        (λ _. count_dentry env inode >>= λ _. process p dentry) s
        (name_dentry-Ends env checks dentry p inode s)
        (λ _ t same. h dentry (count_dentry env inode t).1)

  process_entries-Ends :
      (process : List ℕ → ℕ → Exec Fiemap (Unit {0})) (path : List ℕ) (inode : ℕ)
      (names : List (List ℕ))
      → All (λ name. (i : ℕ) → Ends (process (path_of path name) i)) names
      → Ends (process_entries env process path inode names)
  unfolding process_entries
  process_entries-Ends process path inode [] h s k = cc k
  process_entries-Ends process path inode (name ∷ names) (h, hs) s k =
      bind-Ends (process_entry env process path inode name)
        (λ _. process_entries env process path inode names) s
        (process_entry-Ends process path inode name h s)
        (λ _ t same. process_entries-Ends process path inode names hs t) k

  fill_dir-Ends :
      (process : List ℕ → ℕ → Exec Fiemap (Unit {0})) (path : List ℕ) (inode : ℕ)
      (names : List (List ℕ)) (inodes_idx : ℕ)
      → All (λ name. (i : ℕ) → Ends (process (path_of path name) i)) names
      → Ends (fill_dir env process path inode names inodes_idx)
  unfolding fill_dir
  fill_dir-Ends process path inode names inodes_idx h s =
      bind-Ends (process_entries env process path inode names)
        (λ _ t. put_path env (self_at t inode).name inode t) (put_content inode inodes_idx 0 s).1
        (process_entries-Ends process path inode names h (put_content inode inodes_idx 0 s).1)
        (λ _ t same. put_path-Ends env checks (self_at t inode).name inode t)

  process_inode_dir-Ends :
      (process : List ℕ → ℕ → Exec Fiemap (Unit {0})) (path : List ℕ) (inode : ℕ)
      → ((s : Fiemap) (names : List (List ℕ))
          → (read_dir env path s).0 ≡ ok names
          → All
              (λ name. (i : ℕ) → Ends (process (path_of path name) i))
              (env.qsort compare_dirent names))
      → Ends (process_inode_dir env process path inode)
  unfolding process_inode_dir
  process_inode_dir-Ends process path inode h s k =
      let fill = λ (es : List (List ℕ)) (i : ℕ).
        fill_dir env process path inode (env.qsort compare_dirent es) i in
      let claim =
        λ (es : List (List ℕ)). on_inodes (claim_inodes blank_inode env.kernel (length es)) in
      elim (Bool-cases (inode_is_dir (self_at s inode))) [
        | inr other ↦ cc (rw other at k)
        | inl dir ↦
            bind-Ends (add_watcher env path inode)
              (λ _. read_dir env path >>= λ es. claim es >>= fill es) s
              (add_watcher-Ends env checks path inode s)
              (λ _ t added.
                bind-Ends (read_dir env path) (λ es. claim es >>= fill es) t
                  (read_dir-Ends env checks path t)
                  (λ es u read.
                    bind-Ends (claim es) (fill es) u
                      (claim_inodes-ne-stuck blank_inode env.kernel checks (length es) u.xal.inodes)
                      (λ i v claimed. fill_dir-Ends process path inode _ i (h t es read) v)))
              (rw dir at k)
      ]

  process_ino-Ends :
      (levels : ℕ) (path : List ℕ) (self : ℕ)
      → IsShallow env levels path
      → Ends (process_ino env levels path self)
  unfolding process_ino process_content IsShallow
  process_ino-Ends zero path self h s k = absurd h
  process_ino-Ends (suc levels) path self h s k = elim (call_cases (env.stat path)) [
    | inl (c, e) ↦ elim (Bool-cases (c == 2)) [
      | inl gone ↦ cc (simp (process_ino, stat_error, e, gone) at k)
      | inr other ↦ cc (simp (process_ino, stat_error, e, other) at k)
    ]
    | inr (sb, e) ↦ elim (Option-cases (ftype_of_mode (self_at s self).ftype sb.st_mode)) [
      | inl f ↦ cc (simp (process_ino, e, f) at k)
      | inr (ftype, f) ↦
          let deeper = λ (p : List ℕ) (i : ℕ). process_ino env levels p i in
          let typed =
            (put_inode self
              (record (self_at s self) { ftype = ftype; ino = sb.st_ino; size = sb.st_size })
              s).1 in
          let k' = simp (process_ino, e, f) at k in
          elim (Bool-cases (ftype == ft_dir)) [
            | inl dir ↦
                process_inode_dir-Ends deeper path self
                  (λ t names read.
                    All-map _ _
                      (λ name shallow i. process_ino-Ends levels (path_of path name) i shallow)
                      (env.qsort compare_dirent names) (h t names read))
                  typed (rw dir at k')
            | inr other ↦ elim (Bool-cases (ftype == ft_reg_file)) [
              | inl file ↦
                  process_inode_file-Ends env checks path self typed (rw (other, file) at k')
              | inr none_of ↦ cc (rw (other, none_of) at k')
            ]
          ]
    ]
  ]

  index_root-Ends :
      (levels root : ℕ) (s : Fiemap)
      → IsShallow env levels s.mountpoint
      → (index_root env levels root s).0 ≢ err stuck
  unfolding index_root
  index_root-Ends levels root s h =
      bind-Ends (process_ino env levels s.mountpoint root) (λ _. mark_clean) (with_root root s)
        (process_ino-Ends levels s.mountpoint root h (with_root root s)) (λ _ t same k. cc k)

  -- What follows the clearing of the map of watch descriptors.
  claim_root-Ends :
      (levels : ℕ) (s : Fiemap)
      → IsShallow env levels s.mountpoint
      → ((on_inodes (claim_inodes blank_inode env.kernel 1) >>= index_root env levels) s).0
        ≢ err stuck
  claim_root-Ends levels s h k =
      elim (Result-cases (claim_inodes blank_inode env.kernel 1 s.xal.inodes).0) [
        | inr (c, e) ↦
            let same : err c ≡ err stuck = rw e at k in
            let f : c ≡ stuck = cc same in
            claim_inodes-ne-stuck blank_inode env.kernel checks 1 s.xal.inodes (e ∙ ap err f)
        | inl (root, e) ↦
            let claimed = (on_inodes (claim_inodes blank_inode env.kernel 1) s).1 in
            index_root-Ends levels root claimed h (rw e at k)
      ]

  index_locked-Ends :
      (levels : ℕ) (s : Fiemap)
      → IsShallow env levels s.mountpoint
      → (index_locked env levels s).0 ≢ err stuck
  unfolding index_locked clear_pools clear_inode_map
  index_locked-Ends levels s h k =
      let t = clear_pools env s in
      elim (Option-cases s.inotify) [
        | inl e ↦
            claim_root-Ends levels (record t { inotify = none }) h
              (simp (index_locked, clear_pools, clear_inode_map, e) at k)
        | inr (i, e) ↦
            claim_root-Ends levels (with_inotify t (record i { inode_map = empty_table })) h
              (simp (index_locked, clear_pools, clear_inode_map, e) at k)
      ]

  -- An index of a mounted file system ends, with fuel for the depth to which readdir() finds
  -- directories nested below the mountpoint. This supposes that mprotect() refuses what is not
  -- mapped.
  pub index-ne-stuck :
      (levels : ℕ) (s : Fiemap)
      → IsShallow env levels s.mountpoint
      → (index env levels s).0 ≢ err stuck
  unfolding index
  index-ne-stuck levels s h k = elim (List-cases s.mountpoint) [
    | inl e ↦ cc (simp (index, e) at k)
    | inr (c, m, e) ↦
        index_locked-Ends levels (record (lock_step s) { mountpoint = c ∷ m })
          (subst (IsShallow env levels) e h) (simp (index, e) at k)
  ]
